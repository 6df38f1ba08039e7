-- ===== src/Store/Sums.antt =====
-- SQLite's SUM over integers, and the exact sum that it agrees with as long as it does not
-- overflow.
use uruni.Base.{
  ap, sym, ◌∙◌, ℕ, ◌+◌, ◌*◌, ◌≤◌, ◌≡◌, Bool, true, ◌&&◌, List, [], ◌∷◌, ◌++◌, arith, length, All,
  if◌then◌else◌,
}
use uruni.Base.Int.{ℤ, pos, pos_part, neg_part, ◌+ℤ◌, leb_ℤ, int_laws, +ℤ_assoc, +ℤ-zero}
use uruni.Errors.{Result, ok, err, integer_overflow}
use uruni.Money.{min_int64, max_int64}

-- The exact sum.
abbrev pub sum : List ℤ → ℤ
sum [] = pos 0
sum (x ∷ xs) = x +ℤ sum xs

abbrev pub fits_int64 : ℤ → Bool
fits_int64 a = leb_ℤ min_int64 a && leb_ℤ a max_int64

-- COALESCE(SUM(x), 0) over the values in the order of the scan: an int64 accumulator whose
-- overflow is an error.
unfoldable pub sql_sum : ℤ → List ℤ → Result ℤ
sql_sum acc [] = ok acc
sql_sum acc (x ∷ xs) =
    let rest = sql_sum (acc +ℤ x) xs in if fits_int64 (acc +ℤ x) then rest else err integer_overflow

-- When SUM answers, it answers with the exact sum.
pub sql_sum-sum : (acc : ℤ) (xs : List ℤ) (v : ℤ) → sql_sum acc xs ≡ ok v → v ≡ acc +ℤ sum xs
unfolding sql_sum
sql_sum-sum acc [] v h = ground (arith, +ℤ-zero acc)
sql_sum-sum acc (x ∷ xs) v h = ground (arith, sql_sum-sum (acc +ℤ x) xs v, +ℤ_assoc acc x (sum xs))

-- The distance of an integer from 0.
abbrev pub magnitude : ℤ → ℕ
magnitude a = pos_part a + neg_part a

step_fits :
    (acc x : ℤ) (limit rest : ℕ)
    → magnitude x ≤ limit
    → magnitude acc + (limit + rest) ≤ 9223372036854775807
    → (fits_int64 (acc +ℤ x) ≡ true) × (magnitude (acc +ℤ x) + rest ≤ 9223372036854775807)
unfolding ◌+ℤ◌
step_fits acc x limit rest h k = ground arith

-- As long as the accumulator and the values still to come stay below 2^63 in total size, SUM
-- answers.
pub sql_sum_bounded :
    (limit : ℕ) (acc : ℤ) (xs : List ℤ)
    → All (λ x. magnitude x ≤ limit) xs
    → magnitude acc + length xs * limit ≤ 9223372036854775807
    → sql_sum acc xs ≡ ok (acc +ℤ sum xs)
unfolding sql_sum
sql_sum_bounded limit acc [] h fits = ap ok (sym (+ℤ-zero acc))
sql_sum_bounded limit acc (x ∷ xs) (hx, hxs) fits =
    let (inside, left) = step_fits acc x limit (length xs * limit) hx (omega arith) in
    rw inside (sql_sum_bounded limit (acc +ℤ x) xs hxs left ∙ ap ok (+ℤ_assoc acc x (sum xs)))

pub sum-append : (xs ys : List ℤ) → sum (xs ++ ys) ≡ sum xs +ℤ sum ys
sum-append [] ys = omega int_laws
sum-append (x ∷ xs) ys = rw (sum-append xs ys) (sym (+ℤ_assoc x (sum xs) (sum ys)))
