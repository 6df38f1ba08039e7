-- ===== src/Money.antt =====
-- internal/money/money.go: integer rupiah in an int64, with checked arithmetic. An `Amount` is
-- the integer that the 64-bit pattern stands for; Go's own operators wrap around, `wrap`.
pub mod Checked
use uruni.Base.{
  ℕ, suc, ◌+◌, ◌-◌, ◌*◌, ◌/◌, ◌%◌, ◌^◌, Bool, true, false, ◌&&◌, ◌||◌, not, Option, none, some, ltb,
  if◌then◌else◌,
}
use uruni.Base.Int.{ℤ, pos, negsuc, pos_part, neg_part, sub_ℕ, ◌+ℤ◌, ◌-ℤ◌, ◌*ℤ◌, ◌≤ℤ◌, ltb_ℤ, ◌==ℤ◌}

abbrev pub Amount : Type 0
Amount = ℤ

abbrev pub two63 : ℕ
two63 = 2 ^ 63

abbrev pub two64 : ℕ
two64 = 2 ^ 64

-- The smallest int64, -2^63.
abbrev pub min_int64 : ℤ
min_int64 = negsuc (2 ^ 63 - 1)

abbrev pub max_int64 : ℤ
max_int64 = pos (2 ^ 63 - 1)

-- The values of an int64.
abbrev pub IsInt64 : ℤ → Type 0
IsInt64 a = (min_int64 ≤ℤ a) × (a ≤ℤ max_int64)

-- The 64 bits of an integer, as a number below 2^64.
abbrev pub bits64 : ℤ → ℕ
bits64 (pos n) = n % two64
bits64 (negsuc n) = two64 - 1 - n % two64

-- What an int64 operation leaves of its true result.
unfoldable pub wrap : ℤ → ℤ
wrap a = if ltb (bits64 a) two63 then pos (bits64 a) else negsuc (two64 - 1 - bits64 a)

abbrev pub max_amount : Amount
max_amount = pos 999999999999

-- `Amount.Add`; `none` is ErrOverflow.
unfoldable pub add : Amount → Amount → Option Amount
add a b =
    let sum = wrap (a +ℤ b) in
    if (ltb_ℤ (pos 0) b && ltb_ℤ sum a) || (ltb_ℤ b (pos 0) && ltb_ℤ a sum) then none else some sum

-- `Amount.Sub`
unfoldable pub sub : Amount → Amount → Option Amount
sub a b =
    let diff = wrap (a -ℤ b) in
    if (ltb_ℤ b (pos 0) && ltb_ℤ diff a) || (ltb_ℤ (pos 0) b && ltb_ℤ a diff)
    then none
    else some diff

-- Go's `/` on int64: truncated towards zero, and MinInt64 / -1 wraps.
unfoldable pub quot : ℤ → ℤ → ℤ
quot (pos x) (pos y) = wrap (pos (x / y))
quot (pos x) (negsuc y) = wrap (sub_ℕ 0 (x / suc y))
quot (negsuc x) (pos y) = wrap (sub_ℕ 0 (suc x / y))
quot (negsuc x) (negsuc y) = wrap (pos (suc x / suc y))

-- `Amount.Mul`
unfoldable pub mul : Amount → ℤ → Option Amount
mul a n =
    let product = wrap (a *ℤ n) in
    if (a ==ℤ pos 0) || (n ==ℤ pos 0)
    then some (pos 0)
    else (if not (quot product n ==ℤ a) || ((a ==ℤ min_int64) && (n ==ℤ negsuc 0))
        then none
        else some product)

-- `Amount.AboveCeiling`
abbrev pub above_ceiling : Amount → Bool
above_ceiling a = ltb_ℤ max_amount a
