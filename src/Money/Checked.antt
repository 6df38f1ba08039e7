-- ===== src/Money/Checked.antt =====
-- internal/money/money.go: the checked operations are exact.
use uruni.Base.{
  false, Bool-cases, ◌&&◌, ◌||◌, true, ◌∙◌, ap, ℕ, zero, suc, ◌+◌, ◌*◌, ◌/◌, ◌≤◌, ◌<◌, ◌≢◌, refl,
  ◌≡◌, ◌⊎◌, inl, inr, none, some, arith,
}
use uruni.Base.Int.{leb_ℤ, ◌==ℤ◌, int_laws, *ℤ_parts, sub_ℕ, ℤ, pos, negsuc, ◌+ℤ◌, ◌-ℤ◌, ◌*ℤ◌, ◌≤ℤ◌}
use uruni.Money.{max_int64, IsInt64, add, sub, wrap, quot, mul, two63, two64, min_int64}

ruleset mul_laws = (int_laws, *ℤ_parts)

wrap_exact : (a : ℤ) → IsInt64 a → wrap a ≡ a
unfolding wrap
wrap_exact a h = ground arith

-- On int64 values `Add` returns the true sum when it is an int64, and refuses otherwise.
pub add_exact :
    (a b : ℤ)
    → IsInt64 a
    → IsInt64 b
    → ((IsInt64 (a +ℤ b)) × (add a b ≡ some (a +ℤ b))) ⊎ ((¬ (IsInt64 (a +ℤ b))) × (add a b ≡ none))
unfolding add wrap ◌+ℤ◌
add_exact a b ha hb = ground arith

-- On int64 values `Sub` returns the true difference when it is an int64, and refuses otherwise.
pub sub_exact :
    (a b : ℤ)
    → IsInt64 a
    → IsInt64 b
    → ((IsInt64 (a -ℤ b)) × (sub a b ≡ some (a -ℤ b))) ⊎ ((¬ (IsInt64 (a -ℤ b))) × (sub a b ≡ none))
unfolding sub wrap ◌-ℤ◌
sub_exact a b ha hb = ground arith

-- wrap a = a - k * 2^64: congruent
wrap_far : (a : ℤ) → (wrap a ≡ a) ⊎ ((a ≤ℤ wrap a -ℤ pos two64) ⊎ (wrap a +ℤ pos two64 ≤ℤ a))
unfolding wrap ◌-ℤ◌ ◌+ℤ◌
wrap_far a = ground arith

wrap-IsInt64 : (a : ℤ) → IsInt64 (wrap a)
unfolding wrap
wrap-IsInt64 a = ground arith

div_bounds : (x y : ℕ) → (x / suc y * suc y ≤ x) × (x < x / suc y * suc y + suc y)
div_bounds x y = omega arith

div_le : (x y : ℕ) → x / suc y ≤ x
div_le x y = grind (arith, div_bounds x y)

div_exact : (x y : ℕ) → x * suc y / suc y ≡ x
div_exact x y = grind (arith, div_bounds (x * suc y) y)

quot_pos_pos : (x y : ℕ) → IsInt64 (pos x) → quot (pos x) (pos (suc y)) ≡ pos (x / suc y)
unfolding quot
quot_pos_pos x y h = wrap_exact _ (omega (arith, div_le x y))

quot_pos_negsuc : (x y : ℕ) → IsInt64 (pos x) → quot (pos x) (negsuc y) ≡ sub_ℕ 0 (x / suc y)
unfolding quot
quot_pos_negsuc x y h = wrap_exact _ (ground (arith, div_le x y))

quot_negsuc_pos :
    (x y : ℕ) → IsInt64 (negsuc x) → quot (negsuc x) (pos (suc y)) ≡ sub_ℕ 0 (suc x / suc y)
unfolding quot
quot_negsuc_pos x y h = wrap_exact _ (ground (arith, div_le (suc x) y))

-- MinInt64 / -1 is the one quotient that wraps.
quot_negsuc_negsuc :
    (x y : ℕ)
    → IsInt64 (negsuc x)
    → (quot (negsuc x) (negsuc y) ≡ pos (suc x / suc y))
      ⊎ ((quot (negsuc x) (negsuc y) ≡ min_int64) × (negsuc y ≡ negsuc 0))
unfolding quot wrap
quot_negsuc_negsuc x zero h = ground (arith, div_bounds (suc x) 0)
quot_negsuc_negsuc x (suc y) h = ground (arith, div_bounds (suc x) (suc y))

-- A quotient times its divisor is near the dividend.
abbrev IsNear : ℤ → ℤ → ℤ → Type 0
IsNear p n q = (p ≤ℤ q *ℤ n +ℤ pos two63) × (q *ℤ n ≤ℤ p +ℤ pos two63)

-- A negated magnitude is 0 or a `negsuc`.
sub_ℕ-cases :
    (k : ℕ) → ((k ≡ 0) × (sub_ℕ 0 k ≡ pos 0)) ⊎ ((m : ℕ) × (k ≡ suc m) × (sub_ℕ 0 k ≡ negsuc m))
sub_ℕ-cases zero = inl (refl, refl)
sub_ℕ-cases (suc m) = inr (m, refl, ground arith)

-- The quotients of unlike signs.
IsNear-pos_negsuc :
    (x y k : ℕ)
    → IsInt64 (negsuc y)
    → k * suc y ≤ x
    → x < k * suc y + suc y
    → IsNear (pos x) (negsuc y) (sub_ℕ 0 k)
IsNear-pos_negsuc x y k hn lo hi = elim (sub_ℕ-cases k) [
  | inl (e, f) ↦ rw f (omega (mul_laws, ap (λ (t : ℕ). t * suc y) e))
  | inr (m, e, f) ↦ rw f (omega (mul_laws, ap (λ (t : ℕ). t * suc y) e))
]

IsNear-negsuc_pos :
    (x y k : ℕ)
    → IsInt64 (pos (suc y))
    → k * suc y ≤ suc x
    → suc x < k * suc y + suc y
    → IsNear (negsuc x) (pos (suc y)) (sub_ℕ 0 k)
IsNear-negsuc_pos x y k hn lo hi = elim (sub_ℕ-cases k) [
  | inl (e, f) ↦ rw f (omega (mul_laws, ap (λ (t : ℕ). t * suc y) e))
  | inr (m, e, f) ↦ rw f (omega (mul_laws, ap (λ (t : ℕ). t * suc y) e))
]

quot_far :
    (p n : ℤ)
    → IsInt64 p
    → IsInt64 n
    → n ≢ pos 0
    → (IsNear p n (quot p n)) ⊎ ((quot p n ≡ min_int64) × (n ≡ negsuc 0))
quot_far (pos x) (pos zero) hp hn ne = absurd (ne refl)
quot_far (pos x) (pos (suc y)) hp hn ne =
    rw (quot_pos_pos x y hp) (inl (omega (mul_laws, div_bounds x y)))
quot_far (pos x) (negsuc y) hp hn ne =
    rw (quot_pos_negsuc x y hp)
      (inl (IsNear-pos_negsuc x y (x / suc y) hn (div_bounds x y).0 (div_bounds x y).1))
quot_far (negsuc x) (pos zero) hp hn ne = absurd (ne refl)
quot_far (negsuc x) (pos (suc y)) hp hn ne =
    let (lo, hi) = div_bounds (suc x) y in
    rw (quot_negsuc_pos x y hp) (inl (IsNear-negsuc_pos x y (suc x / suc y) hn lo hi))
quot_far (negsuc x) (negsuc y) hp hn ne = elim (quot_negsuc_negsuc x y hp) [
  | inl e ↦ rw e (inl (omega (mul_laws, div_bounds (suc x) y)))
  | inr e ↦ inr e
]

sub_ℕ_zero_suc : (m : ℕ) → sub_ℕ 0 (suc m) ≡ negsuc m
sub_ℕ_zero_suc m = ground arith

quot_minus_one : (x : ℕ) → IsInt64 (pos (suc x)) → quot (negsuc x) (negsuc 0) ≡ pos (suc x)
unfolding quot wrap
quot_minus_one x h = ground (arith, div_bounds (suc x) 0)

-- Dividing the true product gives the factor back.
quot_back : (a n : ℤ) → IsInt64 a → IsInt64 (a *ℤ n) → n ≢ pos 0 → quot (a *ℤ n) n ≡ a
quot_back (pos x) (pos zero) ha h ne = absurd (ne refl)
quot_back (pos x) (pos (suc y)) ha h ne =
    let e : pos x *ℤ pos (suc y) ≡ pos (x * suc y) = omega mul_laws in
    rw e (quot_pos_pos (x * suc y) y (rw e at h) ∙ ap pos (div_exact x y))
quot_back (pos zero) (negsuc y) ha h ne =
    let e : pos 0 *ℤ negsuc y ≡ pos 0 = omega mul_laws in
    let d : 0 / suc y ≡ 0 = omega arith in rw e (quot_pos_negsuc 0 y (omega arith) ∙ ap (sub_ℕ 0) d)
quot_back (pos (suc x)) (negsuc y) ha h ne =
    let e : pos (suc x) *ℤ negsuc y ≡ negsuc (x * suc y + y) = omega mul_laws in
    let d : suc (x * suc y + y) ≡ suc x * suc y = omega arith in
    elim (quot_negsuc_negsuc (x * suc y + y) y (rw e at h)) [
      | inl f ↦ rw e (f ∙ ap (λ t. pos (t / suc y)) d ∙ ap pos (div_exact (suc x) y))
      | inr (f, g) ↦
          let z : y ≡ 0 = ground (arith, g) in
          let k : x * suc y + y ≡ x = rw z (omega arith) in rw (e, k, z) (quot_minus_one x ha)
    ]
quot_back (negsuc x) (pos zero) ha h ne = absurd (ne refl)
quot_back (negsuc x) (pos (suc y)) ha h ne =
    let e : negsuc x *ℤ pos (suc y) ≡ negsuc (x * suc y + y) = omega mul_laws in
    let d : suc (x * suc y + y) ≡ suc x * suc y = omega arith in
    rw e (
      quot_negsuc_pos (x * suc y + y) y (rw e at h)
      ∙ ap (λ t. sub_ℕ 0 (t / suc y)) d
      ∙ ap (sub_ℕ 0) (div_exact (suc x) y)
      ∙ sub_ℕ_zero_suc x)
quot_back (negsuc x) (negsuc y) ha h ne =
    let e : negsuc x *ℤ negsuc y ≡ pos (suc x * suc y) = omega mul_laws in
    rw e (
      quot_pos_negsuc (suc x * suc y) y (rw e at h)
      ∙ ap (sub_ℕ 0) (div_exact (suc x) y)
      ∙ sub_ℕ_zero_suc x)

IsInt64-cases : (a : ℤ) → (IsInt64 a) ⊎ (¬ (IsInt64 a))
IsInt64-cases a = elim (Bool-cases (leb_ℤ min_int64 a && leb_ℤ a max_int64)) [
  | inl h ↦ inl (ground arith)
  | inr h ↦ inr (λ (q : IsInt64 a). ground arith)
]

mul_zero : (a n : ℤ) → ((a ==ℤ pos 0) || (n ==ℤ pos 0)) ≡ true → a *ℤ n ≡ pos 0
unfolding ◌*ℤ◌
mul_zero a n h = ground arith

min_times_minus_one : (a n : ℤ) → a ≡ min_int64 → n ≡ negsuc 0 → ¬ (IsInt64 (a *ℤ n))
unfolding ◌*ℤ◌
min_times_minus_one a n p q h = ground arith

mul_zero_factor : (a n : ℤ) → ((a ==ℤ pos 0) || (n ==ℤ pos 0)) ≡ true → mul a n ≡ some (pos 0)
unfolding mul
mul_zero_factor a n h = rw h

mul_fits :
    (a n : ℤ)
    → IsInt64 a
    → ((a ==ℤ pos 0) || (n ==ℤ pos 0)) ≡ false
    → IsInt64 (a *ℤ n)
    → mul a n ≡ some (a *ℤ n)
unfolding mul
mul_fits a n ha h fits =
    ground (arith, wrap_exact (a *ℤ n) fits, quot_back a n ha fits, min_times_minus_one a n)

-- A product that wrapped is far from what it wrapped to.
not-IsNear :
    (a n : ℤ)
    → ¬ (IsInt64 (a *ℤ n))
    → quot (wrap (a *ℤ n)) n ≡ a
    → ¬ (IsNear (wrap (a *ℤ n)) n (quot (wrap (a *ℤ n)) n))
not-IsNear a n over e near =
    let close : IsNear (wrap (a *ℤ n)) n a = rw e at near in
    elim (wrap_far (a *ℤ n)) [
      | inl same ↦ over (rw same at (wrap-IsInt64 (a *ℤ n)))
      | inr (inl low) ↦ absurd (omega int_laws)
      | inr (inr high) ↦ absurd (omega int_laws)
    ]

mul_over :
    (a n : ℤ)
    → IsInt64 n
    → ((a ==ℤ pos 0) || (n ==ℤ pos 0)) ≡ false
    → ¬ (IsInt64 (a *ℤ n))
    → mul a n ≡ none
unfolding mul
mul_over a n hn h over =
    ground (arith, not-IsNear a n over, quot_far (wrap (a *ℤ n)) n (wrap-IsInt64 (a *ℤ n)) hn)

-- On int64 values `Mul` returns the true product when it is an int64, and refuses otherwise.
pub mul_exact :
    (a n : ℤ)
    → IsInt64 a
    → IsInt64 n
    → ((IsInt64 (a *ℤ n)) × (mul a n ≡ some (a *ℤ n))) ⊎ ((¬ (IsInt64 (a *ℤ n))) × (mul a n ≡ none))
mul_exact a n ha hn = elim (Bool-cases ((a ==ℤ pos 0) || (n ==ℤ pos 0))) [
  | inl zero_factor ↦
      let e : a *ℤ n ≡ pos 0 = mul_zero a n zero_factor in
      inl (rw e (omega arith), rw e (mul_zero_factor a n zero_factor))
  | inr factors ↦ elim (IsInt64-cases (a *ℤ n)) [
    | inl fits ↦ inl (fits, mul_fits a n ha factors fits)
    | inr over ↦ inr (over, mul_over a n hn factors over)
  ]
]
