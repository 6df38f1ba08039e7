-- ===== src/Dates/Order.antt =====
-- internal/ledger/date_window.go: "Dates are fixed-width, so the bound comparisons are string
-- comparisons."
use native.Mathlib.Nat.{mul-le-mul_right}
use uruni.Base.{
  ◌∙◌, ap, ltb, if◌then◌else◌, ◌-◌, ◌⊎◌, ℕ, ◌+◌, ◌*◌, ◌≤◌, ◌<◌, ◌≡◌, refl, ◌↔◌, true, some, [], ◌∷◌,
  arith,
}
use uruni.Dates.{Text, Day, text_lt, is_digit, four_digits, two_digits, is_day, parse_date}

-- A day as the number yyyymmdd, and a month as yyyymm.
abbrev pub date_key : Day → ℕ
date_key (y, m, d) = y * 10000 + m * 100 + d

abbrev pub period_key : ℕ × ℕ → ℕ
period_key (y, m) = y * 100 + m

abbrev pub IsDigit : ℕ → Type 0
IsDigit c = (48 ≤ c) × (c ≤ 57)

-- The digits of a date.
pub record Digits (s : Text) (t : Day) : Type 0 where
  pub a : ℕ
  pub b : ℕ
  pub c : ℕ
  pub d : ℕ
  pub e : ℕ
  pub f : ℕ
  pub i : ℕ
  pub j : ℕ
  pub text : s ≡ a ∷ b ∷ c ∷ d ∷ 45 ∷ e ∷ f ∷ 45 ∷ i ∷ j ∷ []
  pub year : IsDigit a × IsDigit b × IsDigit c × IsDigit d
  pub rest : IsDigit e × IsDigit f × IsDigit i × IsDigit j
  pub day : t ≡ (four_digits a b c d, two_digits e f, two_digits i j)
  pub real : is_day t ≡ true

pub parse_date-Digits : (s : Text) (t : Day) → parse_date s ≡ some t → Digits s t
unfolding parse_date
parse_date-Digits (a ∷ b ∷ c ∷ d ∷ h ∷ e ∷ f ∷ k ∷ i ∷ j ∷ []) t p = record {
  a = a;
  b = b;
  c = c;
  d = d;
  e = e;
  f = f;
  i = i;
  j = j;
  text = ground arith;
  year = ground arith;
  rest = ground arith;
  day = ground arith;
  real = ground arith;
}
parse_date-Digits _ t p = ground arith

-- Two texts with digits at the same places and hyphens elsewhere.
abbrev SameShape : Text → Text → Type 0
SameShape [] [] = Unit
SameShape (x ∷ xs) (y ∷ ys) = ((IsDigit x × IsDigit y) ⊎ ((x ≡ 45) × (y ≡ 45))) × SameShape xs ys
SameShape _ _ = ⊥

-- The number that the digits spell, and the power of ten above it.
width : Text → ℕ
width [] = 1
width (x ∷ xs) = let w = width xs in if is_digit x then 10 * w else w

value : Text → ℕ
unfolding width
value [] = 0
value (x ∷ xs) = let v = value xs in if is_digit x then (x - 48) * width xs + v else v

width_same : (s t : Text) → SameShape s t → width s ≡ width t
unfolding width
width_same [] [] h = refl
width_same [] (y ∷ ys) h = absurd h
width_same (x ∷ xs) [] h = absurd h
width_same (x ∷ xs) (y ∷ ys) h = ground (arith, width_same xs ys h.1)

digit_value : (x w v : ℕ) → IsDigit x → v < w → (x - 48) * w + v < 10 * w
digit_value x w v h k = omega (arith, mul-le-mul_right {m = x - 48} {n = 9} w (omega arith))

value-lt-width : (s t : Text) → SameShape s t → (value s < width s) × (value t < width t)
unfolding width value
value-lt-width [] [] h = omega arith
value-lt-width [] (y ∷ ys) h = absurd h
value-lt-width (x ∷ xs) [] h = absurd h
value-lt-width (x ∷ xs) (y ∷ ys) h = ground (
  arith,
  value-lt-width xs ys h.1,
  digit_value x (width xs) (value xs),
  digit_value y (width ys) (value ys),
)

digit_step_lt : (x y w u v : ℕ) → IsDigit x → x < y → u < w → (x - 48) * w + u < (y - 48) * w + v
digit_step_lt x y w u v h l k =
    omega (arith, mul-le-mul_right {m = x - 48 + 1} {n = y - 48} w (omega arith))

text_lt-value : (s t : Text) → SameShape s t → text_lt s t ≡ ltb (value s) (value t)
unfolding value
text_lt-value [] [] h = refl
text_lt-value [] (y ∷ ys) h = absurd h
text_lt-value (x ∷ xs) [] h = absurd h
text_lt-value (x ∷ xs) (y ∷ ys) h = ground (
  arith,
  text_lt-value xs ys h.1,
  width_same xs ys h.1,
  value-lt-width xs ys h.1,
  digit_step_lt x y (width xs) (value xs) (value ys),
  digit_step_lt y x (width xs) (value ys) (value xs),
)

Digits-SameShape : {s t : Text} {p q : Day} → Digits s p → Digits t q → SameShape s t
Digits-SameShape u v = rw (u.text, v.text) (omega arith)

value-digit : (x : ℕ) (xs : Text) → IsDigit x → value (x ∷ xs) ≡ (x - 48) * width xs + value xs
unfolding value
value-digit x xs h = ground arith

width-digit : (x : ℕ) (xs : Text) → IsDigit x → width (x ∷ xs) ≡ 10 * width xs
unfolding width
width-digit x xs h = ground arith

value-hyphen : (xs : Text) → value (45 ∷ xs) ≡ value xs
unfolding value
value-hyphen xs = refl

width-hyphen : (xs : Text) → width (45 ∷ xs) ≡ width xs
unfolding width
width-hyphen xs = refl

width-nil : width [] ≡ 1
unfolding width
width-nil = refl

value-nil : value [] ≡ 0
unfolding value
value-nil = refl

-- A two-digit field in front of a text, and a four-digit one.
value_two :
    (x y : ℕ) (xs : Text)
    → IsDigit x
    → IsDigit y
    → (value (x ∷ y ∷ xs) ≡ two_digits x y * width xs + value xs)
      × (width (x ∷ y ∷ xs) ≡ 100 * width xs)
value_two x y xs h k = omega (
  arith,
  value-digit x (y ∷ xs) h,
  ap (λ (t : ℕ). (x - 48) * t) (width-digit y xs k),
  value-digit y xs k,
  width-digit x (y ∷ xs) h,
  width-digit y xs k,
)

value-Digits : (s : Text) (p : Day) → Digits s p → value s ≡ date_key p
value-Digits s p u =
    let day_text = u.i ∷ u.j ∷ [] in
    let month_text = u.e ∷ u.f ∷ 45 ∷ day_text in
    let century = value_two u.a u.b (u.c ∷ u.d ∷ 45 ∷ month_text) u.year.0 u.year.1 in
    let year = value_two u.c u.d (45 ∷ month_text) u.year.2 u.year.3 in
    let month = value_two u.e u.f (45 ∷ day_text) u.rest.0 u.rest.1 in
    let day = value_two u.i u.j [] u.rest.2 u.rest.3 in
    rw (u.text, u.day)
      (simp
        (
          century.0, year.0, year.1, month.0, month.1, day.0, day.1, value-hyphen, width-hyphen,
          value-nil, width-nil,
        )
        (omega arith))

-- Comparing two real dates as strings compares the days that they name.
pub text_lt-parse_date :
    (s t : Text) (p q : Day)
    → parse_date s ≡ some p
    → parse_date t ≡ some q
    → (text_lt s t ≡ true) ↔ (date_key p < date_key q)
text_lt-parse_date s t p q hs ht =
    let u = parse_date-Digits s p hs in
    let v = parse_date-Digits t q ht in
    rw (text_lt-value s t (Digits-SameShape u v), value-Digits s p u, value-Digits t q v)
      (ground arith)

abbrev period_text : ℕ → ℕ → ℕ → ℕ → ℕ → ℕ → Text
period_text a b c d e f = a ∷ b ∷ c ∷ d ∷ 45 ∷ e ∷ f ∷ []

value-period_text :
    (a b c d e f : ℕ)
    → IsDigit a × IsDigit b × IsDigit c × IsDigit d
    → IsDigit e × IsDigit f
    → value (period_text a b c d e f) ≡ four_digits a b c d * 100 + two_digits e f
value-period_text a b c d e f year month =
    let month_text = e ∷ f ∷ [] in
    let century = value_two a b (c ∷ d ∷ 45 ∷ month_text) year.0 year.1 in
    let years = value_two c d (45 ∷ month_text) year.2 year.3 in
    let months = value_two e f [] month.0 month.1 in
    simp
      (
        century.0, years.0, years.1, months.0, months.1, value-hyphen, width-hyphen, value-nil,
        width-nil,
      )
      (omega arith)

-- Comparing two months as strings compares their years and months.
pub text_lt-period_text :
    (a b c d e f a' b' c' d' e' f' : ℕ)
    → IsDigit a × IsDigit b × IsDigit c × IsDigit d
    → IsDigit e × IsDigit f
    → IsDigit a' × IsDigit b' × IsDigit c' × IsDigit d'
    → IsDigit e' × IsDigit f'
    → text_lt (a ∷ b ∷ c ∷ d ∷ 45 ∷ e ∷ f ∷ []) (a' ∷ b' ∷ c' ∷ d' ∷ 45 ∷ e' ∷ f' ∷ [])
      ≡ ltb
          (four_digits a b c d * 100 + two_digits e f)
          (four_digits a' b' c' d' * 100 + two_digits e' f')
text_lt-period_text a b c d e f a' b' c' d' e' f' y m y' m' =
    text_lt-value (period_text a b c d e f) (period_text a' b' c' d' e' f') (omega arith)
    ∙ rw (value-period_text a b c d e f y m, value-period_text a' b' c' d' e' f' y' m') refl
