-- ===== src/Dates/Months.antt =====
-- internal/ledger/date_window.go: `addMonths` and `yearAhead` by calendar arithmetic.
use uruni.Base.{
  sym, ℕ, ◌+◌, ◌-◌, ◌*◌, ◌/◌, ◌%◌, ◌≤◌, ◌<◌, ◌≡◌, refl, ◌∙◌, ap, ◌⊎◌, inl, inr, Bool, none, ltb,
  true, ◌&&◌, some, [], ◌∷◌, arith, leb, ◌==◌, if◌then◌else◌,
}
use uruni.Base.Int.{pos, ◌+ℤ◌, int_laws}
use uruni.Dates.Order.{IsDigit, parse_date-Digits, text_lt-period_text}
use uruni.Dates.{
  Text, text_lt, Day, is_digit, is_day, days_in, two_digits, four_digits, put_two, put_year,
  parse_period, parse_date, format_month, format_date, add_months, DateWindow, year_ahead,
}

put_two-digits :
    (n : ℕ)
    → n < 100
    → (is_digit (48 + n / 10 % 10) ≡ true)
      × (is_digit (48 + n % 10) ≡ true)
      × (two_digits (48 + n / 10 % 10) (48 + n % 10) ≡ n)
put_two-digits n h = ground arith

abbrev digit_at : ℕ → ℕ → ℕ
digit_at y w = 48 + y / w % 10

put_year-short :
    (y : ℕ)
    → y < 10000
    → put_year y ≡ digit_at y 1000 ∷ digit_at y 100 ∷ digit_at y 10 ∷ (48 + y % 10) ∷ []
unfolding put_year
put_year-short y h = ground arith

four_digits-digit_at :
    (y : ℕ)
    → y < 10000
    → four_digits (digit_at y 1000) (digit_at y 100) (digit_at y 10) (48 + y % 10) ≡ y
four_digits-digit_at y h = omega arith

digit_is_digit : (n : ℕ) → is_digit (48 + n % 10) ≡ true
digit_is_digit n = ground arith

-- Printing a month and reading it back.
pub parse_period-format_month :
    (i : ℕ) → i < 120000 → parse_period (format_month (pos i)) ≡ some (i / 12, i % 12 + 1)
unfolding parse_period format_month put_two
parse_period-format_month i h = rw (put_year-short (i / 12) (omega arith)) (
    simp
      (
        digit_is_digit,
        four_digits-digit_at (i / 12) (omega arith),
        (put_two-digits (i % 12 + 1) (omega arith)).2,
      )
      (ground arith))

four_digits_small :
    (a b c d : ℕ)
    → is_digit a ≡ true
    → is_digit b ≡ true
    → is_digit c ≡ true
    → is_digit d ≡ true
    → four_digits a b c d ≤ 9999
four_digits_small a b c d ha hb hc hd = ground arith

year_digits :
    (a b c d : ℕ) (v w x y z : Bool) (t : ℕ × ℕ) (m : ℕ)
    → (if is_digit a && is_digit b && is_digit c && is_digit d && v && w && x && y && z
        then some (four_digits a b c d, m)
        else none)
      ≡ some t
    → t.0 ≤ 9999
year_digits a b c d v w x y z t m h = ground (arith, four_digits_small a b c d)

-- A parsed year has four digits.
pub parse_period_year : (s : Text) (t : ℕ × ℕ) → parse_period s ≡ some t → t.0 ≤ 9999
unfolding parse_period
parse_period_year (a ∷ b ∷ c ∷ d ∷ h ∷ e ∷ f ∷ []) t p =
    let m = two_digits e f in
    year_digits a b c d (h == 45) (is_digit e) (is_digit f) (leb 1 m) (leb m 12) t m p
parse_period_year _ t p = ground arith

pub parse_period_month : (s : Text) (y m : ℕ) → parse_period s ≡ some (y, m) → (1 ≤ m) × (m ≤ 12)
unfolding parse_period
parse_period_month (a ∷ b ∷ c ∷ d ∷ h ∷ e ∷ f ∷ []) y m p = ground arith
parse_period_month _ y m p = ground arith

-- `addMonths` by a positive count lands on the period that many calendar months later.
pub parse_period-add_months :
    (s : Text) (y m n : ℕ)
    → parse_period s ≡ some (y, m)
    → y * 12 + m - 1 + n < 120000
    → let later = y * 12 + m - 1 + n in
      parse_period (add_months s (pos n)) ≡ some (later / 12, later % 12 + 1)
unfolding add_months
parse_period-add_months s y m n h small =
    let sum : pos (y * 12 + m - 1) +ℤ pos n ≡ pos (y * 12 + m - 1 + n) = omega int_laws in
    rw (h, add_months) (rw sum (parse_period-format_month (y * 12 + m - 1 + n) small))

days_in_bounds : (y m : ℕ) → (28 ≤ days_in y m) × (days_in y m ≤ 31)
days_in_bounds y m = ground arith

is_day_bounds : (y m d : ℕ) → is_day (y, m, d) ≡ true → (m < 100) × (d < 100)
is_day_bounds y m d h = ground (arith, days_in_bounds y m)

parse_date-format_date :
    (t : Day) → t.0 < 10000 → is_day t ≡ true → parse_date (format_date t) ≡ some t
unfolding parse_date format_date put_two
parse_date-format_date (y, m, d) small real = rw (put_year-short y small) (
    simp
      (
        digit_is_digit,
        four_digits-digit_at y small,
        (put_two-digits m (is_day_bounds y m d real).0).2,
        (put_two-digits d (is_day_bounds y m d real).1).2,
      )
      (rw real refl))

parse_date_real : (s : Text) (t : Day) → parse_date s ≡ some t → is_day t ≡ true
parse_date_real s t h = (parse_date-Digits s t h).real

-- The day is there again next year, or it is 29 February.
next_year_day :
    (y m d : ℕ)
    → is_day (y, m, d) ≡ true
    → ((is_day (y + 1, m, d) ≡ true)
        × (d ≤ days_in (y + 1) m)
        × ((if m == 2 && (d == 29) then 28 else d) ≡ d))
      ⊎ ((m ≡ 2) × (d ≡ 29) × (days_in (y + 1) m ≡ 28))
next_year_day y m d h = ground arith

keep_day :
    (s t : Text) (d last : ℕ)
    → d ≤ last
    → (if (if leb d last then d else d - last) == d then s else t) ≡ s
keep_day s t d last h = ground arith

-- `yearAhead` is the same month and day of the next year, but for 29 February, which becomes the
-- 28th.
pub year_ahead_lem :
    (w : DateWindow) (y m d : ℕ)
    → parse_date w.today ≡ some (y, m, d)
    → y < 9999
    → parse_date (year_ahead w) ≡ some (y + 1, m, if m == 2 && (d == 29) then 28 else d)
unfolding year_ahead
year_ahead_lem w y m d h small = elim (next_year_day y m d (parse_date_real w.today (y, m, d) h)) [
  | inl (real, fits, same) ↦
      rw (h, year_ahead)
        (rw (keep_day _ _ d (days_in (y + 1) m) fits) (
          parse_date-format_date (y + 1, m, d) (omega arith) real
          ∙ ap (λ (k : ℕ). let t : Day = (y + 1, m, k) in some t) (sym same)))
  | inr (february, leap_day, short) ↦
      rw (h, year_ahead)
        (rw (short, leap_day, february)
          (parse_date-format_date (y + 1, 2, 28) (omega arith) (ground arith)))
]

put_two-IsDigit : (n : ℕ) → IsDigit (48 + n / 10 % 10) × IsDigit (48 + n % 10)
put_two-IsDigit n = omega arith

year-IsDigit :
    (y : ℕ)
    → IsDigit (digit_at y 1000)
      × IsDigit (digit_at y 100)
      × IsDigit (digit_at y 10)
      × IsDigit (48 + y % 10)
year-IsDigit y = omega arith

-- Comparing two printed months as strings compares the months.
pub text_lt-format_month :
    (i j : ℕ)
    → i < 120000
    → j < 120000
    → text_lt (format_month (pos i)) (format_month (pos j)) ≡ ltb i j
unfolding format_month put_two
text_lt-format_month i j hi hj =
    rw (put_year-short (i / 12) (omega arith), put_year-short (j / 12) (omega arith))
      (text_lt-period_text _ _ _ _ _ _ _ _ _ _ _ _ (year-IsDigit (i / 12))
          (put_two-IsDigit (i % 12 + 1)) (year-IsDigit (j / 12)) (put_two-IsDigit (j % 12 + 1))
        ∙ simp
            (
              four_digits-digit_at (i / 12) (omega arith),
              four_digits-digit_at (j / 12) (omega arith),
              (put_two-digits (i % 12 + 1) (omega arith)).2,
              (put_two-digits (j % 12 + 1) (omega arith)).2,
            )
            (ground arith))
