-- ===== src/Dates.antt =====
-- internal/ledger/date_window.go: business dates "YYYY-MM-DD" and periods "YYYY-MM" as texts, a
-- text being the list of its code points. `parse_date` and `parse_period` are Go's time.Parse with
-- the two fixed-width layouts, the `format` functions its time.Format. The window's `today` is
-- the ledger's clock read in the fund's zone.
pub mod Order
pub mod Window
pub mod Months
use Prim.Native.Char.{code}
use Prim.Native.String
use Prim.Native.String.{String}
use uruni.Base.{
  ℕ, zero, suc, ◌+◌, ◌-◌, ◌*◌, ◌/◌, ◌%◌, Bool, true, false, ◌&&◌, ◌||◌, not, Option, none, some,
  List, [], ◌∷◌, ◌++◌, ltb, leb, ◌==◌, if◌then◌else◌,
}
use uruni.Base.Int.{ℤ, pos, negsuc, ◌+ℤ◌}
use uruni.Errors.{Result, ok, err, invalid_argument, date_out_of_range, ◌>>=◌, ◌>>◌, refuse_if}

abbrev pub Text : Type 0
Text = List ℕ

-- The code points of a literal.
abbrev pub codes : String → Text
codes String.[] = []
codes (String.◌∷◌ c s) = code c ∷ codes s

-- Go's `<` and `==` on strings.
abbrev pub text_lt : Text → Text → Bool
text_lt xs [] = false
text_lt [] (y ∷ ys) = true
text_lt (x ∷ xs) (y ∷ ys) = ltb x y || (x == y && text_lt xs ys)

abbrev pub text_eq : Text → Text → Bool
text_eq [] [] = true
text_eq (x ∷ xs) (y ∷ ys) = x == y && text_eq xs ys
text_eq _ _ = false

abbrev pub is_digit : ℕ → Bool
is_digit c = leb 48 c && leb c 57

-- A calendar day: year, month, day of the month.
abbrev pub Day : Type 0
Day = ℕ × ℕ × ℕ

abbrev pub is_leap : ℕ → Bool
is_leap y = y % 4 == 0 && (not (y % 100 == 0) || y % 400 == 0)

abbrev pub days_in : ℕ → ℕ → ℕ
days_in y m =
    if m == 2
    then (if is_leap y then 29 else 28)
    else (if m == 4 || m == 6 || m == 9 || m == 11 then 30 else 31)

abbrev pub two_digits : ℕ → ℕ → ℕ
two_digits a b = (a - 48) * 10 + (b - 48)

abbrev pub four_digits : ℕ → ℕ → ℕ → ℕ → ℕ
four_digits a b c d = (a - 48) * 1000 + (b - 48) * 100 + (c - 48) * 10 + (d - 48)

abbrev pub is_day : Day → Bool
is_day (y, m, d) = leb 1 m && leb m 12 && leb 1 d && leb d (days_in y m)

-- time.Parse("2006-01-02", s)
unfoldable pub parse_date : Text → Option Day
parse_date (a ∷ b ∷ c ∷ d ∷ h ∷ e ∷ f ∷ k ∷ i ∷ j ∷ []) =
    let day : Day = (four_digits a b c d, two_digits e f, two_digits i j) in
    if is_digit a
      && is_digit b
      && is_digit c
      && is_digit d
      && (h == 45)
      && is_digit e
      && is_digit f
      && (k == 45)
      && is_digit i
      && is_digit j
      && is_day day
    then some day
    else none
parse_date _ = none

-- time.Parse("2006-01", s)
unfoldable pub parse_period : Text → Option (ℕ × ℕ)
parse_period (a ∷ b ∷ c ∷ d ∷ h ∷ e ∷ f ∷ []) =
    let m = two_digits e f in
    if is_digit a
      && is_digit b
      && is_digit c
      && is_digit d
      && (h == 45)
      && is_digit e
      && is_digit f
      && leb 1 m
      && leb m 12
    then some (four_digits a b c d, m)
    else none
parse_period _ = none

unfoldable pub put_two : ℕ → Text
put_two n = (48 + n / 10 % 10) ∷ (48 + n % 10) ∷ []

-- A year padded to four digits; the years reached stay below 100000.
unfoldable pub put_year : ℕ → Text
put_year y =
    let four =
      (48 + y / 1000 % 10) ∷ (48 + y / 100 % 10) ∷ (48 + y / 10 % 10) ∷ (48 + y % 10) ∷ [] in
    if ltb y 10000 then four else (48 + y / 10000) ∷ four

unfoldable pub format_date : Day → Text
format_date (y, m, d) = put_year y ++ (45 ∷ (put_two m ++ (45 ∷ put_two d)))

-- A month as the number of months since January of the year 0.
unfoldable pub format_month : ℤ → Text
format_month (pos i) = put_year (i / 12) ++ (45 ∷ put_two (i % 12 + 1))
format_month (negsuc i) = 45 ∷ (put_year (i / 12 + 1) ++ (45 ∷ put_two (12 - i % 12)))

unfoldable pub format_period : ℕ × ℕ → Text
unfolding format_month
format_period (y, m) = format_month (pos (y * 12 + m - 1))

abbrev pub min_day : Text
min_day = codes "2000-01-01"

abbrev pub min_month : Text
min_month = codes "2000-01"

abbrev pub no_ceiling : Text
no_ceiling = codes "9999-12-31"

abbrev pub dues_months_ahead : ℕ
dues_months_ahead = 12

abbrev pub rate_months_ahead : ℕ
rate_months_ahead = 24

-- `addMonths`
unfoldable pub add_months : Text → ℤ → Text
add_months month n = elim (parse_period month) [
  | none ↦ month
  | some (y, m) ↦ format_month (pos (y * 12 + m - 1) +ℤ n)
]

-- `dateWindow`: the fund's calendar day.
pub record DateWindow : Type 0 where
  pub today : Text

abbrev pub take_month : Text → Text
take_month (a ∷ b ∷ c ∷ d ∷ h ∷ e ∷ f ∷ rest) = a ∷ b ∷ c ∷ d ∷ h ∷ e ∷ f ∷ []
take_month s = s

abbrev pub entry : DateWindow → Text
entry w = w.today

-- The same day next year, or the month's last day where that day does not exist. A day past
-- the month's end is what AddDate carries into the next month.
unfoldable pub year_ahead : DateWindow → Text
year_ahead w = elim (parse_date w.today) [
  | none ↦ w.today
  | some (y, m, d) ↦
      let last = days_in (y + 1) m in
      let next = if leb d last then d else d - last in
      if next == d then format_date (y + 1, m, d) else format_date (y + 1, m, last)
]

abbrev pub window_month : DateWindow → Text
window_month w = take_month w.today

abbrev pub window_dues : DateWindow → Text
window_dues w = add_months (window_month w) (pos dues_months_ahead)

abbrev pub window_rate : DateWindow → Text
window_rate w = add_months (window_month w) (pos rate_months_ahead)

-- `validateOccurredOn`
unfoldable pub validate_occurred_on : String → Text → Text → Result (Unit {0})
validate_occurred_on field s ceiling = elim (parse_date s) [
  | none ↦ err (invalid_argument field)
  | some t ↦
      refuse_if (not (text_eq (format_date t) s)) (invalid_argument field)
      >> refuse_if (text_lt s min_day) (date_out_of_range field)
      >> refuse_if (text_lt ceiling s) (date_out_of_range field)
]

-- `checkPeriodShape`
unfoldable pub check_period_shape : String → Text → Result (Unit {0})
check_period_shape field s = elim (parse_period s) [
  | none ↦ err (invalid_argument field)
  | some t ↦ refuse_if (not (text_eq (format_period t) s)) (invalid_argument field)
]

-- `validateDuesPeriod`
unfoldable pub validate_dues_period : String → Text → Text → Result (Unit {0})
validate_dues_period field s ceiling = do
  check_period_shape field s
  refuse_if (text_lt s min_month) (date_out_of_range field)
  refuse_if (text_lt ceiling s) (date_out_of_range field)
