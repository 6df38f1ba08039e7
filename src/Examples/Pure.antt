-- ===== src/Examples/Pure.antt =====
-- The theorems on dates, amounts and refusals at concrete values.
use uruni.Base.{
  Option, ℕ, ◌≡◌, ◌+◌, ◌*◌, ◌-◌, ◌/◌, ◌%◌, refl, ◌⊎◌, ◌↔◌, Bool, true, false, none, some, [], ◌∷◌,
  arith, any,
}
use uruni.Base.Int.{ℤ, pos, negsuc, ◌+ℤ◌, ◌-ℤ◌, ◌*ℤ◌}
use uruni.Errors.{ok, err, invalid_argument, date_out_of_range}
use uruni.Money.{IsInt64, add, sub, mul, max_int64, min_int64}
use uruni.Money.Checked.{add_exact, sub_exact, mul_exact}
use uruni.Dates.{
  Text, codes, parse_date, parse_period, text_lt, validate_occurred_on, add_months, year_ahead,
  DateWindow,
}
use uruni.Dates.Window.{IsInWindow, validate_occurred_on_lem}
use uruni.Dates.Months.{parse_period-add_months, year_ahead_lem}
use uruni.Store.Rows.{dues}
use uruni.Reversal.Refusal.{
  ReversalFacts, reversal_refusal, reversal_date, dues_payment_refusal, IsReversible, AllReversible,
  stands, reversal_refusal_lem, dues_payment_refusal_lem, reversal_date-not-before,
}
use uruni.Dues.Pricing.{Span, Pricing, span_at, price_at}
use uruni.Dues.Search.{latest_at, span_at_lem, price_at_lem}
use uruni.Examples.Data.{today}

add_exact_example :
    (IsInt64 (max_int64 +ℤ pos 1) × (add max_int64 (pos 1) ≡ some (max_int64 +ℤ pos 1)))
    ⊎ ((¬ (IsInt64 (max_int64 +ℤ pos 1))) × (add max_int64 (pos 1) ≡ none))
add_exact_example = add_exact max_int64 (pos 1) (ground arith) (ground arith)

sub_exact_example :
    (IsInt64 (min_int64 -ℤ pos 1) × (sub min_int64 (pos 1) ≡ some (min_int64 -ℤ pos 1)))
    ⊎ ((¬ (IsInt64 (min_int64 -ℤ pos 1))) × (sub min_int64 (pos 1) ≡ none))
sub_exact_example = sub_exact min_int64 (pos 1) (ground arith) (ground arith)

mul_exact_example :
    (IsInt64 (min_int64 *ℤ negsuc 0) × (mul min_int64 (negsuc 0) ≡ some (min_int64 *ℤ negsuc 0)))
    ⊎ ((¬ (IsInt64 (min_int64 *ℤ negsuc 0))) × (mul min_int64 (negsuc 0) ≡ none))
mul_exact_example = mul_exact min_int64 (negsuc 0) (ground arith) (ground arith)

abbrev leap_day : Text
leap_day = codes "2028-02-29"

validate_occurred_on_lem_example :
    ((parse_date leap_day ≡ none)
      × (validate_occurred_on "occurred_on" leap_day today ≡ err (invalid_argument "occurred_on")))
    ⊎ ((t : ℕ × ℕ × ℕ) × (parse_date leap_day ≡ some t)
        × ((IsInWindow t (2026, 7, 31)
              × (validate_occurred_on "occurred_on" leap_day today ≡ ok tt))
            ⊎ ((¬ (IsInWindow t (2026, 7, 31)))
                × (validate_occurred_on "occurred_on" leap_day today
                    ≡ err (date_out_of_range "occurred_on")))))
unfolding parse_date
validate_occurred_on_lem_example =
    validate_occurred_on_lem "occurred_on" leap_day today (2026, 7, 31) refl

parse_period-add_months_example :
    parse_period (add_months (codes "2026-07") (pos 12))
    ≡ some ((2026 * 12 + 7 - 1 + 12) / 12, (2026 * 12 + 7 - 1 + 12) % 12 + 1)
unfolding parse_period
parse_period-add_months_example =
    parse_period-add_months (codes "2026-07") 2026 7 12 refl (ground arith)

abbrev leap_window : DateWindow
leap_window = record { today = leap_day }

year_ahead_lem_example : parse_date (year_ahead leap_window) ≡ some (2029, 2, 28)
unfolding parse_date
year_ahead_lem_example = year_ahead_lem leap_window 2028 2 29 refl (ground arith)

-- A dues month of July, taken back or not.
abbrev month : Bool → ReversalFacts
month taken = record {
  kind = dues;
  occurred_on = codes "2026-07-05";
  is_reversal = false;
  reversed = taken;
  is_reconciliation_fix = false;
  effective_closed = false;
  counted = true;
}

reversal_refusal_lem_example :
    (reversal_refusal (month false) today ≡ ok tt) ↔ IsReversible (month false) today
reversal_refusal_lem_example = reversal_refusal_lem (month false) today

dues_payment_refusal_lem_example :
    (dues_payment_refusal (month true ∷ month false ∷ []) today ≡ ok tt) ↔ (
      (any stands (month true ∷ month false ∷ []) ≡ true)
      × AllReversible (month true ∷ month false ∷ []) today)
dues_payment_refusal_lem_example = dues_payment_refusal_lem (month true ∷ month false ∷ []) today

reversal_date-not-before_example :
    text_lt (reversal_date (codes "2026-07-05") true today) (codes "2026-07-05") ≡ false
unfolding reversal_refusal
reversal_date-not-before_example = reversal_date-not-before (month false) today refl

-- A member in tier 7 from January 2026, and its rates from January and from July.
abbrev tier_span_7 : Span (Option ℕ)
tier_span_7 = record { from = codes "2026-01"; value = some 7 }

abbrev january_rate : Span ℤ
january_rate = record { from = codes "2026-01"; value = pos 50000 }

abbrev july_rate : Span ℤ
july_rate = record { from = codes "2026-07"; value = pos 60000 }

abbrev prices : Pricing
prices = record {
  tiers = λ member. tier_span_7 ∷ [];
  rates = λ tier. january_rate ∷ july_rate ∷ [];
}

span_at_lem_example :
    span_at (january_rate ∷ july_rate ∷ []) (codes "2026-06")
    ≡ latest_at (january_rate ∷ july_rate ∷ []) (codes "2026-06")
span_at_lem_example =
    span_at_lem (january_rate ∷ july_rate ∷ []) (codes "2026-06") ((refl, tt), (tt, tt))

price_at_lem_example : price_at prices 3 (codes "2026-08") ≡ some (7, pos 60000)
unfolding latest_at
price_at_lem_example =
    price_at_lem prices 3 (codes "2026-08") (tt, tt) (λ tier. ((refl, tt), (tt, tt)))
