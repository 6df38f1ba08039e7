-- ===== src/Dates/Window.antt =====
-- internal/ledger/date_window.go: which dates and periods the validations accept.
use uruni.Base.{
  ◌⊎◌, ℕ, ◌≤◌, ◌<◌, ◌≡◌, refl, ◌↔◌, Bool, true, false, some, none, [], ◌∷◌, arith, Option-cases,
  inl, inr,
}
use Prim.Native.String.{String}
use uruni.Errors.{Err, ok, err, invalid_argument, date_out_of_range, refuse_if, ◌>>◌}
use uruni.Dates.{
  Text, Day, text_lt, text_eq, four_digits, two_digits, put_two, put_year, parse_date, format_date,
  validate_occurred_on, min_day,
}
use uruni.Dates.Order.{IsDigit, date_key, parse_date-Digits, text_lt-parse_date}

put_two-two_digits : (e f : ℕ) → IsDigit e → IsDigit f → put_two (two_digits e f) ≡ e ∷ f ∷ []
unfolding put_two
put_two-two_digits e f h k = ground arith

put_year-four_digits :
    (a b c d : ℕ)
    → IsDigit a × IsDigit b × IsDigit c × IsDigit d
    → put_year (four_digits a b c d) ≡ a ∷ b ∷ c ∷ d ∷ []
unfolding put_year
put_year-four_digits a b c d h = ground arith

pub text_eq_refl : (s : Text) → text_eq s s ≡ true
text_eq_refl [] = refl
text_eq_refl (x ∷ xs) = ground (arith, text_eq_refl xs)

pub text_eq-eq : (a b : Text) → text_eq a b ≡ true → a ≡ b
text_eq-eq [] [] h = refl
text_eq-eq [] (y ∷ b) h = ground arith
text_eq-eq (x ∷ a) [] h = ground arith
text_eq-eq (x ∷ a) (y ∷ b) h = ground (arith, text_eq-eq a b)

-- Printing a parsed date gives its text back.
pub format_date-parse_date : (s : Text) (t : Day) → parse_date s ≡ some t → format_date t ≡ s
unfolding format_date
format_date-parse_date s t h =
    let u = parse_date-Digits s t h in
    rw (u.text, u.day)
      (rw
        (
          put_year-four_digits u.a u.b u.c u.d u.year,
          put_two-two_digits u.e u.f u.rest.0 u.rest.1,
          put_two-two_digits u.i u.j u.rest.2 u.rest.3,
        )
        refl)

min_day-parse_date : parse_date min_day ≡ some (2000, 1, 1)
unfolding parse_date
min_day-parse_date = refl

-- The day lies between the floor, 2000-01-01, and the ceiling.
abbrev pub IsInWindow : Day → Day → Type 0
IsInWindow t c = (20000101 ≤ date_key t) × (date_key t ≤ date_key c)

bounds_verdict :
    (e : Err) (early late : Bool) (t c : Day)
    → ((early ≡ true) ↔ (date_key t < 20000101))
    → ((late ≡ true) ↔ (date_key c < date_key t))
    → (IsInWindow t c × ((refuse_if early e >> refuse_if late e) ≡ ok tt))
      ⊎ ((¬ (IsInWindow t c)) × ((refuse_if early e >> refuse_if late e) ≡ err e))
bounds_verdict e true late t c p q = ground arith
bounds_verdict e false true t c p q = ground arith
bounds_verdict e false false t c p q = ground arith

validate_real :
    (field : String) (s ceiling : Text) (t c : Day)
    → parse_date ceiling ≡ some c
    → parse_date s ≡ some t
    → (IsInWindow t c × (validate_occurred_on field s ceiling ≡ ok tt))
      ⊎ ((¬ (IsInWindow t c))
          × (validate_occurred_on field s ceiling ≡ err (date_out_of_range field)))
unfolding validate_occurred_on
validate_real field s ceiling t c hc e =
    rw (e, format_date-parse_date s t e, text_eq_refl s, validate_occurred_on)
      (bounds_verdict (date_out_of_range field) (text_lt s min_day) (text_lt ceiling s) t c
        (text_lt-parse_date s min_day t (2000, 1, 1) e min_day-parse_date)
        (text_lt-parse_date ceiling s c t hc e))

-- What validateOccurredOn answers for a text and a real ceiling: a text that is no calendar date
-- is an invalid argument, a date inside the window is accepted, any other date is out of range.
pub validate_occurred_on_lem :
    (field : String) (s ceiling : Text) (c : Day)
    → parse_date ceiling ≡ some c
    → ((parse_date s ≡ none)
        × (validate_occurred_on field s ceiling ≡ err (invalid_argument field)))
      ⊎ ((t : Day) × (parse_date s ≡ some t)
          × ((IsInWindow t c × (validate_occurred_on field s ceiling ≡ ok tt))
              ⊎ ((¬ (IsInWindow t c))
                  × (validate_occurred_on field s ceiling ≡ err (date_out_of_range field)))))
unfolding validate_occurred_on
validate_occurred_on_lem field s ceiling c hc = elim (Option-cases (parse_date s)) [
  | inl e ↦ inl (e, rw (e, validate_occurred_on))
  | inr (t, e) ↦ inr (t, e, validate_real field s ceiling t c hc e)
]
