-- ===== src/Dues/Outstanding.antt =====
-- internal/ledger/dues_status.go: which months the walk of outstandingDues lists.
use uruni.Base.{
  ℕ, zero, suc, ◌+◌, ◌-◌, ◌*◌, ◌/◌, ◌%◌, ◌≤◌, ◌<◌, ◌≡◌, ◌↔◌, refl, sym, ap, ◌∙◌, subst, Bool, true,
  false, ◌&&◌, ◌||◌, Option, none, some, List, ◌∷◌, leb, ltb, arith, any, is_some, Option-cases,
  inl, inr,
}
use uruni.Base.Int.{ℤ, pos, ◌≤ℤ◌, ◌+ℤ◌}
use uruni.Errors.{ok}
use uruni.Money.{Amount}
use uruni.Dates.{Text, text_lt, text_eq, take_month, parse_period, format_month}
use uruni.Dates.Months.{parse_period-format_month, parse_period_year, parse_period_month}
use uruni.Dates.Window.{text_eq-eq, text_eq_refl}
use uruni.Store.Rows.{Member}
use uruni.Dues.Pricing.{Pricing, has_tier, price_at}
use uruni.Dues.Status.{
  classify_dues_status, classify_dues_month, member_owes_period, OutstandingDuesPeriod, month_owed,
  outstanding_months, outstanding_dues,
}

abbrev month_pair : ℕ → ℕ × ℕ
month_pair i = (i / 12, i % 12 + 1)

-- Two months with one text are one month.
format_month_injective :
    (i j : ℕ)
    → i < 120000
    → j < 120000
    → text_eq (format_month (pos i)) (format_month (pos j)) ≡ true
    → i ≡ j
format_month_injective i j hi hj h =
    let same : some (month_pair i) ≡ some (month_pair j) =
      sym (parse_period-format_month i hi)
      ∙ ap parse_period (text_eq-eq _ _ h)
      ∙ parse_period-format_month j hj in
    ground arith

-- One more month in front of a range, which is not owed, or is.
skip_month :
    (first i count : ℕ) (b : Bool)
    → (i ≡ first → b ≡ false)
    → (leb (suc first) i && ltb i (suc first + count) && b)
      ≡ (leb first i && ltb i (first + suc count) && b)
skip_month first i count b h = ground (arith, h)

list_month :
    (first i count : ℕ) (same b : Bool)
    → (i ≡ first → (b ≡ true) × (same ≡ true))
    → (same ≡ true → i ≡ first)
    → (same || (leb (suc first) i && ltb i (suc first + count) && b))
      ≡ (leb first i && ltb i (first + suc count) && b)
list_month first i count true b h k = ground (arith, h, k)
list_month first i count false b h k = ground (arith, h)

is_some-some {ℓ} : {A : Type ℓ} (o : Option A) → is_some o ≡ true → (a : A) × (o ≡ some a)
is_some-some none h = ground arith
is_some-some (some a) h = (a, refl)

-- A parsed month lies before the year 10000.
parse_period_small :
    (s : Text) (y m : ℕ) → parse_period s ≡ some (y, m) → (y * 12 + m ≤ 120000) × (1 ≤ m)
parse_period_small s y m p = omega (arith, parse_period_year s (y, m) p, parse_period_month s y m p)

-- The list holds a month.
abbrev pub lists : List OutstandingDuesPeriod → Text → Bool
lists rows period = any (λ (o : OutstandingDuesPeriod). text_eq o.period period) rows

module _ (member : Member) (prices : Pricing) (paid : Text → Amount) (waived : Text → Bool) where
  -- The member owes the month: it lies in the member's window, it has a price, it is not waived, and
  -- less than the price was paid toward it.
  abbrev pub IsOwed : Text → Type 0
  IsOwed period =
      (price : ℕ × ℤ) × (price_at prices member.id period ≡ some price)
      × (member_owes_period member period ≡ true)
      × (waived period ≡ false)
      × (paid period +ℤ pos 1 ≤ℤ price.1)

  abbrev owed_at : Text → Option OutstandingDuesPeriod
  owed_at = month_owed member prices paid waived

  owed_period :
      (period : Text) (o : OutstandingDuesPeriod) → owed_at period ≡ some o → o.period ≡ period
  unfolding month_owed classify_dues_month classify_dues_status
  owed_period period o h = ground arith

  owed_at-IsOwed :
      (period : Text) (o : OutstandingDuesPeriod) → owed_at period ≡ some o → IsOwed period
  unfolding month_owed classify_dues_month classify_dues_status ◌+ℤ◌
  owed_at-IsOwed period o h = elim (Option-cases (price_at prices member.id period)) [
    | inl e ↦ ground arith
    | inr (price, e) ↦ (price, e, ground arith, ground arith, ground arith)
  ]

  IsOwed-owed_at : (period : Text) → IsOwed period → is_some (owed_at period) ≡ true
  unfolding month_owed classify_dues_month classify_dues_status ◌+ℤ◌
  IsOwed-owed_at period (price, e, window, kept, less) = ground arith

  -- The walk lists exactly the months between its bounds that are owed.
  walk_lists :
      (count first i : ℕ)
      → i < 120000
      → first + count ≤ 120000
      → lists (outstanding_months member prices paid waived count first) (format_month (pos i))
        ≡ (leb first i && ltb i (first + count) && is_some (owed_at (format_month (pos i))))
  unfolding outstanding_months
  walk_lists zero first i hi hn = ground arith
  walk_lists (suc count) first i hi hn =
      let rest = walk_lists count (suc first) i hi (omega arith) in
      elim (Option-cases (owed_at (format_month (pos first)))) [
        | inl e ↦ rw e (skip e rest)
        | inr (o, e) ↦ rw e (listed o e rest)
      ]
    where
      skip :
          owed_at (format_month (pos first)) ≡ none
          → lists
              (outstanding_months member prices paid waived count (suc first))
              (format_month (pos i))
            ≡ (leb (suc first) i
                && ltb i (suc first + count)
                && is_some (owed_at (format_month (pos i))))
          → lists
              (outstanding_months member prices paid waived count (suc first))
              (format_month (pos i))
            ≡ (leb first i && ltb i (first + suc count) && is_some (owed_at (format_month (pos i))))
      skip e rest = rest ∙ skip_month first i count _ (λ same. rw (same, e) refl)

      listed :
          (o : OutstandingDuesPeriod)
          → owed_at (format_month (pos first)) ≡ some o
          → lists
              (outstanding_months member prices paid waived count (suc first))
              (format_month (pos i))
            ≡ (leb (suc first) i
                && ltb i (suc first + count)
                && is_some (owed_at (format_month (pos i))))
          → lists
              (o ∷ outstanding_months member prices paid waived count (suc first))
              (format_month (pos i))
            ≡ (leb first i && ltb i (first + suc count) && is_some (owed_at (format_month (pos i))))
      listed o e rest =
          let at : o.period ≡ format_month (pos first) = owed_period _ o e in
          rw rest (
            list_month first i count (text_eq o.period (format_month (pos i))) _
              (λ same. rw (same, e, at) (refl, text_eq_refl (format_month (pos first))))
              (λ same. sym (
                format_month_injective first i (omega arith) hi
                  (subst (λ s. text_eq s (format_month (pos i)) ≡ true) at same))))

  verdict :
      (period : Text) (first last i count : ℕ)
      → count ≡ suc last - first
      → ((leb first i && ltb i (first + count) && is_some (owed_at period)) ≡ true)
        ↔ ((first ≤ i) × (i ≤ last) × IsOwed period)
  verdict period first last i count size = (
    λ h.
        let (o, e) = is_some-some (owed_at period) (ground arith) in
        (ground arith, ground arith, owed_at-IsOwed period o e),
    λ (lo, hi, owes). let b = IsOwed-owed_at period owes in ground arith,
  )

  -- outstandingDues, for a member with a tier and two months that the calendar has, lists exactly
  -- the months from the member's first to the last asked for that the member owes: inside the
  -- member's window, with a price, not waived, and with less than the price paid.
  pub outstanding_dues_lem :
      (through : Text) (rows : List OutstandingDuesPeriod) (y m z n i : ℕ)
      → has_tier prices member.id ≡ true
      → parse_period (take_month member.joined_on) ≡ some (y, m)
      → parse_period through ≡ some (z, n)
      → text_lt through (take_month member.joined_on) ≡ false
      → i < 120000
      → outstanding_dues member prices paid waived through ≡ ok rows
      → (lists rows (format_month (pos i)) ≡ true)
        ↔ ((y * 12 + m - 1 ≤ i) × (i ≤ z * 12 + n - 1) × IsOwed (format_month (pos i)))
  unfolding outstanding_dues
  outstanding_dues_lem through rows y m z n i tier start end ordered hi h =
      let first = y * 12 + m - 1 in
      let count = suc (z * 12 + n - 1) - first in
      let walked : rows ≡ outstanding_months member prices paid waived count first = ground arith in
      let (begun, _) = parse_period_small _ y m start in
      let (ended, after_it) = parse_period_small _ z n end in
      let found = walk_lists count first i hi (omega arith) in
      rw (walked, found) (verdict (format_month (pos i)) first (z * 12 + n - 1) i count refl)
