-- ===== src/Dues/Status.antt =====
-- internal/ledger/dues_status.go: what a member owes, month by month. A map from a month to what was
-- paid, or to a waiver, is a function.
use uruni.Base.{
  ℕ, zero, suc, ◌+◌, ◌-◌, ◌*◌, Bool, true, false, ◌&&◌, ◌||◌, not, Option, none, some, List, [],
  ◌∷◌, map, ◌==◌, if◌then◌else◌, is_same, all, filter,
}
use uruni.Base.Int.{pos, leb_ℤ, ltb_ℤ}
use uruni.Errors.{Result, ok, err, bad_period, integer_overflow}
use uruni.Money.{Amount}
use uruni.Dates.{Text, text_lt, text_eq, take_month, parse_period, format_month}
use uruni.Store.Rows.{Db, Member, Transaction, is_dues}
use uruni.Store.Queries.{reversed}
use uruni.Store.Sums.{sum, sql_sum}
use uruni.Dues.Pricing.{Pricing, has_tier, price_at}

pub data DuesStatus : Type 0 where
  status_unpaid status_partial status_paid status_paid_in_advance status_waived : DuesStatus

-- `classifyDuesStatus`
unfoldable pub classify_dues_status : Amount → Amount → DuesStatus
classify_dues_status owed paid =
    if leb_ℤ owed paid
    then status_paid
    else (if ltb_ℤ (pos 0) paid then status_partial else status_unpaid)

-- `classifyDuesMonth`
unfoldable pub classify_dues_month : Amount → Amount → Bool → DuesStatus
unfolding classify_dues_status
classify_dues_month owed paid waived =
    if waived then status_waived else classify_dues_status owed paid

-- `memberOwesPeriod`
unfoldable pub member_owes_period : Member → Text → Bool
member_owes_period m period =
    not (text_lt period (take_month m.joined_on))
    && elim m.inactive_on [ none ↦ true | some day ↦ not (text_lt (take_month day) period) ]

abbrev pub is_square : DuesStatus → Bool
is_square status_paid = true
is_square status_waived = true
is_square _ = false

pub record OutstandingDuesPeriod : Type 0 where
  pub period : Text
  pub owed_amount : Amount
  pub paid_amount : Amount
  pub status : DuesStatus

module _ (member : Member) (prices : Pricing) (paid : Text → Amount) (waived : Text → Bool) where
  -- The body of the walk: what one month adds.
  unfoldable pub month_owed : Text → Option OutstandingDuesPeriod
  month_owed period = elim (price_at prices member.id period) [
    | none ↦ none
    | some (tier, owed) ↦
        let status = classify_dues_month owed (paid period) (waived period) in
        if not (member_owes_period member period) || is_square status
        then none
        else some (record {
          period = period;
          owed_amount = owed;
          paid_amount = paid period;
          status = status;
        })
  ]

  abbrev put :
      Option OutstandingDuesPeriod → List OutstandingDuesPeriod → List OutstandingDuesPeriod
  put none rest = rest
  put (some o) rest = o ∷ rest

  -- The loop over so many months from a first one.
  unfoldable pub outstanding_months : ℕ → ℕ → List OutstandingDuesPeriod
  outstanding_months zero month = []
  outstanding_months (suc count) month =
      put (month_owed (format_month (pos month))) (outstanding_months count (suc month))

  -- `outstandingDues`
  unfoldable pub outstanding_dues : Text → Result (List OutstandingDuesPeriod)
  outstanding_dues through =
      if not (has_tier prices member.id) || text_lt through (take_month member.joined_on)
      then ok []
      else elim (parse_period (take_month member.joined_on)) [
        | none ↦ err bad_period
        | some (y, m) ↦ elim (parse_period through) [
          | none ↦ err bad_period
          | some (z, n) ↦
              let first = y * 12 + m - 1 in
              let last = z * 12 + n - 1 in ok (outstanding_months (suc last - first) first)
        ]
      ]

-- A dues row of the member that was not taken back.
abbrev pub is_payment_of : ℕ → ℕ → Db → Transaction → Bool
is_payment_of fund member db t =
    (t.fund_id == fund)
    && is_same t.member_id (some member)
    && is_dues t.kind
    && not (reversed t.id db)

abbrev is_for : Text → Transaction → Bool
is_for period t = elim t.dues_period [ none ↦ false | some s ↦ text_eq s period ]

-- What the member paid toward a month, row by row.
abbrev pub payments_toward : ℕ → ℕ → Text → Db → List Amount
payments_toward fund member period db =
    map (λ (t : Transaction). t.amount)
      (filter (λ t. is_payment_of fund member db t && is_for period t) db.transactions)

abbrev sums : List Amount → Bool
sums amounts = elim (sql_sum (pos 0) amounts) [ ok v ↦ true | err e ↦ false ]

abbrev sums_month : ℕ → ℕ → Db → Transaction → Bool
sums_month fund member db t = elim t.dues_period [
  | none ↦ true
  | some period ↦ sums (payments_toward fund member period db)
]

-- DuesPaidByMemberGroupedByPeriod: a month without a row reads as nothing, and a month whose sum
-- overflows fails the query.
unfoldable pub dues_paid_by_member : ℕ → ℕ → Db → Result (Text → Amount)
dues_paid_by_member fund member db =
    if all (sums_month fund member db) (filter (is_payment_of fund member db) db.transactions)
    then ok (λ period. sum (payments_toward fund member period db))
    else err integer_overflow
