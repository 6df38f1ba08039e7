-- ===== src/Dues/Payment.antt =====
-- internal/ledger/dues.go: PostDuesPayments and what it uses of the queries on waivers, purposes and
-- payments. A payment of several months is one header and one row for each month.
use uruni.Base.{
  ℕ, Bool, ◌&&◌, Option, none, some, List, [], ◌∷◌, ◌==◌, if◌then◌else◌, any, filter, find?,
}
use uruni.Base.Int.{pos, leb_ℤ}
use uruni.Errors.{
  Result, ok, err, refuse_if, invalid_argument, dues_period_waived, no_main_purpose, ◌>>◌,
}
use uruni.Money.{Amount}
use uruni.Dates.{Text, text_eq, DateWindow, window_dues, validate_dues_period}
use uruni.Store.Rows.{Db, Purpose, is_main, DuesWaiver, TransactionParams, direction_in, dues}
use uruni.Store.Action.{Env}
use uruni.Tx.{Idempotency}
use uruni.Posting.{check_amount_ceiling, normalize_note}

pub record PeriodAmount : Type 0 where
  pub dues_period : Text
  pub amount : Amount

pub record PostDuesPaymentsParams : Type 0 where
  pub fund_id : ℕ
  pub account_id : ℕ
  pub member_id : ℕ
  pub occurred_on : Text
  pub note : Option Text
  pub periods : List PeriodAmount
  pub idempotency : Option Idempotency

-- The loop that checks the months.
unfoldable pub check_periods : DateWindow → List PeriodAmount → Result (Unit {0})
check_periods window [] = ok tt
check_periods window (period ∷ periods) =
    let rest = check_periods window periods in
    (do
      refuse_if (leb_ℤ period.amount (pos 0)) (invalid_argument "periods.amount")
      check_amount_ceiling "amount" period.amount
      validate_dues_period "dues_period" period.dues_period (window_dues window)
      rest)

-- ListDuesWaiversByMember
abbrev pub waivers_of : ℕ → ℕ → Db → List DuesWaiver
waivers_of fund member db =
    filter (λ (w : DuesWaiver). (w.fund_id == fund) && (w.member_id == member)) db.dues_waivers

-- `foldWaivers`, asked for one month of one member's waivers.
abbrev pub is_waived : List DuesWaiver → Text → Bool
is_waived waivers period = any (λ (w : DuesWaiver). text_eq w.dues_period period) waivers

unfoldable pub refuse_waived : List DuesWaiver → List PeriodAmount → Result (Unit {0})
refuse_waived waivers [] = ok tt
refuse_waived waivers (period ∷ periods) =
    let rest = refuse_waived waivers periods in
    if is_waived waivers period.dues_period then err dues_period_waived else rest

-- `refuseWaivedPeriods`
unfoldable pub refuse_waived_periods : PostDuesPaymentsParams → Db → Result (Unit {0})
refuse_waived_periods p db = refuse_waived (waivers_of p.fund_id p.member_id db) p.periods

-- `mainPurposeID`
unfoldable pub main_purpose_id : ℕ → Db → Result ℕ
main_purpose_id fund db =
    elim (find? (λ (q : Purpose). (q.fund_id == fund) && is_main q.kind) db.purposes) [
      | none ↦ err no_main_purpose
      | some q ↦ ok q.id
    ]

-- The row of one month.
abbrev pub month_params : Env → PostDuesPaymentsParams → ℕ → ℕ → PeriodAmount → TransactionParams
month_params env p payment purpose period = record {
  fund_id = p.fund_id;
  account_id = p.account_id;
  purpose_id = purpose;
  direction = direction_in;
  amount = period.amount;
  occurred_on = p.occurred_on;
  kind = dues;
  member_id = some p.member_id;
  dues_period = some period.dues_period;
  reimbursement_id = none;
  transfer_id = none;
  dues_payment_id = some payment;
  reverses_transaction_id = none;
  note = normalize_note p.note;
  created_at = env.now;
}
