-- ===== src/Reconciliation.antt =====
-- internal/ledger/reconciliation.go and its queries: a count of the real money, frozen beside what
-- the ledger recorded up to a cutoff.
pub mod Count
pub mod Taken
pub mod Distinct
pub mod Lines
pub mod Complete
pub mod Snapshot
use uruni.Base.{
  ℕ, suc, Bool, true, false, ◌&&◌, ◌||◌, not, Option, none, some, List, [], ◌∷◌, ◌++◌, leb, ltb,
  ◌==◌, if◌then◌else◌, is_same, is_some, any, all, find?,
}
use uruni.Base.Int.{ℤ, pos, ◌-ℤ◌, ◌==ℤ◌, leb_ℤ, ltb_ℤ, neg_ℤ}
use uruni.Errors.{
  Err, Result, ok, err, refuse_if, invalid_argument, account_inactive, incidental_closed,
  reconciliation_missing_location, reconciliation_plug_mismatch, or_err, amount_overflow, ◌>>=◌,
  ◌>>◌,
}
use uruni.Money.{Amount, max_amount, sub}
use uruni.Dates.{Text, DateWindow, entry, validate_occurred_on}
use uruni.Store.Rows.{
  Db, Account, Transaction, TransactionParams, Direction, direction_in, direction_out,
  direction_other, is_in, is_out, Resolution, matched, entry_added, adjusted, left_open,
  unrecognised, normal, adjustment, Reconciliation, ReconciliationLine,
}
use uruni.Store.Action as A
use uruni.Store.Action.{Env, Action, pure, check, read, pool_read}
use uruni.Store.Queries.{account_balance_through, max_transaction_id_by_fund, list_accounts_by_fund}
use uruni.Store.Insert.{create_transaction, references}
use uruni.Tx.{Idempotency, Reply, reconciliation_codec, with_idempotency}
use uruni.Posting.{check_amount_ceiling, window_for, refuse_closed_incidental, normalize_note}

-- `Fix`: the entry that squares a line.
pub record Fix : Type 0 where
  pub purpose_id : ℕ
  pub direction : Direction
  pub amount : Amount
  pub occurred_on : Text
  pub note : Option Text

pub record AccountCount : Type 0 where
  pub account_id : ℕ
  pub actual_amount : Amount
  pub resolution : Resolution
  pub fix : Option Fix

pub record TakeReconciliationParams : Type 0 where
  pub fund_id : ℕ
  pub note : Option Text
  pub counts : List AccountCount
  pub idempotency : Option Idempotency

-- `lineInput`
pub record LineInput : Type 0 where
  pub account_id : ℕ
  pub recorded_amount : Amount
  pub actual_amount : Amount
  pub diff : Amount
  pub resolution : Resolution
  pub adjustment_transaction_id : Option ℕ

-- `SignedFixAmount`
unfoldable pub signed_fix_amount : Fix → Result Amount
signed_fix_amount f = elim f.direction [
  | direction_in ↦ ok f.amount
  | direction_out ↦ or_err (sub (pos 0) f.amount) amount_overflow
  | direction_other ↦ err (invalid_argument "counts.fix.direction")
]

abbrev pub is_matched : Resolution → Bool
is_matched matched = true
is_matched _ = false

abbrev pub is_adjusted : Resolution → Bool
is_adjusted adjusted = true
is_adjusted _ = false

-- The fixes that a resolution allows, and their checks.
unfoldable pub check_fix : DateWindow → Fix → Result (Unit {0})
check_fix window f = do
  refuse_if (leb_ℤ f.amount (pos 0)) (invalid_argument "counts.fix.amount")
  check_amount_ceiling "fix amount" f.amount
  refuse_if (not (is_in f.direction) && not (is_out f.direction))
      (invalid_argument "counts.fix.direction")
  validate_occurred_on "counts.fix.occurred_on" f.occurred_on (entry window)

unfoldable pub check_resolution : DateWindow → Resolution → Option Fix → Result (Unit {0})
check_resolution window matched none = ok tt
check_resolution window matched (some f) = err (invalid_argument "counts.fix")
check_resolution window left_open none = ok tt
check_resolution window left_open (some f) = err (invalid_argument "counts.fix")
check_resolution window adjusted none = err (invalid_argument "counts.fix")
check_resolution window adjusted (some f) = check_fix window f
check_resolution window entry_added none = err (invalid_argument "counts.fix")
check_resolution window entry_added (some f) = check_fix window f
check_resolution window unrecognised fix = err (invalid_argument "counts.resolution")

-- The loop of validateTakeReconciliationParams; `seen` holds the locations counted so far.
unfoldable pub validate_counts : DateWindow → List ℕ → List AccountCount → Result (Unit {0})
validate_counts window seen [] = ok tt
validate_counts window seen (c ∷ counts) =
    let rest = validate_counts window (c.account_id ∷ seen) counts in
    (do
      refuse_if (any (λ id. id == c.account_id) seen) (invalid_argument "counts.account_id")
      refuse_if (ltb_ℤ c.actual_amount (pos 0)) (invalid_argument "counts.actual_amount")
      check_amount_ceiling "actual_amount" c.actual_amount
      check_resolution window c.resolution c.fix
      rest)

-- `validateTakeReconciliationParams`
unfoldable pub validate_take_reconciliation_params :
    TakeReconciliationParams → DateWindow → Result (Unit {0})
validate_take_reconciliation_params p window = elim p.counts [
  | [] ↦ err (invalid_argument "counts")
  | c ∷ counts ↦ validate_counts window [] (c ∷ counts)
]

-- The first loop of requireEveryActiveLocationCounted: whether a count names no location of the
-- fund.
unfoldable pub scan_counts : List Account → List AccountCount → Result Bool
scan_counts accounts [] = ok false
scan_counts accounts (c ∷ counts) =
    let rest = scan_counts accounts counts in
    elim (find? (λ (a : Account). a.id == c.account_id) accounts) [
      | none ↦ rest >>= λ foreign. ok true
      | some a ↦ if is_some a.inactive_on then err account_inactive else rest
    ]

abbrev pub is_counted : List AccountCount → ℕ → Bool
is_counted counts id = any (λ (c : AccountCount). c.account_id == id) counts

-- `requireEveryActiveLocationCounted`
unfoldable pub require_every_active_location_counted :
    TakeReconciliationParams → Db → Result (Unit {0})
require_every_active_location_counted p db =
    let accounts = list_accounts_by_fund p.fund_id db in
    scan_counts accounts p.counts >>= λ foreign.
    refuse_if
      (not foreign
        && any (λ (a : Account). not (is_some a.inactive_on) && not (is_counted p.counts a.id))
            accounts)
      reconciliation_missing_location

-- What the ledger recorded at a location up to the cutoff; nothing on an empty ledger.
unfoldable pub recorded_amount : ℕ → ℕ → Option ℕ → Db → Result Amount
recorded_amount fund account none db = ok (pos 0)
recorded_amount fund account (some cutoff) db = account_balance_through fund account cutoff db

-- A plug must equal the difference that it says it squares.
unfoldable pub check_plug : Resolution → Fix → Amount → Result (Unit {0})
check_plug resolution f diff =
    if is_adjusted resolution
    then (signed_fix_amount f >>= λ signed.
        refuse_if (not (signed ==ℤ diff)) reconciliation_plug_mismatch)
    else ok tt

abbrev pub fix_params : Env → ℕ → AccountCount → Fix → TransactionParams
fix_params env fund c f = record {
  fund_id = fund;
  account_id = c.account_id;
  purpose_id = f.purpose_id;
  direction = f.direction;
  amount = f.amount;
  occurred_on = f.occurred_on;
  kind = if is_adjusted c.resolution then adjustment else normal;
  member_id = none;
  dues_period = none;
  reimbursement_id = none;
  transfer_id = none;
  dues_payment_id = none;
  reverses_transaction_id = none;
  note = normalize_note f.note;
  created_at = env.now;
}
