-- ===== src/Transfers.antt =====
-- internal/ledger/transfer.go, purpose_move.go, purpose_correction.go: the movements that keep the
-- fund's total, each a transfer row with two transaction rows.
pub mod Pair
pub mod Moves
pub mod Accepted
pub mod MoveAccepted
pub mod Taken
pub mod PurposeMove
pub mod Correction
use uruni.Base.{ℕ, Bool, true, false, ◌&&◌, Option, none, some, List, ◌==◌, if◌then◌else◌, is_some}
use uruni.Base.Int.{pos, leb_ℤ, ltb_ℤ}
use uruni.Errors.{
  Err, Result, ok, err, refuse_if, or_err, invalid_argument, purpose_move_same_purpose,
  purpose_move_unknown_purpose, purpose_move_pass_through, purpose_move_closed,
  purpose_move_unknown_account, purpose_move_account_inactive, purpose_move_insufficient,
  purpose_correction_not_found, purpose_correction_opening, purpose_correction_dues,
  purpose_correction_reimbursement, purpose_correction_transfer, purpose_correction_reversal,
  purpose_correction_named_contribution, purpose_correction_already_reversed,
  purpose_correction_noop, purpose_correction_target_closed, purpose_correction_source_closed,
}
use uruni.Money.{Amount}
use uruni.Dates.{Text, entry, validate_occurred_on}
use uruni.Store.Rows.{
  Db, Account, Direction, direction_in, direction_out, direction_other, opening, normal, dues,
  reimbursement, adjustment, transfer, unknown, Transaction, TransactionParams, Transfer,
  TransferKind, between_accounts, reclass_purpose, Reason, allocation, Purpose, is_pass_through,
  is_out,
}
use uruni.Store.Action.{Env, Action, pure, ◌>>=◌, ◌>>◌, check, read, pool_read}
use uruni.Store.Queries.{
  get_account_for_fund, get_purpose_for_fund, get_transaction_for_fund, purpose_balance,
  effective_purpose_id, reversed,
}
use uruni.Store.Insert.{create_transaction, create_transfer}
use uruni.Tx.{Idempotency, Reply, transfer_codec, with_idempotency}
use uruni.Posting.{
  check_amount_ceiling, window_for, normalize_note, refuse_inactive_account,
  refuse_closed_incidental,
}

pub record Leg : Type 0 where
  pub account_id : ℕ
  pub purpose_id : ℕ

-- `legsIdentical`
abbrev pub legs_identical : Leg → Leg → Bool
legs_identical from to = (from.account_id == to.account_id) && (from.purpose_id == to.purpose_id)

pub record TransferPair : Type 0 where
  pub fund_id : ℕ
  pub kind : TransferKind
  pub from : Leg
  pub to : Leg
  pub amount : Amount
  pub occurred_on : Text
  pub note : Option Text
  pub corrects_transaction_id : Option ℕ
  pub reason : Option Reason

-- The row of one leg.
abbrev pub leg_params : Env → TransferPair → Transfer → Leg → Direction → TransactionParams
leg_params env pair t leg direction = record {
  fund_id = pair.fund_id;
  account_id = leg.account_id;
  purpose_id = leg.purpose_id;
  direction = direction;
  amount = pair.amount;
  occurred_on = pair.occurred_on;
  kind = transfer;
  member_id = none;
  dues_period = none;
  reimbursement_id = none;
  transfer_id = some t.id;
  dues_payment_id = none;
  reverses_transaction_id = none;
  note = pair.note;
  created_at = env.now;
}

-- `postTransferPairTx`
unfoldable pub post_transfer_pair : Env → TransferPair → Action Transfer
post_transfer_pair env pair = do
  t ← create_transfer pair.fund_id pair.kind pair.corrects_transaction_id pair.reason env.now
  create_transaction (leg_params env pair t pair.from direction_out)
  create_transaction (leg_params env pair t pair.to direction_in)
  pure t

pub record PostTransferBetweenAccountsParams : Type 0 where
  pub fund_id : ℕ
  pub purpose_id : ℕ
  pub from_account_id : ℕ
  pub to_account_id : ℕ
  pub amount : Amount
  pub occurred_on : Text
  pub note : Option Text
  pub idempotency : Option Idempotency

abbrev pub between_pair : PostTransferBetweenAccountsParams → TransferPair
between_pair p = record {
  fund_id = p.fund_id;
  kind = between_accounts;
  from = record { account_id = p.from_account_id; purpose_id = p.purpose_id };
  to = record { account_id = p.to_account_id; purpose_id = p.purpose_id };
  amount = p.amount;
  occurred_on = p.occurred_on;
  note = normalize_note p.note;
  corrects_transaction_id = none;
  reason = none;
}

-- The function that PostTransferBetweenAccounts gives to withIdempotency.
unfoldable pub post_between_tx : PostTransferBetweenAccountsParams → Env → Action Transfer
post_between_tx p env = do
  read (refuse_inactive_account p.fund_id p.from_account_id)
  read (refuse_inactive_account p.fund_id p.to_account_id)
  post_transfer_pair env (between_pair p)

-- `PostTransferBetweenAccounts`
unfoldable pub post_transfer_between_accounts :
    Env → PostTransferBetweenAccountsParams → Action (Reply Transfer)
post_transfer_between_accounts env p = do
  check (refuse_if (leb_ℤ p.amount (pos 0)) (invalid_argument "amount"))
  check (check_amount_ceiling "amount" p.amount)
  window ← pool_read env (window_for env p.fund_id)
  check (validate_occurred_on "occurred_on" p.occurred_on (entry window))
  check (
      refuse_if (legs_identical (between_pair p).from (between_pair p).to)
        (invalid_argument "to_account_id"))
  with_idempotency env transfer_codec p.idempotency (post_between_tx p)

pub record PostPurposeMoveParams : Type 0 where
  pub fund_id : ℕ
  pub from_purpose_id : ℕ
  pub to_purpose_id : ℕ
  pub account_id : ℕ
  pub amount : Amount
  pub occurred_on : Text
  pub note : Option Text
  pub idempotency : Option Idempotency

abbrev pub move_pair : PostPurposeMoveParams → TransferPair
move_pair p = record {
  fund_id = p.fund_id;
  kind = reclass_purpose;
  from = record { account_id = p.account_id; purpose_id = p.from_purpose_id };
  to = record { account_id = p.account_id; purpose_id = p.to_purpose_id };
  amount = p.amount;
  occurred_on = p.occurred_on;
  note = normalize_note p.note;
  corrects_transaction_id = none;
  reason = some allocation;
}

-- One turn of the loop over the two purposes.
unfoldable pub check_move_purpose : ℕ → ℕ → Action (Unit {0})
check_move_purpose fund id = do
  purpose ← read (λ db. or_err (get_purpose_for_fund id fund db) purpose_move_unknown_purpose)
  check (refuse_if (is_pass_through purpose.kind) purpose_move_pass_through)
  read (refuse_closed_incidental id purpose_move_closed)

-- The function that PostPurposeMove gives to withIdempotency.
unfoldable pub post_move_tx : PostPurposeMoveParams → Env → Action Transfer
post_move_tx p env = do
  check_move_purpose p.fund_id p.from_purpose_id
  check_move_purpose p.fund_id p.to_purpose_id
  account ←
      read
        (λ db. or_err (get_account_for_fund p.account_id p.fund_id db) purpose_move_unknown_account)
  check (refuse_if (is_some account.inactive_on) purpose_move_account_inactive)
  balance ← read (purpose_balance p.fund_id p.from_purpose_id)
  check (refuse_if (ltb_ℤ balance p.amount) purpose_move_insufficient)
  post_transfer_pair env (move_pair p)

-- `PostPurposeMove`
unfoldable pub post_purpose_move : Env → PostPurposeMoveParams → Action (Reply Transfer)
post_purpose_move env p = do
  check (refuse_if (leb_ℤ p.amount (pos 0)) (invalid_argument "amount"))
  check (check_amount_ceiling "amount" p.amount)
  window ← pool_read env (window_for env p.fund_id)
  check (validate_occurred_on "occurred_on" p.occurred_on (entry window))
  check (refuse_if (p.from_purpose_id == p.to_purpose_id) purpose_move_same_purpose)
  with_idempotency env transfer_codec p.idempotency (post_move_tx p)

pub record PostPurposeCorrectionParams : Type 0 where
  pub fund_id : ℕ
  pub transaction_id : ℕ
  pub purpose_id : ℕ
  pub idempotency : Option Idempotency

-- The switch on the original's kind.
unfoldable pub correction_refusal : Transaction → Result (Unit {0})
correction_refusal t = elim t.kind [
  | opening ↦ err purpose_correction_opening
  | dues ↦ err purpose_correction_dues
  | reimbursement ↦ err purpose_correction_reimbursement
  | transfer ↦ err purpose_correction_transfer
  | adjustment ↦ refuse_if (is_some t.reverses_transaction_id) purpose_correction_reversal
  | normal ↦ refuse_if (is_some t.member_id) purpose_correction_named_contribution
  | unknown ↦ ok tt
]

-- The pair that takes a row from its effective purpose to the target.
unfoldable pub correction_pair : PostPurposeCorrectionParams → Transaction → ℕ → TransferPair
correction_pair p original effective =
    let target : Leg = record { account_id = original.account_id; purpose_id = p.purpose_id } in
    let current : Leg = record { account_id = original.account_id; purpose_id = effective } in
    let from_target : Bool = is_out original.direction in
    record {
      fund_id = p.fund_id;
      kind = reclass_purpose;
      from = if from_target then target else current;
      to = if from_target then current else target;
      amount = original.amount;
      occurred_on = original.occurred_on;
      note = none;
      corrects_transaction_id = some p.transaction_id;
      reason = none;
    }

-- The function that PostPurposeCorrection gives to withIdempotency.
unfoldable pub post_correction_tx : PostPurposeCorrectionParams → Env → Action Transfer
post_correction_tx p env = do
  original ← read (λ db.
      or_err (get_transaction_for_fund p.fund_id p.transaction_id db) purpose_correction_not_found)
  check (correction_refusal original)
  read (λ db. refuse_if (reversed p.transaction_id db) purpose_correction_already_reversed)
  effective ← read (λ db. ok (effective_purpose_id original db))
  check (refuse_if (p.purpose_id == effective) purpose_correction_noop)
  read (refuse_closed_incidental p.purpose_id purpose_correction_target_closed)
  read (refuse_closed_incidental effective purpose_correction_source_closed)
  post_transfer_pair env (correction_pair p original effective)

-- `PostPurposeCorrection`
unfoldable pub post_purpose_correction : Env → PostPurposeCorrectionParams → Action (Reply Transfer)
post_purpose_correction env p =
    with_idempotency env transfer_codec p.idempotency (post_correction_tx p)
