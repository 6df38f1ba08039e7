-- ===== src/Examples/Claims.antt =====
-- Claims, counts and envelopes on the fund.
use uruni.Base.{
  ℕ, ◌==◌, ◌≡◌, refl, Bool, true, false, Option, none, some, [], ◌∷◌, ◌++◌, inl, arith,
}
use uruni.Base.Int.{pos, ◌-ℤ◌}
use uruni.Errors.{Result, ok, err}
use uruni.Dates.{codes, Text}
use uruni.Store.Rows.{
  Db, Account, cash, Reimbursement, Transaction, direction_out, matched, adjusted, Incidental,
  normal,
}
use uruni.Store.Action.{mark}
use uruni.Store.Insert.{new_transaction, add_transaction}
use uruni.Store.Balance.{total}
use uruni.Store.Queries.{in_fund}
use uruni.Reimbursement.{
  SettleReimbursementParams, settlement_params, settle_reimbursement, UpdateReimbursementParams,
}
use uruni.Reimbursement.Settle.{Settled, settle_reimbursement_lem, owed, settle_reimbursement-owed}
use uruni.Reimbursement.Claims.{IsFinal, settle_reimbursement_once}
use uruni.Reimbursement.Paid.{SaysPayout, settle_reimbursement_succeeds}
use uruni.Reconciliation.{TakeReconciliationParams}
use uruni.Reconciliation.Count.{take_reconciliation}
use uruni.Reconciliation.Snapshot.{Snapshot}
use uruni.Envelope.{CloseIncidentalAndRollParams, roll_pair, close_incidental_and_roll}
use uruni.Envelope.Lifecycle.{
  Rolled, Lifecycle, close_incidental_and_roll_lem, reopen_incidental_lem,
}
use uruni.Dues.Payment.{main_purpose_id}
use uruni.Transfers.Pair.{with_pair}
use uruni.Transfers.Accepted.{pair_transfer}
use uruni.Examples.Data.{today, plain_row, db, dues_db, env}

abbrev is_ok {ℓ} : {A : Type ℓ} → Result A → Bool
is_ok (ok a) = true
is_ok (err e) = false

abbrev claim : Reimbursement
claim = record {
  id = 1;
  fund_id = 1;
  member_id = 1;
  purpose_id = 1;
  amount = pos 120000;
  incurred_on = codes "2026-07-10";
  waived_on = none;
  note = some (codes "konsumsi");
  created_at = 1785000000;
}

-- The fund with one member and one claim.
abbrev claim_db : Db
claim_db = record db { members = dues_db.members; reimbursements = claim ∷ [] }

abbrev settle_args : SettleReimbursementParams
settle_args = record {
  fund_id = 1;
  reimbursement_id = 1;
  account_id = 1;
  occurred_on = codes "2026-07-30";
}

abbrev payout : Transaction
payout = new_transaction (settlement_params (mark env) settle_args claim) claim_db

was_paid :
    settle_reimbursement env settle_args claim_db ≡ (ok payout, add_transaction payout claim_db)
unfolding settle_reimbursement uruni.Store.Action.pool_read uruni.Store.Action.with_tx
    uruni.Posting.window_for uruni.Dates.validate_occurred_on uruni.Dates.parse_date
    uruni.Dates.format_date uruni.Dates.put_year uruni.Dates.put_two
    uruni.Reimbursement.settle_reimbursement_tx uruni.Reimbursement.unsettled_claim
    uruni.Posting.refuse_inactive_account uruni.Posting.refuse_closed_incidental
    uruni.Store.Insert.create_transaction uruni.Store.Insert.accepts
    uruni.Store.Insert.column_checks uruni.Store.Insert.kind_shape uruni.Dates.parse_period
    uruni.Store.Insert.foreign_keys uruni.Store.Insert.named_row_shape
    uruni.Store.Insert.unique_indexes uruni.Store.Queries.max_id
was_paid = refl

settle_reimbursement_lem_example :
    Settled settle_args claim_db payout (add_transaction payout claim_db)
settle_reimbursement_lem_example =
    settle_reimbursement_lem env settle_args claim_db payout (add_transaction payout claim_db)
      was_paid

settle_reimbursement-owed_example :
    total (in_fund 1) (add_transaction payout claim_db) -ℤ owed 1 (add_transaction payout claim_db)
    ≡ total (in_fund 1) claim_db -ℤ owed 1 claim_db
settle_reimbursement-owed_example =
    settle_reimbursement-owed env settle_args claim_db payout (add_transaction payout claim_db)
      was_paid (tt, tt)

abbrev cash_account : Account
cash_account = record {
  id = 1;
  fund_id = 1;
  kind = cash;
  name = codes "Kas";
  created_at = 1785000000;
  inactive_on = none;
}

settle_reimbursement_succeeds_example :
    (t : Transaction) × (settle_reimbursement env settle_args claim_db
      ≡ (ok t, record claim_db { transactions = claim_db.transactions ++ (t ∷ []) }))
    × SaysPayout settle_args claim t
unfolding uruni.Posting.window_for uruni.Dates.validate_occurred_on uruni.Dates.parse_date
    uruni.Dates.format_date uruni.Dates.put_year uruni.Dates.put_two
settle_reimbursement_succeeds_example =
    settle_reimbursement_succeeds env settle_args claim_db claim (record { today = today })
      cash_account refl refl refl refl refl refl (ground arith) (ground arith) refl (inl refl) refl
      refl

settle_reimbursement_once_example : IsFinal env settle_args (add_transaction payout claim_db)
settle_reimbursement_once_example =
    settle_reimbursement_once env env settle_args claim_db payout (add_transaction payout claim_db)
      was_paid

-- The claim's amount is corrected and its note taken away.
abbrev change : UpdateReimbursementParams
change = record {
  fund_id = 1;
  reimbursement_id = 1;
  member_id = none;
  purpose_id = none;
  amount = some (pos 150000);
  incurred_on = some (codes "2026-07-10");
  note = none;
  set_note = true;
  waived_on = none;
  set_waived_on = false;
}

-- The cash is short by 25,000, which a plug squares; the bank is as recorded.
abbrev pub count_args : TakeReconciliationParams
count_args = record {
  fund_id = 1;
  note = none;
  counts =
      record {
        account_id = 1;
        actual_amount = pos 975000;
        resolution = adjusted;
        fix = some (record {
          purpose_id = 1;
          direction = direction_out;
          amount = pos 25000;
          occurred_on = codes "2026-07-31";
          note = none;
        });
      }
      ∷ record { account_id = 2; actual_amount = pos 0; resolution = matched; fix = none }
      ∷ [];
  idempotency = none;
}

-- The count is taken.
count_answers : is_ok (take_reconciliation env count_args db).0 ≡ true
unfolding take_reconciliation uruni.Reconciliation.validate_take_reconciliation_params
    uruni.Reconciliation.validate_counts uruni.Reconciliation.check_resolution
    uruni.Reconciliation.check_fix uruni.Tx.with_idempotency uruni.Tx.keyed
    uruni.Reconciliation.Count.take_reconciliation_tx
    uruni.Reconciliation.require_every_active_location_counted uruni.Reconciliation.scan_counts
    uruni.Store.Queries.max_transaction_id_by_fund uruni.Reconciliation.Count.take_counts
    uruni.Reconciliation.Count.take_count uruni.Reconciliation.Count.post_fix
    uruni.Reconciliation.check_plug uruni.Reconciliation.signed_fix_amount
    uruni.Reconciliation.recorded_amount uruni.Store.Queries.account_balance_through
    uruni.Reconciliation.Count.create_reconciliation uruni.Reconciliation.Count.create_lines
    uruni.Reconciliation.Count.create_reconciliation_line uruni.Reconciliation.Count.line_checks
    uruni.Reconciliation.Count.max_line_id uruni.Reconciliation.Count.max_reconciliation_id
    uruni.Posting.normalize_note uruni.Posting.refuse_closed_incidental uruni.Store.Action.pool_read
    uruni.Store.Action.with_tx uruni.Posting.window_for uruni.Dates.validate_occurred_on
    uruni.Dates.parse_date uruni.Dates.format_date uruni.Dates.put_year uruni.Dates.put_two
    uruni.Store.Sums.sql_sum uruni.Base.Int.◌+ℤ◌ uruni.Money.sub uruni.Money.wrap
    uruni.Base.Int.neg_ℤ uruni.Base.Int.◌-ℤ◌ uruni.Store.Insert.create_transaction
    uruni.Store.Insert.accepts uruni.Store.Insert.column_checks uruni.Store.Insert.kind_shape
    uruni.Dates.parse_period uruni.Store.Insert.foreign_keys uruni.Store.Insert.named_row_shape
    uruni.Store.Insert.unique_indexes uruni.Store.Queries.max_id
count_answers = refl

-- An envelope with 75,000 in it is closed.
abbrev envelope_db : Db
envelope_db = record db {
  transactions =
      record { id = 1; params = record (plain_row 1 2 normal) { amount = pos 75000 } } ∷ [];
}

abbrev pub close_args : CloseIncidentalAndRollParams
close_args = record {
  fund_id = 1;
  purpose_id = 2;
  account_id = 1;
  closed_on = codes "2026-07-31";
  note = none;
}

abbrev closed_envelope : Incidental
closed_envelope = record {
  purpose_id = 2;
  opened_on = codes "2026-06-01";
  closed_on = some (codes "2026-07-31");
  minimum_per_member = none;
}

abbrev rolled_db : Db
rolled_db =
    let pair = roll_pair close_args 2 1 (pos 75000) in
    record (with_pair (mark env) pair (pair_transfer (mark env) pair envelope_db) envelope_db) {
      incidentals = closed_envelope ∷ [];
    }

main_apart : (main_id : ℕ) → main_purpose_id 1 envelope_db ≡ ok main_id → (main_id == 2) ≡ false
unfolding main_purpose_id
main_apart main_id h = ground arith

was_closed : close_incidental_and_roll env close_args envelope_db ≡ (ok (pos 75000), rolled_db)
unfolding close_incidental_and_roll uruni.Store.Action.pool_read uruni.Store.Action.with_tx
    uruni.Posting.window_for uruni.Dates.validate_occurred_on uruni.Dates.parse_date
    uruni.Dates.format_date uruni.Dates.put_year uruni.Dates.put_two
    uruni.Envelope.close_and_roll_tx uruni.Envelope.get_incidental uruni.Envelope.collected_amount
    uruni.Envelope.disbursed_amount uruni.Envelope.cover_shortfall uruni.Envelope.roll_leftover
    uruni.Envelope.set_closed_on uruni.Envelope.square_envelope main_purpose_id
    uruni.Posting.normalize_note uruni.Posting.trim_left uruni.Posting.trim_right
    uruni.Store.Insert.create_transfer uruni.Store.Insert.max_transfer_id
    uruni.Store.Insert.transfer_checks uruni.Transfers.post_transfer_pair uruni.Store.Sums.sql_sum
    uruni.Base.Int.◌+ℤ◌ uruni.Money.sub uruni.Money.wrap uruni.Base.Int.neg_ℤ uruni.Base.Int.◌-ℤ◌
    uruni.Posting.refuse_inactive_account uruni.Store.Insert.create_transaction
    uruni.Store.Insert.accepts uruni.Store.Insert.column_checks uruni.Store.Insert.kind_shape
    uruni.Dates.parse_period uruni.Store.Insert.foreign_keys uruni.Store.Insert.named_row_shape
    uruni.Store.Insert.unique_indexes uruni.Store.Queries.max_id
was_closed = refl

close_incidental_and_roll_lem_example : Rolled close_args envelope_db (pos 75000) rolled_db
close_incidental_and_roll_lem_example =
    close_incidental_and_roll_lem env close_args envelope_db (pos 75000) rolled_db main_apart
      was_closed

reopen_incidental_lem_example : Lifecycle env 1 2 rolled_db closed_envelope
unfolding uruni.Envelope.get_incidental
reopen_incidental_lem_example = reopen_incidental_lem env 1 2 rolled_db closed_envelope refl refl
