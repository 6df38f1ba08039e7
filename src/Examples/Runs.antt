-- ===== src/Examples/Runs.antt =====
-- Runs on the fund, and the theorems on the operations at them.
use uruni.Base.{◌≡◌, refl, Bool, true, false, some, arith}
use uruni.Errors.{Result, ok, err}
use uruni.Store.Action.{Post, pure, mark, with_tx, pool_read}
use uruni.Store.Queries.{
  in_fund, in_account, in_purpose, fund_balance, account_balance, purpose_balance,
}
use uruni.Dates.{parse_date}
use uruni.Store.Insert.{
  create_transaction, accepts, column_checks, kind_shape, foreign_keys, named_row_shape,
  unique_indexes,
}
use uruni.Store.Balance.{total, balances_total}
use uruni.Tx.{transaction_codec, transfer_codec, with_idempotency}
use uruni.Tx.Repeat.{repeat_answer, with_idempotency-repeat}
use uruni.Tx.{
  Idempotency, add_key, key_record, write_and_record, create_idempotency_key, key_accepted,
}
use uruni.Tx.Replay.{Answered, with_idempotency-Post}
use uruni.Posting.{post_transaction}
use uruni.Posting.Entries.{EntryPosted, IsEntry, post_transaction_lem}
use uruni.Transfers.{post_transfer_between_accounts, post_purpose_move, post_purpose_correction}
use uruni.Transfers.Moves.{BetweenPosted, post_transfer_between_accounts_lem}
use uruni.Transfers.PurposeMove.{MovePosted, post_purpose_move_lem}
use uruni.Transfers.Correction.{CorrectionPosted, post_purpose_correction_lem}
use uruni.Reversal.Post.{reverse_dues_payment}
use uruni.Reversal.Payment.{PaymentReversed, reverse_dues_payment_lem}
use uruni.Reversal.Refusal.{dues_payment_refusal, months_refusal, reversal_refusal, kind_refusal}
use uruni.Reversal.Post.{
  reverse_dues_payment_tx, list_dues_payment_reversal_targets, sort_by_period, insert_by_period,
  target_of, post_reversals,
}
use uruni.Posting.{window_for, normalize_note}
use uruni.Store.Queries.{effective_purpose_id, leg_sum, max_id}
use uruni.Dates.{parse_period}
use uruni.Base.Int.{◌+ℤ◌}
use uruni.Dates.{validate_occurred_on, format_date, put_year, put_two}
use uruni.Store.Sums.{sql_sum}
use uruni.Store.Insert.{create_transfer, max_transfer_id, transfer_checks}
use uruni.Tx.{keyed}
use uruni.Posting.{refuse_closed_incidental}
use uruni.Transfers.{
  post_move_tx, check_move_purpose, post_transfer_pair, post_correction_tx, correction_refusal,
  correction_pair,
}
use uruni.Examples.Data.{
  opening_row, key, dues_db, payment_args, env, db, entry_args, between_args, move_args,
  correction_args, normal_row,
}

abbrev is_ok {ℓ} : {A : Type ℓ} → Result A → Bool
is_ok (ok a) = true
is_ok (err e) = false

post_transaction_lem_example : Post (post_transaction env entry_args db) (λ reply after.
    IsEntry env entry_args db
    × Answered transaction_codec entry_args.idempotency db
        (EntryPosted (mark env) entry_args db)
        reply
        after)
post_transaction_lem_example = post_transaction_lem env entry_args db

post_transfer_between_accounts_lem_example :
    Post
      (post_transfer_between_accounts env between_args db)
      (Answered transfer_codec between_args.idempotency db (BetweenPosted between_args db))
post_transfer_between_accounts_lem_example = post_transfer_between_accounts_lem env between_args db

post_purpose_move_lem_example :
    Post
      (post_purpose_move env move_args db)
      (Answered transfer_codec move_args.idempotency db (MovePosted move_args db))
post_purpose_move_lem_example = post_purpose_move_lem env move_args db

post_purpose_correction_lem_example :
    Post
      (post_purpose_correction env correction_args db)
      (Answered transfer_codec correction_args.idempotency db (CorrectionPosted correction_args db))
post_purpose_correction_lem_example =
    post_purpose_correction_lem env correction_args db (refl, (refl, tt))

reverse_dues_payment_lem_example :
    Post
      (reverse_dues_payment env payment_args dues_db)
      (PaymentReversed (mark env) payment_args dues_db)
reverse_dues_payment_lem_example = reverse_dues_payment_lem env payment_args dues_db

-- The call answers: July is reversed, June stays as it was.
reverse_dues_payment_answers : is_ok (reverse_dues_payment env payment_args dues_db).0 ≡ true
unfolding reverse_dues_payment with_tx reverse_dues_payment_tx list_dues_payment_reversal_targets
    sort_by_period insert_by_period window_for dues_payment_refusal months_refusal target_of
    reversal_refusal kind_refusal effective_purpose_id leg_sum post_reversals create_transaction
    accepts column_checks kind_shape foreign_keys named_row_shape unique_indexes parse_date
    parse_period max_id normalize_note
reverse_dues_payment_answers = refl

with_idempotency-Post_example :
    Post
      (with_idempotency env transaction_codec entry_args.idempotency (λ e. pure normal_row) db)
      (Answered transaction_codec entry_args.idempotency db (λ t d. t ≡ normal_row))
with_idempotency-Post_example =
    with_idempotency-Post transaction_codec (pure normal_row) db (λ t d. t ≡ normal_row)
      (λ keys. refl) (λ t d keys h. h) env entry_args.idempotency (λ e. pure normal_row) refl

abbrev entry_key : Idempotency
entry_key = key

-- The first call under a key, and its repeat with another body.
was_recorded : with_idempotency env transaction_codec (some entry_key) (λ e. pure normal_row) db ≡ (
  ok (record { value = normal_row; replayed = false; age_seconds = 0 }),
  add_key (key_record transaction_codec entry_key normal_row) db,
)
unfolding with_idempotency with_tx keyed write_and_record create_idempotency_key key_accepted
was_recorded = refl

with_idempotency-repeat_example :
    with_idempotency env transaction_codec
      (some entry_key)
      (λ e. pure opening_row)
      (add_key (key_record transaction_codec entry_key normal_row) db)
    ≡ (
      repeat_answer entry_key entry_key normal_row,
      add_key (key_record transaction_codec entry_key normal_row) db,
    )
with_idempotency-repeat_example =
    with_idempotency-repeat transaction_codec env env entry_key entry_key (λ e. pure normal_row)
      (λ e. pure opening_row) db (record { value = normal_row; replayed = false; age_seconds = 0 })
      (add_key (key_record transaction_codec entry_key normal_row) db) was_recorded refl refl refl
      (omega arith)

balances_total_example :
    (fund_balance 1 db ≡ ok (total (in_fund 1) db))
    × (account_balance 1 1 db ≡ ok (total (in_account 1 1) db))
    × (purpose_balance 1 1 db ≡ ok (total (in_purpose 1 1) db))
balances_total_example = balances_total 1 1 db (ground arith) (ground arith)

post_purpose_move_answers : is_ok (post_purpose_move env move_args db).0 ≡ true
unfolding post_purpose_move pool_read window_for validate_occurred_on parse_date format_date
    put_year put_two with_idempotency with_tx keyed post_move_tx check_move_purpose
    refuse_closed_incidental purpose_balance sql_sum post_transfer_pair create_transfer
    max_transfer_id transfer_checks create_transaction accepts column_checks kind_shape foreign_keys
    named_row_shape unique_indexes max_id normalize_note ◌+ℤ◌
post_purpose_move_answers = refl

-- After the correction the row counts under its target.
post_purpose_correction_answers :
    effective_purpose_id normal_row (post_purpose_correction env correction_args db).1 ≡ 2
unfolding post_purpose_correction with_idempotency with_tx keyed post_correction_tx
    correction_refusal correction_pair refuse_closed_incidental effective_purpose_id leg_sum
    post_transfer_pair create_transfer max_transfer_id transfer_checks create_transaction accepts
    column_checks kind_shape foreign_keys named_row_shape unique_indexes parse_date max_id ◌+ℤ◌
post_purpose_correction_answers = refl
