-- ===== src/Examples/Answers.antt =====
-- Calls on the fund that answer.
use uruni.Base.{◌≡◌, refl, false, none, arith, inl, inr, [], ◌∷◌, ◌++◌}
use uruni.Errors.{ok}
use uruni.Base.Int.{pos, ◌+ℤ◌}
use uruni.Store.Sums.{sql_sum}
use uruni.Dates.{
  codes, DateWindow, parse_date, validate_occurred_on, format_date, put_year, put_two,
}
use uruni.Store.Rows.{
  between_accounts, reclass_purpose, direction_in, direction_out, bank, Account, Purpose, Transfer,
  cash, main, incidental, Transaction,
}
use uruni.Store.Queries.{purpose_balance}
use uruni.Posting.{
  refuse_closed_incidental, window_for, normalize_note, PostTransactionParams, post_transaction,
}
use uruni.Posting.Entries.{SaysEntry}
use uruni.Posting.Taken.{post_transaction_succeeds}
use uruni.Transfers.Taken.{
  SaysLeg, post_transfer_between_accounts_succeeds, post_purpose_move_succeeds,
}
use uruni.Atomic.{Atomic, calls-Atomic}
use uruni.Dues.Post.{post_dues_payments}
use uruni.Dues.Waive.{waive_dues}
use uruni.Reconciliation.Count.{take_reconciliation}
use uruni.Envelope.{close_incidental_and_roll}
use uruni.Examples.Months.{dues_args, waive_args}
use uruni.Examples.Claims.{count_args, close_args}
use uruni.Transfers.{
  post_purpose_move, PostTransferBetweenAccountsParams, post_transfer_between_accounts,
}
use uruni.Examples.Data.{move_args, env, db, entry_args, between_args, today}

abbrev window : DateWindow
window = record { today = today }

abbrev unkeyed_entry : PostTransactionParams
unkeyed_entry = record entry_args { idempotency = none }

abbrev unkeyed_transfer : PostTransferBetweenAccountsParams
unkeyed_transfer = record between_args { idempotency = none }

abbrev cash_account : Account
cash_account = record {
  id = 1;
  fund_id = 1;
  kind = cash;
  name = codes "Kas";
  created_at = 1785000000;
  inactive_on = none;
}

abbrev main_purpose : Purpose
main_purpose = record { id = 1; fund_id = 1; kind = main; name = codes "Utama" }

abbrev event_purpose : Purpose
event_purpose = record { id = 2; fund_id = 1; kind = incidental; name = codes "Acara" }

abbrev bank_account : Account
bank_account = record {
  id = 2;
  fund_id = 1;
  kind = bank;
  name = codes "Bank";
  created_at = 1785000000;
  inactive_on = none;
}

post_transaction_succeeds_example :
    (t : Transaction) × (post_transaction env unkeyed_entry db ≡ (
      ok (record { value = t; replayed = false; age_seconds = 0 }),
      record db { transactions = db.transactions ++ (t ∷ []) },
    ))
    × SaysEntry env unkeyed_entry t
unfolding window_for validate_occurred_on parse_date format_date put_year put_two
post_transaction_succeeds_example =
    post_transaction_succeeds env unkeyed_entry db window bank_account refl refl (ground arith)
      (ground arith) refl refl refl refl refl refl (inl (refl, inr refl))

post_transfer_between_accounts_succeeds_example :
    (t : Transfer) × (out : Transaction) × (into : Transaction) × (post_transfer_between_accounts
        env unkeyed_transfer db
      ≡ (
        ok (record { value = t; replayed = false; age_seconds = 0 }),
        record db {
          transfers = db.transfers ++ (t ∷ []);
          transactions = (db.transactions ++ (out ∷ [])) ++ (into ∷ []);
        },
      ))
    × (t.kind ≡ between_accounts)
    × SaysLeg 1 1 1 direction_out unkeyed_transfer.amount unkeyed_transfer.occurred_on
        (normalize_note unkeyed_transfer.note)
        t
        out
    × SaysLeg 1 2 1 direction_in unkeyed_transfer.amount unkeyed_transfer.occurred_on
        (normalize_note unkeyed_transfer.note)
        t
        into
unfolding window_for validate_occurred_on parse_date format_date put_year put_two
post_transfer_between_accounts_succeeds_example =
    post_transfer_between_accounts_succeeds env unkeyed_transfer db window cash_account bank_account
      main_purpose refl refl (ground arith) (ground arith) refl refl refl refl refl refl refl refl

post_purpose_move_succeeds_example :
    (t : Transfer) × (out : Transaction) × (into : Transaction) × (post_purpose_move env move_args
        db
      ≡ (
        ok (record { value = t; replayed = false; age_seconds = 0 }),
        record db {
          transfers = db.transfers ++ (t ∷ []);
          transactions = (db.transactions ++ (out ∷ [])) ++ (into ∷ []);
        },
      ))
    × (t.kind ≡ reclass_purpose)
    × SaysLeg 1 move_args.account_id 1 direction_out move_args.amount move_args.occurred_on
        (normalize_note move_args.note)
        t
        out
    × SaysLeg 1 move_args.account_id 2 direction_in move_args.amount move_args.occurred_on
        (normalize_note move_args.note)
        t
        into
unfolding window_for validate_occurred_on parse_date format_date put_year put_two
    refuse_closed_incidental purpose_balance sql_sum ◌+ℤ◌
post_purpose_move_succeeds_example =
    post_purpose_move_succeeds env move_args db window cash_account (pos 1000000) refl refl
      (ground arith) (ground arith) refl refl refl (main_purpose, refl, refl, refl)
      (event_purpose, refl, refl, refl) refl refl refl (ground arith)

-- A payment, a count, a closing, a transfer and a waiver on the fund.
calls-Atomic_example :
    Atomic db (post_transfer_between_accounts env between_args db)
    × Atomic db (post_dues_payments env dues_args db)
    × Atomic db (take_reconciliation env count_args db)
    × Atomic db (close_incidental_and_roll env close_args db)
    × Atomic db (waive_dues env waive_args db)
calls-Atomic_example = calls-Atomic env db between_args dues_args count_args close_args waive_args
