-- ===== src/Store/Insert.antt =====
-- The writes of internal/store, with what internal/db/migrations/00001_schema.sql refuses: its
-- CHECKs, foreign keys, unique indexes and the trigger on named rows. An INTEGER PRIMARY KEY is one
-- more than the table's largest.
use uruni.Base.{
  ℕ, suc, Bool, true, false, ◌&&◌, ◌||◌, not, Option, none, some, List, [], ◌∷◌, ◌++◌, ltb, ◌==◌,
  if◌then◌else◌, is_same, is_some, any,
}
use uruni.Base.Int.{pos, leb_ℤ, ltb_ℤ, ◌==ℤ◌}
use uruni.Errors.{ok, err, constraint}
use uruni.Money.{max_amount}
use uruni.Dates.{Text, text_eq, text_lt, parse_date, parse_period, min_day, min_month}
use uruni.Store.Rows.{
  Db, Account, Purpose, Member, Transaction, TransactionParams, Transfer, TransferKind, Reason,
  Reimbursement, DuesPayment, TransactionKind, opening, normal, dues, reimbursement, adjustment,
  transfer, unknown, reclass_purpose, is_in, is_out, same_direction, is_normal, is_dues,
  is_reimbursement, is_opening, is_incidental,
}
use uruni.Store.Action.{Action}
use uruni.Store.Queries.{max_id}

-- A date column: a real date, not before 2000.
abbrev pub is_date_column : Text → Bool
is_date_column s = is_some (parse_date s) && not (text_lt s min_day)

abbrev pub is_period_column : Option Text → Bool
is_period_column none = true
is_period_column (some s) = is_some (parse_period s) && not (text_lt s min_month)

abbrev same_text : Option Text → Option Text → Bool
same_text none none = true
same_text (some a) (some b) = text_eq a b
same_text _ _ = false

-- The CHECKs that tie a transaction's kind to its columns.
unfoldable pub kind_shape : TransactionKind → TransactionParams → Bool
kind_shape dues p =
    is_some p.member_id
    && is_some p.dues_period
    && is_in p.direction
    && not (is_some p.reverses_transaction_id)
    && is_some p.dues_payment_id
kind_shape normal p =
    not (is_some p.dues_period)
    && (not (is_some p.member_id) || is_in p.direction)
    && not (is_some p.reverses_transaction_id)
    && not (is_some p.dues_payment_id)
kind_shape adjustment p =
    ((not (is_some p.member_id) && not (is_some p.dues_period))
      || (is_some p.reverses_transaction_id && is_some p.member_id && is_out p.direction))
    && not (is_some p.dues_payment_id)
kind_shape reimbursement p =
    not (is_some p.member_id)
    && not (is_some p.dues_period)
    && is_some p.reimbursement_id
    && is_out p.direction
    && not (is_some p.reverses_transaction_id)
    && not (is_some p.dues_payment_id)
kind_shape transfer p =
    not (is_some p.member_id)
    && not (is_some p.dues_period)
    && is_some p.transfer_id
    && not (is_some p.reverses_transaction_id)
    && not (is_some p.dues_payment_id)
kind_shape opening p =
    not (is_some p.member_id)
    && not (is_some p.dues_period)
    && not (is_some p.reverses_transaction_id)
    && not (is_some p.dues_payment_id)
kind_shape unknown p = false

-- The CHECKs on single columns.
unfoldable pub column_checks : TransactionParams → Bool
column_checks p =
    (is_in p.direction || is_out p.direction)
    && ltb_ℤ (pos 0) p.amount
    && leb_ℤ p.amount max_amount
    && is_date_column p.occurred_on
    && is_period_column p.dues_period

abbrev pub references : Option ℕ → (ℕ → Bool) → Bool
references none exists = true
references (some id) exists = exists id

-- The foreign keys.
unfoldable pub foreign_keys : TransactionParams → Db → Bool
foreign_keys p db =
    any (λ (a : Account). (a.fund_id == p.fund_id) && (a.id == p.account_id)) db.accounts
    && any (λ (q : Purpose). (q.fund_id == p.fund_id) && (q.id == p.purpose_id)) db.purposes
    && references p.member_id
        (λ id. any (λ (m : Member). (m.fund_id == p.fund_id) && (m.id == id)) db.members)
    && references p.reimbursement_id (λ id.
      any (λ (r : Reimbursement). (r.fund_id == p.fund_id) && (r.id == id)) db.reimbursements)
    && references p.transfer_id
        (λ id. any (λ (t : Transfer). (t.fund_id == p.fund_id) && (t.id == id)) db.transfers)
    && references p.dues_payment_id
        (λ id. any (λ (d : DuesPayment). (d.fund_id == p.fund_id) && (d.id == id)) db.dues_payments)
    && references p.reverses_transaction_id
        (λ id. any (λ (t : Transaction). (t.fund_id == p.fund_id) && (t.id == id)) db.transactions)

-- What a reversal row must agree with its original in: transaction_named_row_shape.
abbrev pub reverses_row : TransactionParams → ℕ → Transaction → Bool
reverses_row p id o =
    (o.id == id)
    && (is_dues o.kind || is_normal o.kind)
    && not (same_direction o.direction p.direction)
    && (o.amount ==ℤ p.amount)
    && (o.account_id == p.account_id)
    && is_same o.member_id p.member_id
    && same_text o.dues_period p.dues_period

unfoldable pub named_row_shape : TransactionParams → Db → Bool
named_row_shape p db =
    (not (is_normal p.kind && is_some p.member_id)
      || any (λ (q : Purpose). (q.id == p.purpose_id) && is_incidental q.kind) db.purposes)
    && references p.reverses_transaction_id (λ id. any (reverses_row p id) db.transactions)

-- The three partial unique indexes.
unfoldable pub unique_indexes : TransactionParams → Db → Bool
unique_indexes p db =
    not (
      is_reimbursement p.kind
      && is_some p.reimbursement_id
      && any
          (λ (t : Transaction).
            is_reimbursement t.kind && is_same t.reimbursement_id p.reimbursement_id)
          db.transactions)
    && not (
        is_some p.reverses_transaction_id
        && any (λ (t : Transaction). is_same t.reverses_transaction_id p.reverses_transaction_id)
            db.transactions)
    && not (
        is_opening p.kind
        && any (λ (t : Transaction). is_opening t.kind && (t.account_id == p.account_id))
            db.transactions)

-- The schema takes the row.
unfoldable pub accepts : TransactionParams → Db → Bool
accepts p db =
    column_checks p
    && kind_shape p.kind p
    && foreign_keys p db
    && named_row_shape p db
    && unique_indexes p db

abbrev pub next_transaction_id : Db → ℕ
next_transaction_id db = suc (max_id (λ t. true) db.transactions)

abbrev pub new_transaction : TransactionParams → Db → Transaction
new_transaction p db = record { id = next_transaction_id db; params = p }

abbrev pub add_transaction : Transaction → Db → Db
add_transaction t db = record db { transactions = db.transactions ++ (t ∷ []) }

-- CreateTransaction
unfoldable pub create_transaction : TransactionParams → Action Transaction
create_transaction p db =
    if accepts p db
    then (ok (new_transaction p db), add_transaction (new_transaction p db) db)
    else (err constraint, db)

unfoldable pub max_transfer_id : List Transfer → ℕ
max_transfer_id [] = 0
max_transfer_id (t ∷ rows) = let rest = max_transfer_id rows in if ltb rest t.id then t.id else rest

abbrev is_reclass : TransferKind → Bool
is_reclass reclass_purpose = true
is_reclass _ = false

-- The CHECKs and the foreign key of a transfer.
unfoldable pub transfer_checks : Transfer → Db → Bool
transfer_checks t db =
    (not (is_some t.corrects_transaction_id) || is_reclass t.kind)
    && (not (is_some t.reason) || (is_reclass t.kind && not (is_some t.corrects_transaction_id)))
    && references t.corrects_transaction_id
        (λ id. any (λ (o : Transaction). (o.fund_id == t.fund_id) && (o.id == id)) db.transactions)

abbrev pub add_transfer : Transfer → Db → Db
add_transfer t db = record db { transfers = db.transfers ++ (t ∷ []) }

abbrev pub new_transfer : ℕ → TransferKind → Option ℕ → Option Reason → ℕ → Db → Transfer
new_transfer fund kind corrects reason created_at db = record {
  id = suc (max_transfer_id db.transfers);
  fund_id = fund;
  kind = kind;
  corrects_transaction_id = corrects;
  reason = reason;
  created_at = created_at;
}

-- CreateTransfer
unfoldable pub create_transfer : ℕ → TransferKind → Option ℕ → Option Reason → ℕ → Action Transfer
create_transfer fund kind corrects reason created_at db =
    let t = new_transfer fund kind corrects reason created_at db in
    if transfer_checks t db then (ok t, add_transfer t db) else (err constraint, db)
