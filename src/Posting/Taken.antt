-- ===== src/Posting/Taken.antt =====
-- internal/ledger/transaction.go beside internal/db/migrations/00001_schema.sql: an entry that the
-- guards let through is one that the schema takes.
use uruni.Base.{
  ℕ, ◌≡◌, refl, true, false, ◌&&◌, ◌||◌, none, some, List, [], ◌∷◌, ◌++◌, ◌==◌, arith, any, find?,
  ◌⊎◌, inl, inr, Bool-cases, Option-cases,
}
use uruni.Base.Int.{pos, ◌≤ℤ◌}
use uruni.Errors.{ok}
use uruni.Money.{max_amount}
use uruni.Dates.{Text, DateWindow, entry, parse_date, validate_occurred_on}
use uruni.Store.Rows.{Db, Account, Purpose, Member, Transaction, is_in, is_out, is_incidental}
use uruni.Store.Action.{Env, mark}
use uruni.Store.Queries.{get_account_for_fund, incidental_closed_on_for_purpose}
use uruni.Store.Insert.{
  accepts, is_date_column, column_checks, kind_shape, foreign_keys, named_row_shape, unique_indexes,
  new_transaction,
}
use uruni.Posting.{
  PostTransactionParams, entry_params, check_contribution, check_purpose, refuse_inactive_account,
  window_for, post_transaction,
}
use uruni.Posting.Entries.{SaysEntry, says_entry}
use uruni.Posting.Accepted.{post_transaction_ok}

pub dated_column :
    (s ceiling : Text)
    → validate_occurred_on "occurred_on" s ceiling ≡ ok tt
    → is_date_column s ≡ true
unfolding validate_occurred_on
dated_column s ceiling h = elim (Option-cases (parse_date s)) [
  | inl e ↦ ground arith
  | inr (t, e) ↦ ground arith
]

-- An entry without a member goes to no envelope or to an open one. A named contribution is incoming
-- and no adjustment, and goes to an open envelope of the fund's book.
abbrev pub IsContribution : PostTransactionParams → Db → Type 0
IsContribution p db =
    ((p.member_id ≡ none)
      × ((incidental_closed_on_for_purpose p.purpose_id db ≡ none)
          ⊎ (incidental_closed_on_for_purpose p.purpose_id db ≡ some none)))
    ⊎ ((member : ℕ) × (p.member_id ≡ some member)
        × (is_in p.direction ≡ true)
        × (p.is_adjustment ≡ false)
        × (any (λ (m : Member). (m.fund_id == p.fund_id) && (m.id == member)) db.members ≡ true)
        × (any (λ (q : Purpose). (q.id == p.purpose_id) && is_incidental q.kind) db.purposes ≡ true)
        × (incidental_closed_on_for_purpose p.purpose_id db ≡ some none))

entry_accepts :
    (env : Env) (p : PostTransactionParams) (db : Db)
    → (is_in p.direction || is_out p.direction) ≡ true
    → pos 1 ≤ℤ p.amount
    → p.amount ≤ℤ max_amount
    → is_date_column p.occurred_on ≡ true
    → any (λ (a : Account). (a.fund_id == p.fund_id) && (a.id == p.account_id)) db.accounts ≡ true
    → any (λ (q : Purpose). (q.fund_id == p.fund_id) && (q.id == p.purpose_id)) db.purposes ≡ true
    → IsContribution p db
    → accepts (entry_params env p) db ≡ true
unfolding accepts column_checks kind_shape foreign_keys named_row_shape unique_indexes
entry_accepts env p db directed positive bounded dated located purposed (inl (unnamed, open_one)) =
    elim (Bool-cases p.is_adjustment) [ inl e ↦ ground arith | inr e ↦ ground arith ]
entry_accepts env p db directed positive bounded dated located purposed
      (inr (member, named, incoming, plain, known, envelope, open_one)) =
    ground arith

purpose_free :
    (p : PostTransactionParams) (db : Db) → IsContribution p db → check_purpose p db ≡ ok tt
unfolding check_purpose
purpose_free p db (inl (unnamed, inl none_one)) = ground arith
purpose_free p db (inl (unnamed, inr open_one)) = ground arith
purpose_free p db (inr (member, named, incoming, plain, known, envelope, open_one)) = ground arith

named_well :
    (p : PostTransactionParams) (db : Db) → IsContribution p db → check_contribution p ≡ ok tt
named_well p db (inl (unnamed, open_one)) = ground arith
named_well p db (inr (member, named, incoming, plain, known, envelope, open_one)) = ground arith

pub account_known :
    (id fund : ℕ) (rows : List Account) (a : Account)
    → find? (λ (x : Account). (x.id == id) && (x.fund_id == fund)) rows ≡ some a
    → any (λ (x : Account). (x.fund_id == fund) && (x.id == id)) rows ≡ true
account_known id fund [] a h = ground arith
account_known id fund (x ∷ rows) a h = ground (arith, account_known id fund rows a)

pub account_live :
    (id fund : ℕ) (db : Db) (a : Account)
    → get_account_for_fund id fund db ≡ some a
    → a.inactive_on ≡ none
    → refuse_inactive_account fund id db ≡ ok tt
unfolding refuse_inactive_account
account_live id fund db a found live = ground arith

-- An entry answers, and the schema has nothing against it. Outside a transaction and without a key,
-- with a positive amount up to the ceiling, a direction, a date inside the fund's window, a location of
-- the fund that is not retired, a purpose of the fund, and either no member and no closed envelope, or
-- a member of the fund with an incoming entry, no adjustment, on an open envelope, PostTransaction
-- answers with a new row that says what the arguments say. The database is the old one with that row
-- at the end of its transactions.
pub post_transaction_succeeds :
    (env : Env) (p : PostTransactionParams) (db : Db) (w : DateWindow) (a : Account)
    → env.marked ≡ false
    → p.idempotency ≡ none
    → pos 1 ≤ℤ p.amount
    → p.amount ≤ℤ max_amount
    → (is_in p.direction || is_out p.direction) ≡ true
    → window_for env p.fund_id db ≡ ok w
    → validate_occurred_on "occurred_on" p.occurred_on (entry w) ≡ ok tt
    → get_account_for_fund p.account_id p.fund_id db ≡ some a
    → a.inactive_on ≡ none
    → any (λ (q : Purpose). (q.fund_id == p.fund_id) && (q.id == p.purpose_id)) db.purposes ≡ true
    → IsContribution p db
    → (t : Transaction) × (post_transaction env p db ≡ (
      ok (record { value = t; replayed = false; age_seconds = 0 }),
      record db { transactions = db.transactions ++ (t ∷ []) },
    ))
      × SaysEntry env p t
post_transaction_succeeds env p db w a outside unkeyed positive bounded directed opened dated found
      live purposed contribution =
    let t = new_transaction (entry_params (mark env) p) db in
    (
      t,
      post_transaction_ok env p db w outside unkeyed positive bounded directed opened dated
          (named_well p db contribution) (account_live p.account_id p.fund_id db a found live)
          (purpose_free p db contribution)
          (entry_accepts (mark env) p db directed positive bounded
            (dated_column p.occurred_on (entry w) dated)
            (account_known p.account_id p.fund_id db.accounts a found) purposed contribution),
      says_entry env p t refl,
    )
