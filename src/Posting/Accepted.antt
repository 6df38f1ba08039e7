-- ===== src/Posting/Accepted.antt =====
-- internal/ledger/transaction.go: PostTransaction answers when its guards and the schema let it.
use uruni.Base.{◌≡◌, ◌∙◌, refl, Bool, true, false, ◌||◌, not, none, arith}
use uruni.Base.Int.{pos, ◌≤ℤ◌, leb_ℤ}
use uruni.Errors.{Err, Result, ok, refuse_if, invalid_argument}
use uruni.Money.{Amount, max_amount, above_ceiling}
use uruni.Dates.{DateWindow, entry, validate_occurred_on}
use uruni.Store.Rows.{Db, Transaction, is_in, is_out}
use uruni.Store.Action.{Env, Action, ◌>>=◌, check, read, mark, pool_read, read_ok, pool_read_ok}
use uruni.Store.Balance.{create_transaction_ok}
use uruni.Store.Insert.{create_transaction, accepts, new_transaction, add_transaction}
use uruni.Tx.{Reply, transaction_codec, fresh, with_idempotency}
use uruni.Tx.Replay.{with_idempotency_ok}
use uruni.Posting.{
  check_amount_ceiling, window_for, refuse_inactive_account, check_purpose, check_contribution,
  PostTransactionParams, entry_params, post_entry_tx, post_transaction,
}

pub positive_amount : (a : Amount) → pos 1 ≤ℤ a → leb_ℤ a (pos 0) ≡ false
positive_amount a h = ground arith

pub amount_below_ceiling : (a : Amount) → a ≤ℤ max_amount → above_ceiling a ≡ false
amount_below_ceiling a h = ground arith

pub refuse_if-false : (b : Bool) (e : Err) → b ≡ false → refuse_if b e ≡ ok tt
refuse_if-false b e h = rw h refl

post_entry_ok :
    (env : Env) (p : PostTransactionParams) (db : Db)
    → refuse_inactive_account p.fund_id p.account_id db ≡ ok tt
    → check_purpose p db ≡ ok tt
    → accepts (entry_params env p) db ≡ true
    → post_entry_tx p env db ≡ (
      ok (new_transaction (entry_params env p) db),
      add_transaction (new_transaction (entry_params env p) db) db,
    )
unfolding post_entry_tx
post_entry_ok env p db live free taken =
    let post : Action Transaction = create_transaction (entry_params env p) in
    read_ok (refuse_inactive_account p.fund_id p.account_id)
      (λ _. read (check_purpose p) >>= λ _. post) db tt live
    ∙ read_ok (check_purpose p) (λ _. post) db tt free
    ∙ create_transaction_ok (entry_params env p) db taken

-- Outside a transaction, without a key, an entry with a positive amount up to the ceiling, a
-- direction, a date inside the fund's window and a name only on a contribution, on a location that
-- is not retired and a purpose that takes it, and that the schema accepts, is posted: the answer is
-- the new row, and the database is the old one with that row.
pub post_transaction_ok :
    (env : Env) (p : PostTransactionParams) (db : Db) (w : DateWindow)
    → env.marked ≡ false
    → p.idempotency ≡ none
    → pos 1 ≤ℤ p.amount
    → p.amount ≤ℤ max_amount
    → (is_in p.direction || is_out p.direction) ≡ true
    → window_for env p.fund_id db ≡ ok w
    → validate_occurred_on "occurred_on" p.occurred_on (entry w) ≡ ok tt
    → check_contribution p ≡ ok tt
    → refuse_inactive_account p.fund_id p.account_id db ≡ ok tt
    → check_purpose p db ≡ ok tt
    → accepts (entry_params (mark env) p) db ≡ true
    → let t = new_transaction (entry_params (mark env) p) db in
      post_transaction env p db ≡ (ok (fresh t), add_transaction t db)
unfolding post_transaction
post_transaction_ok env p db w outside unkeyed positive bounded directed opened dated named live
      free taken =
    let t = new_transaction (entry_params (mark env) p) db in
    let post : Action (Reply Transaction) =
      with_idempotency env transaction_codec p.idempotency (post_entry_tx p) in
    let named_one : Action (Reply Transaction) = check (check_contribution p) >>= λ _. post in
    let dated_one : DateWindow → Action (Reply Transaction) =
      λ v. check (validate_occurred_on "occurred_on" p.occurred_on (entry v)) >>= λ _. named_one in
    let opened_one : Action (Reply Transaction) =
      pool_read env (window_for env p.fund_id) >>= dated_one in
    let direction : Result (Unit {0}) =
      refuse_if (not (is_in p.direction || is_out p.direction)) (invalid_argument "direction") in
    let directed_one : Action (Reply Transaction) = check direction >>= λ _. opened_one in
    let ceiling : Result (Unit {0}) = check_amount_ceiling "amount" p.amount in
    let small : Result (Unit {0}) =
      refuse_if (leb_ℤ p.amount (pos 0)) (invalid_argument "amount") in
    read_ok (λ _. small) (λ _. check ceiling >>= λ _. directed_one) db tt
      (refuse_if-false _ _ (positive_amount p.amount positive))
    ∙ read_ok (λ _. ceiling) (λ _. directed_one) db tt
        (refuse_if-false _ _ (amount_below_ceiling p.amount bounded))
    ∙ read_ok (λ _. direction) (λ _. opened_one) db tt (rw directed refl)
    ∙ pool_read_ok env (window_for env p.fund_id) dated_one db w outside opened
    ∙ read_ok (λ _. validate_occurred_on "occurred_on" p.occurred_on (entry w)) (λ _. named_one) db
        tt dated
    ∙ read_ok (λ _. check_contribution p) (λ _. post) db tt named
    ∙ with_idempotency_ok env transaction_codec p.idempotency (post_entry_tx p) db t
        (add_transaction t db) outside unkeyed (post_entry_ok (mark env) p db live free taken)
