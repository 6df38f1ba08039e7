-- ===== src/Transfers/Accepted.antt =====
-- internal/ledger/transfer.go: a transfer between locations answers when its guards and the schema
-- let it.
use uruni.Base.{◌≡◌, ◌∙◌, refl, true, false, none}
use uruni.Base.Int.{pos, ◌≤ℤ◌, leb_ℤ}
use uruni.Errors.{Result, ok, refuse_if, invalid_argument}
use uruni.Money.{max_amount}
use uruni.Dates.{DateWindow, entry, validate_occurred_on}
use uruni.Store.Rows.{Db, Transfer, direction_in, direction_out}
use uruni.Store.Action.{
  Env, Action, ◌>>=◌, check, read, mark, pure, pool_read, read_ok, pool_read_ok, bind_ok,
}
use uruni.Store.Insert.{
  accepts, create_transaction, create_transfer, new_transfer, transfer_checks, add_transfer,
}
use uruni.Store.Balance.{create_transaction_ok}
use uruni.Tx.{Reply, transfer_codec, fresh, with_idempotency}
use uruni.Tx.Replay.{with_idempotency_ok}
use uruni.Posting.{check_amount_ceiling, window_for, refuse_inactive_account}
use uruni.Posting.Accepted.{positive_amount, amount_below_ceiling, refuse_if-false}
use uruni.Transfers.{
  TransferPair, leg_params, post_transfer_pair, legs_identical, PostTransferBetweenAccountsParams,
  between_pair, post_between_tx, post_transfer_between_accounts,
}
use uruni.Transfers.Pair.{with_pair, with_out}

-- The transfer row of a pair.
abbrev pub pair_transfer : Env → TransferPair → Db → Transfer
pair_transfer env pair db =
    new_transfer pair.fund_id pair.kind pair.corrects_transaction_id pair.reason env.now db

create_transfer_ok :
    (env : Env) (pair : TransferPair) (db : Db)
    → transfer_checks (pair_transfer env pair db) db ≡ true
    → create_transfer pair.fund_id pair.kind pair.corrects_transaction_id pair.reason env.now db
      ≡ (ok (pair_transfer env pair db), add_transfer (pair_transfer env pair db) db)
unfolding create_transfer
create_transfer_ok env pair db h = rw h refl

pub post_transfer_pair_ok :
    (env : Env) (pair : TransferPair) (db : Db)
    → transfer_checks (pair_transfer env pair db) db ≡ true
    → accepts
        (leg_params env pair (pair_transfer env pair db) pair.from direction_out)
        (add_transfer (pair_transfer env pair db) db)
      ≡ true
    → accepts
        (leg_params env pair (pair_transfer env pair db) pair.to direction_in)
        (with_out env pair (pair_transfer env pair db) db)
      ≡ true
    → post_transfer_pair env pair db
      ≡ (ok (pair_transfer env pair db), with_pair env pair (pair_transfer env pair db) db)
unfolding post_transfer_pair
post_transfer_pair_ok env pair db checked leaving arriving =
    let t = pair_transfer env pair db in
    let arrive : Transfer → Action Transfer =
      λ u. create_transaction (leg_params env pair u pair.to direction_in) >>= λ _. pure u in
    let leave : Transfer → Action Transfer =
      λ u. create_transaction (leg_params env pair u pair.from direction_out) >>= λ _. arrive u in
    bind_ok
      (create_transfer pair.fund_id pair.kind pair.corrects_transaction_id pair.reason env.now)
      leave db t (add_transfer t db) (create_transfer_ok env pair db checked)
    ∙ bind_ok (create_transaction (leg_params env pair t pair.from direction_out)) (λ _. arrive t)
        (add_transfer t db) _ (with_out env pair t db)
        (create_transaction_ok (leg_params env pair t pair.from direction_out) (add_transfer t db)
          leaving)
    ∙ bind_ok (create_transaction (leg_params env pair t pair.to direction_in)) (λ _. pure t)
        (with_out env pair t db) _ (with_pair env pair t db)
        (create_transaction_ok (leg_params env pair t pair.to direction_in) (with_out env pair t db)
          arriving)

between_checked :
    (env : Env) (p : PostTransferBetweenAccountsParams) (db : Db)
    → transfer_checks (pair_transfer env (between_pair p) db) db ≡ true
unfolding transfer_checks
between_checked env p db = refl

post_between_ok :
    (env : Env) (p : PostTransferBetweenAccountsParams) (db : Db)
    → refuse_inactive_account p.fund_id p.from_account_id db ≡ ok tt
    → refuse_inactive_account p.fund_id p.to_account_id db ≡ ok tt
    → post_transfer_pair env (between_pair p) db ≡ (
      ok (pair_transfer env (between_pair p) db),
      with_pair env (between_pair p) (pair_transfer env (between_pair p) db) db,
    )
    → post_between_tx p env db ≡ (
      ok (pair_transfer env (between_pair p) db),
      with_pair env (between_pair p) (pair_transfer env (between_pair p) db) db,
    )
unfolding post_between_tx
post_between_ok env p db from to posted =
    let post : Action Transfer = post_transfer_pair env (between_pair p) in
    read_ok (refuse_inactive_account p.fund_id p.from_account_id)
      (λ _. read (refuse_inactive_account p.fund_id p.to_account_id) >>= λ _. post) db tt from
    ∙ read_ok (refuse_inactive_account p.fund_id p.to_account_id) (λ _. post) db tt to
    ∙ posted

-- Outside a transaction, without a key, a transfer with a positive amount up to the ceiling, a date
-- inside the fund's window, between two different locations that are not retired, whose two rows
-- the schema accepts, is posted: the answer is the transfer, and the database is the old one with
-- the transfer and its two rows.
pub post_transfer_between_accounts_ok :
    (env : Env) (p : PostTransferBetweenAccountsParams) (db : Db) (w : DateWindow)
    → env.marked ≡ false
    → p.idempotency ≡ none
    → pos 1 ≤ℤ p.amount
    → p.amount ≤ℤ max_amount
    → window_for env p.fund_id db ≡ ok w
    → validate_occurred_on "occurred_on" p.occurred_on (entry w) ≡ ok tt
    → legs_identical (between_pair p).from (between_pair p).to ≡ false
    → refuse_inactive_account p.fund_id p.from_account_id db ≡ ok tt
    → refuse_inactive_account p.fund_id p.to_account_id db ≡ ok tt
    → let inner = mark env in
      let pair = between_pair p in
      let t = pair_transfer inner pair db in
      accepts (leg_params inner pair t pair.from direction_out) (add_transfer t db) ≡ true
      → accepts (leg_params inner pair t pair.to direction_in) (with_out inner pair t db) ≡ true
      → post_transfer_between_accounts env p db ≡ (ok (fresh t), with_pair inner pair t db)
unfolding post_transfer_between_accounts
post_transfer_between_accounts_ok env p db w outside unkeyed positive bounded opened dated apart
      from to leaving arriving =
    let pair = between_pair p in
    let t = pair_transfer (mark env) pair db in
    let post : Action (Reply Transfer) =
      with_idempotency env transfer_codec p.idempotency (post_between_tx p) in
    let same : Result (Unit {0}) =
      refuse_if (legs_identical pair.from pair.to) (invalid_argument "to_account_id") in
    let apart_one : Action (Reply Transfer) = check same >>= λ _. post in
    let dated_one : DateWindow → Action (Reply Transfer) =
      λ v. check (validate_occurred_on "occurred_on" p.occurred_on (entry v)) >>= λ _. apart_one in
    let opened_one : Action (Reply Transfer) =
      pool_read env (window_for env p.fund_id) >>= dated_one in
    let ceiling : Result (Unit {0}) = check_amount_ceiling "amount" p.amount in
    let small : Result (Unit {0}) =
      refuse_if (leb_ℤ p.amount (pos 0)) (invalid_argument "amount") in
    read_ok (λ _. small) (λ _. check ceiling >>= λ _. opened_one) db tt
      (refuse_if-false _ _ (positive_amount p.amount positive))
    ∙ read_ok (λ _. ceiling) (λ _. opened_one) db tt
        (refuse_if-false _ _ (amount_below_ceiling p.amount bounded))
    ∙ pool_read_ok env (window_for env p.fund_id) dated_one db w outside opened
    ∙ read_ok (λ _. validate_occurred_on "occurred_on" p.occurred_on (entry w)) (λ _. apart_one) db
        tt dated
    ∙ read_ok (λ _. same) (λ _. post) db tt (refuse_if-false _ _ apart)
    ∙ with_idempotency_ok env transfer_codec p.idempotency (post_between_tx p) db t
        (with_pair (mark env) pair t db) outside unkeyed
        (post_between_ok (mark env) p db from to (
          post_transfer_pair_ok (mark env) pair db (between_checked (mark env) p db) leaving
            arriving))
