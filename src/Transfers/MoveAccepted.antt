-- ===== src/Transfers/MoveAccepted.antt =====
-- internal/ledger/purpose_move.go: a move between purposes answers when its guards and the schema let
-- it.
use uruni.Base.{ℕ, ◌≡◌, ◌∙◌, refl, true, false, Option, none, some, ◌==◌, is_some}
use uruni.Base.Int.{ℤ, pos, ◌≤ℤ◌, leb_ℤ, ltb_ℤ}
use uruni.Errors.{
  Err, Result, ok, refuse_if, or_err, invalid_argument, purpose_move_same_purpose,
  purpose_move_unknown_purpose, purpose_move_pass_through, purpose_move_closed,
  purpose_move_unknown_account, purpose_move_account_inactive, purpose_move_insufficient,
}
use uruni.Money.{max_amount}
use uruni.Dates.{DateWindow, entry, validate_occurred_on}
use uruni.Store.Rows.{Db, Transfer, Account, Purpose, direction_in, direction_out, is_pass_through}
use uruni.Store.Action.{
  Env, Action, ◌>>=◌, check, read, mark, pool_read, read_ok, pool_read_ok, bind_ok,
}
use uruni.Store.Queries.{get_account_for_fund, get_purpose_for_fund, purpose_balance}
use uruni.Store.Insert.{accepts, transfer_checks, add_transfer}
use uruni.Tx.{Reply, transfer_codec, fresh, with_idempotency}
use uruni.Tx.Replay.{with_idempotency_ok}
use uruni.Posting.{check_amount_ceiling, window_for, refuse_closed_incidental}
use uruni.Posting.Accepted.{positive_amount, amount_below_ceiling, refuse_if-false}
use uruni.Transfers.{
  leg_params, post_transfer_pair, PostPurposeMoveParams, move_pair, check_move_purpose,
  post_move_tx, post_purpose_move,
}
use uruni.Transfers.Pair.{with_pair, with_out}
use uruni.Transfers.PurposeMove.{IsMovable}
use uruni.Transfers.Accepted.{pair_transfer, post_transfer_pair_ok}

or_err-some {ℓ} : {A : Type ℓ} (o : Option A) (e : Err) (a : A) → o ≡ some a → or_err o e ≡ ok a
or_err-some o e a h = rw h refl

check_move_purpose_ok :
    (fund id : ℕ) (db : Db) → IsMovable fund id db → check_move_purpose fund id db ≡ (ok tt, db)
unfolding check_move_purpose
check_move_purpose_ok fund id db (purpose, found, proper, free) =
    let closed : Action (Unit {0}) = read (refuse_closed_incidental id purpose_move_closed) in
    let kind : Purpose → Action (Unit {0}) =
      λ q. check (refuse_if (is_pass_through q.kind) purpose_move_pass_through) >>= λ _. closed in
    read_ok (λ d. or_err (get_purpose_for_fund id fund d) purpose_move_unknown_purpose) kind db
      purpose (or_err-some _ _ purpose found)
    ∙ read_ok (λ _. refuse_if (is_pass_through purpose.kind) purpose_move_pass_through)
        (λ _. closed) db tt (refuse_if-false _ _ proper)
    ∙ rw free refl

move_checked :
    (env : Env) (p : PostPurposeMoveParams) (db : Db)
    → transfer_checks (pair_transfer env (move_pair p) db) db ≡ true
unfolding transfer_checks
move_checked env p db = refl

module _ (env : Env) (p : PostPurposeMoveParams) (db : Db) (account : Account) (balance : ℤ)
    (from : IsMovable p.fund_id p.from_purpose_id db) (to : IsMovable p.fund_id p.to_purpose_id db)
    (located : get_account_for_fund p.account_id p.fund_id db ≡ some account)
    (live : is_some account.inactive_on ≡ false)
    (held : purpose_balance p.fund_id p.from_purpose_id db ≡ ok balance)
    (enough : ltb_ℤ balance p.amount ≡ false) where
  post_move_ok : post_move_tx p env db ≡ post_transfer_pair env (move_pair p) db
  unfolding post_move_tx
  post_move_ok =
      let post : Action Transfer = post_transfer_pair env (move_pair p) in
      let funded : ℤ → Action Transfer =
        λ b. check (refuse_if (ltb_ℤ b p.amount) purpose_move_insufficient) >>= λ _. post in
      let source : Action Transfer =
        read (purpose_balance p.fund_id p.from_purpose_id) >>= funded in
      let working : Account → Action Transfer = λ a.
        check (refuse_if (is_some a.inactive_on) purpose_move_account_inactive) >>= λ _. source in
      let place : Db → Result Account =
        λ d. or_err (get_account_for_fund p.account_id p.fund_id d) purpose_move_unknown_account in
      let second : Action Transfer =
        check_move_purpose p.fund_id p.to_purpose_id >>= λ _. read place >>= working in
      bind_ok (check_move_purpose p.fund_id p.from_purpose_id) (λ _. second) db tt db
        (check_move_purpose_ok p.fund_id p.from_purpose_id db from)
      ∙ bind_ok (check_move_purpose p.fund_id p.to_purpose_id) (λ _. read place >>= working) db tt
          db (check_move_purpose_ok p.fund_id p.to_purpose_id db to)
      ∙ read_ok place working db account (or_err-some _ _ account located)
      ∙ read_ok (λ _. refuse_if (is_some account.inactive_on) purpose_move_account_inactive)
          (λ _. source) db tt (refuse_if-false _ _ live)
      ∙ read_ok (purpose_balance p.fund_id p.from_purpose_id) funded db balance held
      ∙ read_ok (λ _. refuse_if (ltb_ℤ balance p.amount) purpose_move_insufficient) (λ _. post) db
          tt (refuse_if-false _ _ enough)

-- Outside a transaction, without a key, a move with a positive amount up to the ceiling, a date
-- inside the fund's window, between two different purposes of the fund that are no pass-through and
-- no closed envelope, on a location that is not retired, of no more than the first purpose holds,
-- whose two rows the schema accepts, is posted: the answer is the transfer, and the database is the
-- old one with the transfer and its two rows.
pub post_purpose_move_ok :
    (env : Env) (p : PostPurposeMoveParams) (db : Db) (w : DateWindow) (account : Account)
    (balance : ℤ)
    → env.marked ≡ false
    → p.idempotency ≡ none
    → pos 1 ≤ℤ p.amount
    → p.amount ≤ℤ max_amount
    → window_for env p.fund_id db ≡ ok w
    → validate_occurred_on "occurred_on" p.occurred_on (entry w) ≡ ok tt
    → (p.from_purpose_id == p.to_purpose_id) ≡ false
    → IsMovable p.fund_id p.from_purpose_id db
    → IsMovable p.fund_id p.to_purpose_id db
    → get_account_for_fund p.account_id p.fund_id db ≡ some account
    → is_some account.inactive_on ≡ false
    → purpose_balance p.fund_id p.from_purpose_id db ≡ ok balance
    → ltb_ℤ balance p.amount ≡ false
    → let inner = mark env in
      let pair = move_pair p in
      let t = pair_transfer inner pair db in
      accepts (leg_params inner pair t pair.from direction_out) (add_transfer t db) ≡ true
      → accepts (leg_params inner pair t pair.to direction_in) (with_out inner pair t db) ≡ true
      → post_purpose_move env p db ≡ (ok (fresh t), with_pair inner pair t db)
unfolding post_purpose_move
post_purpose_move_ok env p db w account balance outside unkeyed positive bounded opened dated apart
      from to located live held enough leaving arriving =
    let pair = move_pair p in
    let t = pair_transfer (mark env) pair db in
    let post : Action (Reply Transfer) =
      with_idempotency env transfer_codec p.idempotency (post_move_tx p) in
    let same : Result (Unit {0}) =
      refuse_if (p.from_purpose_id == p.to_purpose_id) purpose_move_same_purpose in
    let apart_one : Action (Reply Transfer) = check same >>= λ _. post in
    let dated_one : DateWindow → Action (Reply Transfer) =
      λ v. check (validate_occurred_on "occurred_on" p.occurred_on (entry v)) >>= λ _. apart_one in
    let opened_one : Action (Reply Transfer) =
      pool_read env (window_for env p.fund_id) >>= dated_one in
    let ceiling : Result (Unit {0}) = check_amount_ceiling "amount" p.amount in
    let small : Result (Unit {0}) =
      refuse_if (leb_ℤ p.amount (pos 0)) (invalid_argument "amount") in
    read_ok (λ _. small) (λ _. check ceiling >>= λ _. opened_one) db tt
      (refuse_if-false _ _ (positive_amount p.amount positive))
    ∙ read_ok (λ _. ceiling) (λ _. opened_one) db tt
        (refuse_if-false _ _ (amount_below_ceiling p.amount bounded))
    ∙ pool_read_ok env (window_for env p.fund_id) dated_one db w outside opened
    ∙ read_ok (λ _. validate_occurred_on "occurred_on" p.occurred_on (entry w)) (λ _. apart_one) db
        tt dated
    ∙ read_ok (λ _. same) (λ _. post) db tt (refuse_if-false _ _ apart)
    ∙ with_idempotency_ok env transfer_codec p.idempotency (post_move_tx p) db t
        (with_pair (mark env) pair t db) outside unkeyed
        (post_move_ok (mark env) p db account balance from to located live held enough
          ∙ post_transfer_pair_ok (mark env) pair db (move_checked (mark env) p db) leaving
              arriving)
