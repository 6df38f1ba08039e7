-- ===== src/Transfers/Moves.antt =====
-- internal/ledger/transfer.go: which sums a transfer between locations keeps and which it shifts.
use uruni.Base.{ℕ, ◌≡◌, refl, Bool, true, false, arith, ◌==◌}
use uruni.Base.Int.{pos, ◌+ℤ◌, ◌-ℤ◌, leb_ℤ}
use uruni.Errors.{Err, Result, ok, refuse_if, invalid_argument}
use uruni.Dates.{entry, validate_occurred_on, DateWindow}
use uruni.Store.Rows.{Db, Transfer}
use uruni.Store.Action.{
  Env, Action, mark, ◌>>=◌, check, read, pool_read, Post, Post-read, Post-pool_read, Post-weaken,
}
use uruni.Store.Queries.{in_fund, in_account, in_purpose}
use uruni.Store.Balance.{total}
use uruni.Tx.{Reply, transfer_codec, with_idempotency}
use uruni.Tx.Replay.{Answered, with_idempotency-Post, with_keys}
use uruni.Posting.{check_amount_ceiling, window_for, refuse_inactive_account}
use uruni.Transfers.{
  post_transfer_pair, legs_identical, PostTransferBetweenAccountsParams, between_pair,
  post_between_tx, post_transfer_between_accounts,
}
use uruni.Transfers.Pair.{
  with_pair, pair_neutral, pair_leaves, pair_arrives, post_transfer_pair-Post,
}

-- Every fund's sum, every location's, every purpose's.
abbrev pub FundsKept : Db → Db → Type 0
FundsKept before after = (fund : ℕ) → total (in_fund fund) after ≡ total (in_fund fund) before

abbrev pub AccountsKept : Db → Db → Type 0
AccountsKept before after =
    (fund account : ℕ)
    → total (in_account fund account) after ≡ total (in_account fund account) before

abbrev pub PurposesKept : Db → Db → Type 0
PurposesKept before after =
    (fund purpose : ℕ)
    → total (in_purpose fund purpose) after ≡ total (in_purpose fund purpose) before

-- The amount has left one location of the fund for another.
abbrev pub AccountsShifted : PostTransferBetweenAccountsParams → Db → Db → Type 0
AccountsShifted p before after =
    (total (in_account p.fund_id p.from_account_id) after
      ≡ total (in_account p.fund_id p.from_account_id) before -ℤ p.amount)
    × (total (in_account p.fund_id p.to_account_id) after
        ≡ total (in_account p.fund_id p.to_account_id) before +ℤ p.amount)

abbrev pub BetweenPosted : PostTransferBetweenAccountsParams → Db → Transfer → Db → Type 0
BetweenPosted p before t after =
    FundsKept before after
    × PurposesKept before after
    × AccountsShifted p before after
    × (refuse_inactive_account p.fund_id p.from_account_id before ≡ ok tt)
    × (refuse_inactive_account p.fund_id p.to_account_id before ≡ ok tt)

between_shifted :
    (env : Env) (p : PostTransferBetweenAccountsParams) (t : Transfer) (db : Db)
    → (p.from_account_id == p.to_account_id) ≡ false
    → AccountsShifted p db (with_pair env (between_pair p) t db)
between_shifted env p t db apart = (
  pair_leaves env (between_pair p) (in_account p.fund_id p.from_account_id) t db (ground arith)
      (ground arith),
  pair_arrives env (between_pair p) (in_account p.fund_id p.to_account_id) t db (ground arith)
      (ground arith),
)

post_between_tx-Post :
    (env : Env) (p : PostTransferBetweenAccountsParams) (db : Db)
    → (p.from_account_id == p.to_account_id) ≡ false
    → Post (post_between_tx p env db) (BetweenPosted p db)
unfolding post_between_tx
post_between_tx-Post env p db apart =
    let Q = BetweenPosted p db in
    let post : Action Transfer = post_transfer_pair env (between_pair p) in
    let second : Action Transfer =
      read (refuse_inactive_account p.fund_id p.to_account_id) >>= λ _. post in
    Post-read (refuse_inactive_account p.fund_id p.from_account_id) (λ _. second) db Q
      (λ u from.
        Post-read (refuse_inactive_account p.fund_id p.to_account_id) (λ _. post) db Q
          (λ v to.
            Post-weaken (post db) _ Q (post_transfer_pair-Post env (between_pair p) db)
              (λ t after (left, _). rw left (
                λ fund. pair_neutral env (between_pair p) (in_fund fund) t db refl,
                λ fund purpose.
                    pair_neutral env (between_pair p) (in_purpose fund purpose) t db refl,
                between_shifted env p t db apart,
                from,
                to,
              ))))

pub refuse_if-ok : (b : Bool) (e : Err) → refuse_if b e ≡ ok tt → b ≡ false
refuse_if-ok true e h = ground arith
refuse_if-ok false e h = refl

identical_locations :
    (p : PostTransferBetweenAccountsParams)
    → legs_identical (between_pair p).from (between_pair p).to ≡ false
    → (p.from_account_id == p.to_account_id) ≡ false
identical_locations p h = ground arith

-- PostTransferBetweenAccounts either refuses, or answers a repeated key with the first result and
-- changes nothing, or moves the amount: the sending location's sum falls by it, the receiving
-- one's rises by it, and every fund's and every purpose's sum stays. Neither location is retired.
pub post_transfer_between_accounts_lem :
    (env : Env) (p : PostTransferBetweenAccountsParams) (db : Db)
    → Post
        (post_transfer_between_accounts env p db)
        (Answered transfer_codec p.idempotency db (BetweenPosted p db))
unfolding post_transfer_between_accounts refuse_inactive_account
post_transfer_between_accounts_lem env p db =
    let Q = Answered transfer_codec p.idempotency db (BetweenPosted p db) in
    let post : Action (Reply Transfer) =
      with_idempotency env transfer_codec p.idempotency (post_between_tx p) in
    let same : Result (Unit {0}) =
      refuse_if (legs_identical (between_pair p).from (between_pair p).to)
        (invalid_argument "to_account_id") in
    let apart : Action (Reply Transfer) = check same >>= λ _. post in
    let dated : DateWindow → Action (Reply Transfer) =
      λ w. check (validate_occurred_on "occurred_on" p.occurred_on (entry w)) >>= λ _. apart in
    let opened : Action (Reply Transfer) = pool_read env (window_for env p.fund_id) >>= dated in
    let ceiling : Result (Unit {0}) = check_amount_ceiling "amount" p.amount in
    let positive : Result (Unit {0}) =
      refuse_if (leb_ℤ p.amount (pos 0)) (invalid_argument "amount") in
    Post-read (λ _. positive) (λ _. check ceiling >>= λ _. opened) db Q
      (λ u1 e1.
        Post-read (λ _. ceiling) (λ _. opened) db Q
          (λ u2 e2. Post-pool_read env (window_for env p.fund_id) dated db Q (λ w found.
            Post-read (λ _. validate_occurred_on "occurred_on" p.occurred_on (entry w)) (λ _. apart)
              db Q
              (λ u3 e3.
                Post-read (λ _. same) (λ _. post) db Q
                  (λ u4 e4.
                    with_idempotency-Post transfer_codec (post_between_tx p (mark env)) db
                      (BetweenPosted p db)
                      (λ keys.
                        post_between_tx-Post (mark env) p (with_keys keys db)
                          (identical_locations p (refuse_if-ok _ _ e4)))
                      (λ t d keys h. h) env p.idempotency (post_between_tx p) refl)))))
