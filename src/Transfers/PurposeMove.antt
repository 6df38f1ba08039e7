-- ===== src/Transfers/PurposeMove.antt =====
-- internal/ledger/purpose_move.go: what a move between purposes does to the sums.
use uruni.Base.{ℕ, ◌≡◌, sym, refl, false, some, arith, ◌==◌, is_some}
use uruni.Base.Int.{ℤ, pos, ◌+ℤ◌, ◌-ℤ◌, ◌≤ℤ◌, leb_ℤ, ltb_ℤ}
use uruni.Errors.{
  Result, ok, refuse_if, or_err, or_err-ok, invalid_argument, purpose_move_same_purpose,
  purpose_move_unknown_purpose, purpose_move_pass_through, purpose_move_closed,
  purpose_move_unknown_account, purpose_move_account_inactive, purpose_move_insufficient,
}
use uruni.Dates.{entry, validate_occurred_on, DateWindow}
use uruni.Store.Rows.{Db, Transfer, Purpose, Account, is_pass_through}
use uruni.Store.Action.{
  Env, Action, mark, ◌>>=◌, check, read, pool_read, Post, Post-bind, Post-read, Post-pool_read,
  Post-weaken, read-Post,
}
use uruni.Store.Queries.{
  in_fund, in_account, in_purpose, get_account_for_fund, get_purpose_for_fund, purpose_balance,
}
use uruni.Store.Balance.{total, purpose_balance_exact}
use uruni.Tx.{Reply, transfer_codec, with_idempotency}
use uruni.Tx.Replay.{Answered, with_idempotency-Post, with_keys}
use uruni.Posting.{check_amount_ceiling, window_for, refuse_closed_incidental}
use uruni.Transfers.{
  post_transfer_pair, PostPurposeMoveParams, move_pair, check_move_purpose, post_move_tx,
  post_purpose_move,
}
use uruni.Transfers.Pair.{
  with_pair, pair_neutral, pair_leaves, pair_arrives, post_transfer_pair-Post,
}
use uruni.Transfers.Moves.{FundsKept, AccountsKept, refuse_if-ok}

-- The purpose is the fund's, not passed through, and no closed envelope.
abbrev pub IsMovable : ℕ → ℕ → Db → Type 0
IsMovable fund id db =
    (purpose : Purpose) × (get_purpose_for_fund id fund db ≡ some purpose)
    × (is_pass_through purpose.kind ≡ false)
    × (refuse_closed_incidental id purpose_move_closed db ≡ ok tt)

-- The amount has left one purpose for another, and the first still holds no less than nothing.
abbrev pub PurposesShifted : PostPurposeMoveParams → Db → Db → Type 0
PurposesShifted p before after =
    (total (in_purpose p.fund_id p.from_purpose_id) after
      ≡ total (in_purpose p.fund_id p.from_purpose_id) before -ℤ p.amount)
    × (total (in_purpose p.fund_id p.to_purpose_id) after
        ≡ total (in_purpose p.fund_id p.to_purpose_id) before +ℤ p.amount)
    × (pos 0 ≤ℤ total (in_purpose p.fund_id p.from_purpose_id) after)

abbrev pub MovePosted : PostPurposeMoveParams → Db → Transfer → Db → Type 0
MovePosted p before t after =
    FundsKept before after
    × AccountsKept before after
    × PurposesShifted p before after
    × IsMovable p.fund_id p.from_purpose_id before
    × IsMovable p.fund_id p.to_purpose_id before

check_move_purpose-Post :
    (fund id : ℕ) (db : Db)
    → Post (check_move_purpose fund id db) (λ u after. (after ≡ db) × IsMovable fund id db)
unfolding check_move_purpose
check_move_purpose-Post fund id db =
    let Q : Unit {0} → Db → Type 0 = λ u after. (after ≡ db) × IsMovable fund id db in
    let closed : Action (Unit {0}) = read (refuse_closed_incidental id purpose_move_closed) in
    let kind : Purpose → Action (Unit {0}) = λ purpose.
      check (refuse_if (is_pass_through purpose.kind) purpose_move_pass_through) >>= λ _. closed in
    Post-read (λ d. or_err (get_purpose_for_fund id fund d) purpose_move_unknown_purpose) kind db Q
      (λ purpose found.
        Post-read (λ _. refuse_if (is_pass_through purpose.kind) purpose_move_pass_through)
          (λ _. closed) db Q
          (λ u proper.
            read-Post (refuse_closed_incidental id purpose_move_closed) db Q (λ v open_one.
              (refl, (purpose, or_err-ok _ _ purpose found, refuse_if-ok _ _ proper, open_one)))))

sufficient :
    (p : PostPurposeMoveParams) (balance before : ℤ)
    → balance ≡ before
    → ltb_ℤ balance p.amount ≡ false
    → pos 0 ≤ℤ (before -ℤ p.amount)
unfolding ◌-ℤ◌
sufficient p balance before e h = rw (sym e) (ground arith)

move_shifted :
    (env : Env) (p : PostPurposeMoveParams) (t : Transfer) (db : Db)
    → (p.from_purpose_id == p.to_purpose_id) ≡ false
    → pos 0 ≤ℤ (total (in_purpose p.fund_id p.from_purpose_id) db -ℤ p.amount)
    → PurposesShifted p db (with_pair env (move_pair p) t db)
move_shifted env p t db apart enough =
    let gone =
      pair_leaves env (move_pair p) (in_purpose p.fund_id p.from_purpose_id) t db (ground arith)
        (ground arith) in
    (
      gone,
      pair_arrives env (move_pair p) (in_purpose p.fund_id p.to_purpose_id) t db (ground arith)
          (ground arith),
      rw gone enough,
    )

post_move_tx-Post :
    (env : Env) (p : PostPurposeMoveParams) (db : Db)
    → (p.from_purpose_id == p.to_purpose_id) ≡ false
    → Post (post_move_tx p env db) (MovePosted p db)
unfolding post_move_tx
post_move_tx-Post env p db apart =
    let Q = MovePosted p db in
    let post : Action Transfer = post_transfer_pair env (move_pair p) in
    let funded : ℤ → Action Transfer = λ balance.
      check (refuse_if (ltb_ℤ balance p.amount) purpose_move_insufficient) >>= λ _. post in
    let source : Action Transfer = read (purpose_balance p.fund_id p.from_purpose_id) >>= funded in
    let live : Account → Action Transfer = λ account.
      check (refuse_if (is_some account.inactive_on) purpose_move_account_inactive) >>= λ _.
      source in
    let account : Db → Result Account =
      λ d. or_err (get_account_for_fund p.account_id p.fund_id d) purpose_move_unknown_account in
    let located : Action Transfer = read account >>= live in
    let second : Action Transfer = check_move_purpose p.fund_id p.to_purpose_id >>= λ _. located in
    Post-bind (check_move_purpose p.fund_id p.from_purpose_id) (λ _. second) db _ Q
      (check_move_purpose-Post p.fund_id p.from_purpose_id db)
      (λ u d1 (e1, from). rw e1 (
        Post-bind (check_move_purpose p.fund_id p.to_purpose_id) (λ _. located) db _ Q
          (check_move_purpose-Post p.fund_id p.to_purpose_id db)
          (λ v d2 (e2, to). rw e2 (
            Post-read account live db Q (λ a found.
              Post-read (λ _. refuse_if (is_some a.inactive_on) purpose_move_account_inactive)
                (λ _. source) db Q
                (λ w working.
                  Post-read (purpose_balance p.fund_id p.from_purpose_id) funded db Q
                    (λ balance holds.
                      Post-read (λ _. refuse_if (ltb_ℤ balance p.amount) purpose_move_insufficient)
                        (λ _. post) db Q
                        (λ x enough.
                          posted
                            (sufficient p balance _
                              (purpose_balance_exact p.fund_id p.from_purpose_id db holds)
                              (refuse_if-ok _ _ enough))
                            from to))))))))
  where
    posted :
        pos 0 ≤ℤ (total (in_purpose p.fund_id p.from_purpose_id) db -ℤ p.amount)
        → IsMovable p.fund_id p.from_purpose_id db
        → IsMovable p.fund_id p.to_purpose_id db
        → Post (post_transfer_pair env (move_pair p) db) (MovePosted p db)
    posted enough from to =
        Post-weaken (post_transfer_pair env (move_pair p) db) _ (MovePosted p db)
          (post_transfer_pair-Post env (move_pair p) db)
          (λ t after (left, _). rw left (
            λ fund. pair_neutral env (move_pair p) (in_fund fund) t db refl,
            λ fund account. pair_neutral env (move_pair p) (in_account fund account) t db refl,
            move_shifted env p t db apart enough,
            from,
            to,
          ))

-- PostPurposeMove either refuses, or answers a repeated key with the first result and changes
-- nothing, or moves the amount: the first purpose's sum falls by it and is not negative after, the
-- second one's rises by it, and every fund's and every location's sum stays. Both purposes are the
-- fund's, no pass-through and no closed envelope.
pub post_purpose_move_lem :
    (env : Env) (p : PostPurposeMoveParams) (db : Db)
    → Post (post_purpose_move env p db) (Answered transfer_codec p.idempotency db (MovePosted p db))
unfolding post_purpose_move refuse_closed_incidental
post_purpose_move_lem env p db =
    let Q = Answered transfer_codec p.idempotency db (MovePosted p db) in
    let post : Action (Reply Transfer) =
      with_idempotency env transfer_codec p.idempotency (post_move_tx p) in
    let same : Result (Unit {0}) =
      refuse_if (p.from_purpose_id == p.to_purpose_id) purpose_move_same_purpose in
    let apart : Action (Reply Transfer) = check same >>= λ _. post in
    let dated : DateWindow → Action (Reply Transfer) =
      λ w. check (validate_occurred_on "occurred_on" p.occurred_on (entry w)) >>= λ _. apart in
    let opened : Action (Reply Transfer) = pool_read env (window_for env p.fund_id) >>= dated in
    let ceiling : Result (Unit {0}) = check_amount_ceiling "amount" p.amount in
    let positive : Result (Unit {0}) =
      refuse_if (leb_ℤ p.amount (pos 0)) (invalid_argument "amount") in
    Post-read (λ _. positive) (λ _. check ceiling >>= λ _. opened) db Q
      (λ u1 e1.
        Post-read (λ _. ceiling) (λ _. opened) db Q
          (λ u2 e2. Post-pool_read env (window_for env p.fund_id) dated db Q (λ w found.
            Post-read (λ _. validate_occurred_on "occurred_on" p.occurred_on (entry w)) (λ _. apart)
              db Q
              (λ u3 e3.
                Post-read (λ _. same) (λ _. post) db Q
                  (λ u4 e4.
                    with_idempotency-Post transfer_codec (post_move_tx p (mark env)) db
                      (MovePosted p db)
                      (λ keys.
                        post_move_tx-Post (mark env) p (with_keys keys db) (refuse_if-ok _ _ e4))
                      (λ t d keys h. h) env p.idempotency (post_move_tx p) refl)))))
