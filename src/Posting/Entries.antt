-- ===== src/Posting/Entries.antt =====
-- internal/ledger/transaction.go: what one posted entry ensures.
use uruni.Base.Int.{pos, leb_ℤ, ◌≤ℤ◌}
use uruni.Base.{
  not, ◌||◌, ◌&&◌, ◌≡◌, refl, ap, true, false, none, [], ◌∷◌, ◌++◌, if◌then◌else◌, is_some, arith,
}
use uruni.Errors.{Result, ok, refuse_if, invalid_argument}
use uruni.Dates.{DateWindow, entry, validate_occurred_on}
use uruni.Money.{Amount, max_amount}
use uruni.Store.Rows.{Db, Transaction, TransactionParams, is_in, is_out, normal, adjustment}
use uruni.Store.Action.{
  Env, Action, ◌>>=◌, mark, check, read, pool_read, Post, Post-read, Post-weaken, Post-pool_read,
}
use uruni.Store.Insert.{foreign_keys, named_row_shape, unique_indexes, accepts, create_transaction}
use uruni.Store.Balance.{create_transaction-Post}
use uruni.Tx.{Reply, transaction_codec, with_idempotency}
use uruni.Tx.Replay.{Answered, with_idempotency-Post, with_keys}
use uruni.Posting.{
  check_amount_ceiling, window_for, refuse_inactive_account, check_purpose, check_contribution,
  PostTransactionParams, entry_params, post_entry_tx, post_transaction,
}

-- The row says what the arguments say, and nothing of the other kinds of row.
abbrev pub SaysEntry : Env → PostTransactionParams → Transaction → Type 0
SaysEntry env p t =
    (t.fund_id ≡ p.fund_id)
    × (t.account_id ≡ p.account_id)
    × (t.purpose_id ≡ p.purpose_id)
    × (t.direction ≡ p.direction)
    × (t.amount ≡ p.amount)
    × (t.occurred_on ≡ p.occurred_on)
    × (t.kind ≡ (if p.is_adjustment then adjustment else normal))
    × (t.member_id ≡ p.member_id)
    × (t.note ≡ p.note)
    × (t.created_at ≡ env.now)
    × (t.dues_period ≡ none)
    × (t.reimbursement_id ≡ none)
    × (t.transfer_id ≡ none)
    × (t.dues_payment_id ≡ none)
    × (t.reverses_transaction_id ≡ none)

-- What holds after one entry was posted on `before`: one row was added, which says what the
-- arguments say, the location was not retired and the purpose took it.
abbrev pub EntryPosted : Env → PostTransactionParams → Db → Transaction → Db → Type 0
EntryPosted env p before t after =
    SaysEntry env p t
    × (after.transactions ≡ before.transactions ++ (t ∷ []))
    × (after.transfers ≡ before.transfers)
    × (refuse_inactive_account p.fund_id p.account_id before ≡ ok tt)
    × (check_purpose p before ≡ ok tt)

-- The row that the arguments make says what they say.
pub says_entry :
    (env : Env) (p : PostTransactionParams) (t : Transaction)
    → t.params ≡ entry_params env p
    → SaysEntry env p t
says_entry env p t h = (
  ap (λ (x : TransactionParams). x.fund_id) h,
  ap (λ (x : TransactionParams). x.account_id) h,
  ap (λ (x : TransactionParams). x.purpose_id) h,
  ap (λ (x : TransactionParams). x.direction) h,
  ap (λ (x : TransactionParams). x.amount) h,
  ap (λ (x : TransactionParams). x.occurred_on) h,
  ap (λ (x : TransactionParams). x.kind) h,
  ap (λ (x : TransactionParams). x.member_id) h,
  ap (λ (x : TransactionParams). x.note) h,
  ap (λ (x : TransactionParams). x.created_at) h,
  ap (λ (x : TransactionParams). x.dues_period) h,
  ap (λ (x : TransactionParams). x.reimbursement_id) h,
  ap (λ (x : TransactionParams). x.transfer_id) h,
  ap (λ (x : TransactionParams). x.dues_payment_id) h,
  ap (λ (x : TransactionParams). x.reverses_transaction_id) h,
)

post_entry_tx-Post :
    (env : Env) (p : PostTransactionParams) (db : Db)
    → Post (post_entry_tx p env db) (EntryPosted env p db)
unfolding post_entry_tx
post_entry_tx-Post env p db =
    let post : Action Transaction = create_transaction (entry_params env p) in
    let take : Action Transaction = read (check_purpose p) >>= λ _. post in
    Post-read (refuse_inactive_account p.fund_id p.account_id) (λ _. take) db (EntryPosted env p db)
      (λ u active.
        Post-read (check_purpose p) (λ _. post) db (EntryPosted env p db)
          (λ v kept.
            Post-weaken (post db) _ (EntryPosted env p db)
              (create_transaction-Post (entry_params env p) db)
              (λ t after (made, left, taken). (
                says_entry env p t (ap (λ (x : Transaction). x.params) made),
                rw (left, made) refl,
                rw left refl,
                active,
                kept,
              ))))

-- The checks before the transaction let only a dated, positive and bounded entry through.
abbrev pub IsEntry : Env → PostTransactionParams → Db → Type 0
IsEntry env p db =
    (w : DateWindow) × (window_for env p.fund_id db ≡ ok w)
    × (validate_occurred_on "occurred_on" p.occurred_on (entry w) ≡ ok tt)
    × (pos 1 ≤ℤ p.amount)
    × (p.amount ≤ℤ max_amount)
    × ((is_in p.direction || is_out p.direction) ≡ true)
    × ((is_some p.member_id && (p.is_adjustment || not (is_in p.direction))) ≡ false)

amount_facts :
    (a : Amount)
    → refuse_if (leb_ℤ a (pos 0)) (invalid_argument "amount") ≡ ok tt
    → check_amount_ceiling "amount" a ≡ ok tt
    → (pos 1 ≤ℤ a) × (a ≤ℤ max_amount)
amount_facts a h k = (ground arith, ground arith)

form_facts :
    (p : PostTransactionParams)
    → refuse_if (not (is_in p.direction || is_out p.direction)) (invalid_argument "direction")
      ≡ ok tt
    → check_contribution p ≡ ok tt
    → ((is_in p.direction || is_out p.direction) ≡ true)
      × ((is_some p.member_id && (p.is_adjustment || not (is_in p.direction))) ≡ false)
form_facts p h k = (ground arith, ground arith)

-- PostTransaction either refuses, or answers a repeated key with the first result and changes
-- nothing, or adds exactly one row. The row says what the arguments say: fund, location, purpose,
-- direction, amount, date, the kind, the member and the note, and it is no part of a transfer, a
-- payout, a payment or a reversal. Its date passed the fund's window, its amount is positive and
-- within the ceiling, a named contribution is an incoming entry to an envelope, the location is not
-- retired and the purpose is no closed envelope.
pub post_transaction_lem :
    (env : Env) (p : PostTransactionParams) (db : Db)
    → Post (post_transaction env p db) (λ reply after.
      IsEntry env p db
      × Answered transaction_codec p.idempotency db (EntryPosted (mark env) p db) reply after)
unfolding post_transaction refuse_inactive_account check_purpose accepts foreign_keys
    named_row_shape unique_indexes
post_transaction_lem env p db =
    let Q : Reply Transaction → Db → Type 0 = λ reply after.
      IsEntry env p db
      × Answered transaction_codec p.idempotency db (EntryPosted (mark env) p db) reply after in
    let post : Action (Reply Transaction) =
      with_idempotency env transaction_codec p.idempotency (post_entry_tx p) in
    let named : Action (Reply Transaction) = check (check_contribution p) >>= λ _. post in
    let dated : DateWindow → Action (Reply Transaction) =
      λ w. check (validate_occurred_on "occurred_on" p.occurred_on (entry w)) >>= λ _. named in
    let opened : Action (Reply Transaction) = pool_read env (window_for env p.fund_id) >>= dated in
    let direction : Result (Unit {0}) =
      refuse_if (not (is_in p.direction || is_out p.direction)) (invalid_argument "direction") in
    let directed : Action (Reply Transaction) = check direction >>= λ _. opened in
    let ceiling : Result (Unit {0}) = check_amount_ceiling "amount" p.amount in
    let positive : Result (Unit {0}) =
      refuse_if (leb_ℤ p.amount (pos 0)) (invalid_argument "amount") in
    Post-read (λ _. positive) (λ _. check ceiling >>= λ _. directed) db Q
      (λ u1 e1.
        Post-read (λ _. ceiling) (λ _. directed) db Q
          (λ u2 e2.
            Post-read (λ _. direction) (λ _. opened) db Q
              (λ u3 e3. Post-pool_read env (window_for env p.fund_id) dated db Q (λ w found.
                Post-read (λ _. validate_occurred_on "occurred_on" p.occurred_on (entry w))
                  (λ _. named) db Q
                  (λ u4 e4.
                    Post-read (λ _. check_contribution p) (λ _. post) db Q
                      (λ u5 e5.
                        Post-weaken (post db)
                          (Answered transaction_codec p.idempotency db
                            (EntryPosted (mark env) p db))
                          Q
                          (with_idempotency-Post transaction_codec (post_entry_tx p (mark env)) db
                            (EntryPosted (mark env) p db)
                            (λ keys. post_entry_tx-Post (mark env) p (with_keys keys db))
                            (λ t d keys h. h) env p.idempotency (post_entry_tx p) refl)
                          (λ reply after h. (
                            (
                              w,
                              found,
                              e4,
                              (amount_facts p.amount e1 e2).0,
                              (amount_facts p.amount e1 e2).1,
                              (form_facts p e3 e5).0,
                              (form_facts p e3 e5).1,
                            ),
                            h,
                          ))))))))
