-- ===== src/Transfers/Correction.antt =====
-- internal/ledger/purpose_correction.go: what a purpose correction does to the sums.
use uruni.Base.{
  ℕ, ◌≡◌, ◌∙◌, Bool-cases, inl, inr, refl, true, false, ◌||◌, none, some, arith, ◌⊎◌, ◌==◌, All,
  All-find?,
}
use uruni.Base.Int.{◌+ℤ◌, ◌-ℤ◌, int_laws}
use uruni.Errors.{
  Result, ok, refuse_if, or_err, or_err-ok, purpose_correction_not_found,
  purpose_correction_already_reversed, purpose_correction_noop, purpose_correction_target_closed,
  purpose_correction_source_closed,
}
use uruni.Store.Rows.{
  Db, Transaction, Transfer, is_in, is_out, direction_in, direction_out, direction_other, Direction,
  TransactionKind, opening, normal, dues, reimbursement, adjustment, transfer, unknown,
}
use uruni.Store.Action.{Env, Action, mark, ◌>>=◌, check, read, Post, Post-read, Post-weaken}
use uruni.Store.Queries.{
  in_fund, in_account, in_purpose, get_transaction_for_fund, effective_purpose_id, reversed,
  signed_amount,
}
use uruni.Store.Balance.{total}
use uruni.Tx.{transfer_codec}
use uruni.Tx.Replay.{Answered, with_idempotency-Post, with_keys}
use uruni.Posting.{refuse_closed_incidental}
use uruni.Transfers.{
  post_transfer_pair, PostPurposeCorrectionParams, correction_refusal, correction_pair,
  post_correction_tx, post_purpose_correction,
}
use uruni.Transfers.Pair.{
  with_pair, pair_neutral, pair_leaves, pair_arrives, post_transfer_pair-Post,
}
use uruni.Transfers.Moves.{FundsKept, AccountsKept, refuse_if-ok}

-- The direction of a stored row, by the schema's CHECK.
abbrev pub IsDirected : Transaction → Type 0
IsDirected t = (is_in t.direction || is_out t.direction) ≡ true

-- What the row carried has left its effective purpose for the target.
abbrev pub Retagged : ℕ → ℕ → ℕ → Transaction → Db → Db → Type 0
Retagged fund effective target row before after =
    (total (in_purpose fund effective) after
      ≡ total (in_purpose fund effective) before -ℤ signed_amount row)
    × (total (in_purpose fund target) after
        ≡ total (in_purpose fund target) before +ℤ signed_amount row)

-- The rows that a correction may name: a plain entry without a member, an adjustment that reverses
-- nothing, or a row of a kind that the code does not know.
abbrev pub IsCorrectable : Transaction → Type 0
IsCorrectable t =
    ((t.kind ≡ normal) × (t.member_id ≡ none))
    ⊎ ((t.kind ≡ adjustment) × (t.reverses_transaction_id ≡ none))
    ⊎ (t.kind ≡ unknown)

correctable :
    (t : Transaction) (kind : TransactionKind)
    → t.kind ≡ kind
    → correction_refusal t ≡ ok tt
    → IsCorrectable t
unfolding correction_refusal
correctable t opening e h = ground arith
correctable t normal e h = inl (e, ground arith)
correctable t dues e h = ground arith
correctable t reimbursement e h = ground arith
correctable t adjustment e h = inr (inl (e, ground arith))
correctable t transfer e h = ground arith
correctable t unknown e h = inr (inr e)

abbrev pub CorrectionPosted : PostPurposeCorrectionParams → Db → Transfer → Db → Type 0
CorrectionPosted p before t after =
    (row : Transaction) × (get_transaction_for_fund p.fund_id p.transaction_id before ≡ some row)
    × (t.corrects_transaction_id ≡ some p.transaction_id)
    × IsCorrectable row
    × (reversed p.transaction_id before ≡ false)
    × FundsKept before after
    × AccountsKept before after
    × Retagged p.fund_id (effective_purpose_id row before) p.purpose_id row before after

out_not_in : (d : Direction) → is_out d ≡ true → is_in d ≡ false
out_not_in direction_in h = ground arith
out_not_in direction_out h = refl
out_not_in direction_other h = refl

in_not_out : (d : Direction) → is_in d ≡ true → is_out d ≡ false
in_not_out direction_in h = refl
in_not_out direction_out h = ground arith
in_not_out direction_other h = refl

module _ (env : Env) (p : PostPurposeCorrectionParams) (row : Transaction) (effective : ℕ)
    (t : Transfer) (db : Db) where
  -- Both legs stand on the row's location.
  kept :
      FundsKept db (with_pair env (correction_pair p row effective) t db)
      × AccountsKept db (with_pair env (correction_pair p row effective) t db)
  unfolding correction_pair
  kept = (
    λ fund. pair_neutral env (correction_pair p row effective) (in_fund fund) t db refl,
    λ fund account.
        pair_neutral env (correction_pair p row effective) (in_account fund account) t db
          (elim (Bool-cases (is_out row.direction)) [ inl e ↦ rw e refl | inr e ↦ rw e refl ]),
  )

  module _ (apart : (p.purpose_id == effective) ≡ false) where
    -- An outgoing row: its amount comes back to the purpose it is under and leaves the target.
    Retagged-out :
        is_out row.direction ≡ true
        → Retagged p.fund_id effective p.purpose_id row db
            (with_pair env (correction_pair p row effective) t db)
    unfolding correction_pair
    Retagged-out e = (
      pair_arrives env (correction_pair p row effective) (in_purpose p.fund_id effective) t db
            (rw e (ground arith)) (rw e (ground arith))
          ∙ rw (out_not_in row.direction e) (omega int_laws),
      pair_leaves env (correction_pair p row effective) (in_purpose p.fund_id p.purpose_id) t db
            (rw e (ground arith)) (rw e (ground arith))
          ∙ rw (out_not_in row.direction e) (omega int_laws),
    )

    Retagged-in :
        is_in row.direction ≡ true
        → Retagged p.fund_id effective p.purpose_id row db
            (with_pair env (correction_pair p row effective) t db)
    unfolding correction_pair
    Retagged-in e = (
      pair_leaves env (correction_pair p row effective) (in_purpose p.fund_id effective) t db
            (rw (in_not_out row.direction e) (ground arith))
            (rw (in_not_out row.direction e) (ground arith))
          ∙ rw e refl,
      pair_arrives env (correction_pair p row effective) (in_purpose p.fund_id p.purpose_id) t db
            (rw (in_not_out row.direction e) (ground arith))
            (rw (in_not_out row.direction e) (ground arith))
          ∙ rw e refl,
    )

    Retagged-with_pair :
        IsDirected row
        → Retagged p.fund_id effective p.purpose_id row db
            (with_pair env (correction_pair p row effective) t db)
    Retagged-with_pair directed = elim (Bool-cases (is_out row.direction)) [
      | inl e ↦ Retagged-out e
      | inr e ↦ Retagged-in (ground arith)
    ]

pair_names :
    (p : PostPurposeCorrectionParams) (row : Transaction) (effective : ℕ)
    → (correction_pair p row effective).corrects_transaction_id ≡ some p.transaction_id
unfolding correction_pair
pair_names p row effective = refl

post_correction_tx-Post :
    (env : Env) (p : PostPurposeCorrectionParams) (db : Db)
    → All IsDirected db.transactions
    → Post (post_correction_tx p env db) (CorrectionPosted p db)
unfolding post_correction_tx
post_correction_tx-Post env p db directed =
    let Q = CorrectionPosted p db in
    let post : Transaction → ℕ → Action Transfer =
      λ row effective. post_transfer_pair env (correction_pair p row effective) in
    let source : Transaction → ℕ → Action Transfer = λ row effective.
      read (refuse_closed_incidental effective purpose_correction_source_closed) >>= λ _.
      post row effective in
    let target : Transaction → ℕ → Action Transfer = λ row effective.
      read (refuse_closed_incidental p.purpose_id purpose_correction_target_closed) >>= λ _.
      source row effective in
    let noop : Transaction → ℕ → Action Transfer = λ row effective.
      check (refuse_if (p.purpose_id == effective) purpose_correction_noop) >>= λ _.
      target row effective in
    let tagged : Transaction → Action Transfer =
      λ row. read (λ d. ok (effective_purpose_id row d)) >>= noop row in
    let standing : Db → Result (Unit {0}) =
      λ d. refuse_if (reversed p.transaction_id d) purpose_correction_already_reversed in
    let once : Transaction → Action Transfer = λ row. read standing >>= λ _. tagged row in
    let eligible : Transaction → Action Transfer =
      λ row. check (correction_refusal row) >>= λ _. once row in
    let original : Db → Result Transaction = λ d.
      or_err (get_transaction_for_fund p.fund_id p.transaction_id d) purpose_correction_not_found in
    Post-read original eligible db Q (λ row found.
      Post-read (λ _. correction_refusal row) (λ _. once row) db Q
        (λ u1 kind.
          Post-read standing (λ _. tagged row) db Q
            (λ u2 stands.
              Post-read
                (λ d.
                  refuse_if (p.purpose_id == effective_purpose_id row d) purpose_correction_noop)
                (λ _. target row (effective_purpose_id row db)) db Q
                (λ u3 apart.
                  Post-read (refuse_closed_incidental p.purpose_id purpose_correction_target_closed)
                    (λ _. source row (effective_purpose_id row db)) db Q
                    (λ u4 e4.
                      Post-read
                        (refuse_closed_incidental (effective_purpose_id row db)
                          purpose_correction_source_closed)
                        (λ _. post row (effective_purpose_id row db)) db Q
                        (λ u5 e5.
                          posted row (or_err-ok _ _ row found) kind (refuse_if-ok _ _ stands)
                            (refuse_if-ok _ _ apart)))))))
  where
    posted :
        (row : Transaction)
        → get_transaction_for_fund p.fund_id p.transaction_id db ≡ some row
        → correction_refusal row ≡ ok tt
        → reversed p.transaction_id db ≡ false
        → (p.purpose_id == effective_purpose_id row db) ≡ false
        → Post
            (post_transfer_pair env (correction_pair p row (effective_purpose_id row db)) db)
            (CorrectionPosted p db)
    posted row found kind stands apart =
        Post-weaken
          (post_transfer_pair env (correction_pair p row (effective_purpose_id row db)) db) _
          (CorrectionPosted p db)
          (post_transfer_pair-Post env (correction_pair p row (effective_purpose_id row db)) db)
          (λ t after (left, names). rw left (
            row,
            found,
            names ∙ pair_names p row (effective_purpose_id row db),
            correctable row row.kind refl kind,
            stands,
            (kept env p row (effective_purpose_id row db) t db).0,
            (kept env p row (effective_purpose_id row db) t db).1,
            Retagged-with_pair env p row (effective_purpose_id row db) t db apart
                (All-find? IsDirected _ db.transactions row directed found),
          ))

-- With directions that the schema admits, PostPurposeCorrection either refuses, or answers a
-- repeated key with the first result and changes nothing, or takes what the row carried from its
-- effective purpose to the target: the one purpose's sum loses the row's signed amount, the
-- other's gains it, and every fund's and every location's sum stays. The row was not
-- reversed and is a plain entry without a member, an adjustment that reverses nothing, or of a kind
-- that the code does not know.
pub post_purpose_correction_lem :
    (env : Env) (p : PostPurposeCorrectionParams) (db : Db)
    → All IsDirected db.transactions
    → Post
        (post_purpose_correction env p db)
        (Answered transfer_codec p.idempotency db (CorrectionPosted p db))
unfolding post_purpose_correction effective_purpose_id
post_purpose_correction_lem env p db directed =
    with_idempotency-Post transfer_codec (post_correction_tx p (mark env)) db
      (CorrectionPosted p db)
      (λ keys. post_correction_tx-Post (mark env) p (with_keys keys db) directed) (λ t d keys h. h)
      env p.idempotency (post_correction_tx p) refl
