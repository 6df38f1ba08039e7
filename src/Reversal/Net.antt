-- ===== src/Reversal/Net.antt =====
-- internal/ledger/reversal.go: what a reversal leaves, and what it does to the sums.
use uruni.Base.{
  ℕ, ◌≡◌, refl, ◌∙◌, Bool, true, Option, some, [], ◌∷◌, ◌++◌, arith, inl, inr, any-append, is_same,
  Bool-cases,
}
use uruni.Base.Int.{ℤ, ◌+ℤ◌, ◌-ℤ◌, int_laws}
use uruni.Errors.{ok}
use uruni.Dates.{Text, DateWindow}
use uruni.Store.Rows.{Db, Transaction, is_in}
use uruni.Store.Action.{Env, Action, ◌>>=◌, check, Post, Post-read, Post-weaken}
use uruni.Store.Queries.{in_fund, in_account, in_purpose, signed_amount, reversed}
use uruni.Store.Insert.{new_transaction, add_transaction}
use uruni.Store.Balance.{total, total-add_transaction, create_transaction-Post}
use uruni.Posting.{window_for}
use uruni.Reversal.Refusal.{reversal_refusal}
use uruni.Reversal.Post.{
  ReversalTarget, reversal_params, post_reversal, ReverseParams, reverse_row_tx,
}

-- One row was added, the reversal of the target.
abbrev pub RowReversed :
    Env → ReverseParams → ReversalTarget → Text → Db → Transaction → Db → Type 0
RowReversed env p o today before r after =
    (r.params ≡ reversal_params env p.fund_id o today p.note)
    × (after.transactions ≡ before.transactions ++ (r ∷ []))

-- The sums that the target counted in have lost what it had brought, and it reads as reversed.
abbrev pub TakenBack : ℕ → ReversalTarget → Db → Db → Type 0
TakenBack fund o before after =
    (total (in_fund fund) after ≡ total (in_fund fund) before -ℤ signed_amount o.row)
    × (total (in_account fund o.row.account_id) after
        ≡ total (in_account fund o.row.account_id) before -ℤ signed_amount o.row)
    × (total (in_purpose fund o.effective_purpose_id) after
        ≡ total (in_purpose fund o.effective_purpose_id) before -ℤ signed_amount o.row)
    × (reversed o.row.id after ≡ true)

signed_reversal :
    (env : Env) (fund : ℕ) (o : ReversalTarget) (today : Text) (remark : Option Text) (db : Db)
    (a : ℤ)
    → a +ℤ signed_amount (new_transaction (reversal_params env fund o today remark) db)
      ≡ a -ℤ signed_amount o.row
signed_reversal env fund o today remark db a = elim (Bool-cases (is_in o.row.direction)) [
  | inl e ↦ rw e (omega int_laws)
  | inr e ↦ rw e (omega int_laws)
]

module _ (env : Env) (fund : ℕ) (o : ReversalTarget) (today : Text) (remark : Option Text)
    (db : Db) where
  abbrev reversal_row : Transaction
  reversal_row = new_transaction (reversal_params env fund o today remark) db

  loses :
      (p : Transaction → Bool)
      → p reversal_row ≡ true
      → total p (add_transaction reversal_row db) ≡ total p db -ℤ signed_amount o.row
  loses p e =
      total-add_transaction p reversal_row db
      ∙ rw e (signed_reversal env fund o today remark db (total p db))

  pub taken_back : TakenBack fund o db (add_transaction reversal_row db)
  taken_back = (
    loses (in_fund fund) (ground arith),
    loses (in_account fund o.row.account_id) (ground arith),
    loses (in_purpose fund o.effective_purpose_id) (ground arith),
    any-append (λ (r : Transaction). is_same r.reverses_transaction_id (some o.row.id))
          db.transactions (reversal_row ∷ [])
        ∙ ground arith,
  )

-- What the call did when the row is reversed alone.
abbrev pub ReversedAlone : Env → ReverseParams → ReversalTarget → Db → Transaction → Db → Type 0
ReversedAlone env p o before r after =
    (w : DateWindow) × (window_for env p.fund_id before ≡ ok w)
    × (reversal_refusal o.facts w.today ≡ ok tt)
    × RowReversed env p o w.today before r after
    × TakenBack p.fund_id o before after

pub reverse_row_tx_lem :
    (env : Env) (p : ReverseParams) (o : ReversalTarget) (db : Db)
    → Post (reverse_row_tx env p o db) (ReversedAlone env p o db)
unfolding reverse_row_tx
reverse_row_tx_lem env p o db =
    let Q = ReversedAlone env p o db in
    let post : DateWindow → Action Transaction =
      λ w. post_reversal env p.fund_id o w.today p.note in
    let decided : DateWindow → Action Transaction =
      λ w. check (reversal_refusal o.facts w.today) >>= λ _. post w in
    Post-read (window_for env p.fund_id) decided db Q (λ w found.
      Post-read (λ _. reversal_refusal o.facts w.today) (λ _. post w) db Q
        (λ u allowed.
          Post-weaken (post w db) _ Q
            (create_transaction-Post (reversal_params env p.fund_id o w.today p.note) db)
            (λ r after (made, left, taken).
              rw (left, made)
                (w, found, allowed, (refl, refl), taken_back env p.fund_id o w.today p.note db))))
