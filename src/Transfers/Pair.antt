-- ===== src/Transfers/Pair.antt =====
-- internal/ledger/transfer.go: what one transfer pair leaves, and what it does to the sums.
use uruni.Base.{
  ℕ, ◌≡◌, refl, ap, ◌∙◌, Bool, true, false, Option, Bool-cases, inl, inr, if◌then◌else◌,
}
use uruni.Base.Int.{◌+ℤ◌, ◌-ℤ◌, int_laws}
use uruni.Errors.{ok, err, constraint}
use uruni.Store.Rows.{Db, Transaction, Transfer, Reason, TransferKind, direction_in, direction_out}
use uruni.Store.Action.{Env, Action, ◌>>=◌, pure, Post, Post-bind}
use uruni.Store.Insert.{
  create_transaction, new_transaction, add_transaction, create_transfer, add_transfer,
}
use uruni.Store.Balance.{total, contribution, total-add_transaction, create_transaction-Post}
use uruni.Transfers.{TransferPair, leg_params, post_transfer_pair}

module _ (env : Env) (pair : TransferPair) where
  -- The database with the pair's rows, and the two rows.
  abbrev pub out_row : Transfer → Db → Transaction
  out_row t db = new_transaction (leg_params env pair t pair.from direction_out) (add_transfer t db)

  abbrev pub with_out : Transfer → Db → Db
  with_out t db = add_transaction (out_row t db) (add_transfer t db)

  abbrev pub in_row : Transfer → Db → Transaction
  in_row t db = new_transaction (leg_params env pair t pair.to direction_in) (with_out t db)

  abbrev pub with_pair : Transfer → Db → Db
  with_pair t db = add_transaction (in_row t db) (with_out t db)

  transfer_inserted :
      (b : Bool) (new : Transfer) (db : Db)
      → Post (if b then (ok new, add_transfer new db) else (err constraint, db)) (λ t after.
        (after ≡ add_transfer t db) × (t.corrects_transaction_id ≡ new.corrects_transaction_id))
  transfer_inserted true new db = (refl, refl)
  transfer_inserted false new db = tt

  create_transfer-Post :
      (fund : ℕ) (kind : TransferKind) (corrects : Option ℕ) (reason : Option Reason) (at : ℕ)
      (db : Db)
      → Post
          (create_transfer fund kind corrects reason at db)
          (λ t after. (after ≡ add_transfer t db) × (t.corrects_transaction_id ≡ corrects))
  unfolding create_transfer
  create_transfer-Post fund kind corrects reason at db = transfer_inserted _ _ db

  pub post_transfer_pair-Post :
      (db : Db)
      → Post (post_transfer_pair env pair db) (λ t after.
        (after ≡ with_pair t db) × (t.corrects_transaction_id ≡ pair.corrects_transaction_id))
  unfolding post_transfer_pair
  post_transfer_pair-Post db =
      let Q : Transfer → Db → Type 0 = λ t after.
        (after ≡ with_pair t db) × (t.corrects_transaction_id ≡ pair.corrects_transaction_id) in
      let arrive : Transfer → Action Transfer =
        λ t. create_transaction (leg_params env pair t pair.to direction_in) >>= λ _. pure t in
      let leave : Transfer → Action Transfer =
        λ t. create_transaction (leg_params env pair t pair.from direction_out) >>= λ _. arrive t in
      Post-bind
        (create_transfer pair.fund_id pair.kind pair.corrects_transaction_id pair.reason env.now)
        leave db
        (λ t after.
          (after ≡ add_transfer t db) × (t.corrects_transaction_id ≡ pair.corrects_transaction_id))
        Q
        (create_transfer-Post pair.fund_id pair.kind pair.corrects_transaction_id pair.reason
          env.now db)
        (λ t d1 (e1, corrects).
          Post-bind (create_transaction (leg_params env pair t pair.from direction_out))
            (λ _. arrive t) d1 _ Q
            (create_transaction-Post (leg_params env pair t pair.from direction_out) d1)
            (λ o d2 (made2, e2, taken2).
              Post-bind (create_transaction (leg_params env pair t pair.to direction_in))
                (λ _. pure t) d2 _ Q
                (create_transaction-Post (leg_params env pair t pair.to direction_in) d2)
                (λ i d3 (made3, e3, taken3). (rw (e3, made3, e2, made2, e1) refl, corrects))))

  -- What a pair does to a sum depends on which of its two rows the sum is over.
  module _ (p : Transaction → Bool) (t : Transfer) (db : Db) where
    total-with_pair :
        total p (with_pair t db)
        ≡ total p db +ℤ contribution p (out_row t db) +ℤ contribution p (in_row t db)
    total-with_pair =
        total-add_transaction p (in_row t db) (with_out t db)
        ∙ ap (λ s. s +ℤ contribution p (in_row t db))
            (total-add_transaction p (out_row t db) (add_transfer t db))

    pub pair_neutral : p (out_row t db) ≡ p (in_row t db) → total p (with_pair t db) ≡ total p db
    pair_neutral same = elim (Bool-cases (p (in_row t db))) [
      | inl e ↦ total-with_pair ∙ rw (same, e) (omega int_laws)
      | inr e ↦ total-with_pair ∙ rw (same, e) (omega int_laws)
    ]

    pub pair_leaves :
        p (out_row t db) ≡ true
        → p (in_row t db) ≡ false
        → total p (with_pair t db) ≡ total p db -ℤ pair.amount
    pair_leaves here there = total-with_pair ∙ rw (here, there) (omega int_laws)

    pub pair_arrives :
        p (out_row t db) ≡ false
        → p (in_row t db) ≡ true
        → total p (with_pair t db) ≡ total p db +ℤ pair.amount
    pair_arrives here there = total-with_pair ∙ rw (here, there) (omega int_laws)
