-- ===== src/Reimbursement/Paid.antt =====
-- internal/ledger/reimbursement.go beside internal/db/migrations/00001_schema.sql: a payout that the
-- guards let through is one that the schema takes.
use uruni.Base.{
  ℕ, ◌≡◌, refl, Bool, true, false, ◌&&◌, none, some, List, [], ◌∷◌, ◌++◌, ◌==◌, arith, any, find?,
  is_same, ◌⊎◌, inl, inr,
}
use uruni.Base.Int.{pos, ◌≤ℤ◌}
use uruni.Errors.{ok, incidental_closed}
use uruni.Money.{max_amount}
use uruni.Dates.{DateWindow, entry, validate_occurred_on}
use uruni.Store.Rows.{
  Db, Account, Purpose, Reimbursement, Transaction, direction_out, reimbursement, is_reimbursement,
}
use uruni.Store.Action.{Env, mark, with_tx, pool_read}
use uruni.Store.Queries.{get_account_for_fund, get_reimbursement, incidental_closed_on_for_purpose}
use uruni.Store.Insert.{
  accepts, is_date_column, column_checks, kind_shape, foreign_keys, named_row_shape, unique_indexes,
  create_transaction, new_transaction, add_transaction,
}
use uruni.Posting.{window_for, refuse_inactive_account, refuse_closed_incidental}
use uruni.Posting.Taken.{dated_column, account_known, account_live}
use uruni.Reimbursement.{
  unsettled_claim, SettleReimbursementParams, settlement_params, settle_reimbursement,
  settle_reimbursement_tx,
}

-- A payout row names the claim.
abbrev pub pays : ℕ → Transaction → Bool
pays id t = is_reimbursement t.kind && is_same t.reimbursement_id (some id)

-- The payout, by what it says.
abbrev pub SaysPayout : SettleReimbursementParams → Reimbursement → Transaction → Type 0
SaysPayout p claim t =
    (t.fund_id ≡ p.fund_id)
    × (t.account_id ≡ p.account_id)
    × (t.purpose_id ≡ claim.purpose_id)
    × (t.direction ≡ direction_out)
    × (t.amount ≡ claim.amount)
    × (t.occurred_on ≡ p.occurred_on)
    × (t.kind ≡ reimbursement)
    × (t.reimbursement_id ≡ some p.reimbursement_id)
    × (t.member_id ≡ none)
    × (t.transfer_id ≡ none)
    × (t.reverses_transaction_id ≡ none)

claim_known :
    (id fund : ℕ) (rows : List Reimbursement) (claim : Reimbursement)
    → find? (λ (r : Reimbursement). (r.id == id) && (r.fund_id == fund)) rows ≡ some claim
    → any (λ (r : Reimbursement). (r.fund_id == fund) && (r.id == id)) rows ≡ true
claim_known id fund [] claim h = ground arith
claim_known id fund (r ∷ rows) claim h = ground (arith, claim_known id fund rows claim)

payout_accepts :
    (env : Env) (p : SettleReimbursementParams) (claim : Reimbursement) (db : Db)
    → pos 1 ≤ℤ claim.amount
    → claim.amount ≤ℤ max_amount
    → is_date_column p.occurred_on ≡ true
    → any (λ (a : Account). (a.fund_id == p.fund_id) && (a.id == p.account_id)) db.accounts ≡ true
    → any (λ (q : Purpose). (q.fund_id == p.fund_id) && (q.id == claim.purpose_id)) db.purposes
      ≡ true
    → any
        (λ (r : Reimbursement). (r.fund_id == p.fund_id) && (r.id == p.reimbursement_id))
        db.reimbursements
      ≡ true
    → any (pays p.reimbursement_id) db.transactions ≡ false
    → accepts (settlement_params env p claim) db ≡ true
unfolding accepts column_checks kind_shape foreign_keys named_row_shape unique_indexes
payout_accepts env p claim db positive bounded dated located purposed known unpaid = ground arith

none_settles :
    (fund id : ℕ) (rows : List Transaction)
    → any (pays id) rows ≡ false
    → find?
        (λ (t : Transaction).
          (t.fund_id == fund) && is_same t.reimbursement_id (some id) && is_reimbursement t.kind)
        rows
      ≡ none
none_settles fund id [] h = refl
none_settles fund id (t ∷ rows) h = ground (arith, none_settles fund id rows)

claim_open :
    (fund id : ℕ) (db : Db) (claim : Reimbursement)
    → get_reimbursement id fund db ≡ some claim
    → any (pays id) db.transactions ≡ false
    → unsettled_claim fund id db ≡ ok claim
unfolding unsettled_claim
claim_open fund id db claim found unpaid =
    let none_one = none_settles fund id db.transactions unpaid in ground arith

envelope_open :
    (purpose : ℕ) (db : Db)
    → (incidental_closed_on_for_purpose purpose db ≡ none)
      ⊎ (incidental_closed_on_for_purpose purpose db ≡ some none)
    → refuse_closed_incidental purpose incidental_closed db ≡ ok tt
unfolding refuse_closed_incidental
envelope_open purpose db (inl e) = ground arith
envelope_open purpose db (inr e) = ground arith

settled_row :
    (env : Env) (p : SettleReimbursementParams) (db : Db) (claim : Reimbursement) (w : DateWindow)
    → env.marked ≡ false
    → window_for env p.fund_id db ≡ ok w
    → validate_occurred_on "occurred_on" p.occurred_on (entry w) ≡ ok tt
    → unsettled_claim p.fund_id p.reimbursement_id db ≡ ok claim
    → claim.waived_on ≡ none
    → claim.amount ≤ℤ max_amount
    → refuse_inactive_account p.fund_id p.account_id db ≡ ok tt
    → refuse_closed_incidental claim.purpose_id incidental_closed db ≡ ok tt
    → accepts (settlement_params (mark env) p claim) db ≡ true
    → let t = new_transaction (settlement_params (mark env) p claim) db in
      settle_reimbursement env p db ≡ (ok t, add_transaction t db)
unfolding settle_reimbursement settle_reimbursement_tx create_transaction with_tx pool_read
settled_row env p db claim w h1 h2 h3 h4 h5 h6 h7 h8 h9 = ground arith

-- A payout answers, and the schema has nothing against it. Outside a transaction, with a date inside the
-- fund's window, a claim of the fund that is not waived and that no payout names, with a positive
-- amount up to the ceiling and a purpose of the fund that is no closed envelope, and a location of the
-- fund that is not retired, SettleReimbursement answers with a new row: the claim's amount out of the
-- location, under the claim's purpose, naming the claim. The database is the old one with that row at
-- the end of its transactions.
pub settle_reimbursement_succeeds :
    (env : Env) (p : SettleReimbursementParams) (db : Db) (claim : Reimbursement) (w : DateWindow)
    (account : Account)
    → env.marked ≡ false
    → window_for env p.fund_id db ≡ ok w
    → validate_occurred_on "occurred_on" p.occurred_on (entry w) ≡ ok tt
    → get_reimbursement p.reimbursement_id p.fund_id db ≡ some claim
    → claim.waived_on ≡ none
    → any (pays p.reimbursement_id) db.transactions ≡ false
    → pos 1 ≤ℤ claim.amount
    → claim.amount ≤ℤ max_amount
    → any (λ (q : Purpose). (q.fund_id == p.fund_id) && (q.id == claim.purpose_id)) db.purposes
      ≡ true
    → (incidental_closed_on_for_purpose claim.purpose_id db ≡ none)
      ⊎ (incidental_closed_on_for_purpose claim.purpose_id db ≡ some none)
    → get_account_for_fund p.account_id p.fund_id db ≡ some account
    → account.inactive_on ≡ none
    → (t : Transaction) × (settle_reimbursement env p db
        ≡ (ok t, record db { transactions = db.transactions ++ (t ∷ []) }))
      × SaysPayout p claim t
settle_reimbursement_succeeds env p db claim w account outside opened dated found owed unpaid
      positive bounded purposed free located live =
    (
      new_transaction (settlement_params (mark env) p claim) db,
      settled_row env p db claim w outside opened dated
          (claim_open p.fund_id p.reimbursement_id db claim found unpaid) owed bounded
          (account_live p.account_id p.fund_id db account located live)
          (envelope_open claim.purpose_id db free)
          (payout_accepts (mark env) p claim db positive bounded
            (dated_column p.occurred_on (entry w) dated)
            (account_known p.account_id p.fund_id db.accounts account located) purposed
            (claim_known p.reimbursement_id p.fund_id db.reimbursements claim found) unpaid),
      (refl, refl, refl, refl, refl, refl, refl, refl, refl, refl, refl),
    )
