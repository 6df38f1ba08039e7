-- ===== src/Reimbursement/Settle.antt =====
-- internal/ledger/reimbursement.go: what paying a claim out does to the ledger and to what the fund
-- owes.
use uruni.Base.{
  ℕ, ◌≡◌, refl, sym, ◌∙◌, Bool, true, false, ◌&&◌, not, none, some, List, [], ◌∷◌, ◌++◌, map, arith,
  ◌==◌, if◌then◌else◌, is_same, filter, find?, find?-test, ==_self, All, Bool-cases, inl, inr,
  any-append, any_congr, filter_congr, All-map, subst, All-find?,
}
use uruni.Base.Int.{ℤ, pos, ◌+ℤ◌, ◌-ℤ◌, neg_ℤ, int_laws}
use uruni.Errors.{ok, err, Result-cases, reimbursement_already_settled}
use uruni.Store.Rows.{Db, Reimbursement, Transaction, is_reimbursement}
use uruni.Store.Action.{Env, mark, with_tx, pool_read}
use uruni.Store.Queries.{
  get_reimbursement, get_reimbursement_settlement, in_fund, in_account, in_purpose, is_settled,
  is_outstanding,
}
use uruni.Store.Sums.{sum}
use uruni.Store.Insert.{
  unique_indexes, create_transaction, accepts, new_transaction, add_transaction,
}
use uruni.Store.Balance.{contribution, total, total-add_transaction}
use uruni.Reimbursement.{
  unsettled_claim, SettleReimbursementParams, settlement_params, settle_reimbursement_tx,
  settle_reimbursement,
}

unsettled_claim-ok :
    (fund id : ℕ) (db : Db) (claim : Reimbursement)
    → unsettled_claim fund id db ≡ ok claim
    → (get_reimbursement id fund db ≡ some claim) × (get_reimbursement_settlement fund id db ≡ none)
unfolding unsettled_claim
unsettled_claim-ok fund id db claim h = ground arith

module _ (env : Env) (p : SettleReimbursementParams) (db : Db) (t : Transaction) (after : Db)
    (paid : settle_reimbursement env p db ≡ (ok t, after)) where
  claim_found :
      (claim : Reimbursement) × (unsettled_claim p.fund_id p.reimbursement_id db ≡ ok claim)
  unfolding settle_reimbursement settle_reimbursement_tx with_tx pool_read
  claim_found = elim (Result-cases (unsettled_claim p.fund_id p.reimbursement_id db)) [
    | inl found ↦ found
    | inr (e, h) ↦ ground arith
  ]

  -- What was checked and what was written.
  paid_facts :
      (claim : Reimbursement)
      → unsettled_claim p.fund_id p.reimbursement_id db ≡ ok claim
      → (claim.waived_on ≡ none)
        × (t ≡ new_transaction (settlement_params (mark env) p claim) db)
        × (after ≡ add_transaction t db)
        × (accepts (settlement_params (mark env) p claim) db ≡ true)
  unfolding settle_reimbursement settle_reimbursement_tx create_transaction with_tx pool_read
  paid_facts claim h = ground arith

-- A payout that the schema takes pays a claim that no payout names.
not_settled :
    (env : Env) (p : SettleReimbursementParams) (claim : Reimbursement) (db : Db)
    → accepts (settlement_params env p claim) db ≡ true
    → is_settled p.reimbursement_id db ≡ false
unfolding accepts unique_indexes
not_settled env p claim db h = ground (
  arith,
  any_congr
      (λ (t : Transaction).
        is_reimbursement t.kind && is_same t.reimbursement_id (some p.reimbursement_id))
      (λ (t : Transaction).
        is_same t.reimbursement_id (some p.reimbursement_id) && is_reimbursement t.kind)
      db.transactions (λ t. ground arith),
)

paid_out : (b : Bool) (a x : ℤ) → x +ℤ (if b then neg_ℤ a else pos 0) ≡ (if b then x -ℤ a else x)
paid_out true a x = omega int_laws
paid_out false a x = omega int_laws

-- The claims' ids are all different: the table's primary key.
abbrev pub IsKeyed : List Reimbursement → Type 0
IsKeyed [] = Unit
IsKeyed (r ∷ rows) = All (λ (s : Reimbursement). (s.id == r.id) ≡ false) rows × IsKeyed rows

-- The exact sum of the outstanding claims.
abbrev pub owed : ℕ → Db → ℤ
owed fund db =
    sum (map (λ (r : Reimbursement). r.amount) (filter (is_outstanding fund db) db.reimbursements))

abbrev amount_of : Reimbursement → ℤ
amount_of r = r.amount

-- Taking one row out of a keyed table's selection takes its amount out of the sum.
sum_without :
    (p q : Reimbursement → Bool) (id fund : ℕ) (claim : Reimbursement) (rows : List Reimbursement)
    → ((r : Reimbursement) → q r ≡ (p r && not (r.id == id)))
    → IsKeyed rows
    → find? (λ (r : Reimbursement). (r.id == id) && (r.fund_id == fund)) rows ≡ some claim
    → p claim ≡ true
    → sum (map amount_of (filter p rows)) ≡ claim.amount +ℤ sum (map amount_of (filter q rows))
sum_without p q id fund claim [] h keyed found taken = ground arith
sum_without p q id fund claim (r ∷ rows) h keyed found taken =
    elim (Bool-cases ((r.id == id) && (r.fund_id == fund))) [
      | inl e ↦ here e
      | inr e ↦ there e (λ found'. sum_without p q id fund claim rows h keyed.1 found' taken)
    ]
  where
    here :
        ((r.id == id) && (r.fund_id == fund)) ≡ true
        → sum (map amount_of (filter p (r ∷ rows)))
          ≡ claim.amount +ℤ sum (map amount_of (filter q (r ∷ rows)))
    here e =
        let same : r ≡ claim = ground arith in
        let rest : filter p rows ≡ filter q rows =
          filter_congr p q rows (All-map _ _ rows (λ s apart. ground (arith, h s)) keyed.0) in
        let out : q r ≡ false = ground (arith, h r) in
        let inside : p r ≡ true = subst (λ s. p s ≡ true) (sym same) taken in
        rw (inside, out, rest, sym same) refl

    there :
        ((r.id == id) && (r.fund_id == fund)) ≡ false
        → (find? (λ (s : Reimbursement). (s.id == id) && (s.fund_id == fund)) rows ≡ some claim
            → sum (map amount_of (filter p rows))
              ≡ claim.amount +ℤ sum (map amount_of (filter q rows)))
        → sum (map amount_of (filter p (r ∷ rows)))
          ≡ claim.amount +ℤ sum (map amount_of (filter q (r ∷ rows)))
    there e rest_of =
        let found' : find? (λ (s : Reimbursement). (s.id == id) && (s.fund_id == fund)) rows
            ≡ some claim =
          ground arith in
        let named =
          find?-test (λ (s : Reimbursement). (s.id == id) && (s.fund_id == fund)) rows claim
            found' in
        let apart : (claim.id == r.id) ≡ false =
          All-find? (λ (s : Reimbursement). (s.id == r.id) ≡ false)
            (λ (s : Reimbursement). (s.id == id) && (s.fund_id == fund)) rows claim keyed.0
            found' in
        let kept : q r ≡ p r = ground (arith, h r) in
        let rest = rest_of found' in
        elim (Bool-cases (p r)) [
          | inl e' ↦ rw (kept, e', rest) (omega int_laws)
          | inr e' ↦ rw (kept, e') rest
        ]

-- What a call of SettleReimbursement that answers with a row leaves.
abbrev pub Settled : SettleReimbursementParams → Db → Transaction → Db → Type 0
Settled p before t after =
    (claim : Reimbursement) × (get_reimbursement p.reimbursement_id p.fund_id before ≡ some claim)
    × (is_outstanding p.fund_id before claim ≡ true)
    × (t.amount ≡ claim.amount)
    × (total (in_fund p.fund_id) after ≡ total (in_fund p.fund_id) before -ℤ claim.amount)
    × ((account : ℕ)
        → total (in_account p.fund_id account) after ≡ (
            if p.account_id == account
            then total (in_account p.fund_id account) before -ℤ claim.amount
            else total (in_account p.fund_id account) before))
    × ((purpose : ℕ)
        → total (in_purpose p.fund_id purpose) after ≡ (
            if claim.purpose_id == purpose
            then total (in_purpose p.fund_id purpose) before -ℤ claim.amount
            else total (in_purpose p.fund_id purpose) before))
    × (is_settled p.reimbursement_id after ≡ true)

module _ (env : Env) (p : SettleReimbursementParams) (db : Db) (t : Transaction) (after : Db)
    (paid : settle_reimbursement env p db ≡ (ok t, after)) where
  outstanding_after :
      (claim r : Reimbursement)
      → after ≡ add_transaction t db
      → t ≡ new_transaction (settlement_params (mark env) p claim) db
      → is_outstanding p.fund_id after r
        ≡ (is_outstanding p.fund_id db r && not (r.id == p.reimbursement_id))
  outstanding_after claim r left made =
      rw (left, made)
        (ground (
          arith,
          any-append
              (λ (t : Transaction).
                is_same t.reimbursement_id (some r.id) && is_reimbursement t.kind)
              db.transactions (new_transaction (settlement_params (mark env) p claim) db ∷ []),
        ))

  outstanding_before :
      (claim : Reimbursement)
      → get_reimbursement p.reimbursement_id p.fund_id db ≡ some claim
      → claim.waived_on ≡ none
      → is_settled p.reimbursement_id db ≡ false
      → is_outstanding p.fund_id db claim ≡ true
  outstanding_before claim found kept unpaid =
      let named =
        find?-test (λ (r : Reimbursement). (r.id == p.reimbursement_id) && (r.fund_id == p.fund_id))
          db.reimbursements claim found in
      let same : claim.id ≡ p.reimbursement_id = ground arith in
      rw (kept, same, unpaid) (ground arith)

  -- SettleReimbursement, when it answers, has paid one claim of the fund that was neither settled
  -- nor waived: the row carries the claim's amount, the sums of the fund, of the paying location and
  -- of the claim's purpose fall by that amount, other locations' and purposes' sums of the fund stay,
  -- and a payout now names the claim.
  pub settle_reimbursement_lem : Settled p db t after
  settle_reimbursement_lem =
      let (claim, open_one) = claim_found env p db t after paid in
      let (kept, made, left, taken) = paid_facts env p db t after paid claim open_one in
      let (found, unpaid) = unsettled_claim-ok p.fund_id p.reimbursement_id db claim open_one in
      let row = new_transaction (settlement_params (mark env) p claim) db in
      let sums : (q : Transaction → Bool) → total q after ≡ total q db +ℤ contribution q row =
        λ q. rw (left, made) (total-add_transaction q row db) in
      (
        claim,
        found,
        outstanding_before claim found kept (not_settled (mark env) p claim db taken),
        rw made refl,
        sums (in_fund p.fund_id) ∙ rw (==_self p.fund_id) (paid_out true claim.amount _),
        λ account.
            sums (in_account p.fund_id account)
            ∙ rw (==_self p.fund_id) (paid_out (p.account_id == account) claim.amount _),
        λ purpose.
            sums (in_purpose p.fund_id purpose)
            ∙ rw (==_self p.fund_id) (paid_out (claim.purpose_id == purpose) claim.amount _),
        rw (left, made)
            (ground (
              arith,
              any-append
                  (λ (o : Transaction).
                    is_same o.reimbursement_id (some p.reimbursement_id) && is_reimbursement o.kind)
                  db.transactions (row ∷ []),
            )),
      )

  -- What the fund holds less what it owes its members is the same after SettleReimbursement paid a
  -- claim, where the claims' ids are all different.
  pub settle_reimbursement-owed :
      IsKeyed db.reimbursements
      → total (in_fund p.fund_id) after -ℤ owed p.fund_id after
        ≡ total (in_fund p.fund_id) db -ℤ owed p.fund_id db
  settle_reimbursement-owed keyed =
      let (claim, open_one) = claim_found env p db t after paid in
      let (kept, made, left, taken) = paid_facts env p db t after paid claim open_one in
      let (found, unpaid) = unsettled_claim-ok p.fund_id p.reimbursement_id db claim open_one in
      let row = new_transaction (settlement_params (mark env) p claim) db in
      let step : total (in_fund p.fund_id) after
          ≡ total (in_fund p.fund_id) db +ℤ contribution (in_fund p.fund_id) row =
        rw (left, made) (total-add_transaction (in_fund p.fund_id) row db) in
      let falls : total (in_fund p.fund_id) after ≡ total (in_fund p.fund_id) db -ℤ claim.amount =
        step ∙ rw (==_self p.fund_id) (paid_out true claim.amount _) in
      let same_claims : after.reimbursements ≡ db.reimbursements = rw left refl in
      let paid_one : owed p.fund_id db ≡ claim.amount +ℤ owed p.fund_id after = rw same_claims (
        sum_without (is_outstanding p.fund_id db) (is_outstanding p.fund_id after)
          p.reimbursement_id p.fund_id claim db.reimbursements
          (λ r. outstanding_after claim r left made) keyed found
          (outstanding_before claim found kept (not_settled (mark env) p claim db taken))) in
      rw (falls, paid_one) (omega int_laws)

  find?-append_other :
      (q : Transaction → Bool) (rows : List Transaction) (o : Transaction)
      → find? q rows ≡ none
      → q o ≡ true
      → find? q (rows ++ (o ∷ [])) ≡ some o
  find?-append_other q [] o h e = rw e refl
  find?-append_other q (r ∷ rows) o h e = ground (arith, find?-append_other q rows o)

  -- The claim that was paid is settled afterwards.
  pub settle_reimbursement-settled :
      unsettled_claim p.fund_id p.reimbursement_id after ≡ err reimbursement_already_settled
  unfolding unsettled_claim
  settle_reimbursement-settled =
      let (claim, open_one) = claim_found env p db t after paid in
      let (kept, made, left, taken) = paid_facts env p db t after paid claim open_one in
      let (found, unpaid) = unsettled_claim-ok p.fund_id p.reimbursement_id db claim open_one in
      let row = new_transaction (settlement_params (mark env) p claim) db in
      let now : get_reimbursement_settlement p.fund_id p.reimbursement_id after ≡ some row =
        rw (left, made)
          (find?-append_other
            (λ (o : Transaction).
              (o.fund_id == p.fund_id)
              && is_same o.reimbursement_id (some p.reimbursement_id)
              && is_reimbursement o.kind)
            db.transactions row unpaid (ground arith)) in
      let same : get_reimbursement p.reimbursement_id p.fund_id after ≡ some claim =
        rw left found in
      ground arith
