-- ===== src/Reimbursement.antt =====
-- internal/ledger/reimbursement.go and its queries: a member fronted money for the fund. The claim
-- is off the ledger until its payout.
pub mod Settle
pub mod Claims
pub mod Paid
use uruni.Base.{
  ℕ, suc, Bool, true, false, ◌&&◌, ◌||◌, not, Option, none, some, List, [], ◌∷◌, ◌++◌, map, ltb,
  ◌==◌, if◌then◌else◌, is_same, is_some, any, filter, find?,
}
use uruni.Base.Int.{ℤ, pos, leb_ℤ, ltb_ℤ}
use uruni.Errors.{
  Err, Result, ok, err, refuse_if, invalid_argument, incidental_closed, reimbursement_waived,
  reimbursement_already_settled, referenced_by_other_records, no_rows, constraint,
}
use uruni.Money.{Amount, max_amount}
use uruni.Dates.{Text, text_eq, entry, no_ceiling, validate_occurred_on}
use uruni.Store.Rows.{
  Db, Purpose, Member, Reimbursement, Receipt, Transaction, TransactionParams, direction_out,
  reimbursement,
}
use uruni.Store.Action.{Env, Action, ◌>>=◌, ◌>>◌, check, read, pool_read, with_tx}
use uruni.Store.Queries.{get_reimbursement, get_reimbursement_settlement}
use uruni.Store.Insert.{is_date_column, create_transaction}
use uruni.Posting.{
  check_amount_ceiling, window_for, refuse_inactive_account, refuse_closed_incidental,
}

-- The CHECKs and the foreign keys of reimbursement.
unfoldable pub claim_checks : Reimbursement → Db → Bool
claim_checks r db =
    ltb_ℤ (pos 0) r.amount
    && leb_ℤ r.amount max_amount
    && is_date_column r.incurred_on
    && elim r.waived_on [ none ↦ true | some day ↦ is_date_column day ]
    && any (λ (m : Member). (m.fund_id == r.fund_id) && (m.id == r.member_id)) db.members
    && any (λ (q : Purpose). (q.fund_id == r.fund_id) && (q.id == r.purpose_id)) db.purposes

unfoldable pub max_claim_id : List Reimbursement → ℕ
max_claim_id [] = 0
max_claim_id (r ∷ rows) = let rest = max_claim_id rows in if ltb rest r.id then r.id else rest

pub record CreateReimbursementParams : Type 0 where
  pub fund_id : ℕ
  pub member_id : ℕ
  pub purpose_id : ℕ
  pub amount : Amount
  pub incurred_on : Text
  pub note : Option Text

abbrev pub new_claim : Env → CreateReimbursementParams → Db → Reimbursement
new_claim env p db = record {
  id = suc (max_claim_id db.reimbursements);
  fund_id = p.fund_id;
  member_id = p.member_id;
  purpose_id = p.purpose_id;
  amount = p.amount;
  incurred_on = p.incurred_on;
  waived_on = none;
  note = p.note;
  created_at = env.now;
}

abbrev pub with_claims : List Reimbursement → Db → Db
with_claims claims db = record db { reimbursements = claims }

-- CreateReimbursement of internal/store
unfoldable pub insert_reimbursement : Reimbursement → Action Reimbursement
insert_reimbursement r db =
    if claim_checks r db
    then (ok r, with_claims (db.reimbursements ++ (r ∷ [])) db)
    else (err constraint, db)

-- The function that CreateReimbursement gives to withTx.
unfoldable pub create_reimbursement_tx : CreateReimbursementParams → Env → Action Reimbursement
create_reimbursement_tx p env = do
  read (refuse_closed_incidental p.purpose_id incidental_closed)
  claim ← read (λ db. ok (new_claim env p db))
  insert_reimbursement claim

-- `CreateReimbursement`
unfoldable pub create_reimbursement : Env → CreateReimbursementParams → Action Reimbursement
create_reimbursement env p = do
  check (refuse_if (leb_ℤ p.amount (pos 0)) (invalid_argument "amount"))
  check (check_amount_ceiling "amount" p.amount)
  window ← pool_read env (window_for env p.fund_id)
  check (validate_occurred_on "incurred_on" p.incurred_on (entry window))
  with_tx env (create_reimbursement_tx p)

abbrev settlement_check : Option Transaction → Reimbursement → Result Reimbursement
settlement_check none claim = ok claim
settlement_check (some t) claim = err reimbursement_already_settled

-- `unsettledClaim`
unfoldable pub unsettled_claim : ℕ → ℕ → Db → Result Reimbursement
unsettled_claim fund id db = elim (get_reimbursement id fund db) [
  | none ↦ err no_rows
  | some claim ↦ settlement_check (get_reimbursement_settlement fund id db) claim
]

pub record SettleReimbursementParams : Type 0 where
  pub fund_id : ℕ
  pub reimbursement_id : ℕ
  pub account_id : ℕ
  pub occurred_on : Text

-- The payout: the amount and the purpose are the claim's.
abbrev pub settlement_params : Env → SettleReimbursementParams → Reimbursement → TransactionParams
settlement_params env p claim = record {
  fund_id = p.fund_id;
  account_id = p.account_id;
  purpose_id = claim.purpose_id;
  direction = direction_out;
  amount = claim.amount;
  occurred_on = p.occurred_on;
  kind = reimbursement;
  member_id = none;
  dues_period = none;
  reimbursement_id = some p.reimbursement_id;
  transfer_id = none;
  dues_payment_id = none;
  reverses_transaction_id = none;
  note = none;
  created_at = env.now;
}

-- The function that SettleReimbursement gives to withTx.
unfoldable pub settle_reimbursement_tx : SettleReimbursementParams → Env → Action Transaction
settle_reimbursement_tx p env = do
  claim ← read (unsettled_claim p.fund_id p.reimbursement_id)
  check (refuse_if (is_some claim.waived_on) reimbursement_waived)
  check (check_amount_ceiling "amount" claim.amount)
  read (refuse_inactive_account p.fund_id p.account_id)
  read (refuse_closed_incidental claim.purpose_id incidental_closed)
  create_transaction (settlement_params env p claim)

-- `SettleReimbursement`
unfoldable pub settle_reimbursement : Env → SettleReimbursementParams → Action Transaction
settle_reimbursement env p = do
  window ← pool_read env (window_for env p.fund_id)
  check (validate_occurred_on "occurred_on" p.occurred_on (entry window))
  with_tx env (settle_reimbursement_tx p)

pub record UpdateReimbursementParams : Type 0 where
  pub fund_id : ℕ
  pub reimbursement_id : ℕ
  pub member_id : Option ℕ
  pub purpose_id : Option ℕ
  pub amount : Option Amount
  pub incurred_on : Option Text
  pub note : Option Text
  pub set_note : Bool
  pub waived_on : Option Text
  pub set_waived_on : Bool

-- COALESCE
abbrev pub coalesce {ℓ} : {A : Type ℓ} → Option A → A → A
coalesce none old = old
coalesce (some new) old = new

-- The SET list of UpdateReimbursement.
abbrev pub updated_claim : UpdateReimbursementParams → Reimbursement → Reimbursement
updated_claim p r = record r {
  member_id = coalesce p.member_id r.member_id;
  purpose_id = coalesce p.purpose_id r.purpose_id;
  amount = coalesce p.amount r.amount;
  incurred_on = coalesce p.incurred_on r.incurred_on;
  note = if p.set_note then p.note else r.note;
  waived_on = if p.set_waived_on then p.waived_on else r.waived_on;
}

abbrev pub replace_claim :
    ℕ → (Reimbursement → Reimbursement) → List Reimbursement → List Reimbursement
replace_claim id f rows = map (λ (r : Reimbursement). if r.id == id then f r else r) rows

-- UpdateReimbursement of internal/store
unfoldable pub update_claim_row : UpdateReimbursementParams → Action Reimbursement
update_claim_row p db =
    elim (find? (λ (r : Reimbursement). r.id == p.reimbursement_id) db.reimbursements) [
      | none ↦ (err no_rows, db)
      | some r ↦
          if claim_checks (updated_claim p r) db
          then (
            ok (updated_claim p r),
            with_claims (replace_claim p.reimbursement_id (updated_claim p) db.reimbursements) db,
          )
          else (err constraint, db)
    ]

abbrev changes_text : Option Text → Text → Bool
changes_text none old = false
changes_text (some new) old = not (text_eq new old)

abbrev changes_id : Option ℕ → ℕ → Bool
changes_id none old = false
changes_id (some new) old = not (new == old)

-- The function that UpdateReimbursement gives to withTx; `today` is the window's ceiling.
unfoldable pub update_reimbursement_tx :
    UpdateReimbursementParams → Text → Env → Action Reimbursement
update_reimbursement_tx p today env = do
  claim ← read (unsettled_claim p.fund_id p.reimbursement_id)
  check (
      if changes_text p.incurred_on claim.incurred_on
      then validate_occurred_on "incurred_on" (coalesce p.incurred_on claim.incurred_on) today
      else ok tt)
  read (λ db.
      if changes_id p.purpose_id claim.purpose_id
      then refuse_closed_incidental (coalesce p.purpose_id claim.purpose_id) incidental_closed db
      else ok tt)
  update_claim_row p

abbrev check_some {ℓ} : {A : Type ℓ} → (A → Result (Unit {0})) → Option A → Result (Unit {0})
check_some f none = ok tt
check_some f (some a) = f a

-- `UpdateReimbursement`
unfoldable pub update_reimbursement : Env → UpdateReimbursementParams → Action Reimbursement
update_reimbursement env p = do
  check (check_some (λ a. refuse_if (leb_ℤ a (pos 0)) (invalid_argument "amount")) p.amount)
  check (check_some (check_amount_ceiling "amount") p.amount)
  window ← pool_read env (window_for env p.fund_id)
  check (check_some (λ s. validate_occurred_on "waived_on" s (entry window)) p.waived_on)
  check (check_some (λ s. validate_occurred_on "incurred_on" s no_ceiling) p.incurred_on)
  with_tx env (update_reimbursement_tx p (entry window))

-- A row that the claim's foreign keys forbid to leave behind: a payout or a receipt.
unfoldable pub names_claim : ℕ → Db → Bool
names_claim id db =
    any (λ (t : Transaction). is_same t.reimbursement_id (some id)) db.transactions
    || any (λ (r : Receipt). is_same r.reimbursement_id (some id)) db.receipts

-- DeleteReimbursement of internal/store; `refuseDelete` names a refused foreign key.
unfoldable pub delete_claim_row : ℕ → Action (Unit {0})
delete_claim_row id db = if names_claim id db then (err referenced_by_other_records, db) else (
  ok tt,
  with_claims (filter (λ (r : Reimbursement). not (r.id == id)) db.reimbursements) db,
)

-- The function that DeleteReimbursement gives to withTx.
unfoldable pub delete_reimbursement_tx : ℕ → ℕ → Env → Action (Unit {0})
delete_reimbursement_tx fund id env = do claim ← read (unsettled_claim fund id); delete_claim_row id

-- `DeleteReimbursement`
unfoldable pub delete_reimbursement : Env → ℕ → ℕ → Action (Unit {0})
delete_reimbursement env fund id = with_tx env (delete_reimbursement_tx fund id)
