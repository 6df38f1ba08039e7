-- ===== src/Reimbursement/Claims.antt =====
-- internal/ledger/reimbursement.go: a claim is mutable only until it is settled, and its changes
-- leave the ledger.
use uruni.Base.{Bool, Option, ℕ, ◌≡◌, true, false, none, some, arith, ◌==◌}
use uruni.Errors.{ok, err, reimbursement_already_settled}
use uruni.Dates.{Text}
use uruni.Store.Rows.{Db, Reimbursement, Transaction}
use uruni.Store.Action.{Env}
use uruni.Store.Queries.{get_reimbursement, get_reimbursement_settlement}
use uruni.Reimbursement.Settle.{settle_reimbursement-settled}
use uruni.Reimbursement.{
  SettleReimbursementParams, settle_reimbursement, settle_reimbursement_tx,
  UpdateReimbursementParams, update_reimbursement_tx, delete_reimbursement_tx,
}

-- Paying, correcting and deleting the claim that `p` names are refused and write nothing.
abbrev pub IsFinal : Env → SettleReimbursementParams → Db → Type 0
IsFinal env p db =
    ((again : SettleReimbursementParams)
      → again.fund_id ≡ p.fund_id
      → again.reimbursement_id ≡ p.reimbursement_id
      → settle_reimbursement_tx again env db ≡ (err reimbursement_already_settled, db))
    × ((change : UpdateReimbursementParams) (today : Text)
        → change.fund_id ≡ p.fund_id
        → change.reimbursement_id ≡ p.reimbursement_id
        → update_reimbursement_tx change today env db ≡ (err reimbursement_already_settled, db))
    × (delete_reimbursement_tx p.fund_id p.reimbursement_id env db
        ≡ (err reimbursement_already_settled, db))

-- After SettleReimbursement paid a claim, paying it again, correcting it and deleting it are each
-- refused with ErrReimbursementAlreadySettled and write nothing.
pub settle_reimbursement_once :
    (env env' : Env) (p : SettleReimbursementParams) (db : Db) (t : Transaction) (after : Db)
    → settle_reimbursement env p db ≡ (ok t, after)
    → IsFinal env' p after
unfolding settle_reimbursement_tx update_reimbursement_tx delete_reimbursement_tx
settle_reimbursement_once env env' p db t after paid =
    let settled = settle_reimbursement-settled env p db t after paid in
    (λ again e1 e2. ground arith, λ change today e1 e2. ground arith, ground arith)

-- A field that reads with what was given, or with what it was.
abbrev pub Given {ℓ} : {A : Type ℓ} → Option A → A → A → Type ℓ
Given none old new = new ≡ old
Given (some value) old new = new ≡ value

-- A field that a flag sets or leaves.
abbrev pub Flagged {ℓ} : {A : Type ℓ} → Bool → A → A → A → Type ℓ
Flagged true value old new = new ≡ value
Flagged false value old new = new ≡ old

-- The claim reads with the fields that were given, and with its own others.
abbrev pub Changed : UpdateReimbursementParams → Reimbursement → Reimbursement → Type 0
Changed p claim new =
    (new.id ≡ claim.id)
    × (new.fund_id ≡ claim.fund_id)
    × Given p.member_id claim.member_id new.member_id
    × Given p.purpose_id claim.purpose_id new.purpose_id
    × Given p.amount claim.amount new.amount
    × Given p.incurred_on claim.incurred_on new.incurred_on
    × Flagged p.set_note p.note claim.note new.note
    × Flagged p.set_waived_on p.waived_on claim.waived_on new.waived_on
    × (new.created_at ≡ claim.created_at)

-- What a call of UpdateReimbursement that answers leaves.
abbrev pub Updated : UpdateReimbursementParams → Db → Db → Type 0
Updated p before after =
    (after.transactions ≡ before.transactions)
    × (get_reimbursement_settlement p.fund_id p.reimbursement_id before ≡ none)
    × ((claim : Reimbursement)
        → get_reimbursement p.reimbursement_id p.fund_id before ≡ some claim
        → (new : Reimbursement) × (get_reimbursement p.reimbursement_id p.fund_id after ≡ some new)
          × Changed p claim new)
    × ((other fund : ℕ)
        → (other == p.reimbursement_id) ≡ false
        → get_reimbursement other fund after ≡ get_reimbursement other fund before)
