-- ===== src/Errors.antt =====
-- internal/ledger/errors.go and the refusals that the other files of internal/ledger declare: the
-- errors that a ledger call answers with, without the words that wrap them. `no_rows` is
-- sql.ErrNoRows, `constraint` any refusal of the schema, `integer_overflow` SQLite's refusal of a
-- SUM past int64.
use Prim.Native.String.{String}
use uruni.Base.{arith, ◌≡◌, refl, ◌⊎◌, inl, inr, Bool, true, false, Option, none, some}

pub data Err : Type 0 where
  -- ErrInvalidArgument, with the field that it names
  invalid_argument : String → Err
  amount_too_large : String → Err
  date_out_of_range : String → Err
  account_inactive account_holds_money account_balance_negative : Err
  incidental_closed incidental_already_closed incidental_not_closed
        contribution_requires_incidental_purpose :
      Err
  reversal_opening reversal_reimbursement reversal_transfer reversal_adjustment : Err
  reversal_of_reversal reversal_reconciliation_fix reversal_before_original : Err
  reversal_not_found already_reversed no_reversal_rule : Err
  purpose_move_same_purpose purpose_move_unknown_purpose purpose_move_pass_through : Err
  purpose_move_closed purpose_move_unknown_account purpose_move_account_inactive : Err
  purpose_move_insufficient : Err
  purpose_correction_not_found purpose_correction_opening purpose_correction_dues : Err
  purpose_correction_reimbursement purpose_correction_transfer purpose_correction_reversal : Err
  purpose_correction_named_contribution purpose_correction_already_reversed : Err
  purpose_correction_noop purpose_correction_target_closed purpose_correction_source_closed : Err
  reimbursement_waived reimbursement_already_settled referenced_by_other_records : Err
  reconciliation_missing_location reconciliation_plug_mismatch : Err
  dues_period_waived dues_already_waived dues_not_owed dues_not_waived : Err
  dues_rate_month_taken dues_rate_superseded : Err
  idempotency_key_reused bad_stored_result nested index_out_of_range : Err
  no_main_purpose bad_period no_rows constraint integer_overflow amount_overflow bad_time_zone : Err

pub data Result {ℓ} (A : Type ℓ) : Type ℓ where
  ok : A → Result A
  err : Err → Result A

infixl 5 ◌>>=◌ ◌>>◌
abbrev pub ◌>>=◌ {ℓ κ} : {A : Type ℓ} {B : Type κ} → Result A → (A → Result B) → Result B
ok a >>= f = f a
err e >>= f = err e

abbrev pub ◌>>◌ {ℓ κ} : {A : Type ℓ} {B : Type κ} → Result A → Result B → Result B
m >> k = m >>= λ _. k

-- `if bad { return e }`
abbrev pub refuse_if : Bool → Err → Result (Unit {0})
refuse_if true e = err e
refuse_if false e = ok tt

abbrev pub or_err {ℓ} : {A : Type ℓ} → Option A → Err → Result A
or_err none e = err e
or_err (some a) e = ok a

-- To split on a computed result and keep the equation.
pub Result-cases {ℓ} :
    {A : Type ℓ} (r : Result A) → ((a : A) × (r ≡ ok a)) ⊎ ((e : Err) × (r ≡ err e))
Result-cases (ok a) = inl (a, refl)
Result-cases (err e) = inr (e, refl)

pub or_err-ok {ℓ} : {A : Type ℓ} (o : Option A) (e : Err) (a : A) → or_err o e ≡ ok a → o ≡ some a
or_err-ok none e a h = ground arith
or_err-ok (some b) e a h = ground arith
