-- ===== src/Posting.antt =====
-- internal/ledger/transaction.go, amount_ceiling.go, account_active.go, and the guards that every
-- posting shares: windowFor (date_window.go), normalizeNote (transfer.go), refuseClosedIncidental
-- (purpose_correction.go).
pub mod Entries
pub mod Accepted
pub mod Taken
use Prim.Native.String.{String}
use uruni.Base.{
  ℕ, Bool, true, false, ◌&&◌, ◌||◌, not, Option, none, some, List, [], ◌∷◌, ltb, leb, ◌==◌,
  if◌then◌else◌, is_some,
}
use uruni.Base.Int.{pos, leb_ℤ}
use uruni.Errors.{
  Err, Result, ok, err, refuse_if, invalid_argument, amount_too_large, account_inactive,
  incidental_closed, contribution_requires_incidental_purpose, no_rows, bad_time_zone,
}
use uruni.Money.{Amount, above_ceiling}
use uruni.Dates.{Text, DateWindow, entry, validate_occurred_on}
use uruni.Store.Rows.{
  Db, Direction, direction_out, is_in, is_out, normal, adjustment, Transaction, TransactionParams,
}
use uruni.Store.Action.{Env, Action, ◌>>=◌, ◌>>◌, check, read, pool_read}
use uruni.Store.Queries.{get_fund, get_account_for_fund, incidental_closed_on_for_purpose}
use uruni.Store.Insert.{create_transaction}
use uruni.Tx.{Idempotency, Reply, transaction_codec, with_idempotency}

-- `CheckAmountCeiling`
abbrev pub check_amount_ceiling : String → Amount → Result (Unit {0})
check_amount_ceiling field a = refuse_if (above_ceiling a) (amount_too_large field)

-- `windowFor`
unfoldable pub window_for : Env → ℕ → Db → Result DateWindow
window_for env fund db = elim (get_fund fund db) [
  | none ↦ err no_rows
  | some f ↦ elim (env.day_in f.time_zone) [
    | none ↦ err bad_time_zone
    | some day ↦ ok (record { today = day })
  ]
]

-- unicode.IsSpace
abbrev is_space : ℕ → Bool
is_space c =
    (leb 9 c && leb c 13)
    || (c == 32)
    || (c == 133)
    || (c == 160)
    || (c == 5760)
    || (leb 8192 c && leb c 8202)
    || (c == 8232)
    || (c == 8233)
    || (c == 8239)
    || (c == 8287)
    || (c == 12288)

abbrev is_empty : Text → Bool
is_empty [] = true
is_empty _ = false

unfoldable pub trim_left : Text → Text
trim_left [] = []
trim_left (c ∷ s) = let rest = trim_left s in if is_space c then rest else c ∷ s

unfoldable pub trim_right : Text → Text
trim_right [] = []
trim_right (c ∷ s) = let rest = trim_right s in if is_space c && is_empty rest then [] else c ∷ rest

-- `normalizeNote`
unfoldable pub normalize_note : Option Text → Option Text
normalize_note none = none
normalize_note (some note) =
    let trimmed = trim_left (trim_right note) in if is_empty trimmed then none else some trimmed

-- `refuseInactiveAccount`
unfoldable pub refuse_inactive_account : ℕ → ℕ → Db → Result (Unit {0})
refuse_inactive_account fund account db = elim (get_account_for_fund account fund db) [
  | none ↦ ok tt
  | some a ↦ refuse_if (is_some a.inactive_on) account_inactive
]

-- `refuseClosedIncidental`
unfoldable pub refuse_closed_incidental : ℕ → Err → Db → Result (Unit {0})
refuse_closed_incidental purpose refusal db = elim (incidental_closed_on_for_purpose purpose db) [
  | none ↦ ok tt
  | some closed_on ↦ refuse_if (is_some closed_on) refusal
]

pub record PostTransactionParams : Type 0 where
  pub fund_id : ℕ
  pub account_id : ℕ
  pub purpose_id : ℕ
  pub direction : Direction
  pub amount : Amount
  pub occurred_on : Text
  pub note : Option Text
  pub is_adjustment : Bool
  pub member_id : Option ℕ
  pub idempotency : Option Idempotency

-- A named contribution is an incoming entry and no adjustment.
abbrev pub check_contribution : PostTransactionParams → Result (Unit {0})
check_contribution p =
    refuse_if (is_some p.member_id && (p.is_adjustment || not (is_in p.direction)))
      (invalid_argument "member_id")

-- The purpose is no closed envelope, and a named contribution goes to an envelope.
unfoldable pub check_purpose : PostTransactionParams → Db → Result (Unit {0})
check_purpose p db = elim (incidental_closed_on_for_purpose p.purpose_id db) [
  | some closed_on ↦ refuse_if (is_some closed_on) incidental_closed
  | none ↦ refuse_if (is_some p.member_id) contribution_requires_incidental_purpose
]

abbrev pub entry_params : Env → PostTransactionParams → TransactionParams
entry_params env p = record {
  fund_id = p.fund_id;
  account_id = p.account_id;
  purpose_id = p.purpose_id;
  direction = p.direction;
  amount = p.amount;
  occurred_on = p.occurred_on;
  kind = if p.is_adjustment then adjustment else normal;
  member_id = p.member_id;
  dues_period = none;
  reimbursement_id = none;
  transfer_id = none;
  dues_payment_id = none;
  reverses_transaction_id = none;
  note = p.note;
  created_at = env.now;
}

-- The function that PostTransaction gives to withIdempotency.
unfoldable pub post_entry_tx : PostTransactionParams → Env → Action Transaction
post_entry_tx p env = do
  read (refuse_inactive_account p.fund_id p.account_id)
  read (check_purpose p)
  create_transaction (entry_params env p)

-- `PostTransaction`
unfoldable pub post_transaction : Env → PostTransactionParams → Action (Reply Transaction)
post_transaction env p = do
  check (refuse_if (leb_ℤ p.amount (pos 0)) (invalid_argument "amount"))
  check (check_amount_ceiling "amount" p.amount)
  check (refuse_if (not (is_in p.direction || is_out p.direction)) (invalid_argument "direction"))
  window ← pool_read env (window_for env p.fund_id)
  check (validate_occurred_on "occurred_on" p.occurred_on (entry window))
  check (check_contribution p)
  with_idempotency env transaction_codec p.idempotency (post_entry_tx p)
