-- ===== src/Dues/Post.antt =====
-- internal/ledger/dues.go, internal/store/queries/dues_payment.sql: the writes of a dues payment.
use uruni.Base.{ℕ, suc, Bool, true, false, List, [], ◌∷◌, ◌++◌, ltb, ◌==◌, if◌then◌else◌, any}
use uruni.Errors.{ok, err, refuse_if, invalid_argument, constraint}
use uruni.Dates.{entry, validate_occurred_on}
use uruni.Store.Rows.{Db, Fund, DuesPayment, Transaction}
use uruni.Store.Action.{Env, Action, ◌>>=◌, ◌>>◌, pure, check, read, pool_read}
use uruni.Store.Insert.{create_transaction}
use uruni.Tx.{Reply, transactions_codec, with_idempotency}
use uruni.Posting.{window_for, refuse_inactive_account}
use uruni.Dues.Payment.{
  PeriodAmount, PostDuesPaymentsParams, check_periods, refuse_waived_periods, main_purpose_id,
  month_params,
}

unfoldable pub max_payment_id : List DuesPayment → ℕ
max_payment_id [] = 0
max_payment_id (d ∷ rows) = let rest = max_payment_id rows in if ltb rest d.id then d.id else rest

abbrev pub new_payment : Env → ℕ → Db → DuesPayment
new_payment env fund db = record {
  id = suc (max_payment_id db.dues_payments);
  fund_id = fund;
  created_at = env.now;
}

abbrev pub add_payment : DuesPayment → Db → Db
add_payment d db = record db { dues_payments = db.dues_payments ++ (d ∷ []) }

-- CreateDuesPayment
unfoldable pub create_dues_payment : Env → ℕ → Action DuesPayment
create_dues_payment env fund db =
    if any (λ (f : Fund). f.id == fund) db.funds
    then (ok (new_payment env fund db), add_payment (new_payment env fund db) db)
    else (err constraint, db)

-- `postDuesPaymentTx`
unfoldable pub post_dues_payment_tx :
    Env → PostDuesPaymentsParams → ℕ → ℕ → PeriodAmount → Action Transaction
post_dues_payment_tx env p payment purpose period =
    create_transaction (month_params env p payment purpose period)

-- The loop over the months.
unfoldable pub post_months :
    Env → PostDuesPaymentsParams → ℕ → ℕ → List PeriodAmount → Action (List Transaction)
post_months env p payment purpose [] = pure []
post_months env p payment purpose (period ∷ periods) = do
  row ← post_dues_payment_tx env p payment purpose period
  rows ← post_months env p payment purpose periods
  pure (row ∷ rows)

abbrev pub is_empty : List PeriodAmount → Bool
is_empty [] = true
is_empty _ = false

-- The function that PostDuesPayments gives to withIdempotency.
unfoldable pub post_dues_tx : PostDuesPaymentsParams → Env → Action (List Transaction)
post_dues_tx p env = do
  read (refuse_inactive_account p.fund_id p.account_id)
  read (refuse_waived_periods p)
  main_id ← read (main_purpose_id p.fund_id)
  header ← create_dues_payment env p.fund_id
  post_months env p header.id main_id p.periods

-- `PostDuesPayments`
unfoldable pub post_dues_payments : Env → PostDuesPaymentsParams → Action (Reply (List Transaction))
post_dues_payments env p = do
  check (refuse_if (is_empty p.periods) (invalid_argument "periods"))
  window ← pool_read env (window_for env p.fund_id)
  check (validate_occurred_on "occurred_on" p.occurred_on (entry window))
  check (check_periods window p.periods)
  with_idempotency env transactions_codec p.idempotency (post_dues_tx p)
