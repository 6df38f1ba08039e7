-- ===== src/Atomic.antt =====
-- internal/ledger/ledger.go: withTx under the calls that write several rows.
use uruni.Base.{◌≡◌, refl, Bool, true, false, Option, List, []}
use uruni.Errors.{Result, ok, err, refuse_if, invalid_argument}
use uruni.Dates.{DateWindow, entry, validate_occurred_on, window_dues}
use uruni.Money.{Amount}
use uruni.Base.Int.{pos, leb_ℤ}
use uruni.Store.Rows.{Db, Transaction, Transfer, Reconciliation, DuesWaiver}
use uruni.Store.Action.{
  Env, Action, ◌>>=◌, check, read, pool_read, pool_answer, with_tx, outcome, mark,
}
use uruni.Tx.{
  Reply, Codec, Idempotency, keyed, with_idempotency, transactions_codec, transfer_codec,
  reconciliation_codec,
}
use uruni.Posting.{window_for, check_amount_ceiling}
use uruni.Transfers.{
  PostTransferBetweenAccountsParams, between_pair, legs_identical, post_between_tx,
  post_transfer_between_accounts,
}
use uruni.Dues.Payment.{PostDuesPaymentsParams, check_periods}
use uruni.Dues.Post.{is_empty, post_dues_tx, post_dues_payments}
use uruni.Dues.Waiver.{WaiveDuesParams, check_waived_periods}
use uruni.Dues.Waive.{no_periods, waive_dues_tx, waive_dues}
use uruni.Reconciliation.{TakeReconciliationParams, validate_take_reconciliation_params}
use uruni.Reconciliation.Count.{take_reconciliation_tx, take_reconciliation}
use uruni.Envelope.{CloseIncidentalAndRollParams, close_and_roll_tx, close_incidental_and_roll}

-- An answer may have changed the database, an error has not.
abbrev pub Atomic : {A : Type 0} → Db → Result A × Db → Type 0
Atomic before (ok a, after) = Unit
Atomic before (err e, after) = after ≡ before

Atomic-read :
    {A B : Type 0} (q : Db → Result A) (f : A → Action B) (db : Db)
    → ((a : A) → Atomic db (f a db))
    → Atomic db ((read q >>= f) db)
Atomic-read {A} {B} q f db h = split (q db)
  where
    split :
        (r : Result A)
        → Atomic db (elim r as (λ _. Result B × Db) [ ok a ↦ f a db | err e ↦ (err e, db) ])
    split (ok a) = h a
    split (err e) = refl

Atomic-pool_read :
    {A B : Type 0} (env : Env) (q : Db → Result A) (f : A → Action B) (db : Db)
    → ((a : A) → Atomic db (f a db))
    → Atomic db ((pool_read env q >>= f) db)
unfolding pool_read
Atomic-pool_read {A} {B} env q f db h = split env.marked (q db)
  where
    split : (b : Bool) (r : Result A) → Atomic db (((λ (d : Db). pool_answer b r d) >>= f) db)
    split true r = refl
    split false (ok a) = h a
    split false (err e) = refl

Atomic-with_tx :
    {A : Type 0} (env : Env) (fn : Env → Action A) (db : Db) → Atomic db (with_tx env fn db)
unfolding with_tx
Atomic-with_tx {A} env fn db = split env.marked (fn (mark env) db)
  where
    split : (b : Bool) (x : Result A × Db) → Atomic db (outcome b db x)
    split true x = refl
    split false (ok a, after) = tt
    split false (err e, after) = refl

Atomic-with_idempotency :
    {A : Type 0} (env : Env) (codec : Codec A) (idem : Option Idempotency) (body : Env → Action A)
    (db : Db)
    → Atomic db (with_idempotency env codec idem body db)
unfolding with_idempotency
Atomic-with_idempotency env codec idem body db =
    Atomic-with_tx env (λ inner. keyed codec idem (body inner)) db

Atomic-transfer :
    (env : Env) (p : PostTransferBetweenAccountsParams) (db : Db)
    → Atomic db (post_transfer_between_accounts env p db)
unfolding post_transfer_between_accounts
Atomic-transfer env p db =
    let post : Action (Reply Transfer) =
      with_idempotency env transfer_codec p.idempotency (post_between_tx p) in
    let same : Result (Unit {0}) =
      refuse_if (legs_identical (between_pair p).from (between_pair p).to)
        (invalid_argument "to_account_id") in
    let apart : Action (Reply Transfer) = check same >>= λ _. post in
    let dated : DateWindow → Action (Reply Transfer) =
      λ w. check (validate_occurred_on "occurred_on" p.occurred_on (entry w)) >>= λ _. apart in
    let opened : Action (Reply Transfer) = pool_read env (window_for env p.fund_id) >>= dated in
    let ceiling : Result (Unit {0}) = check_amount_ceiling "amount" p.amount in
    let positive : Result (Unit {0}) =
      refuse_if (leb_ℤ p.amount (pos 0)) (invalid_argument "amount") in
    Atomic-read (λ _. positive) (λ _. check ceiling >>= λ _. opened) db
      (λ u1.
        Atomic-read (λ _. ceiling) (λ _. opened) db
          (λ u2. Atomic-pool_read env (window_for env p.fund_id) dated db (λ w.
            Atomic-read (λ _. validate_occurred_on "occurred_on" p.occurred_on (entry w))
              (λ _. apart) db
              (λ u3.
                Atomic-read (λ _. same) (λ _. post) db
                  (λ u4.
                    Atomic-with_idempotency env transfer_codec p.idempotency (post_between_tx p)
                      db)))))

Atomic-payment :
    (env : Env) (p : PostDuesPaymentsParams) (db : Db) → Atomic db (post_dues_payments env p db)
unfolding post_dues_payments
Atomic-payment env p db =
    let post : Action (Reply (List Transaction)) =
      with_idempotency env transactions_codec p.idempotency (post_dues_tx p) in
    let valid : DateWindow → Action (Reply (List Transaction)) =
      λ w. check (check_periods w p.periods) >>= λ _. post in
    let dated : DateWindow → Action (Reply (List Transaction)) =
      λ w. check (validate_occurred_on "occurred_on" p.occurred_on (entry w)) >>= λ _. valid w in
    let opened : Action (Reply (List Transaction)) =
      pool_read env (window_for env p.fund_id) >>= dated in
    let empty : Result (Unit {0}) = refuse_if (is_empty p.periods) (invalid_argument "periods") in
    Atomic-read (λ _. empty) (λ _. opened) db
      (λ u0. Atomic-pool_read env (window_for env p.fund_id) dated db (λ w.
        Atomic-read (λ _. validate_occurred_on "occurred_on" p.occurred_on (entry w)) (λ _. valid w)
          db
          (λ u1.
            Atomic-read (λ _. check_periods w p.periods) (λ _. post) db
              (λ u2.
                Atomic-with_idempotency env transactions_codec p.idempotency (post_dues_tx p) db))))

Atomic-count :
    (env : Env) (p : TakeReconciliationParams) (db : Db) → Atomic db (take_reconciliation env p db)
unfolding take_reconciliation
Atomic-count env p db =
    let post : Action (Reply Reconciliation) =
      with_idempotency env reconciliation_codec p.idempotency (take_reconciliation_tx p) in
    let valid : DateWindow → Action (Reply Reconciliation) =
      λ w. check (validate_take_reconciliation_params p w) >>= λ _. post in
    Atomic-pool_read env (window_for env p.fund_id) valid db (λ w.
      Atomic-read (λ _. validate_take_reconciliation_params p w) (λ _. post) db
        (λ u.
          Atomic-with_idempotency env reconciliation_codec p.idempotency (take_reconciliation_tx p)
            db))

Atomic-closing :
    (env : Env) (p : CloseIncidentalAndRollParams) (db : Db)
    → Atomic db (close_incidental_and_roll env p db)
unfolding close_incidental_and_roll
Atomic-closing env p db =
    let close : Action Amount = with_tx env (close_and_roll_tx p) in
    let dated : DateWindow → Action Amount =
      λ w. check (validate_occurred_on "closed_on" p.closed_on (entry w)) >>= λ _. close in
    Atomic-pool_read env (window_for env p.fund_id) dated db (λ w.
      Atomic-read (λ _. validate_occurred_on "closed_on" p.closed_on (entry w)) (λ _. close) db
        (λ u. Atomic-with_tx env (close_and_roll_tx p) db))

Atomic-waiving : (env : Env) (p : WaiveDuesParams) (db : Db) → Atomic db (waive_dues env p db)
unfolding waive_dues
Atomic-waiving env p db =
    let post : DateWindow → Action (List DuesWaiver) =
      λ w. with_tx env (waive_dues_tx p (window_dues w)) in
    let valid : DateWindow → Action (List DuesWaiver) =
      λ w. check (check_waived_periods w [] p.periods) >>= λ _. post w in
    let opened : Action (List DuesWaiver) = pool_read env (window_for env p.fund_id) >>= valid in
    let empty : Result (Unit {0}) = refuse_if (no_periods p.periods) (invalid_argument "periods") in
    Atomic-read (λ _. empty) (λ _. opened) db
      (λ u0. Atomic-pool_read env (window_for env p.fund_id) valid db (λ w.
        Atomic-read (λ _. check_waived_periods w [] p.periods) (λ _. post w) db
          (λ u1. Atomic-with_tx env (waive_dues_tx p (window_dues w)) db)))

-- The calls that write several rows write all of them or none: when PostTransferBetweenAccounts,
-- PostDuesPayments, TakeReconciliation, CloseIncidentalAndRoll or WaiveDues answers with an error,
-- from whichever step, the database is the one before the call.
pub calls-Atomic :
    (env : Env) (db : Db) (transfer_args : PostTransferBetweenAccountsParams)
    (payment_args : PostDuesPaymentsParams) (count_args : TakeReconciliationParams)
    (close_args : CloseIncidentalAndRollParams) (waive_args : WaiveDuesParams)
    → Atomic db (post_transfer_between_accounts env transfer_args db)
      × Atomic db (post_dues_payments env payment_args db)
      × Atomic db (take_reconciliation env count_args db)
      × Atomic db (close_incidental_and_roll env close_args db)
      × Atomic db (waive_dues env waive_args db)
calls-Atomic env db transfer_args payment_args count_args close_args waive_args = (
  Atomic-transfer env transfer_args db,
  Atomic-payment env payment_args db,
  Atomic-count env count_args db,
  Atomic-closing env close_args db,
  Atomic-waiving env waive_args db,
)
