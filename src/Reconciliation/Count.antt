-- ===== src/Reconciliation/Count.antt =====
-- internal/ledger/reconciliation.go: TakeReconciliation, and the inserts of
-- internal/store/queries/reconciliation.sql.
use uruni.Base.{
  ℕ, suc, Bool, true, false, ◌&&◌, ◌||◌, not, Option, none, some, List, [], ◌∷◌, ◌++◌, ltb, ◌==◌,
  if◌then◌else◌, is_some, any,
}
use uruni.Base.Int.{pos, negsuc, ◌-ℤ◌, ◌==ℤ◌, leb_ℤ}
use uruni.Errors.{
  ok, err, or_err, refuse_if, invalid_argument, incidental_closed, amount_overflow, constraint,
}
use uruni.Money.{Amount, max_amount, sub}
use uruni.Store.Rows.{
  Db, Account, Transaction, Resolution, unrecognised, Reconciliation, ReconciliationLine,
}
use uruni.Store.Action.{Env, Action, pure, check, read, pool_read, ◌>>=◌, ◌>>◌}
use uruni.Store.Queries.{max_transaction_id_by_fund}
use uruni.Store.Insert.{create_transaction, references}
use uruni.Tx.{Reply, reconciliation_codec, with_idempotency}
use uruni.Posting.{window_for, refuse_closed_incidental}
use uruni.Reconciliation.{
  Fix, AccountCount, TakeReconciliationParams, LineInput, is_matched, is_adjusted, check_plug,
  fix_params, recorded_amount, require_every_active_location_counted,
  validate_take_reconciliation_params,
}

-- The fix of a line, posted.
unfoldable pub post_fix : Env → ℕ → AccountCount → Amount → Option Fix → Action (Option ℕ)
post_fix env fund c diff none = pure none
post_fix env fund c diff (some f) = do
  check (check_plug c.resolution f diff)
  read (refuse_closed_incidental f.purpose_id incidental_closed)
  t ← create_transaction (fix_params env fund c f)
  pure (some t.id)

-- The body of the loop over the counts.
unfoldable pub take_count : Env → ℕ → Option ℕ → AccountCount → Action LineInput
take_count env fund cutoff c = do
  recorded ← read (recorded_amount fund c.account_id cutoff)
  diff ← read (λ db. or_err (sub c.actual_amount recorded) amount_overflow)
  check (
      refuse_if (is_matched c.resolution && not (diff ==ℤ pos 0))
        (invalid_argument "counts.resolution"))
  fix_id ← post_fix env fund c diff c.fix
  pure (record {
    account_id = c.account_id;
    recorded_amount = recorded;
    actual_amount = c.actual_amount;
    diff = diff;
    resolution = c.resolution;
    adjustment_transaction_id = fix_id;
  })

unfoldable pub take_counts : Env → ℕ → Option ℕ → List AccountCount → Action (List LineInput)
take_counts env fund cutoff [] = pure []
take_counts env fund cutoff (c ∷ counts) = do
  line ← take_count env fund cutoff c
  lines ← take_counts env fund cutoff counts
  pure (line ∷ lines)

unfoldable pub max_reconciliation_id : List Reconciliation → ℕ
max_reconciliation_id [] = 0
max_reconciliation_id (r ∷ rows) =
    let rest = max_reconciliation_id rows in if ltb rest r.id then r.id else rest

abbrev pub new_reconciliation : Env → TakeReconciliationParams → Option ℕ → Db → Reconciliation
new_reconciliation env p cutoff db = record {
  id = suc (max_reconciliation_id db.reconciliations);
  fund_id = p.fund_id;
  performed_at = env.now;
  through_transaction_id = cutoff;
  note = p.note;
  created_at = env.now;
}

abbrev pub add_reconciliation : Reconciliation → Db → Db
add_reconciliation r db = record db { reconciliations = db.reconciliations ++ (r ∷ []) }

-- CreateReconciliation
unfoldable pub create_reconciliation :
    Env → TakeReconciliationParams → Option ℕ → Action Reconciliation
create_reconciliation env p cutoff db =
    if references cutoff
      (λ id. any (λ (t : Transaction). (t.fund_id == p.fund_id) && (t.id == id)) db.transactions)
    then (
      ok (new_reconciliation env p cutoff db),
      add_reconciliation (new_reconciliation env p cutoff db) db,
    )
    else (err constraint, db)

unfoldable pub max_line_id : List ReconciliationLine → ℕ
max_line_id [] = 0
max_line_id (l ∷ rows) = let rest = max_line_id rows in if ltb rest l.id then l.id else rest

abbrev pub new_line : ℕ → ℕ → LineInput → Db → ReconciliationLine
new_line fund reconciliation l db = record {
  id = suc (max_line_id db.reconciliation_lines);
  fund_id = fund;
  reconciliation_id = reconciliation;
  account_id = l.account_id;
  recorded_amount = l.recorded_amount;
  actual_amount = l.actual_amount;
  difference_amount = l.diff;
  resolution = l.resolution;
  adjustment_transaction_id = l.adjustment_transaction_id;
}

abbrev is_known : Resolution → Bool
is_known unrecognised = false
is_known _ = true

-- The CHECKs, the unique key and the foreign keys of reconciliation_line.
unfoldable pub line_checks : ReconciliationLine → Db → Bool
line_checks l db =
    leb_ℤ (negsuc 999999999998) l.actual_amount
    && leb_ℤ l.actual_amount max_amount
    && is_known l.resolution
    && (l.difference_amount ==ℤ (l.actual_amount -ℤ l.recorded_amount))
    && (not (is_adjusted l.resolution) || is_some l.adjustment_transaction_id)
    && not (
        any
          (λ (o : ReconciliationLine).
            (o.reconciliation_id == l.reconciliation_id) && (o.account_id == l.account_id))
          db.reconciliation_lines)
    && any (λ (r : Reconciliation). (r.fund_id == l.fund_id) && (r.id == l.reconciliation_id))
        db.reconciliations
    && any (λ (a : Account). (a.fund_id == l.fund_id) && (a.id == l.account_id)) db.accounts
    && references l.adjustment_transaction_id
        (λ id. any (λ (t : Transaction). (t.fund_id == l.fund_id) && (t.id == id)) db.transactions)

abbrev pub add_line : ReconciliationLine → Db → Db
add_line l db = record db { reconciliation_lines = db.reconciliation_lines ++ (l ∷ []) }

-- CreateReconciliationLine
unfoldable pub create_reconciliation_line : ℕ → ℕ → LineInput → Action (Unit {0})
create_reconciliation_line fund reconciliation l db =
    if line_checks (new_line fund reconciliation l db) db
    then (ok tt, add_line (new_line fund reconciliation l db) db)
    else (err constraint, db)

-- The loop that writes the lines.
unfoldable pub create_lines : ℕ → ℕ → List LineInput → Action (Unit {0})
create_lines fund reconciliation [] = pure tt
create_lines fund reconciliation (l ∷ lines) = do
  create_reconciliation_line fund reconciliation l
  create_lines fund reconciliation lines

-- The function that TakeReconciliation gives to withIdempotency.
unfoldable pub take_reconciliation_tx : TakeReconciliationParams → Env → Action Reconciliation
take_reconciliation_tx p env = do
  read (require_every_active_location_counted p)
  cutoff ← read (λ db. ok (max_transaction_id_by_fund p.fund_id db))
  lines ← take_counts env p.fund_id cutoff p.counts
  rec ← create_reconciliation env p cutoff
  create_lines p.fund_id rec.id lines
  pure rec

-- `TakeReconciliation`
unfoldable pub take_reconciliation : Env → TakeReconciliationParams → Action (Reply Reconciliation)
take_reconciliation env p = do
  window ← pool_read env (window_for env p.fund_id)
  check (validate_take_reconciliation_params p window)
  with_idempotency env reconciliation_codec p.idempotency (take_reconciliation_tx p)
