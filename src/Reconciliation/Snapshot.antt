-- ===== src/Reconciliation/Snapshot.antt =====
-- internal/ledger/reconciliation.go: the snapshot that a count leaves, and the locations that it
-- squares.
use uruni.Base.{ℕ, ◌≡◌, Bool, true, false, ◌||◌, List, [], ◌∷◌, ◌++◌, All, any}
use uruni.Base.Int.{◌-ℤ◌}
use uruni.Store.Rows.{Db, Reconciliation, ReconciliationLine}
use uruni.Store.Action.{Action}
use uruni.Store.Queries.{in_account}
use uruni.Store.Balance.{total}
use uruni.Reconciliation.{AccountCount, TakeReconciliationParams, is_matched, is_adjusted}
use uruni.Reconciliation.Complete.{is_left_out}

-- A stored line and the count that it came from, beside the sums before the count.
abbrev pub RowOf : Db → ℕ → Reconciliation → AccountCount → ReconciliationLine → Type 0
RowOf before fund rec c row =
    (row.reconciliation_id ≡ rec.id)
    × (row.account_id ≡ c.account_id)
    × (row.actual_amount ≡ c.actual_amount)
    × (row.recorded_amount ≡ total (in_account fund c.account_id) before)
    × (row.difference_amount ≡ c.actual_amount -ℤ total (in_account fund c.account_id) before)

abbrev pub RowsOf : Db → ℕ → Reconciliation → List AccountCount → List ReconciliationLine → Type 0
RowsOf before fund rec [] [] = Unit
RowsOf before fund rec (c ∷ counts) (r ∷ rows) =
    RowOf before fund rec c r × RowsOf before fund rec counts rows
RowsOf before fund rec _ _ = ⊥

-- The resolutions that say that the location is squared.
abbrev pub squares : AccountCount → Bool
squares c = is_matched c.resolution || is_adjusted c.resolution

-- A location that the count squared holds what was counted, by the ledger's own sums.
abbrev pub Squared : ℕ → Db → AccountCount → Type 0
Squared fund after c =
    squares c ≡ true → total (in_account fund c.account_id) after ≡ c.actual_amount

abbrev pub Snapshot : TakeReconciliationParams → Db → Reconciliation → Db → Type 0
Snapshot p before rec after =
    ((rows : List ReconciliationLine) × (after.reconciliation_lines
        ≡ before.reconciliation_lines ++ rows)
      × RowsOf before p.fund_id rec p.counts rows)
    × All (Squared p.fund_id after) p.counts
    × (any (is_left_out p.fund_id p.counts) before.accounts ≡ false)
