-- ===== src/Reconciliation/Lines.antt =====
-- internal/ledger/reconciliation.go, internal/store/queries/reconciliation_line.sql: the lines as they are stored.
use uruni.Base.{
  ℕ, ◌≡◌, refl, sym, ap, subst, ◌∙◌, Bool, true, ◌&&◌, ◌==◌, List, [], ◌∷◌, ◌++◌, arith, append-nil,
  append_assoc, any, All,
}
use uruni.Base.Int.{◌-ℤ◌}
use uruni.Errors.{ok}
use uruni.Store.Rows.{Db, Account, ReconciliationLine}
use uruni.Store.Action.{bind_split}
use uruni.Reconciliation.{LineInput}
use uruni.Reconciliation.Count.{
  create_reconciliation_line, new_line, add_line, line_checks, create_lines,
}

-- A line and its stored row; the schema checks the difference.
abbrev pub IsStored : ℕ → LineInput → ReconciliationLine → Type 0
IsStored id l row =
    (row.reconciliation_id ≡ id)
    × (row.account_id ≡ l.account_id)
    × (row.actual_amount ≡ l.actual_amount)
    × (row.recorded_amount ≡ l.recorded_amount)
    × (row.difference_amount ≡ l.diff)
    × (l.diff ≡ l.actual_amount -ℤ l.recorded_amount)

abbrev pub AreStored : ℕ → List LineInput → List ReconciliationLine → Type 0
AreStored id [] [] = Unit
AreStored id (l ∷ lines) (r ∷ rows) = IsStored id l r × AreStored id lines rows
AreStored id _ _ = ⊥

-- The fund has a location of this id.
abbrev pub is_located : ℕ → List Account → ℕ → Bool
is_located fund accounts id = any (λ (a : Account). (a.fund_id == fund) && (a.id == id)) accounts

line_stored :
    (fund id : ℕ) (l : LineInput) (d : Db) (u : Unit {0}) (after : Db)
    → create_reconciliation_line fund id l d ≡ (ok u, after)
    → (after ≡ add_line (new_line fund id l d) d)
      × (l.diff ≡ l.actual_amount -ℤ l.recorded_amount)
      × (is_located fund d.accounts l.account_id ≡ true)
unfolding create_reconciliation_line line_checks ◌-ℤ◌
line_stored fund id l d u after h = ground arith

pub lines_stored :
    (fund id : ℕ) (lines : List LineInput) (d : Db) (u : Unit {0}) (after : Db)
    → create_lines fund id lines d ≡ (ok u, after)
    → (rows : List ReconciliationLine) × (after.reconciliation_lines
        ≡ d.reconciliation_lines ++ rows)
      × (after.transactions ≡ d.transactions)
      × AreStored id lines rows
      × All (λ (l : LineInput). is_located fund d.accounts l.account_id ≡ true) lines
unfolding create_lines
lines_stored fund id [] d u after h =
    let left : after ≡ d = ground arith in ([], rw left (sym (append-nil _)), rw left refl, tt, tt)
lines_stored fund id (l ∷ lines) d u after h =
    let (u', mid, first, left) =
      bind_split (create_reconciliation_line fund id l) (λ _. create_lines fund id lines) d u after
        h in
    let (made, exact, located) = line_stored fund id l d u' mid first in
    let (rows, added, kept, stored, others) = lines_stored fund id lines mid u after left in
    let row = new_line fund id l d in
    (
      row ∷ rows,
      added ∙ rw made (append_assoc d.reconciliation_lines (row ∷ []) rows),
      kept ∙ rw made refl,
      ((refl, refl, refl, refl, refl, exact), stored),
      (
        located,
        subst
            (λ accounts.
              All (λ (x : LineInput). is_located fund accounts x.account_id ≡ true) lines)
            (ap (λ (x : Db). x.accounts) made) others,
      ),
    )
