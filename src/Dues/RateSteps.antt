-- ===== src/Dues/RateSteps.antt =====
-- internal/ledger/dues_rate.go: sequences of calls on the rates.
use uruni.Base.{
  ℕ, ◌≡◌, refl, sym, ap, ◌∙◌, Option, none, some, List, [], ◌∷◌, ◌++◌, append-nil, append_assoc,
}
use uruni.Errors.{ok}
use uruni.Money.{Amount}
use uruni.Store.Rows.{Db, DuesRate}
use uruni.Store.Action.{Env, mark}
use uruni.Dues.Rate.{
  CreateDuesRateParams, get_dues_rate_for_fund, with_rates, create_dues_rate, correct_dues_rate,
  delete_dues_rate,
}
use uruni.Dues.Rates.{RateOp, insert, replace, remove, RateMap, rate_map, apply}
use uruni.Dues.RateCalls.{
  Grown, Refines, create_split, correct_split, delete_split, created_facts, corrected_facts,
  deleted_facts,
}

-- A call that answered, at its own time and clock, with the operation it stands for.
pub data RateStep : RateOp → Db → Db → Type 0 where
  created :
      {before after : Db} (env : Env) (p : CreateDuesRateParams) (row : DuesRate)
      → create_dues_rate env p before ≡ (ok row, after)
      → RateStep (insert p.tier_id p.effective_from p.amount) before after
  corrected :
      {before after : Db} (env : Env) (fund id : ℕ) (amount : Amount) (row : DuesRate)
      → correct_dues_rate env fund id amount before ≡ (ok row, after)
      → RateStep (replace row.tier_id row.effective_from amount) before after
  withdrawn :
      {before after : Db} (env : Env) (fund id : ℕ) (row : DuesRate)
      → get_dues_rate_for_fund id fund before ≡ some row
      → delete_dues_rate env fund id before ≡ (ok tt, after)
      → RateStep (remove row.tier_id row.effective_from) before after

pub data RateSteps : List RateOp → Db → Db → Type 0 where
  here : {db : Db} → RateSteps [] db db
  next :
      {op : RateOp} {ops : List RateOp} {before mid after : Db}
      → RateStep op before mid
      → RateSteps ops mid after
      → RateSteps (op ∷ ops) before after

step_facts : {op : RateOp} {before after : Db} → RateStep op before after → Refines op before after
step_facts (created env p row h) = created_facts (mark env) p _ row _ (create_split env p _ row _ h)
step_facts (corrected env fund id amount row h) =
    corrected_facts (mark env) fund id amount _ row _ (correct_split env fund id amount _ row _ h)
step_facts (withdrawn env fund id row named h) =
    deleted_facts (mark env) fund id row _ _ named (delete_split env fund id _ _ h)

abbrev pub apply_all : List RateOp → RateMap → Option RateMap
apply_all [] rates = some rates
apply_all (op ∷ ops) rates = elim (apply op rates) [
  | none ↦ none
  | some moved ↦ apply_all ops moved
]

Grown-trans : (a b c : Db) → Grown a b → Grown b c → Grown a c
Grown-trans a b c (rows, e) (more, f) = (
  rows ++ more,
  f
      ∙ ap (λ (x : Db). with_rates (x.dues_rates ++ more) x) e
      ∙ ap (λ x. with_rates x a) (append_assoc a.dues_rates rows more),
)

-- The calls on the rates of dues refine a map from a tier and a month to an amount. Along any sequence
-- of calls that answered, CreateDuesRate is an insert into a free month, CorrectDuesRate a replacement
-- and DeleteDuesRate a removal of a month that is taken, and the rows of dues_rate, read by their
-- largest correction, are the map after those operations. No row is lost or changed on the way, and
-- nothing but dues_rate is.
pub dues_rate_refinement :
    {ops : List RateOp} {before after : Db}
    → RateSteps ops before after
    → (apply_all ops (rate_map before.dues_rates) ≡ some (rate_map after.dues_rates))
      × Grown before after
dues_rate_refinement (here {db}) =
    (refl, ([], ap (λ rows. with_rates rows db) (sym (append-nil db.dues_rates))))
dues_rate_refinement (next {op} {ops} {before} {mid} {after} one rest) =
    let (moved, grown) = step_facts one in
    let (all, more) = dues_rate_refinement rest in
    (rw (moved, apply_all) all, Grown-trans before mid after grown more)
