-- ===== src/Dues/RateCalls.antt =====
-- internal/ledger/dues_rate.go: what one call on the rates does to the map of the rates.
use uruni.Base.{
  ℕ, suc, ◌≡◌, refl, sym, ap, ◌∙◌, subst, Bool, true, false, not, ◌||◌, none, some, List, [], ◌∷◌,
  ◌++◌, arith, ◌==◌, if◌then◌else◌, inl, inr, Bool-cases, append-nil,
}
use uruni.Base.Int.{◌==ℤ◌, ==ℤ_iff}
use uruni.Errors.{ok, or_err, no_rows, or_err-ok, refuse_if, dues_rate_superseded, Result-cases}
use uruni.Money.{Amount}
use uruni.Dates.Window.{text_eq-eq}
use uruni.Store.Rows.{Db, DuesRate}
use uruni.Store.Action.{
  Env, Action, ◌>>=◌, ◌>>◌, pure, read, check, mark, pool_read, with_tx, bind_split, read_split,
  pure_split,
}
use uruni.Posting.{window_for}
use uruni.Dues.Rate.{
  CreateDuesRateParams, get_dues_tier_for_fund, get_dues_rate_for_fund, latest_of,
  latest_dues_rate_of_month, new_rate, with_rates, insert_dues_rate, next_correction,
  create_dues_rate_tx, create_dues_rate, standing_rate, restate, correct_dues_rate_tx,
  correct_dues_rate, delete_dues_rate_tx, delete_dues_rate,
}
use uruni.Dues.Rates.{
  RateOp, insert, replace, remove, rate_map, put, apply, Newer, map_inserted, row_inserted,
  free_month, latest_of-month, put_same,
}

-- The rows that were added, with the rest of the database as it was.
abbrev pub Grown : Db → Db → Type 0
Grown before after =
    (rows : List DuesRate) × (after ≡ with_rates (before.dues_rates ++ rows) before)

-- What a step does: the abstract operation, on a trail that only grows.
abbrev pub Refines : RateOp → Db → Db → Type 0
Refines op before after =
    (apply op (rate_map before.dues_rates) ≡ some (rate_map after.dues_rates)) × Grown before after

pub created_facts :
    (env : Env) (p : CreateDuesRateParams) (db : Db) (row : DuesRate) (after : Db)
    → create_dues_rate_tx p env db ≡ (ok row, after)
    → Refines (insert p.tier_id p.effective_from p.amount) db after
unfolding create_dues_rate_tx latest_dues_rate_of_month
created_facts env p db row after h =
    let write : ℕ → Action DuesRate =
      λ c. insert_dues_rate env p.tier_id p.amount p.effective_from c false in
    let latest =
      λ (d : Db). next_correction (latest_dues_rate_of_month p.tier_id p.effective_from d) in
    let (tier, found, first) =
      read_split (λ d. or_err (get_dues_tier_for_fund p.tier_id p.fund_id d) no_rows)
        (λ _. read latest >>= write) db row after h in
    let (c, free, second) = read_split latest write db row after first in
    let (empty, newer) = free_month (latest_of p.tier_id p.effective_from db.dues_rates) c free in
    let (made, left) =
      row_inserted env p.tier_id p.amount p.effective_from c false db row after second in
    (
      rw (empty, apply)
          (ap some (
            sym (
              map_inserted env p.tier_id p.amount p.effective_from c false db row after second
                newer))),
      (row ∷ [], left),
    )

pub create_split :
    (env : Env) (p : CreateDuesRateParams) (db : Db) (row : DuesRate) (after : Db)
    → create_dues_rate env p db ≡ (ok row, after)
    → create_dues_rate_tx p (mark env) db ≡ (ok row, after)
unfolding create_dues_rate with_tx pool_read
create_split env p db row after h = elim (Result-cases (window_for env p.fund_id db)) [
  | inl (w, e) ↦ ground arith
  | inr (x, e) ↦ ground arith
]

pub correct_split :
    (env : Env) (fund id : ℕ) (amount : Amount) (db : Db) (row : DuesRate) (after : Db)
    → correct_dues_rate env fund id amount db ≡ (ok row, after)
    → correct_dues_rate_tx fund id amount (mark env) db ≡ (ok row, after)
unfolding correct_dues_rate with_tx
correct_split env fund id amount db row after h = ground arith

pub delete_split :
    (env : Env) (fund id : ℕ) (db after : Db)
    → delete_dues_rate env fund id db ≡ (ok tt, after)
    → delete_dues_rate_tx fund id (mark env) db ≡ (ok tt, after)
unfolding delete_dues_rate with_tx
delete_split env fund id db after h = ground arith

-- The row that standingRate answers with: the latest of the month of the row that was named, in force.
abbrev Standing : ℕ → ℕ → DuesRate → Db → Type 0
Standing fund id s db =
    (row : DuesRate) × (get_dues_rate_for_fund id fund db ≡ some row)
    × (row.tier_id ≡ s.tier_id)
    × (row.effective_from ≡ s.effective_from)
    × (latest_of s.tier_id s.effective_from db.dues_rates ≡ some s)
    × (s.deleted ≡ false)

reading_facts :
    (fund id : ℕ) (db : Db) (s : DuesRate) (after : Db)
    → standing_rate fund id db ≡ (ok s, after)
    → Standing fund id s db × (db ≡ after)
unfolding standing_rate latest_dues_rate_of_month
reading_facts fund id db s after h =
    let finish : DuesRate → DuesRate → Action DuesRate = λ row latest.
      check (refuse_if (not (latest.id == row.id) || latest.deleted) dues_rate_superseded)
      >> pure latest in
    let month = λ (row : DuesRate) (d : Db).
      or_err (latest_dues_rate_of_month row.tier_id row.effective_from d) no_rows in
    let (row, found, first) =
      read_split (λ d. or_err (get_dues_rate_for_fund id fund d) no_rows)
        (λ r. read (month r) >>= finish r) db s after h in
    let (latest, newest, second) = read_split (month row) (finish row) db s after first in
    let (same, alive, left) = checked row latest second in
    let e =
      or_err-ok (latest_of row.tier_id row.effective_from db.dues_rates) no_rows latest newest in
    assembled row (or_err-ok _ _ row found)
      (subst (λ x. latest_of row.tier_id row.effective_from db.dues_rates ≡ some x) same e)
      (subst (λ (x : DuesRate). x.deleted ≡ false) same alive) left
  where
    checked :
        (row latest : DuesRate)
        → (check (refuse_if (not (latest.id == row.id) || latest.deleted) dues_rate_superseded)
              >> pure latest)
            db
          ≡ (ok s, after)
        → (latest ≡ s) × (latest.deleted ≡ false) × (db ≡ after)
    checked row latest k = ground arith

    assembled :
        (row : DuesRate)
        → get_dues_rate_for_fund id fund db ≡ some row
        → latest_of row.tier_id row.effective_from db.dues_rates ≡ some s
        → s.deleted ≡ false
        → db ≡ after
        → Standing fund id s db × (db ≡ after)
    assembled row found e alive left =
        let of = latest_of-month row.tier_id row.effective_from db.dues_rates s e in
        let tier : s.tier_id ≡ row.tier_id = ground arith in
        let month : s.effective_from ≡ row.effective_from =
          text_eq-eq s.effective_from row.effective_from (ground arith) in
        (
          (
            row,
            found,
            sym tier,
            sym month,
            subst (λ m. latest_of s.tier_id m db.dues_rates ≡ some s) (sym month)
                (subst (λ t. latest_of t row.effective_from db.dues_rates ≡ some s) (sym tier) e),
            alive,
          ),
          left,
        )

-- A further row for a row that stands.
rewritten_facts :
    (env : Env) (amount : Amount) (gone : Bool) (s : DuesRate) (db : Db) (row : DuesRate)
    (after : Db)
    → latest_of s.tier_id s.effective_from db.dues_rates ≡ some s
    → insert_dues_rate env s.tier_id amount s.effective_from (suc s.correction) gone db
      ≡ (ok row, after)
    → (put s.tier_id s.effective_from (if gone then none else some amount) (rate_map db.dues_rates)
        ≡ rate_map after.dues_rates)
      × Grown db after
      × (row ≡ new_rate env s.tier_id amount s.effective_from (suc s.correction) gone db)
rewritten_facts env amount gone s db row after newest h =
    let (made, left) =
      row_inserted env s.tier_id amount s.effective_from (suc s.correction) gone db row after h in
    let newer : Newer (some s) (suc s.correction) = omega arith in
    (
      sym (
          map_inserted env s.tier_id amount s.effective_from (suc s.correction) gone db row after h
            (subst (λ o. Newer o (suc s.correction)) (sym newest) newer)),
      (row ∷ [], left),
      made,
    )

-- The map names the amount of a row that stands.
in_force :
    (s : DuesRate) (rows : List DuesRate)
    → latest_of s.tier_id s.effective_from rows ≡ some s
    → s.deleted ≡ false
    → rate_map rows s.tier_id s.effective_from ≡ some s.amount
in_force s rows newest alive = rw newest (rw alive refl)

restated_facts :
    (env : Env) (amount : Amount) (s : DuesRate) (db : Db) (row : DuesRate) (after : Db)
    → latest_of s.tier_id s.effective_from db.dues_rates ≡ some s
    → s.deleted ≡ false
    → restate env amount s db ≡ (ok row, after)
    → (row.tier_id ≡ s.tier_id)
      × (row.effective_from ≡ s.effective_from)
      × (put s.tier_id s.effective_from (some amount) (rate_map db.dues_rates)
          ≡ rate_map after.dues_rates)
      × Grown db after
unfolding restate
restated_facts env amount s db row after newest alive h = elim (Bool-cases (s.amount ==ℤ amount)) [
  | inl e ↦
      let (same, left) : (s ≡ row) × (db ≡ after) = ground arith in
      let equal : s.amount ≡ amount = (==ℤ_iff s.amount amount).0 e in
      (
        ap (λ (x : DuesRate). x.tier_id) (sym same),
        ap (λ (x : DuesRate). x.effective_from) (sym same),
        put_same s.tier_id s.effective_from amount (rate_map db.dues_rates)
              (in_force s db.dues_rates newest alive ∙ ap some equal)
            ∙ ap (λ (x : Db). rate_map x.dues_rates) left,
        ([], sym left ∙ ap (λ rows. with_rates rows db) (sym (append-nil db.dues_rates))),
      )
  | inr e ↦
      let (moved, grown, made) =
        rewritten_facts env amount false s db row after newest (ground arith) in
      (
        ap (λ (x : DuesRate). x.tier_id) made,
        ap (λ (x : DuesRate). x.effective_from) made,
        moved,
        grown,
      )
]

pub corrected_facts :
    (env : Env) (fund id : ℕ) (amount : Amount) (db : Db) (row : DuesRate) (after : Db)
    → correct_dues_rate_tx fund id amount env db ≡ (ok row, after)
    → Refines (replace row.tier_id row.effective_from amount) db after
unfolding correct_dues_rate_tx
corrected_facts env fund id amount db row after h =
    let (s, mid, first, second) =
      bind_split (standing_rate fund id) (restate env amount) db row after h in
    let ((old, found, tier, month, newest, alive), left) = reading_facts fund id db s mid first in
    let (t, m, moved, grown) =
      restated_facts env amount s db row after newest alive
        (subst (λ d. restate env amount s d ≡ (ok row, after)) (sym left) second) in
    subst (λ x. Refines (replace x row.effective_from amount) db after) (sym t)
      (subst (λ x. Refines (replace s.tier_id x amount) db after) (sym m)
        (rw (in_force s db.dues_rates newest alive, apply) (ap some moved), grown))

pub deleted_facts :
    (env : Env) (fund id : ℕ) (row : DuesRate) (db after : Db)
    → get_dues_rate_for_fund id fund db ≡ some row
    → delete_dues_rate_tx fund id env db ≡ (ok tt, after)
    → Refines (remove row.tier_id row.effective_from) db after
unfolding delete_dues_rate_tx
deleted_facts env fund id row db after named h =
    let write : DuesRate → Action DuesRate =
      λ s. insert_dues_rate env s.tier_id s.amount s.effective_from (suc s.correction) true in
    let finish : DuesRate → Action (Unit {0}) = λ _. pure tt in
    let (s, mid, first, second) =
      bind_split (standing_rate fund id) (λ s. write s >>= finish) db tt after h in
    let ((old, found, tier, month, newest, alive), left) = reading_facts fund id db s mid first in
    let (made, last, third, fourth) =
      bind_split (write s) finish db tt after
        (subst (λ d. (write s >>= finish) d ≡ (ok tt, after)) (sym left) second) in
    let (u, end) = pure_split tt tt last after fourth in
    let (moved, grown, shape) =
      rewritten_facts env s.amount true s db made after newest
        (third ∙ ap (λ d. (ok made, d)) end) in
    let same : row ≡ old = ground (arith, named, found) in
    subst (λ x. Refines (remove x row.effective_from) db after)
      (sym (ap (λ (x : DuesRate). x.tier_id) same ∙ tier))
      (subst (λ x. Refines (remove s.tier_id x) db after)
        (sym (ap (λ (x : DuesRate). x.effective_from) same ∙ month))
        (rw (in_force s db.dues_rates newest alive, apply) (ap some moved), grown))
