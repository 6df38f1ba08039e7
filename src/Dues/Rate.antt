-- ===== src/Dues/Rate.antt =====
-- internal/ledger/dues_rate.go and internal/store/queries/dues_rate.sql: the writes of the rates. A
-- correction or a deletion of a month's rate is a further row of the month.
use uruni.Base.{
  ℕ, suc, Bool, true, false, ◌&&◌, ◌||◌, not, Option, none, some, List, [], ◌∷◌, ◌++◌, ltb, ◌==◌,
  if◌then◌else◌, any, find?,
}
use uruni.Base.Int.{pos, ◌==ℤ◌, leb_ℤ}
use uruni.Errors.{
  Result, ok, err, or_err, refuse_if, dues_rate_month_taken, dues_rate_superseded, no_rows,
  constraint,
}
use uruni.Money.{Amount, max_amount}
use uruni.Dates.{Text, text_eq, window_rate, validate_dues_period}
use uruni.Store.Rows.{Db, DuesTier, DuesRate}
use uruni.Store.Action.{Env, Action, ◌>>=◌, ◌>>◌, pure, check, read, pool_read, with_tx}
use uruni.Store.Insert.{is_period_column}
use uruni.Posting.{check_amount_ceiling, window_for}

pub record CreateDuesRateParams : Type 0 where
  pub fund_id : ℕ
  pub tier_id : ℕ
  pub amount : Amount
  pub effective_from : Text

-- GetDuesTierForFund
unfoldable pub get_dues_tier_for_fund : ℕ → ℕ → Db → Option DuesTier
get_dues_tier_for_fund id fund db =
    find? (λ (t : DuesTier). (t.id == id) && (t.fund_id == fund)) db.dues_tiers

-- GetDuesRateForFund: the fund of a rate is that of its tier.
unfoldable pub get_dues_rate_for_fund : ℕ → ℕ → Db → Option DuesRate
get_dues_rate_for_fund id fund db =
    find?
      (λ (r : DuesRate).
        (r.id == id)
        && any (λ (t : DuesTier). (t.id == r.tier_id) && (t.fund_id == fund)) db.dues_tiers)
      db.dues_rates

abbrev pub of_month : ℕ → Text → DuesRate → Bool
of_month tier month r = (r.tier_id == tier) && text_eq r.effective_from month

-- The row with the larger correction.
abbrev pub later_of : Option DuesRate → Option DuesRate → Option DuesRate
later_of none b = b
later_of (some a) none = some a
later_of (some a) (some b) = if ltb a.correction b.correction then some b else some a

-- LatestDuesRateOfMonth
unfoldable pub latest_of : ℕ → Text → List DuesRate → Option DuesRate
latest_of tier month [] = none
latest_of tier month (r ∷ rows) =
    let rest = latest_of tier month rows in
    later_of (if of_month tier month r then some r else none) rest

unfoldable pub latest_dues_rate_of_month : ℕ → Text → Db → Option DuesRate
latest_dues_rate_of_month tier month db = latest_of tier month db.dues_rates

-- The CHECKs, the unique key and the foreign key of dues_rate.
unfoldable pub rate_checks : DuesRate → Db → Bool
rate_checks r db =
    leb_ℤ (pos 0) r.amount
    && leb_ℤ r.amount max_amount
    && is_period_column (some r.effective_from)
    && (not r.deleted || ltb 0 r.correction)
    && not (
        any
          (λ (o : DuesRate).
            of_month r.tier_id r.effective_from o && (o.correction == r.correction))
          db.dues_rates)
    && any (λ (t : DuesTier). t.id == r.tier_id) db.dues_tiers

unfoldable pub max_rate_id : List DuesRate → ℕ
max_rate_id [] = 0
max_rate_id (r ∷ rows) = let rest = max_rate_id rows in if ltb rest r.id then r.id else rest

abbrev pub new_rate : Env → ℕ → Amount → Text → ℕ → Bool → Db → DuesRate
new_rate env tier amount month correction deleted db = record {
  id = suc (max_rate_id db.dues_rates);
  tier_id = tier;
  amount = amount;
  effective_from = month;
  correction = correction;
  deleted = deleted;
  created_at = env.now;
}

abbrev pub with_rates : List DuesRate → Db → Db
with_rates rows db = record db { dues_rates = rows }

-- CreateDuesRate of the store
unfoldable pub insert_dues_rate : Env → ℕ → Amount → Text → ℕ → Bool → Action DuesRate
insert_dues_rate env tier amount month correction deleted db =
    let r = new_rate env tier amount month correction deleted db in
    if rate_checks r db
    then (ok r, with_rates (db.dues_rates ++ (r ∷ [])) db)
    else (err constraint, db)

-- The switch on the month's latest correction.
unfoldable pub next_correction : Option DuesRate → Result ℕ
next_correction none = ok 0
next_correction (some latest) =
    if latest.deleted then ok (suc latest.correction) else err dues_rate_month_taken

-- The function that CreateDuesRate gives to withTx.
unfoldable pub create_dues_rate_tx : CreateDuesRateParams → Env → Action DuesRate
create_dues_rate_tx p env = do
  tier ← read (λ db. or_err (get_dues_tier_for_fund p.tier_id p.fund_id db) no_rows)
  correction ←
      read (λ db. next_correction (latest_dues_rate_of_month p.tier_id p.effective_from db))
  insert_dues_rate env p.tier_id p.amount p.effective_from correction false

-- `CreateDuesRate`
unfoldable pub create_dues_rate : Env → CreateDuesRateParams → Action DuesRate
create_dues_rate env p = do
  check (check_amount_ceiling "amount" p.amount)
  window ← pool_read env (window_for env p.fund_id)
  check (validate_dues_period "effective_from" p.effective_from (window_rate window))
  with_tx env (create_dues_rate_tx p)

-- `standingRate`
unfoldable pub standing_rate : ℕ → ℕ → Action DuesRate
standing_rate fund id = do
  row ← read (λ db. or_err (get_dues_rate_for_fund id fund db) no_rows)
  latest ← read (λ db. or_err (latest_dues_rate_of_month row.tier_id row.effective_from db) no_rows)
  check (refuse_if (not (latest.id == row.id) || latest.deleted) dues_rate_superseded)
  pure latest

-- An amount equal to the standing one writes nothing.
unfoldable pub restate : Env → Amount → DuesRate → Action DuesRate
restate env amount standing db =
    if standing.amount ==ℤ amount
    then (ok standing, db)
    else insert_dues_rate env standing.tier_id amount standing.effective_from
        (suc standing.correction) false db

-- The function that CorrectDuesRate gives to withTx.
unfoldable pub correct_dues_rate_tx : ℕ → ℕ → Amount → Env → Action DuesRate
correct_dues_rate_tx fund id amount env = do
  standing ← standing_rate fund id
  restate env amount standing

-- `CorrectDuesRate`
unfoldable pub correct_dues_rate : Env → ℕ → ℕ → Amount → Action DuesRate
correct_dues_rate env fund id amount = do
  check (check_amount_ceiling "amount" amount)
  with_tx env (correct_dues_rate_tx fund id amount)

-- The function that DeleteDuesRate gives to withTx.
unfoldable pub delete_dues_rate_tx : ℕ → ℕ → Env → Action (Unit {0})
delete_dues_rate_tx fund id env = do
  standing ← standing_rate fund id
  row ←
      insert_dues_rate env standing.tier_id standing.amount standing.effective_from
        (suc standing.correction) true
  pure tt

-- `DeleteDuesRate`
unfoldable pub delete_dues_rate : Env → ℕ → ℕ → Action (Unit {0})
delete_dues_rate env fund id = with_tx env (delete_dues_rate_tx fund id)
