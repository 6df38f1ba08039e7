-- ===== src/Examples/Rates.antt =====
-- The rate of a tier from March 2026: set, corrected and withdrawn.
use uruni.Base.{ℕ, ◌≡◌, refl, false, true, Option, none, some, List, [], ◌∷◌, ◌++◌}
use uruni.Base.Int.{pos}
use uruni.Errors.{ok}
use uruni.Dates.{codes}
use uruni.Store.Rows.{Db, DuesRate}
use uruni.Store.Action.{mark}
use uruni.Dues.Rate.{
  CreateDuesRateParams, new_rate, with_rates, create_dues_rate, correct_dues_rate, delete_dues_rate,
  get_dues_rate_for_fund,
}
use uruni.Dues.Rates.{RateOp, insert, replace, remove, rate_map}
use uruni.Dues.RateSteps.{
  RateSteps, here, next, created, corrected, withdrawn, apply_all, dues_rate_refinement,
}
use uruni.Dues.RateCalls.{Grown}
use uruni.Examples.Data.{env}
use uruni.Examples.Months.{months_db}

abbrev rate_args : CreateDuesRateParams
rate_args = record {
  fund_id = 1;
  tier_id = 1;
  amount = pos 60000;
  effective_from = codes "2026-03";
}

abbrev add : DuesRate → Db → Db
add r db = with_rates (db.dues_rates ++ (r ∷ [])) db

abbrev set_row : DuesRate
set_row = new_rate (mark env) 1 (pos 60000) (codes "2026-03") 0 false months_db

abbrev set_db : Db
set_db = add set_row months_db

abbrev corrected_row : DuesRate
corrected_row = new_rate (mark env) 1 (pos 65000) (codes "2026-03") 1 false set_db

abbrev corrected_db : Db
corrected_db = add corrected_row set_db

abbrev withdrawn_row : DuesRate
withdrawn_row = new_rate (mark env) 1 (pos 65000) (codes "2026-03") 2 true corrected_db

abbrev withdrawn_db : Db
withdrawn_db = add withdrawn_row corrected_db

was_set : create_dues_rate env rate_args months_db ≡ (ok set_row, set_db)
unfolding create_dues_rate uruni.Store.Action.pool_read uruni.Posting.window_for
    uruni.Dates.validate_dues_period uruni.Dates.check_period_shape uruni.Dates.parse_period
    uruni.Dates.format_period uruni.Dates.put_year uruni.Dates.put_two uruni.Dates.add_months
    uruni.Base.Int.◌+ℤ◌ uruni.Store.Action.with_tx uruni.Dues.Rate.create_dues_rate_tx
    uruni.Dues.Rate.get_dues_tier_for_fund uruni.Dues.Rate.latest_dues_rate_of_month
    uruni.Dues.Rate.latest_of uruni.Dues.Rate.next_correction uruni.Dues.Rate.insert_dues_rate
    uruni.Dues.Rate.rate_checks uruni.Dues.Rate.max_rate_id uruni.Dates.format_month
was_set = refl

was_corrected : correct_dues_rate env 1 2 (pos 65000) set_db ≡ (ok corrected_row, corrected_db)
unfolding correct_dues_rate uruni.Store.Action.with_tx uruni.Dues.Rate.correct_dues_rate_tx
    uruni.Dues.Rate.standing_rate uruni.Dues.Rate.restate get_dues_rate_for_fund
    uruni.Dues.Rate.latest_dues_rate_of_month uruni.Dues.Rate.latest_of
    uruni.Dues.Rate.insert_dues_rate uruni.Dues.Rate.rate_checks uruni.Dues.Rate.max_rate_id
    uruni.Dates.parse_period
was_corrected = refl

was_withdrawn : delete_dues_rate env 1 3 corrected_db ≡ (ok tt, withdrawn_db)
unfolding delete_dues_rate uruni.Store.Action.with_tx uruni.Dues.Rate.delete_dues_rate_tx
    uruni.Dues.Rate.standing_rate get_dues_rate_for_fund uruni.Dues.Rate.latest_dues_rate_of_month
    uruni.Dues.Rate.latest_of uruni.Dues.Rate.insert_dues_rate uruni.Dues.Rate.rate_checks
    uruni.Dues.Rate.max_rate_id uruni.Dates.parse_period
was_withdrawn = refl

was_named : get_dues_rate_for_fund 3 1 corrected_db ≡ some corrected_row
unfolding get_dues_rate_for_fund uruni.Dues.Rate.max_rate_id
was_named = refl

abbrev history : List RateOp
history =
    insert 1 (codes "2026-03") (pos 60000)
    ∷ replace 1 (codes "2026-03") (pos 65000)
    ∷ remove 1 (codes "2026-03")
    ∷ []

ran : RateSteps history months_db withdrawn_db
ran = next (created env rate_args set_row was_set) (
    next (corrected env 1 2 (pos 65000) corrected_row was_corrected)
      (next (withdrawn env 1 3 corrected_row was_named was_withdrawn) here))

dues_rate_refinement_example :
    (apply_all history (rate_map months_db.dues_rates) ≡ some (rate_map withdrawn_db.dues_rates))
    × Grown months_db withdrawn_db
dues_rate_refinement_example = dues_rate_refinement ran
