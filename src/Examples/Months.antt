-- ===== src/Examples/Months.antt =====
-- Dues of a member, month by month.
use uruni.Base.{
  ℕ, ◌+◌, ◌≡◌, ◌≤◌, ◌<◌, ◌⊎◌, ◌↔◌, refl, Bool, true, false, Option, none, some, List, [], ◌∷◌,
  arith,
}
use uruni.Base.Int.{ℤ, pos}
use uruni.Errors.{ok}
use uruni.Dates.{codes, Text, format_month}
use uruni.Store.Rows.{Db, Member, DuesWaiver}
use uruni.Store.Action.{mark, Post}
use uruni.Store.Sums.{sum}
use uruni.Posting.{window_for}
use uruni.Dues.Pricing.{Pricing}
use uruni.Dues.Payment.{PostDuesPaymentsParams}
use uruni.Dues.Standing.{member_pricing}
use uruni.Dues.Status.{OutstandingDuesPeriod, payments_toward, outstanding_months, outstanding_dues}
use uruni.Dues.Outstanding.{lists, IsOwed, outstanding_dues_lem}
use uruni.Dues.Waiver.{WaiveDuesParams, new_waiver, with_waivers}
use uruni.Dues.Waive.{waive_dues, unwaive_dues}
use uruni.Dues.Waived.{Waived, waive_dues_lem}
use uruni.Dues.Unwaived.{unwaive_dues-waive_dues}
use uruni.Examples.Data.{dues_db, env}

-- The member of a tier that costs 50,000 a month.
abbrev pub months_db : Db
months_db = record dues_db {
  dues_tiers = record { id = 1; fund_id = 1 } ∷ [];
  dues_rates =
      record {
        id = 1;
        tier_id = 1;
        amount = pos 50000;
        effective_from = codes "2026-01";
        correction = 0;
        deleted = false;
        created_at = 1785000000;
      }
      ∷ [];
  member_tiers =
      record {
        id = 1;
        fund_id = 1;
        member_id = 1;
        tier_id = some 1;
        effective_from = codes "2026-01";
        correction = 0;
      }
      ∷ [];
}

abbrev ani : Member
ani = record {
  id = 1;
  fund_id = 1;
  name = codes "Ani";
  joined_on = codes "2026-01-01";
  inactive_on = none;
}

abbrev prices : Pricing
prices = record {
  tiers = λ member. record { from = codes "2026-01"; value = some 1 } ∷ [];
  rates = λ tier. record { from = codes "2026-01"; value = pos 50000 } ∷ [];
}

abbrev paid_by_ani : Text → ℤ
paid_by_ani period = sum (payments_toward 1 1 period months_db)

abbrev none_waived : Text → Bool
none_waived period = false

abbrev pub dues_args : PostDuesPaymentsParams
dues_args = record {
  fund_id = 1;
  account_id = 1;
  member_id = 1;
  occurred_on = codes "2026-07-30";
  note = none;
  periods =
      record { dues_period = codes "2026-05"; amount = pos 50000 }
      ∷ record { dues_period = codes "2026-06"; amount = pos 50000 }
      ∷ [];
  idempotency = none;
}

-- January to March 2026.
abbrev walked : List OutstandingDuesPeriod
walked = outstanding_months ani prices paid_by_ani none_waived 3 24312

outstanding_dues_lem_example : (lists walked (format_month (pos 24313)) ≡ true) ↔ (
    (24312 ≤ 24313)
    × (24313 ≤ 24314)
    × IsOwed ani prices paid_by_ani none_waived (format_month (pos 24313)))
unfolding uruni.Dates.parse_period outstanding_dues
outstanding_dues_lem_example =
    outstanding_dues_lem ani prices paid_by_ani none_waived (codes "2026-03") walked 2026 1 2026 3
      24313 refl refl refl refl (omega arith) refl

abbrev pub waive_args : WaiveDuesParams
waive_args = record { fund_id = 1; member_id = 1; periods = codes "2026-02" ∷ []; note = none }

abbrev waiver : DuesWaiver
waiver = new_waiver (mark env) waive_args none (codes "2026-02") months_db

was_waived :
    waive_dues env waive_args months_db ≡ (ok (waiver ∷ []), with_waivers (waiver ∷ []) months_db)
unfolding waive_dues uruni.Store.Action.pool_read window_for uruni.Dues.Waiver.check_waived_periods
    uruni.Dates.validate_dues_period uruni.Dates.check_period_shape uruni.Dates.parse_period
    uruni.Dates.format_period uruni.Dates.put_year uruni.Dates.put_two uruni.Dates.add_months
    uruni.Base.Int.◌+ℤ◌ uruni.Store.Action.with_tx uruni.Dues.Waive.waive_dues_tx
    uruni.Dues.Waiver.outstanding_dues_with uruni.Dues.Waiver.walk_end
    uruni.Dues.Waiver.outstanding_of format_month uruni.Dues.Pricing.price_at
    uruni.Dues.Pricing.rate_at uruni.Dues.Pricing.search uruni.Dues.Pricing.span_at
    uruni.Dues.Pricing.tier_at uruni.Dues.Standing.dues_rates_for_member_pricing
    uruni.Dues.Standing.insert_by member_pricing uruni.Dues.Standing.member_tiers_for_member
    uruni.Dues.Standing.order_by uruni.Dues.Status.classify_dues_month
    uruni.Dues.Status.classify_dues_status uruni.Dues.Status.dues_paid_by_member
    uruni.Dues.Status.member_owes_period uruni.Dues.Status.month_owed outstanding_dues
    outstanding_months uruni.Dues.Waive.create_dues_waiver uruni.Dues.Waive.create_waivers
    uruni.Dues.Waiver.check_owed uruni.Dues.Waiver.max_waiver_id uruni.Dues.Waiver.waiver_checks
    uruni.Posting.normalize_note uruni.Store.Sums.sql_sum
was_waived = refl

waive_dues_lem_example :
    Waived env waive_args months_db (waiver ∷ []) (with_waivers (waiver ∷ []) months_db)
waive_dues_lem_example =
    waive_dues_lem env waive_args months_db (waiver ∷ []) (with_waivers (waiver ∷ []) months_db)
      was_waived

unwaive_dues-waive_dues_example :
    unwaive_dues env
      (record { fund_id = 1; member_id = 1; period = codes "2026-02" })
      (with_waivers (waiver ∷ []) months_db)
    ≡ (ok tt, months_db)
unwaive_dues-waive_dues_example =
    unwaive_dues-waive_dues env env waive_args (codes "2026-02") months_db (waiver ∷ [])
      (with_waivers (waiver ∷ []) months_db) refl refl was_waived
