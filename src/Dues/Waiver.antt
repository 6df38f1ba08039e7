-- ===== src/Dues/Waiver.antt =====
-- internal/ledger/dues_waiver.go, and the reads of dues_status.go that it and the arrears count make: a
-- waived month stops being owed; no money moves.
use uruni.Base.{
  ℕ, suc, Bool, ◌&&◌, not, Option, none, some, List, [], ◌∷◌, ltb, ◌==◌, if◌then◌else◌, any, length,
}
use uruni.Base.Int.{negsuc}
use uruni.Errors.{
  Result, ok, err, or_err, refuse_if, invalid_argument, dues_already_waived, dues_not_owed, no_rows,
  bad_time_zone, ◌>>=◌, ◌>>◌,
}
use uruni.Dates.{
  Text, text_eq, take_month, add_months, check_period_shape, validate_dues_period, DateWindow,
  window_dues,
}
use uruni.Store.Rows.{Db, Member, DuesWaiver}
use uruni.Store.Action.{Env}
use uruni.Store.Queries.{get_fund, get_member_for_fund}
use uruni.Store.Insert.{is_period_column}
use uruni.Dues.Pricing.{has_tier}
use uruni.Dues.Payment.{waivers_of, is_waived}
use uruni.Dues.Standing.{member_pricing}
use uruni.Dues.Status.{OutstandingDuesPeriod, outstanding_dues, dues_paid_by_member}

-- `CurrentDuesPeriod` in the fund's zone.
unfoldable pub current_dues_period : Env → ℕ → Db → Result Text
current_dues_period env fund db = elim (get_fund fund db) [
  | none ↦ err no_rows
  | some f ↦ elim (env.day_in f.time_zone) [
    | none ↦ err bad_time_zone
    | some day ↦ ok (take_month day)
  ]
]

-- The period that the walk ends at: the argument, or the current one where it is empty.
unfoldable pub walk_end : Env → ℕ → Text → Db → Result Text
walk_end env fund [] db = current_dues_period env fund db
walk_end env fund (c ∷ through) db = check_period_shape "through" (c ∷ through) >> ok (c ∷ through)

unfoldable pub outstanding_of : ℕ → Member → Text → Db → Result (List OutstandingDuesPeriod)
outstanding_of fund member through db =
    let prices = member_pricing fund member.id db in
    if not (has_tier prices member.id)
    then ok []
    else (dues_paid_by_member fund member.id db >>= λ paid.
        outstanding_dues member prices paid (is_waived (waivers_of fund member.id db)) through)

-- `outstandingDuesWith`
unfoldable pub outstanding_dues_with : Env → ℕ → ℕ → Text → Db → Result (List OutstandingDuesPeriod)
outstanding_dues_with env fund id through db = do
  last ← walk_end env fund through db
  member ← or_err (get_member_for_fund id fund db) no_rows
  outstanding_of fund member last db

-- `ArrearsMonthsForMember`: the months outstanding before the current one.
unfoldable pub arrears_months_for_member : Env → ℕ → ℕ → Text → Db → Result ℕ
arrears_months_for_member env fund id current db = do
  check_period_shape "current period" current
  outstanding ← outstanding_dues_with env fund id (add_months current (negsuc 0)) db
  ok (length outstanding)

pub record WaiveDuesParams : Type 0 where
  pub fund_id : ℕ
  pub member_id : ℕ
  pub periods : List Text
  pub note : Option Text

pub record UnwaiveDuesParams : Type 0 where
  pub fund_id : ℕ
  pub member_id : ℕ
  pub period : Text

-- The loop that checks the months; `seen` holds those before.
unfoldable pub check_waived_periods : DateWindow → List Text → List Text → Result (Unit {0})
check_waived_periods window seen [] = ok tt
check_waived_periods window seen (period ∷ periods) =
    let rest = check_waived_periods window (period ∷ seen) periods in
    (do
      validate_dues_period "periods" period (window_dues window)
      refuse_if (any (λ s. text_eq s period) seen) (invalid_argument "periods")
      rest)

abbrev pub lists_period : List OutstandingDuesPeriod → Text → Bool
lists_period owed period = any (λ (o : OutstandingDuesPeriod). text_eq o.period period) owed

-- Every month is owed and not waived yet.
unfoldable pub check_owed :
    List DuesWaiver → List OutstandingDuesPeriod → List Text → Result (Unit {0})
check_owed waivers owed [] = ok tt
check_owed waivers owed (period ∷ periods) =
    let rest = check_owed waivers owed periods in
    (do
      refuse_if (is_waived waivers period) dues_already_waived
      refuse_if (not (lists_period owed period)) dues_not_owed
      rest)

unfoldable pub max_waiver_id : List DuesWaiver → ℕ
max_waiver_id [] = 0
max_waiver_id (w ∷ rows) = let rest = max_waiver_id rows in if ltb rest w.id then w.id else rest

-- The CHECK, the unique key and the foreign key of dues_waiver.
unfoldable pub waiver_checks : DuesWaiver → Db → Bool
waiver_checks w db =
    is_period_column (some w.dues_period)
    && not (
        any
          (λ (o : DuesWaiver).
            (o.fund_id == w.fund_id)
            && (o.member_id == w.member_id)
            && text_eq o.dues_period w.dues_period)
          db.dues_waivers)
    && any (λ (m : Member). (m.fund_id == w.fund_id) && (m.id == w.member_id)) db.members

abbrev pub new_waiver : Env → WaiveDuesParams → Option Text → Text → Db → DuesWaiver
new_waiver env p remark period db = record {
  id = suc (max_waiver_id db.dues_waivers);
  fund_id = p.fund_id;
  member_id = p.member_id;
  dues_period = period;
  note = remark;
  created_at = env.now;
}

abbrev pub with_waivers : List DuesWaiver → Db → Db
with_waivers waivers db = record db { dues_waivers = waivers }

-- The row that DeleteDuesWaiver deletes.
abbrev pub is_waiver_of : UnwaiveDuesParams → DuesWaiver → Bool
is_waiver_of p w =
    (w.fund_id == p.fund_id) && (w.member_id == p.member_id) && text_eq w.dues_period p.period
