-- ===== src/Dues/Waive.antt =====
-- internal/ledger/dues_waiver.go, internal/store/queries/dues_waiver.sql: the writes of the waivers.
use uruni.Base.{Bool, true, false, not, Option, List, [], ◌∷◌, ◌++◌, if◌then◌else◌, any, filter}
use uruni.Errors.{
  ok, err, or_err, refuse_if, invalid_argument, dues_not_waived, no_rows, constraint,
}
use uruni.Dates.{Text, check_period_shape, window_dues}
use uruni.Store.Rows.{DuesWaiver}
use uruni.Store.Action.{Env, Action, ◌>>=◌, ◌>>◌, pure, check, read, pool_read, with_tx}
use uruni.Store.Queries.{get_member_for_fund}
use uruni.Posting.{window_for, normalize_note}
use uruni.Dues.Payment.{waivers_of}
use uruni.Dues.Waiver.{
  WaiveDuesParams, UnwaiveDuesParams, check_waived_periods, check_owed, outstanding_dues_with,
  waiver_checks, new_waiver, with_waivers, is_waiver_of,
}

-- CreateDuesWaiver
unfoldable pub create_dues_waiver : Env → WaiveDuesParams → Option Text → Text → Action DuesWaiver
create_dues_waiver env p remark period db =
    let w = new_waiver env p remark period db in
    if waiver_checks w db
    then (ok w, with_waivers (db.dues_waivers ++ (w ∷ [])) db)
    else (err constraint, db)

-- The loop that writes the waivers.
unfoldable pub create_waivers :
    Env → WaiveDuesParams → Option Text → List Text → Action (List DuesWaiver)
create_waivers env p remark [] = pure []
create_waivers env p remark (period ∷ periods) = do
  row ← create_dues_waiver env p remark period
  rows ← create_waivers env p remark periods
  pure (row ∷ rows)

-- The function that WaiveDues gives to withTx; `last` is the window's last month.
unfoldable pub waive_dues_tx : WaiveDuesParams → Text → Env → Action (List DuesWaiver)
waive_dues_tx p last env = do
  member ← read (λ db. or_err (get_member_for_fund p.member_id p.fund_id db) no_rows)
  owed ← read (outstanding_dues_with env p.fund_id p.member_id last)
  read (λ db. check_owed (waivers_of p.fund_id p.member_id db) owed p.periods)
  create_waivers env p (normalize_note p.note) p.periods

abbrev pub no_periods : List Text → Bool
no_periods [] = true
no_periods _ = false

-- `WaiveDues`
unfoldable pub waive_dues : Env → WaiveDuesParams → Action (List DuesWaiver)
waive_dues env p = do
  check (refuse_if (no_periods p.periods) (invalid_argument "periods"))
  window ← pool_read env (window_for env p.fund_id)
  check (check_waived_periods window [] p.periods)
  with_tx env (waive_dues_tx p (window_dues window))

-- DeleteDuesWaiver, and the refusal where it deleted nothing.
unfoldable pub delete_dues_waiver : UnwaiveDuesParams → Action (Unit {0})
delete_dues_waiver p db =
    if any (is_waiver_of p) db.dues_waivers
    then (ok tt, with_waivers (filter (λ w. not (is_waiver_of p w)) db.dues_waivers) db)
    else (err dues_not_waived, db)

-- The function that UnwaiveDues gives to withTx.
unfoldable pub unwaive_dues_tx : UnwaiveDuesParams → Env → Action (Unit {0})
unwaive_dues_tx p env = do
  member ← read (λ db. or_err (get_member_for_fund p.member_id p.fund_id db) no_rows)
  delete_dues_waiver p

-- `UnwaiveDues`
unfoldable pub unwaive_dues : Env → UnwaiveDuesParams → Action (Unit {0})
unwaive_dues env p = do
  check (check_period_shape "period" p.period)
  with_tx env (unwaive_dues_tx p)
