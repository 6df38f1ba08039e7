-- ===== src/Dues/Waived.antt =====
-- internal/ledger/dues_waiver.go: what waiving months does to what is owed.
use uruni.Base.{
  ◌≡◌, ◌∙◌, Bool, true, false, ◌&&◌, ◌||◌, List, [], ◌∷◌, ◌++◌, arith, All, All-map, any-append,
}
use uruni.Errors.{ok}
use uruni.Dates.{Text, text_eq, window_dues, DateWindow}
use uruni.Store.Rows.{Db, DuesWaiver}
use uruni.Store.Action.{Env, mark}
use uruni.Posting.{window_for}
use uruni.Dues.Payment.{waivers_of, is_waived}
use uruni.Dues.Status.{OutstandingDuesPeriod}
use uruni.Dues.Waiver.{WaiveDuesParams, lists_period, outstanding_dues_with, with_waivers}
use uruni.Dues.Waive.{waive_dues}
use uruni.Dues.WaiverRows.{
  WaiversOf, waivers_created, owed_each, waived_now, any-filter, of_member, tx_facts, waived_facts,
}

-- What a call of WaiveDues that answers did.
abbrev pub Waived : Env → WaiveDuesParams → Db → List DuesWaiver → Db → Type 0
Waived env p before rows after =
    (w : DateWindow) × (owed : List OutstandingDuesPeriod) × (window_for env p.fund_id before
      ≡ ok w)
    × (outstanding_dues_with (mark env) p.fund_id p.member_id (window_dues w) before ≡ ok owed)
    × All
        (λ period.
          (lists_period owed period ≡ true)
          × (is_waived (waivers_of p.fund_id p.member_id before) period ≡ false)
          × (is_waived (waivers_of p.fund_id p.member_id after) period ≡ true))
        p.periods
    × WaiversOf p p.periods rows
    × (after ≡ with_waivers (before.dues_waivers ++ rows) before)

-- WaiveDues, when it answers, has added one waiver for each month asked for, in their order, and
-- changed nothing else. Each of the months was on the member's list of outstanding months up to the
-- window's last month and was not waived, and each is waived afterwards.
pub waive_dues_lem :
    (env : Env) (p : WaiveDuesParams) (db : Db) (rows : List DuesWaiver) (after : Db)
    → waive_dues env p db ≡ (ok rows, after)
    → Waived env p db rows after
waive_dues_lem env p db rows after h =
    let (w, opened, valid, inside) = waived_facts env p db rows after h in
    let (owed, member, found, listed, checked, written) =
      tx_facts (mark env) p db rows after (window_dues w) inside in
    let (each, left) = waivers_created (mark env) p p.periods db rows after written in
    let of = of_member p.fund_id p.member_id in
    let now =
      All-map _ (λ period. is_waived (waivers_of p.fund_id p.member_id after) period ≡ true)
        p.periods
        (λ period is_new. rw left (
          any-filter of (λ v. text_eq v.dues_period period) (db.dues_waivers ++ rows)
          ∙ any-append (λ v. of v && text_eq v.dues_period period) db.dues_waivers rows
          ∙ rw is_new (or_true _)))
        (waived_now p p.periods rows each) in
    (
      w,
      owed,
      opened,
      listed,
      both _ _ _ p.periods (owed_each _ owed p.periods checked) now,
      each,
      left,
    )
  where
    or_true : (b : Bool) → (b || true) ≡ true
    or_true b = ground arith

    both :
        (waivers : List DuesWaiver) (owed : List OutstandingDuesPeriod) (later : List DuesWaiver)
        (periods : List Text)
        → All
            (λ period. (is_waived waivers period ≡ false) × (lists_period owed period ≡ true))
            periods
        → All (λ period. is_waived later period ≡ true) periods
        → All
            (λ period.
              (lists_period owed period ≡ true)
              × (is_waived waivers period ≡ false)
              × (is_waived later period ≡ true))
            periods
    both waivers owed later [] a b = tt
    both waivers owed later (s ∷ periods) (a, rest) (b, others) =
        ((a.1, a.0, b), both waivers owed later periods rest others)
