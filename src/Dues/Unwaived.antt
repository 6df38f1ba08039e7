-- ===== src/Dues/Unwaived.antt =====
-- internal/ledger/dues_waiver.go: UnwaiveDues after WaiveDues.
use uruni.Base.{
  ◌≡◌, refl, sym, ◌∙◌, subst, Bool, true, false, not, some, List, [], ◌∷◌, ◌++◌, arith, any, filter,
  any-append, filter-append, append-nil, ==_self,
}
use uruni.Errors.{ok, or_err, no_rows}
use uruni.Dates.{Text, text_eq, check_period_shape, validate_dues_period, window_dues, DateWindow}
use uruni.Dates.Window.{text_eq_refl}
use uruni.Store.Rows.{Db, Member, DuesWaiver}
use uruni.Store.Action.{Env, mark, with_tx, read_ok, with_tx_ok}
use uruni.Store.Queries.{get_member_for_fund}
use uruni.Dues.Payment.{waivers_of}
use uruni.Dues.Waiver.{
  WaiveDuesParams, UnwaiveDuesParams, check_waived_periods, check_owed, with_waivers, is_waiver_of,
}
use uruni.Dues.Waive.{waive_dues, delete_dues_waiver, unwaive_dues_tx, unwaive_dues}
use uruni.Dues.WaiverRows.{
  WaiversOf, waivers_created, owed_each, any-filter, of_member, tx_facts, waived_facts,
}

kept_rows :
    (q : DuesWaiver → Bool) (rows : List DuesWaiver)
    → any q rows ≡ false
    → filter (λ w. not (q w)) rows ≡ rows
kept_rows q [] h = refl
kept_rows q (w ∷ rows) h = ground (arith, kept_rows q rows)

-- Deleting the one row that matches, at the end, gives the rows before it.
undone :
    (q : UnwaiveDuesParams) (env : Env) (db : Db) (w : DuesWaiver)
    → any (is_waiver_of q) db.dues_waivers ≡ false
    → is_waiver_of q w ≡ true
    → delete_dues_waiver q (with_waivers (db.dues_waivers ++ (w ∷ [])) db) ≡ (ok tt, db)
unfolding delete_dues_waiver
undone q env db w fresh matches =
    rw
      (
        any-append (is_waiver_of q) db.dues_waivers (w ∷ []),
        fresh,
        filter-append (λ v. not (is_waiver_of q v)) db.dues_waivers (w ∷ []),
        kept_rows (is_waiver_of q) db.dues_waivers fresh,
        matches,
        append-nil db.dues_waivers,
      )
      refl

-- A month that WaiveDues takes is one that UnwaiveDues reads.
shape_ok :
    (w : DateWindow) (period : Text)
    → check_waived_periods w [] (period ∷ []) ≡ ok tt
    → check_period_shape "period" period ≡ ok tt
unfolding check_waived_periods validate_dues_period check_period_shape
shape_ok w period h = ground arith

single :
    (p : WaiveDuesParams) (period : Text) (rows : List DuesWaiver)
    → WaiversOf p (period ∷ []) rows
    → (w : DuesWaiver) × (rows ≡ w ∷ [])
      × (w.fund_id ≡ p.fund_id)
      × (w.member_id ≡ p.member_id)
      × (w.dues_period ≡ period)
single p period [] h = absurd h
single p period (w ∷ []) (a, b, c, d, e) = (w, refl, a, b, c)
single p period (w ∷ v ∷ rows) (a, b, c, d, e) = absurd e

unwaived :
    (env : Env) (q : UnwaiveDuesParams) (db : Db) (w : DuesWaiver) (member : Member)
    → env.marked ≡ false
    → check_period_shape "period" q.period ≡ ok tt
    → get_member_for_fund q.member_id q.fund_id db ≡ some member
    → any (is_waiver_of q) db.dues_waivers ≡ false
    → is_waiver_of q w ≡ true
    → unwaive_dues env q (with_waivers (db.dues_waivers ++ (w ∷ [])) db) ≡ (ok tt, db)
unfolding unwaive_dues unwaive_dues_tx
unwaived env q db w member outside shape found fresh matches =
    let d = with_waivers (db.dues_waivers ++ (w ∷ [])) db in
    read_ok (λ _. check_period_shape "period" q.period) (λ _. with_tx env (unwaive_dues_tx q)) d tt
      shape
    ∙ with_tx_ok env (unwaive_dues_tx q) d tt db outside (
        read_ok (λ x. or_err (get_member_for_fund q.member_id q.fund_id x) no_rows)
          (λ _. delete_dues_waiver q) d member (rw found refl)
        ∙ undone q env db w fresh matches)

-- UnwaiveDues takes a waiver back: after WaiveDues waived one month, UnwaiveDues of that month, outside
-- a transaction, answers and leaves the database as it was before the two.
pub unwaive_dues-waive_dues :
    (env env' : Env) (p : WaiveDuesParams) (period : Text) (db : Db) (rows : List DuesWaiver)
    (after : Db)
    → env'.marked ≡ false
    → p.periods ≡ period ∷ []
    → waive_dues env p db ≡ (ok rows, after)
    → unwaive_dues env'
        (record { fund_id = p.fund_id; member_id = p.member_id; period = period })
        after
      ≡ (ok tt, db)
unwaive_dues-waive_dues env env' p period db rows after outside only h =
    let q : UnwaiveDuesParams = record {
      fund_id = p.fund_id;
      member_id = p.member_id;
      period = period;
    } in
    let (w, opened, valid, inside) = waived_facts env p db rows after h in
    let (owed, member, found, listed, checked, written) =
      tx_facts (mark env) p db rows after (window_dues w) inside in
    let (each, left) = waivers_created (mark env) p p.periods db rows after written in
    let (v, alone, fund, owner, month) =
      single p period rows (subst (λ ms. WaiversOf p ms rows) only each) in
    let (fresh, _) =
      (owed_each _ owed (period ∷ []) (
        subst (λ ms. check_owed (waivers_of p.fund_id p.member_id db) owed ms ≡ ok tt) only
          checked)).0 in
    let unseen : any (is_waiver_of q) db.dues_waivers ≡ false =
      sym (
        any-filter (of_member p.fund_id p.member_id) (λ x. text_eq x.dues_period period)
          db.dues_waivers)
      ∙ fresh in
    let matches : is_waiver_of q v ≡ true =
      rw (fund, owner, month)
        (rw (==_self p.fund_id, ==_self p.member_id, text_eq_refl period) refl) in
    rw (left, alone)
      (unwaived env' q db v member outside
        (shape_ok w period (subst (λ ms. check_waived_periods w [] ms ≡ ok tt) only valid)) found
        unseen matches)
