-- ===== src/Dues/WaiverRows.antt =====
-- internal/ledger/dues_waiver.go: the rows that WaiveDues writes, and the steps of its answer.
use uruni.Base.{
  ℕ, ◌≡◌, refl, sym, ap, ◌∙◌, subst, Bool, true, false, ◌&&◌, Option, some, List, [], ◌∷◌, ◌++◌,
  arith, ◌==◌, any, filter, All, All-map, append-nil, append_assoc, ==_self, inl, inr,
}
use uruni.Errors.{ok, or_err, no_rows, Result-cases, or_err-ok}
use uruni.Dates.{Text, text_eq, window_dues, DateWindow}
use uruni.Dates.Window.{text_eq_refl}
use uruni.Store.Rows.{Db, Member, DuesWaiver}
use uruni.Store.Action.{
  Env, Action, ◌>>=◌, pure, read, mark, pool_read, with_tx, bind_split, read_split, pure_split,
}
use uruni.Store.Queries.{get_member_for_fund}
use uruni.Posting.{window_for, normalize_note}
use uruni.Dues.Payment.{waivers_of, is_waived}
use uruni.Dues.Status.{OutstandingDuesPeriod}
use uruni.Dues.Waiver.{
  WaiveDuesParams, check_waived_periods, check_owed, lists_period, outstanding_dues_with,
  new_waiver, with_waivers,
}
use uruni.Dues.Waive.{create_dues_waiver, create_waivers, waive_dues_tx, waive_dues}

-- The waivers that were written: one for each month, in order.
abbrev pub WaiversOf : WaiveDuesParams → List Text → List DuesWaiver → Type 0
WaiversOf p [] [] = Unit
WaiversOf p (period ∷ periods) (w ∷ rows) =
    (w.fund_id ≡ p.fund_id)
    × (w.member_id ≡ p.member_id)
    × (w.dues_period ≡ period)
    × (w.note ≡ normalize_note p.note)
    × WaiversOf p periods rows
WaiversOf p _ _ = ⊥

waiver_created :
    (env : Env) (p : WaiveDuesParams) (remark : Option Text) (period : Text) (d : Db)
    (w : DuesWaiver) (after : Db)
    → create_dues_waiver env p remark period d ≡ (ok w, after)
    → (w ≡ new_waiver env p remark period d) × (after ≡ with_waivers (d.dues_waivers ++ (w ∷ [])) d)
unfolding create_dues_waiver
waiver_created env p remark period d w after h = ground arith

pub waivers_created :
    (env : Env) (p : WaiveDuesParams) (periods : List Text) (d : Db) (rows : List DuesWaiver)
    (after : Db)
    → create_waivers env p (normalize_note p.note) periods d ≡ (ok rows, after)
    → WaiversOf p periods rows × (after ≡ with_waivers (d.dues_waivers ++ rows) d)
unfolding create_waivers
waivers_created env p [] d rows after h =
    let (shape, left) = pure_split [] rows d after h in
    subst (λ x. WaiversOf p [] x × (after ≡ with_waivers (d.dues_waivers ++ x) d)) shape
      (tt, sym left ∙ ap (λ x. with_waivers x d) (sym (append-nil _)))
waivers_created env p (period ∷ periods) d rows after h =
    let remark = normalize_note p.note in
    let rest : DuesWaiver → Action (List DuesWaiver) =
      λ w. create_waivers env p remark periods >>= λ others. pure (w ∷ others) in
    let (w, mid, first, left) =
      bind_split (create_dues_waiver env p remark period) rest d rows after h in
    let (others, last, second, done) =
      bind_split (create_waivers env p remark periods) (λ others. pure (w ∷ others)) mid rows after
        left in
    let (shape, end) = pure_split (w ∷ others) rows last after done in
    let (made, added) = waiver_created env p remark period d w mid first in
    let (each, same) = waivers_created env p periods mid others last second in
    subst (λ x. WaiversOf p (period ∷ periods) x × (after ≡ with_waivers (d.dues_waivers ++ x) d))
      shape
      (
        (
          ap (λ (x : DuesWaiver). x.fund_id) made,
          ap (λ (x : DuesWaiver). x.member_id) made,
          ap (λ (x : DuesWaiver). x.dues_period) made,
          ap (λ (x : DuesWaiver). x.note) made,
          each,
        ),
        sym end
            ∙ same
            ∙ ap (λ (x : Db). with_waivers (x.dues_waivers ++ others) x) added
            ∙ ap (λ x. with_waivers x d) (append_assoc d.dues_waivers (w ∷ []) others),
      )

-- Every month passed the checks of the loop.
pub owed_each :
    (waivers : List DuesWaiver) (owed : List OutstandingDuesPeriod) (periods : List Text)
    → check_owed waivers owed periods ≡ ok tt
    → All (λ period. (is_waived waivers period ≡ false) × (lists_period owed period ≡ true)) periods
unfolding check_owed
owed_each waivers owed [] h = tt
owed_each waivers owed (period ∷ periods) h =
    ((ground arith, ground arith), owed_each waivers owed periods (ground arith))

pub waived_now :
    (p : WaiveDuesParams) (periods : List Text) (rows : List DuesWaiver)
    → WaiversOf p periods rows
    → All
        (λ period.
          any
            (λ (w : DuesWaiver).
              (w.fund_id == p.fund_id)
              && (w.member_id == p.member_id)
              && text_eq w.dues_period period)
            rows
          ≡ true)
        periods
waived_now p [] [] h = tt
waived_now p [] (w ∷ rows) h = absurd h
waived_now p (period ∷ periods) [] h = absurd h
waived_now p (period ∷ periods) (w ∷ rows) (fund, member, month, remark, rest) = (
  rw (fund, member, month) (rw (==_self p.fund_id, ==_self p.member_id, text_eq_refl period) refl),
  All-map _ _ periods (λ s h. ground arith) (waived_now p periods rows rest),
)

-- Asking a filtered list is asking the whole list with both tests.
pub any-filter :
    (p q : DuesWaiver → Bool) (rows : List DuesWaiver)
    → any q (filter p rows) ≡ any (λ w. p w && q w) rows
any-filter p q [] = refl
any-filter p q (w ∷ rows) = ground (arith, any-filter p q rows)

abbrev pub of_member : ℕ → ℕ → DuesWaiver → Bool
of_member fund member w = (w.fund_id == fund) && (w.member_id == member)

module _ (env : Env) (p : WaiveDuesParams) (db : Db) (rows : List DuesWaiver) (after : Db) where
  pub tx_facts :
      (last : Text)
      → waive_dues_tx p last env db ≡ (ok rows, after)
      → (owed : List OutstandingDuesPeriod) × (member : Member) × (get_member_for_fund p.member_id
            p.fund_id db
          ≡ some member)
        × (outstanding_dues_with env p.fund_id p.member_id last db ≡ ok owed)
        × (check_owed (waivers_of p.fund_id p.member_id db) owed p.periods ≡ ok tt)
        × (create_waivers env p (normalize_note p.note) p.periods db ≡ (ok rows, after))
  unfolding waive_dues_tx
  tx_facts last h =
      let write : Action (List DuesWaiver) =
        create_waivers env p (normalize_note p.note) p.periods in
      let owing : List OutstandingDuesPeriod → Action (List DuesWaiver) = λ owed.
        read (λ d. check_owed (waivers_of p.fund_id p.member_id d) owed p.periods) >>= λ _. write in
      let (member, found, first) =
        read_split (λ d. or_err (get_member_for_fund p.member_id p.fund_id d) no_rows)
          (λ _. read (outstanding_dues_with env p.fund_id p.member_id last) >>= owing) db rows after
          h in
      let (owed, listed, second) =
        read_split (outstanding_dues_with env p.fund_id p.member_id last) owing db rows after
          first in
      let (u, checked, third) =
        read_split (λ d. check_owed (waivers_of p.fund_id p.member_id d) owed p.periods)
          (λ _. write) db rows after second in
      (owed, member, or_err-ok _ _ member found, listed, checked, third)

  pub waived_facts :
      waive_dues env p db ≡ (ok rows, after)
      → (w : DateWindow) × (window_for env p.fund_id db ≡ ok w)
        × (check_waived_periods w [] p.periods ≡ ok tt)
        × (waive_dues_tx p (window_dues w) (mark env) db ≡ (ok rows, after))
  unfolding waive_dues with_tx pool_read
  waived_facts h = elim (Result-cases (window_for env p.fund_id db)) [
    | inl (w, e) ↦ (w, e, ground arith, ground arith)
    | inr (x, e) ↦ ground arith
  ]
