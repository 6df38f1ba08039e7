-- ===== src/Envelope/Lifecycle.antt =====
-- internal/ledger/incidental.go: an envelope that CloseIncidentalAndRoll closed, and its reopening.
use uruni.Base.{
  ℕ, ◌≡◌, refl, sym, ap, ◌∙◌, subst, Bool, false, Option, none, some, List, [], ◌∷◌, map, arith,
  ◌==◌, if◌then◌else◌, is_some, find?, Option-cases, inl, inr,
}
use uruni.Base.Int.{ℤ, pos, ◌==ℤ◌}
use uruni.Errors.{
  Result, ok, err, or_err, or_err-ok, refuse_if, amount_overflow, no_rows,
  incidental_already_closed, incidental_not_closed, incidental_closed,
}
use uruni.Money.{Amount, sub, IsInt64}
use uruni.Dates.{Text}
use uruni.Store.Rows.{Db, Incidental, Transaction}
use uruni.Store.Action.{
  Env, Action, pure, ◌>>=◌, check, read, mark, pool_read, with_tx, bind_split, read_split,
  pure_split,
}
use uruni.Store.Queries.{amounts, in_fund, in_account, in_purpose, incidental_closed_on_for_purpose}
use uruni.Store.Balance.{total}
use uruni.Store.Sums.{sum}
use uruni.Posting.{refuse_inactive_account, refuse_closed_incidental}
use uruni.Dues.Payment.{main_purpose_id}
use uruni.Envelope.{
  get_incidental, collected_amount, disbursed_amount, CloseIncidentalAndRollParams, square_envelope,
  set_closed, set_closed_on, close_and_roll_tx, close_incidental_and_roll, reopen_incidental_tx,
  reopen_incidental,
}
use uruni.Envelope.Closed.{SquaredTo, squared_facts, leftover_exact}

set_closed_found :
    (purpose : ℕ) (day : Option Text) (i : Incidental) (rows : List Incidental)
    → find? (λ (x : Incidental). x.purpose_id == purpose) rows ≡ some i
    → find? (λ (x : Incidental). x.purpose_id == purpose) (map (set_closed purpose day) rows)
      ≡ some (record i { closed_on = day })
set_closed_found purpose day i [] h = ground arith
set_closed_found purpose day i (x ∷ rows) h = ground (arith, set_closed_found purpose day i rows)

-- The update of closed_on: the envelope reads as set, and no transaction moved.
closed_on_set :
    (purpose : ℕ) (day : Option Text) (db : Db) (i : Incidental) (after : Db)
    → set_closed_on purpose day db ≡ (ok i, after)
    → (after.transactions ≡ db.transactions)
      × (after.incidentals ≡ map (set_closed purpose day) db.incidentals)
      × ((old : Incidental) × (find? (λ (x : Incidental). x.purpose_id == purpose) db.incidentals
            ≡ some old))
unfolding set_closed_on
closed_on_set purpose day db i after h =
    elim (Option-cases (find? (λ (x : Incidental). x.purpose_id == purpose) db.incidentals)) [
      | inl e ↦ ground arith
      | inr (old, e) ↦ (ground arith, ground arith, (old, e))
    ]

reads_closed :
    (purpose : ℕ) (day : Option Text) (db : Db) (i : Incidental) (after : Db)
    → set_closed_on purpose day db ≡ (ok i, after)
    → incidental_closed_on_for_purpose purpose after ≡ some day
reads_closed purpose day db i after h =
    let (kept, rows, (old, found)) = closed_on_set purpose day db i after h in
    let now : find? (λ (x : Incidental). x.purpose_id == purpose) after.incidentals
        ≡ some (record old { closed_on = day }) =
      ap (find? (λ (x : Incidental). x.purpose_id == purpose)) rows
      ∙ set_closed_found purpose day old db.incidentals found in
    ground arith

refused_at :
    (purpose : ℕ) (db : Db) (day : Text)
    → incidental_closed_on_for_purpose purpose db ≡ some (some day)
    → refuse_closed_incidental purpose incidental_closed db ≡ err incidental_closed
unfolding refuse_closed_incidental
refused_at purpose db day h = ground arith

open_before :
    (purpose fund : ℕ) (db : Db) (i : Incidental)
    → get_incidental purpose fund db ≡ some i
    → refuse_if (is_some i.closed_on) incidental_already_closed ≡ ok tt
    → refuse_closed_incidental purpose incidental_closed db ≡ ok tt
unfolding refuse_closed_incidental get_incidental
open_before purpose fund db i h k =
    let found : find? (λ (x : Incidental). x.purpose_id == purpose) db.incidentals ≡ some i =
      ground arith in
    ground arith

found_row :
    (purpose fund : ℕ) (db : Db) (i : Incidental)
    → get_incidental purpose fund db ≡ some i
    → find? (λ (x : Incidental). x.purpose_id == purpose) db.incidentals ≡ some i
unfolding get_incidental
found_row purpose fund db i h = ground arith

takes_entries :
    (purpose : ℕ) (db : Db) (i : Incidental)
    → find? (λ (x : Incidental). x.purpose_id == purpose) db.incidentals
      ≡ some (record i { closed_on = none })
    → refuse_closed_incidental purpose incidental_closed db ≡ ok tt
unfolding refuse_closed_incidental
takes_entries purpose db i h = ground arith

same_total :
    (q : Transaction → Bool) (d d' : Db) → d'.transactions ≡ d.transactions → total q d' ≡ total q d
same_total q d d' h = ap (λ rows. sum (amounts q rows)) h

-- What was squared stays so where no transaction is written.
squared_same :
    (p : CloseIncidentalAndRollParams) (rolled : ℤ) (before mid last : Db)
    → last.transactions ≡ mid.transactions
    → SquaredTo p rolled before mid
    → SquaredTo p rolled before last
squared_same p rolled before mid last h (a, b, c, d) = (
  same_total (in_purpose p.fund_id p.purpose_id) mid last h ∙ a,
  λ m found. same_total (in_purpose p.fund_id m) mid last h ∙ b m found,
  λ fund. same_total (in_fund fund) mid last h ∙ c fund,
  λ fund account. same_total (in_account fund account) mid last h ∙ d fund account,
)

-- What a call of CloseIncidentalAndRoll that answers with an amount leaves.
abbrev pub Rolled : CloseIncidentalAndRollParams → Db → Amount → Db → Type 0
Rolled p before rolled after =
    (rolled ≡ total (in_purpose p.fund_id p.purpose_id) before)
    × SquaredTo p rolled before after
    × (refuse_closed_incidental p.purpose_id incidental_closed before ≡ ok tt)
    × (refuse_closed_incidental p.purpose_id incidental_closed after ≡ err incidental_closed)

module _ (env : Env) (p : CloseIncidentalAndRollParams) (db : Db)
    (apart : (main_id : ℕ)
      → main_purpose_id p.fund_id db ≡ ok main_id
      → (main_id == p.purpose_id) ≡ false)
    (rolled : Amount) (after : Db) where
  tx_facts : close_and_roll_tx p env db ≡ (ok rolled, after) → Rolled p db rolled after
  unfolding close_and_roll_tx
  tx_facts h =
      let close : ℤ → Action Amount =
        λ r. set_closed_on p.purpose_id (some p.closed_on) >>= λ _. pure r in
      let square : ℤ → Action Amount = λ leftover. square_envelope env p leftover >>= close in
      let live : ℤ → Db → Result (Unit {0}) = λ leftover d.
        if leftover ==ℤ pos 0 then ok tt else refuse_inactive_account p.fund_id p.account_id d in
      let place : ℤ → Action Amount = λ leftover. read (live leftover) >>= λ _. square leftover in
      let left : ℤ → ℤ → Db → Result ℤ = λ c d x. or_err (sub c d) amount_overflow in
      let spent : ℤ → Action Amount =
        λ c. read (disbursed_amount p.fund_id p.purpose_id) >>= λ d. read (left c d) >>= place in
      let sums : Action Amount = read (collected_amount p.fund_id p.purpose_id) >>= spent in
      let open_one : Incidental → Result (Unit {0}) =
        λ i. refuse_if (is_some i.closed_on) incidental_already_closed in
      let (i, found, h1) =
        read_split (λ d. or_err (get_incidental p.purpose_id p.fund_id d) no_rows)
          (λ i. check (open_one i) >>= λ _. sums) db rolled after h in
      let (u, is_open, h2) = read_split (λ _. open_one i) (λ _. sums) db rolled after h1 in
      let (c, collected, h3) =
        read_split (collected_amount p.fund_id p.purpose_id) spent db rolled after h2 in
      let (d, disbursed, h4) =
        read_split (disbursed_amount p.fund_id p.purpose_id) (λ d. read (left c d) >>= place) db
          rolled after h3 in
      let (leftover, is_left, h5) = read_split (left c d) place db rolled after h4 in
      let (v, active, h6) = read_split (live leftover) (λ _. square leftover) db rolled after h5 in
      let (r, mid, squared, h7) =
        bind_split (square_envelope env p leftover) close db rolled after h6 in
      let (j, last, set_one, h8) =
        bind_split (set_closed_on p.purpose_id (some p.closed_on)) (λ _. pure r) mid rolled after
          h7 in
      let (same, end) = pure_split r rolled last after h8 in
      put_together i leftover r mid j last (or_err-ok _ _ i found) is_open
        (leftover_exact p.fund_id p.purpose_id db c d leftover collected disbursed
          (or_err-ok _ _ leftover is_left))
        squared set_one same end
    where
      put_together :
          (i : Incidental) (leftover r : ℤ) (mid : Db) (j : Incidental) (last : Db)
          → get_incidental p.purpose_id p.fund_id db ≡ some i
          → refuse_if (is_some i.closed_on) incidental_already_closed ≡ ok tt
          → (leftover ≡ total (in_purpose p.fund_id p.purpose_id) db) × IsInt64 leftover
          → square_envelope env p leftover db ≡ (ok r, mid)
          → set_closed_on p.purpose_id (some p.closed_on) mid ≡ (ok j, last)
          → r ≡ rolled
          → last ≡ after
          → Rolled p db rolled after
      put_together i leftover r mid j last found is_open (exact, small) squared set_one same end =
          let (is_leftover, sums) =
            squared_facts env p db apart leftover r mid exact small squared in
          let (kept, rows, old) =
            closed_on_set p.purpose_id (some p.closed_on) mid j last set_one in
          let closed : refuse_closed_incidental p.purpose_id incidental_closed last
              ≡ err incidental_closed =
            refused_at p.purpose_id last p.closed_on
              (reads_closed p.purpose_id (some p.closed_on) mid j last set_one) in
          subst (λ x. Rolled p db x after) same
            (subst (λ x. Rolled p db x after) (sym is_leftover)
              (subst (Rolled p db leftover) end (
                exact,
                squared_same p leftover db mid last kept sums,
                open_before p.purpose_id p.fund_id db i found is_open,
                closed,
              )))

-- CloseIncidentalAndRoll, where the envelope is not the main purpose and when it answers, answers with
-- the envelope's balance, of either sign, and squares it: the envelope's sum is nothing afterwards,
-- the main purpose's sum has grown by that balance, and the sums of every fund and every location
-- stay. The envelope was open before and is closed afterwards, so that a new entry on it is refused.
pub close_incidental_and_roll_lem :
    (env : Env) (p : CloseIncidentalAndRollParams) (db : Db) (rolled : Amount) (after : Db)
    → ((main_id : ℕ)
        → main_purpose_id p.fund_id db ≡ ok main_id
        → (main_id == p.purpose_id) ≡ false)
    → close_incidental_and_roll env p db ≡ (ok rolled, after)
    → Rolled p db rolled after
unfolding close_incidental_and_roll with_tx pool_read
close_incidental_and_roll_lem env p db rolled after apart h =
    tx_facts (mark env) p db apart rolled after (ground arith)

-- What the two calls of an envelope's lifecycle answer, by whether it is closed.
abbrev pub Lifecycle : Env → ℕ → ℕ → Db → Incidental → Type 0
Lifecycle env fund purpose db i =
    ((day : Text)
      → i.closed_on ≡ some day
      → (reopened : Incidental) × (after : Db) × (reopen_incidental env fund purpose db
          ≡ (ok reopened, after))
        × (refuse_closed_incidental purpose incidental_closed after ≡ ok tt)
        × (after.transactions ≡ db.transactions))
    × ((day : Text) (p : CloseIncidentalAndRollParams)
        → i.closed_on ≡ some day
        → p.fund_id ≡ fund
        → p.purpose_id ≡ purpose
        → close_and_roll_tx p (mark env) db ≡ (err incidental_already_closed, db))
    × (i.closed_on ≡ none → reopen_incidental env fund purpose db ≡ (err incidental_not_closed, db))

-- Outside a transaction, ReopenIncidental of a closed envelope answers, moves no money and makes it
-- take entries again; closing a closed envelope and reopening an open one are refused and write
-- nothing.
pub reopen_incidental_lem :
    (env : Env) (fund purpose : ℕ) (db : Db) (i : Incidental)
    → env.marked ≡ false
    → get_incidental purpose fund db ≡ some i
    → Lifecycle env fund purpose db i
unfolding reopen_incidental reopen_incidental_tx close_and_roll_tx with_tx set_closed_on
reopen_incidental_lem env fund purpose db i outside found =
    let listed : find? (λ (x : Incidental). x.purpose_id == purpose) db.incidentals ≡ some i =
      found_row purpose fund db i found in
    (
      λ day e.
          let rows = map (set_closed purpose none) db.incidentals in
          let after = record db { incidentals = rows } in
          let now = set_closed_found purpose none i db.incidentals listed in
          (
            record i { closed_on = none },
            after,
            ground arith,
            takes_entries purpose after i now,
            refl,
          ),
      λ day p e e1 e2. ground arith,
      λ e. ground arith,
    )
