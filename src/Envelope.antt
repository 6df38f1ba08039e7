-- ===== src/Envelope.antt =====
-- internal/ledger/incidental.go and its queries: an envelope is closed by squaring its purpose to
-- zero against the main purpose, and may be reopened.
pub mod Closed
pub mod Lifecycle
use uruni.Base.{
  ℕ, Bool, true, false, ◌&&◌, not, Option, none, some, List, map, ◌==◌, ◌||◌, if◌then◌else◌,
  is_some, any, find?, filter,
}
use uruni.Base.Int.{ℤ, pos, ltb_ℤ, neg_ℤ, ◌==ℤ◌}
use uruni.Errors.{
  Err, Result, ok, err, or_err, refuse_if, incidental_already_closed, incidental_not_closed,
  amount_overflow, no_rows, constraint,
}
use uruni.Money.{Amount, sub}
use uruni.Dates.{Text, entry, validate_occurred_on}
use uruni.Store.Rows.{Db, Incidental, Purpose, Transaction, reclass_purpose, roll}
use uruni.Store.Action.{Env, Action, pure, ◌>>=◌, ◌>>◌, check, read, pool_read, with_tx}
use uruni.Store.Queries.{signed_amount, in_purpose, amounts}
use uruni.Store.Sums.{sql_sum}
use uruni.Store.Insert.{is_date_column}
use uruni.Posting.{window_for, normalize_note, refuse_inactive_account}
use uruni.Transfers.{TransferPair, post_transfer_pair}
use uruni.Dues.Payment.{main_purpose_id}

-- GetIncidental
unfoldable pub get_incidental : ℕ → ℕ → Db → Option Incidental
get_incidental purpose fund db =
    if any (λ (p : Purpose). (p.id == purpose) && (p.fund_id == fund)) db.purposes
    then find? (λ (i : Incidental). i.purpose_id == purpose) db.incidentals
    else none

abbrev pub positive_part : ℤ → ℤ
positive_part x = if ltb_ℤ (pos 0) x then x else pos 0

abbrev pub negative_part : ℤ → ℤ
negative_part x = if ltb_ℤ x (pos 0) then neg_ℤ x else pos 0

-- IncidentalTotals: what was collected, and what was disbursed.
unfoldable pub collected_amount : ℕ → ℕ → Db → Result Amount
collected_amount fund purpose db =
    sql_sum (pos 0) (map positive_part (amounts (in_purpose fund purpose) db.transactions))

unfoldable pub disbursed_amount : ℕ → ℕ → Db → Result Amount
disbursed_amount fund purpose db =
    sql_sum (pos 0) (map negative_part (amounts (in_purpose fund purpose) db.transactions))

pub record CloseIncidentalAndRollParams : Type 0 where
  pub fund_id : ℕ
  pub purpose_id : ℕ
  pub account_id : ℕ
  pub closed_on : Text
  pub note : Option Text

-- The pair that moves an amount between the envelope and the main purpose, at one location.
abbrev pub roll_pair : CloseIncidentalAndRollParams → ℕ → ℕ → Amount → TransferPair
roll_pair p from to amount = record {
  fund_id = p.fund_id;
  kind = reclass_purpose;
  from = record { account_id = p.account_id; purpose_id = from };
  to = record { account_id = p.account_id; purpose_id = to };
  amount = amount;
  occurred_on = p.closed_on;
  note = normalize_note p.note;
  corrects_transaction_id = none;
  reason = some roll;
}

-- A leftover goes to the main purpose.
unfoldable pub roll_leftover : Env → CloseIncidentalAndRollParams → Amount → Action Amount
roll_leftover env p leftover = do
  main_id ← read (main_purpose_id p.fund_id)
  post_transfer_pair env (roll_pair p p.purpose_id main_id leftover)
  pure leftover

-- A shortfall is covered from it.
unfoldable pub cover_shortfall : Env → CloseIncidentalAndRollParams → Amount → Action Amount
cover_shortfall env p leftover = do
  main_id ← read (main_purpose_id p.fund_id)
  covering ← read (λ db. or_err (sub (pos 0) leftover) amount_overflow)
  post_transfer_pair env (roll_pair p main_id p.purpose_id covering)
  pure leftover

-- The switch on the leftover's sign.
unfoldable pub square_envelope : Env → CloseIncidentalAndRollParams → Amount → Action Amount
square_envelope env p leftover =
    if ltb_ℤ (pos 0) leftover
    then roll_leftover env p leftover
    else (if ltb_ℤ leftover (pos 0) then cover_shortfall env p leftover else pure (pos 0))

abbrev pub set_closed : ℕ → Option Text → Incidental → Incidental
set_closed purpose day i = if i.purpose_id == purpose then record i { closed_on = day } else i

abbrev pub closing : Option Text → Bool
closing none = true
closing (some day) = is_date_column day

-- CloseIncidental and the store's ReopenIncidental: the UPDATE of closed_on.
unfoldable pub set_closed_on : ℕ → Option Text → Action Incidental
set_closed_on purpose day db =
    elim (find? (λ (i : Incidental). i.purpose_id == purpose) db.incidentals) [
      | none ↦ (err no_rows, db)
      | some i ↦
          if closing day
          then (
            ok (record i { closed_on = day }),
            record db { incidentals = map (set_closed purpose day) db.incidentals },
          )
          else (err constraint, db)
    ]

-- The function that CloseIncidentalAndRoll gives to withTx.
unfoldable pub close_and_roll_tx : CloseIncidentalAndRollParams → Env → Action Amount
close_and_roll_tx p env = do
  envelope ← read (λ db. or_err (get_incidental p.purpose_id p.fund_id db) no_rows)
  check (refuse_if (is_some envelope.closed_on) incidental_already_closed)
  collected ← read (collected_amount p.fund_id p.purpose_id)
  disbursed ← read (disbursed_amount p.fund_id p.purpose_id)
  leftover ← read (λ db. or_err (sub collected disbursed) amount_overflow)
  read (λ db.
      if leftover ==ℤ pos 0 then ok tt else refuse_inactive_account p.fund_id p.account_id db)
  rolled ← square_envelope env p leftover
  set_closed_on p.purpose_id (some p.closed_on)
  pure rolled

-- `CloseIncidentalAndRoll`
unfoldable pub close_incidental_and_roll : Env → CloseIncidentalAndRollParams → Action Amount
close_incidental_and_roll env p = do
  window ← pool_read env (window_for env p.fund_id)
  check (validate_occurred_on "closed_on" p.closed_on (entry window))
  with_tx env (close_and_roll_tx p)

-- The function that ReopenIncidental gives to withTx.
unfoldable pub reopen_incidental_tx : ℕ → ℕ → Env → Action Incidental
reopen_incidental_tx fund purpose env = do
  envelope ← read (λ db. or_err (get_incidental purpose fund db) no_rows)
  check (refuse_if (not (is_some envelope.closed_on)) incidental_not_closed)
  set_closed_on purpose none

-- `ReopenIncidental`
unfoldable pub reopen_incidental : Env → ℕ → ℕ → Action Incidental
reopen_incidental env fund purpose = with_tx env (reopen_incidental_tx fund purpose)
