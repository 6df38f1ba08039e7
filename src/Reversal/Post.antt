-- ===== src/Reversal/Post.antt =====
-- internal/ledger/reversal.go: taking a dues payment or a normal entry back. A reversal target is
-- the row with the facts that GetReversalTarget and ListDuesPaymentReversalTargets compute for it.
use uruni.Base.{
  ℕ, Bool, true, false, ◌&&◌, not, Option, none, some, List, [], ◌∷◌, map, ◌==◌, if◌then◌else◌,
  is_some, is_same, filter,
}
use uruni.Errors.{ok, err, reversal_not_found, index_out_of_range}
use uruni.Dates.{Text, text_lt}
use uruni.Store.Rows.{
  Db, Direction, direction_in, direction_out, adjustment, is_in, is_dues, Transaction,
  TransactionParams,
}
use uruni.Store.Action.{Env, Action, pure, fail, ◌>>=◌, ◌>>◌, check, read, with_tx}
use uruni.Store.Queries.{
  get_transaction_for_fund, effective_purpose_id, reversed, counted, is_reconciliation_fix,
  incidental_closed_on_for_purpose,
}
use uruni.Store.Insert.{create_transaction}
use uruni.Posting.{window_for, normalize_note}
use uruni.Reversal.Refusal.{ReversalFacts, reversal_refusal, reversal_date, dues_payment_refusal}

pub record ReversalTarget : Type 0 where
  pub row : Transaction
  pub effective_purpose_id : ℕ
  pub facts : ReversalFacts

abbrev pub is_closed : ℕ → Db → Bool
is_closed purpose db = elim (incidental_closed_on_for_purpose purpose db) [
  | none ↦ false
  | some c ↦ is_some c
]

-- The columns of GetReversalTarget for a row of the fund.
unfoldable pub target_of : ℕ → Db → Transaction → ReversalTarget
target_of fund db t = record {
  row = t;
  effective_purpose_id = effective_purpose_id t db;
  facts = record {
    kind = t.kind;
    occurred_on = t.occurred_on;
    is_reversal = is_some t.reverses_transaction_id;
    reversed = reversed t.id db;
    is_reconciliation_fix = is_reconciliation_fix fund t.id db;
    effective_closed = is_closed (effective_purpose_id t db) db;
    counted = counted fund t.id db;
  };
}

-- ORDER BY t.dues_period, t.id, where the rows come in the order of the ids and NULL is first.
abbrev pub period_lt : Option Text → Option Text → Bool
period_lt none none = false
period_lt none (some b) = true
period_lt (some a) none = false
period_lt (some a) (some b) = text_lt a b

unfoldable pub insert_by_period : Transaction → List Transaction → List Transaction
insert_by_period t [] = t ∷ []
insert_by_period t (u ∷ rows) =
    let rest = insert_by_period t rows in
    if period_lt u.dues_period t.dues_period then u ∷ rest else t ∷ u ∷ rows

unfoldable pub sort_by_period : List Transaction → List Transaction
sort_by_period [] = []
sort_by_period (t ∷ rows) = insert_by_period t (sort_by_period rows)

-- ListDuesPaymentReversalTargets
unfoldable pub list_dues_payment_reversal_targets : ℕ → ℕ → Db → List ReversalTarget
list_dues_payment_reversal_targets fund payment db = map (target_of fund db) (
    sort_by_period (
      filter (λ (t : Transaction). (t.fund_id == fund) && is_same t.dues_payment_id (some payment))
        db.transactions))

abbrev pub opposite : Direction → Direction
opposite d = if is_in d then direction_out else direction_in

-- The row that postReversalTx inserts.
abbrev pub reversal_params : Env → ℕ → ReversalTarget → Text → Option Text → TransactionParams
reversal_params env fund o today remark = record {
  fund_id = fund;
  account_id = o.row.account_id;
  purpose_id = o.effective_purpose_id;
  direction = opposite o.row.direction;
  amount = o.row.amount;
  occurred_on = reversal_date o.row.occurred_on o.facts.counted today;
  kind = adjustment;
  member_id = o.row.member_id;
  dues_period = o.row.dues_period;
  reimbursement_id = none;
  transfer_id = none;
  dues_payment_id = none;
  reverses_transaction_id = some o.row.id;
  note = normalize_note remark;
  created_at = env.now;
}

-- `postReversalTx`
abbrev pub post_reversal : Env → ℕ → ReversalTarget → Text → Option Text → Action Transaction
post_reversal env fund o today remark = create_transaction (reversal_params env fund o today remark)

-- The loop that posts the standing months.
unfoldable pub post_reversals :
    Env → ℕ → List ReversalTarget → Text → Option Text → Action (List Transaction)
post_reversals env fund [] today remark = pure []
post_reversals env fund (o ∷ rest) today remark = do
  r ← post_reversal env fund o today remark
  rs ← post_reversals env fund rest today remark
  pure (r ∷ rs)

abbrev pub is_standing : ReversalTarget → Bool
is_standing t = not t.facts.reversed

-- `reverseDuesPaymentTx`
unfoldable pub reverse_dues_payment_tx : Env → ℕ → ℕ → Option Text → Action (List Transaction)
reverse_dues_payment_tx env fund payment remark = do
  targets ← read (λ db. elim (list_dues_payment_reversal_targets fund payment db) [
    | [] ↦ err reversal_not_found
    | t ∷ ts ↦ ok (t ∷ ts)
  ])
  window ← read (window_for env fund)
  check (dues_payment_refusal (map (λ (t : ReversalTarget). t.facts) targets) window.today)
  post_reversals env fund (filter is_standing targets) window.today remark

pub record ReverseParams : Type 0 where
  pub fund_id : ℕ
  -- the row, or the payment, that is reversed
  pub id : ℕ
  pub note : Option Text

-- `ReverseDuesPayment`
unfoldable pub reverse_dues_payment : Env → ReverseParams → Action (List Transaction)
reverse_dues_payment env p =
    with_tx env (λ inner. reverse_dues_payment_tx inner p.fund_id p.id p.note)

-- The last row of the list that reverses the id, or the one given.
unfoldable pub pick_reversal : ℕ → Transaction → List Transaction → Transaction
pick_reversal id picked [] = picked
pick_reversal id picked (r ∷ rows) =
    pick_reversal id (if is_same r.reverses_transaction_id (some id) then r else picked) rows

-- `rows[0]`, a run-time panic on an empty list, and the loop after it.
abbrev pub pick_first : ℕ → List Transaction → Action Transaction
pick_first id [] = fail index_out_of_range
pick_first id (r ∷ rows) = pure (pick_reversal id r (r ∷ rows))

-- The branch for a row that is reversed alone.
unfoldable pub reverse_row_tx : Env → ReverseParams → ReversalTarget → Action Transaction
reverse_row_tx env p original = do
  window ← read (window_for env p.fund_id)
  check (reversal_refusal original.facts window.today)
  post_reversal env p.fund_id original window.today p.note

-- The choice between the payment of a dues row and the row alone.
unfoldable pub reverse_by : Env → ReverseParams → ReversalTarget → Option ℕ → Action Transaction
reverse_by env p original none = reverse_row_tx env p original
reverse_by env p original (some payment) =
    if is_dues original.row.kind
    then (do rows ← reverse_dues_payment_tx env p.fund_id payment p.note; pick_first p.id rows)
    else reverse_row_tx env p original

-- The body of `ReverseTransaction`.
unfoldable pub reverse_transaction_tx : Env → ReverseParams → Action Transaction
reverse_transaction_tx env p = do
  original ← read (λ db. elim (get_transaction_for_fund p.fund_id p.id db) [
    | none ↦ err reversal_not_found
    | some t ↦ ok (target_of p.fund_id db t)
  ])
  reverse_by env p original original.row.dues_payment_id

-- `ReverseTransaction`
unfoldable pub reverse_transaction : Env → ReverseParams → Action Transaction
reverse_transaction env p = with_tx env (λ inner. reverse_transaction_tx inner p)
