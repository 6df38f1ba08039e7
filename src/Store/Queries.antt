-- ===== src/Store/Queries.antt =====
-- internal/store/*.sql.go: the queries that read. `none` is sql.ErrNoRows.
use uruni.Base.{
  ℕ, Bool, false, ◌&&◌, not, Option, none, some, List, [], ◌∷◌, map, leb, ltb, ◌==◌, if◌then◌else◌,
  is_same, is_some, find?, any, filter,
}
use uruni.Base.Int.{ℤ, pos, negsuc, neg_ℤ, ◌+ℤ◌, ◌==ℤ◌}
use uruni.Errors.{Result}
use uruni.Dates.{Text, text_eq}
use uruni.Store.Rows.{
  Db, Account, Purpose, Incidental, Member, Transaction, Transfer, Reimbursement, Fund,
  IdempotencyKey, Reconciliation, ReconciliationLine, Direction, is_in, same_direction,
  is_reimbursement,
}
use uruni.Store.Sums.{sql_sum}

-- GetFund
abbrev pub get_fund : ℕ → Db → Option Fund
get_fund id db = find? (λ (f : Fund). f.id == id) db.funds

-- GetAccountForFund
abbrev pub get_account_for_fund : ℕ → ℕ → Db → Option Account
get_account_for_fund id fund db =
    find? (λ (a : Account). (a.id == id) && (a.fund_id == fund)) db.accounts

-- ListAccountsByFund, in the order of the ids
abbrev pub list_accounts_by_fund : ℕ → Db → List Account
list_accounts_by_fund fund db = filter (λ (a : Account). a.fund_id == fund) db.accounts

-- GetPurposeForFund
abbrev pub get_purpose_for_fund : ℕ → ℕ → Db → Option Purpose
get_purpose_for_fund id fund db =
    find? (λ (p : Purpose). (p.id == id) && (p.fund_id == fund)) db.purposes

-- IncidentalClosedOnForPurpose
abbrev pub incidental_closed_on_for_purpose : ℕ → Db → Option (Option Text)
incidental_closed_on_for_purpose purpose db =
    elim (find? (λ (i : Incidental). i.purpose_id == purpose) db.incidentals) [
      | none ↦ none
      | some i ↦ some i.closed_on
    ]

-- GetMemberForFund
abbrev pub get_member_for_fund : ℕ → ℕ → Db → Option Member
get_member_for_fund id fund db =
    find? (λ (m : Member). (m.id == id) && (m.fund_id == fund)) db.members

-- GetTransactionForFund
abbrev pub get_transaction_for_fund : ℕ → ℕ → Db → Option Transaction
get_transaction_for_fund fund id db =
    find? (λ (t : Transaction). (t.fund_id == fund) && (t.id == id)) db.transactions

-- GetReimbursement
abbrev pub get_reimbursement : ℕ → ℕ → Db → Option Reimbursement
get_reimbursement id fund db =
    find? (λ (r : Reimbursement). (r.id == id) && (r.fund_id == fund)) db.reimbursements

-- GetReimbursementSettlement
abbrev pub get_reimbursement_settlement : ℕ → ℕ → Db → Option Transaction
get_reimbursement_settlement fund claim db =
    find?
      (λ (t : Transaction).
        (t.fund_id == fund) && is_same t.reimbursement_id (some claim) && is_reimbursement t.kind)
      db.transactions

-- GetIdempotencyKey
abbrev pub get_idempotency_key : Text → ℕ → Db → Option IdempotencyKey
get_idempotency_key key now db =
    find? (λ (r : IdempotencyKey). text_eq r.key key && ltb now r.expires_at) db.idempotency_keys

-- ledger_entry.signed_amount
abbrev pub signed_amount : Transaction → ℤ
signed_amount t = if is_in t.direction then t.amount else neg_ℤ t.amount

-- The rows that a sum is taken over.
abbrev pub in_fund : ℕ → Transaction → Bool
in_fund fund t = t.fund_id == fund

abbrev pub in_account : ℕ → ℕ → Transaction → Bool
in_account fund account t = (t.fund_id == fund) && (t.account_id == account)

abbrev pub in_purpose : ℕ → ℕ → Transaction → Bool
in_purpose fund purpose t = (t.fund_id == fund) && (t.purpose_id == purpose)

abbrev pub in_account_through : ℕ → ℕ → ℕ → Transaction → Bool
in_account_through fund account id t =
    (t.fund_id == fund) && (t.account_id == account) && leb t.id id

-- The signed amounts of the rows that pass a test.
abbrev pub amounts : (Transaction → Bool) → List Transaction → List ℤ
amounts p rows = map signed_amount (filter p rows)

-- FundBalance
unfoldable pub fund_balance : ℕ → Db → Result ℤ
fund_balance fund db = sql_sum (pos 0) (amounts (in_fund fund) db.transactions)

-- AccountBalance
unfoldable pub account_balance : ℕ → ℕ → Db → Result ℤ
account_balance fund account db =
    sql_sum (pos 0) (amounts (in_account fund account) db.transactions)

-- PurposeBalance
unfoldable pub purpose_balance : ℕ → ℕ → Db → Result ℤ
purpose_balance fund purpose db =
    sql_sum (pos 0) (amounts (in_purpose fund purpose) db.transactions)

-- AccountBalanceThrough
unfoldable pub account_balance_through : ℕ → ℕ → ℕ → Db → Result ℤ
account_balance_through fund account id db =
    sql_sum (pos 0) (amounts (in_account_through fund account id) db.transactions)

-- MAX(id) over the rows that pass a test; 0 where there is none.
unfoldable pub max_id : (Transaction → Bool) → List Transaction → ℕ
max_id p [] = 0
max_id p (t ∷ rows) = let rest = max_id p rows in if p t && ltb rest t.id then t.id else rest

-- MaxTransactionIDByFund
unfoldable pub max_transaction_id_by_fund : ℕ → Db → Option ℕ
max_transaction_id_by_fund fund db =
    if any (in_fund fund) db.transactions
    then some (max_id (in_fund fund) db.transactions)
    else none

-- A reversal names the row: ledger_entry.reversed.
abbrev pub reversed : ℕ → Db → Bool
reversed id db =
    any (λ (r : Transaction). is_same r.reverses_transaction_id (some id)) db.transactions

-- The transfers that correct a row.
abbrev pub is_correction_of : ℕ → Option ℕ → List Transfer → Bool
is_correction_of id none transfers = false
is_correction_of id (some transfer) transfers =
    any (λ (c : Transfer). (c.id == transfer) && is_same c.corrects_transaction_id (some id))
      transfers

-- The legs of the corrections of a row.
abbrev pub correction_legs : ℕ → Db → List Transaction
correction_legs id db =
    filter (λ (leg : Transaction). is_correction_of id leg.transfer_id db.transfers) db.transactions

-- SUM(CASE WHEN leg.direction = t.direction THEN 1 ELSE -1 END) over the legs of one purpose.
unfoldable pub leg_sum : Direction → ℕ → List Transaction → ℤ
leg_sum way purpose [] = pos 0
leg_sum way purpose (leg ∷ legs) =
    let rest = leg_sum way purpose legs in
    if leg.purpose_id == purpose
    then (if same_direction leg.direction way then pos 1 else negsuc 0) +ℤ rest
    else rest

-- HAVING SUM(…) + (leg.purpose_id = t.purpose_id) = 1
abbrev pub is_end : Transaction → List Transaction → ℕ → Bool
is_end t legs purpose =
    (leg_sum t.direction purpose legs +ℤ (if purpose == t.purpose_id then pos 1 else pos 0))
    ==ℤ pos 1

-- The purpose of the first leg that passes the HAVING clause.
abbrev pub first_end : Transaction → List Transaction → List Transaction → Option ℕ
first_end t all_legs [] = none
first_end t all_legs (leg ∷ legs) =
    if is_end t all_legs leg.purpose_id then some leg.purpose_id else first_end t all_legs legs

abbrev pub or_else : Option ℕ → ℕ → ℕ
or_else none d = d
or_else (some x) d = x

-- ledger_entry.effective_purpose_id
unfoldable pub effective_purpose_id : Transaction → Db → ℕ
effective_purpose_id t db =
    let legs = correction_legs t.id db in or_else (first_end t legs legs) t.purpose_id

-- A count of the fund has its cutoff at or past the row.
abbrev pub counted : ℕ → ℕ → Db → Bool
counted fund id db =
    any
      (λ (r : Reconciliation).
        (r.fund_id == fund) && elim r.through_transaction_id [ none ↦ false | some c ↦ leb id c ])
      db.reconciliations

-- A line of a count names the row as its fix.
abbrev pub is_reconciliation_fix : ℕ → ℕ → Db → Bool
is_reconciliation_fix fund id db =
    any
      (λ (l : ReconciliationLine).
        (l.fund_id == fund) && is_same l.adjustment_transaction_id (some id))
      db.reconciliation_lines

-- OutstandingReimbursementTotal
abbrev pub is_settled : ℕ → Db → Bool
is_settled claim db =
    any (λ (t : Transaction). is_same t.reimbursement_id (some claim) && is_reimbursement t.kind)
      db.transactions

abbrev pub is_outstanding : ℕ → Db → Reimbursement → Bool
is_outstanding fund db r =
    (r.fund_id == fund) && not (is_some r.waived_on) && not (is_settled r.id db)

unfoldable pub outstanding_reimbursement_total : ℕ → Db → Result ℤ
outstanding_reimbursement_total fund db =
    sql_sum (pos 0)
      (map (λ (r : Reimbursement). r.amount) (filter (is_outstanding fund db) db.reimbursements))
