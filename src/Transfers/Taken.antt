-- ===== src/Transfers/Taken.antt =====
-- internal/ledger/transfer.go and purpose_move.go beside internal/db/migrations/00001_schema.sql: a
-- movement that the guards let through is one that the schema takes.
use uruni.Base.{
  ℕ, ◌≡◌, refl, ◌∙◌, Bool, true, false, ◌&&◌, ◌||◌, Option, none, some, List, [], ◌∷◌, ◌++◌, ◌==◌,
  ==_self, arith, any, any-append, find?,
}
use uruni.Base.Int.{ℤ, pos, ◌≤ℤ◌, ltb_ℤ}
use uruni.Errors.{ok}
use uruni.Money.{Amount, max_amount}
use uruni.Dates.{Text, DateWindow, entry, validate_occurred_on}
use uruni.Store.Rows.{
  Db, Account, Purpose, Transaction, Transfer, Direction, direction_in, direction_out, is_in,
  is_out, transfer, between_accounts, reclass_purpose,
}
use uruni.Store.Action.{Env, mark}
use uruni.Store.Queries.{get_account_for_fund, get_purpose_for_fund, purpose_balance}
use uruni.Store.Insert.{
  accepts, is_date_column, column_checks, kind_shape, foreign_keys, named_row_shape, unique_indexes,
  add_transfer,
}
use uruni.Posting.{window_for, normalize_note}
use uruni.Posting.Taken.{dated_column, account_known, account_live}
use uruni.Transfers.{
  Leg, TransferPair, leg_params, PostTransferBetweenAccountsParams, between_pair,
  post_transfer_between_accounts, PostPurposeMoveParams, move_pair, post_purpose_move,
}
use uruni.Transfers.Pair.{out_row, in_row, with_out}
use uruni.Transfers.PurposeMove.{IsMovable}
use uruni.Transfers.Accepted.{pair_transfer, post_transfer_between_accounts_ok}
use uruni.Transfers.MoveAccepted.{post_purpose_move_ok}

-- A row of a transfer, by what it says.
abbrev pub SaysLeg :
    ℕ → ℕ → ℕ → Direction → Amount → Text → Option Text → Transfer → Transaction → Type 0
SaysLeg fund account purpose direction amount day note t row =
    (row.fund_id ≡ fund)
    × (row.account_id ≡ account)
    × (row.purpose_id ≡ purpose)
    × (row.direction ≡ direction)
    × (row.amount ≡ amount)
    × (row.occurred_on ≡ day)
    × (row.note ≡ note)
    × (row.kind ≡ transfer)
    × (row.transfer_id ≡ some t.id)
    × (row.member_id ≡ none)
    × (row.dues_period ≡ none)
    × (row.reimbursement_id ≡ none)
    × (row.dues_payment_id ≡ none)
    × (row.reverses_transaction_id ≡ none)

transfer_known :
    (t : Transfer) (rows : List Transfer)
    → any (λ (x : Transfer). (x.fund_id == t.fund_id) && (x.id == t.id)) (rows ++ (t ∷ [])) ≡ true
transfer_known t rows =
    any-append (λ (x : Transfer). (x.fund_id == t.fund_id) && (x.id == t.id)) rows (t ∷ [])
    ∙ rw (==_self t.fund_id, ==_self t.id) (or_last _)
  where
    or_last : (b : Bool) → (b || true) ≡ true
    or_last b = ground arith

leg_accepts :
    (env : Env) (pair : TransferPair) (t : Transfer) (leg : Leg) (d : Direction) (db : Db)
    → (is_in d || is_out d) ≡ true
    → pos 1 ≤ℤ pair.amount
    → pair.amount ≤ℤ max_amount
    → is_date_column pair.occurred_on ≡ true
    → any (λ (a : Account). (a.fund_id == pair.fund_id) && (a.id == leg.account_id)) db.accounts
      ≡ true
    → any (λ (q : Purpose). (q.fund_id == pair.fund_id) && (q.id == leg.purpose_id)) db.purposes
      ≡ true
    → any (λ (x : Transfer). (x.fund_id == pair.fund_id) && (x.id == t.id)) db.transfers ≡ true
    → accepts (leg_params env pair t leg d) db ≡ true
unfolding accepts column_checks kind_shape foreign_keys named_row_shape unique_indexes
leg_accepts env pair t leg d db directed positive bounded dated located purposed known =
    ground arith

purpose_known :
    (id fund : ℕ) (rows : List Purpose) (q : Purpose)
    → find? (λ (x : Purpose). (x.id == id) && (x.fund_id == fund)) rows ≡ some q
    → any (λ (x : Purpose). (x.fund_id == fund) && (x.id == id)) rows ≡ true
purpose_known id fund [] q h = ground arith
purpose_known id fund (x ∷ rows) q h = ground (arith, purpose_known id fund rows q)

-- A transfer answers, and the schema has nothing against its rows. Outside a transaction and without a
-- key, with a positive amount up to the ceiling, a date inside the fund's window, two different
-- locations of the fund that are not retired and a purpose of the fund, PostTransferBetweenAccounts
-- answers with a new transfer. The database is the old one with the transfer and two rows: the amount
-- out of the first location and into the second, under the purpose.
pub post_transfer_between_accounts_succeeds :
    (env : Env) (p : PostTransferBetweenAccountsParams) (db : Db) (w : DateWindow)
    (from to : Account) (purpose : Purpose)
    → env.marked ≡ false
    → p.idempotency ≡ none
    → pos 1 ≤ℤ p.amount
    → p.amount ≤ℤ max_amount
    → window_for env p.fund_id db ≡ ok w
    → validate_occurred_on "occurred_on" p.occurred_on (entry w) ≡ ok tt
    → (p.from_account_id == p.to_account_id) ≡ false
    → get_account_for_fund p.from_account_id p.fund_id db ≡ some from
    → from.inactive_on ≡ none
    → get_account_for_fund p.to_account_id p.fund_id db ≡ some to
    → to.inactive_on ≡ none
    → get_purpose_for_fund p.purpose_id p.fund_id db ≡ some purpose
    → (t : Transfer) × (out : Transaction) × (into : Transaction) × (post_transfer_between_accounts
          env p db
        ≡ (
          ok (record { value = t; replayed = false; age_seconds = 0 }),
          record db {
            transfers = db.transfers ++ (t ∷ []);
            transactions = (db.transactions ++ (out ∷ [])) ++ (into ∷ []);
          },
        ))
      × (t.kind ≡ between_accounts)
      × SaysLeg p.fund_id p.from_account_id p.purpose_id direction_out p.amount p.occurred_on
          (normalize_note p.note)
          t
          out
      × SaysLeg p.fund_id p.to_account_id p.purpose_id direction_in p.amount p.occurred_on
          (normalize_note p.note)
          t
          into
post_transfer_between_accounts_succeeds env p db w from to purpose outside unkeyed positive bounded
      opened dated apart from_one from_live to_one to_live purpose_one =
    let pair = between_pair p in
    let t = pair_transfer (mark env) pair db in
    let day = dated_column p.occurred_on (entry w) dated in
    let known = transfer_known t db.transfers in
    let purposed = purpose_known p.purpose_id p.fund_id db.purposes purpose purpose_one in
    (
      t,
      out_row (mark env) pair t db,
      in_row (mark env) pair t db,
      post_transfer_between_accounts_ok env p db w outside unkeyed positive bounded opened dated
          (rw apart refl) (account_live p.from_account_id p.fund_id db from from_one from_live)
          (account_live p.to_account_id p.fund_id db to to_one to_live)
          (leg_accepts (mark env) pair t pair.from direction_out (add_transfer t db) refl positive
            bounded day (account_known p.from_account_id p.fund_id db.accounts from from_one)
            purposed known)
          (leg_accepts (mark env) pair t pair.to direction_in (with_out (mark env) pair t db) refl
            positive bounded day (account_known p.to_account_id p.fund_id db.accounts to to_one)
            purposed known),
      refl,
      (refl, refl, refl, refl, refl, refl, refl, refl, refl, refl, refl, refl, refl, refl),
      (refl, refl, refl, refl, refl, refl, refl, refl, refl, refl, refl, refl, refl, refl),
    )

-- A move answers, and the schema has nothing against its rows. Outside a transaction and without a key,
-- with a positive amount up to the ceiling and to what the first purpose holds, a date inside the
-- fund's window, two different purposes of the fund that are no pass-through and no closed envelope,
-- and a location of the fund that is not retired, PostPurposeMove answers with a new transfer. The
-- database is the old one with the transfer and two rows on the location: the amount out of the first
-- purpose and into the second.
pub post_purpose_move_succeeds :
    (env : Env) (p : PostPurposeMoveParams) (db : Db) (w : DateWindow) (account : Account)
    (balance : ℤ)
    → env.marked ≡ false
    → p.idempotency ≡ none
    → pos 1 ≤ℤ p.amount
    → p.amount ≤ℤ max_amount
    → window_for env p.fund_id db ≡ ok w
    → validate_occurred_on "occurred_on" p.occurred_on (entry w) ≡ ok tt
    → (p.from_purpose_id == p.to_purpose_id) ≡ false
    → IsMovable p.fund_id p.from_purpose_id db
    → IsMovable p.fund_id p.to_purpose_id db
    → get_account_for_fund p.account_id p.fund_id db ≡ some account
    → account.inactive_on ≡ none
    → purpose_balance p.fund_id p.from_purpose_id db ≡ ok balance
    → p.amount ≤ℤ balance
    → (t : Transfer) × (out : Transaction) × (into : Transaction) × (post_purpose_move env p db ≡ (
      ok (record { value = t; replayed = false; age_seconds = 0 }),
      record db {
        transfers = db.transfers ++ (t ∷ []);
        transactions = (db.transactions ++ (out ∷ [])) ++ (into ∷ []);
      },
    ))
      × (t.kind ≡ reclass_purpose)
      × SaysLeg p.fund_id p.account_id p.from_purpose_id direction_out p.amount p.occurred_on
          (normalize_note p.note)
          t
          out
      × SaysLeg p.fund_id p.account_id p.to_purpose_id direction_in p.amount p.occurred_on
          (normalize_note p.note)
          t
          into
post_purpose_move_succeeds env p db w account balance outside unkeyed positive bounded opened dated
      apart from to located live held enough =
    let pair = move_pair p in
    let t = pair_transfer (mark env) pair db in
    let day = dated_column p.occurred_on (entry w) dated in
    let known = transfer_known t db.transfers in
    let place = account_known p.account_id p.fund_id db.accounts account located in
    let not_less : ltb_ℤ balance p.amount ≡ false = ground arith in
    (
      t,
      out_row (mark env) pair t db,
      in_row (mark env) pair t db,
      post_purpose_move_ok env p db w account balance outside unkeyed positive bounded opened dated
          apart from to located (rw live refl) held not_less
          (leg_accepts (mark env) pair t pair.from direction_out (add_transfer t db) refl positive
            bounded day place (purpose_known p.from_purpose_id p.fund_id db.purposes from.0 from.1)
            known)
          (leg_accepts (mark env) pair t pair.to direction_in (with_out (mark env) pair t db) refl
            positive bounded day place
            (purpose_known p.to_purpose_id p.fund_id db.purposes to.0 to.1) known),
      refl,
      (refl, refl, refl, refl, refl, refl, refl, refl, refl, refl, refl, refl, refl, refl),
      (refl, refl, refl, refl, refl, refl, refl, refl, refl, refl, refl, refl, refl, refl),
    )
