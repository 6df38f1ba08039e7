-- ===== src/Accounts.antt =====
-- internal/ledger/account_active.go: UpdateAccount, the labels of a location and its retirement, and the
-- UPDATE of internal/store/queries/account.sql.
pub mod Retired
use uruni.Base.{
  ℕ, Bool, true, false, ◌&&◌, not, Option, none, some, map, ◌==◌, if◌then◌else◌, any, find?,
}
use uruni.Base.Int.{ℤ, pos, ltb_ℤ}
use uruni.Errors.{
  Result, ok, err, refuse_if, account_holds_money, account_balance_negative, no_rows, constraint,
}
use uruni.Dates.{Text, codes, text_eq, year_ahead, validate_occurred_on}
use uruni.Store.Rows.{Db, Account, AccountKind, cash, bank}
use uruni.Store.Action.{Env, Action, ◌>>=◌, ◌>>◌, pure, check, read, pool_read, with_tx}
use uruni.Store.Queries.{account_balance}
use uruni.Store.Insert.{is_date_column}
use uruni.Posting.{window_for}

pub record UpdateAccountParams : Type 0 where
  pub name : Option Text
  pub kind : Option Text
  pub set_inactive_on : Bool
  pub inactive_on : Option Text
  pub id : ℕ

-- The CHECK on account.kind.
abbrev pub kind_of : Text → Option AccountKind
kind_of word =
    if text_eq word (codes "cash")
    then some cash
    else (if text_eq word (codes "bank") then some bank else none)

-- COALESCE(kind, account.kind)
abbrev pub kind_after : Option Text → AccountKind → Option AccountKind
kind_after none old = some old
kind_after (some word) old = kind_of word

-- COALESCE(name, account.name)
abbrev pub name_after : Option Text → Text → Text
name_after none old = old
name_after (some name) old = name

-- The CHECKs on account.name and account.inactive_on; SQLite's trim takes spaces off.
abbrev pub account_checks : Account → Bool
account_checks a =
    any (λ c. not (c == 32)) a.name
    && elim a.inactive_on [ none ↦ true | some day ↦ is_date_column day ]

-- The row that the UPDATE leaves, where the schema takes it.
unfoldable pub relabelled : UpdateAccountParams → Account → Option Account
relabelled p a = elim (kind_after p.kind a.kind) [
  | none ↦ none
  | some kind ↦
      let row = record a {
        name = name_after p.name a.name;
        kind = kind;
        inactive_on = if p.set_inactive_on then p.inactive_on else a.inactive_on;
      } in
      if account_checks row then some row else none
]

abbrev pub put_account : Account → Account → Account
put_account row a = if a.id == row.id then row else a

abbrev pub with_account : Account → Db → Db
with_account row db = record db { accounts = map (put_account row) db.accounts }

-- UpdateAccount of the store
unfoldable pub update_account_row : UpdateAccountParams → Action Account
update_account_row p db = elim (find? (λ (a : Account). a.id == p.id) db.accounts) [
  | none ↦ (err no_rows, db)
  | some a ↦ elim (relabelled p a) [
    | none ↦ (err constraint, db)
    | some row ↦ (ok row, with_account row db)
  ]
]

-- `p.SetInactiveOn == 1 && p.InactiveOn != nil`, with the day.
abbrev pub retires_on : UpdateAccountParams → Option Text
retires_on p = if p.set_inactive_on then p.inactive_on else none

-- The switch on the balance.
abbrev pub check_empty : ℤ → Result (Unit {0})
check_empty balance =
    if ltb_ℤ (pos 0) balance
    then err account_holds_money
    else refuse_if (ltb_ℤ balance (pos 0)) account_balance_negative

-- The guard on the money of a location that retires.
unfoldable pub refuse_retiring : ℕ → ℕ → Option Text → Action (Unit {0})
refuse_retiring fund id none = pure tt
refuse_retiring fund id (some day) = do
  balance ← read (account_balance fund id)
  check (check_empty balance)

-- The guard on the day.
unfoldable pub check_retirement : Env → ℕ → Option Text → Action (Unit {0})
check_retirement env fund none = pure tt
check_retirement env fund (some day) = do
  window ← pool_read env (window_for env fund)
  check (validate_occurred_on "inactive_on" day (year_ahead window))

-- The function that UpdateAccount gives to withTx.
unfoldable pub update_account_tx : ℕ → UpdateAccountParams → Env → Action Account
update_account_tx fund p env = do refuse_retiring fund p.id (retires_on p); update_account_row p

-- `UpdateAccount`
unfoldable pub update_account : Env → ℕ → UpdateAccountParams → Action Account
update_account env fund p = do
  check_retirement env fund (retires_on p)
  with_tx env (update_account_tx fund p)
