-- ===== src/Store/Balance.antt =====
-- The balances as exact sums, and what one more row does to them.
use uruni.Base.{
  ℕ, ◌≤◌, ◌<◌, ◌≡◌, refl, sym, ap, ◌∙◌, Bool, true, List, [], ◌∷◌, ◌++◌, arith, length, All,
  Bool-cases, inl, inr, if◌then◌else◌,
}
use uruni.Base.Int.{ℤ, pos, neg_ℤ, ◌+ℤ◌, ◌≤ℤ◌, int_laws, zero-+ℤ, +ℤ-zero, +ℤ_assoc}
use uruni.Errors.{ok}
use uruni.Money.{max_amount}
use uruni.Store.Rows.{Db, Transaction, TransactionParams}
use uruni.Store.Action.{Post}
use uruni.Store.Queries.{
  signed_amount, amounts, max_id, in_fund, in_account, in_purpose, in_account_through, fund_balance,
  account_balance, purpose_balance, account_balance_through,
}
use uruni.Store.Insert.{
  accepts, column_checks, create_transaction, new_transaction, add_transaction, next_transaction_id,
}
use uruni.Store.Sums.{sum, sql_sum, sql_sum-sum, sql_sum_bounded, magnitude}

-- The exact sum over the rows that pass a test.
abbrev pub total : (Transaction → Bool) → Db → ℤ
total p db = sum (amounts p db.transactions)

abbrev pub contribution : (Transaction → Bool) → Transaction → ℤ
contribution p t = if p t then signed_amount t else pos 0

-- The amount of a stored row, by the schema's CHECK.
abbrev pub IsBounded : Transaction → Type 0
IsBounded t = (pos 1 ≤ℤ t.amount) × (t.amount ≤ℤ max_amount)

pub amounts-append :
    (p : Transaction → Bool) (xs ys : List Transaction)
    → sum (amounts p (xs ++ ys)) ≡ sum (amounts p xs) +ℤ sum (amounts p ys)
amounts-append p [] ys = omega int_laws
amounts-append p (x ∷ xs) ys = elim (Bool-cases (p x)) [
  | inl e ↦ rw (e, amounts-append p xs ys) (sym (+ℤ_assoc _ _ _))
  | inr e ↦ rw (e, amounts-append p xs ys) refl
]

-- A new row changes a sum by its own contribution.
pub total-add_transaction :
    (p : Transaction → Bool) (t : Transaction) (db : Db)
    → total p (add_transaction t db) ≡ total p db +ℤ contribution p t
total-add_transaction p t db =
    amounts-append p db.transactions (t ∷ []) ∙ ap (λ s. total p db +ℤ s) (one_row p t)
  where
    one_row :
        (p : Transaction → Bool) (t : Transaction) → sum (amounts p (t ∷ [])) ≡ contribution p t
    one_row p t = elim (Bool-cases (p t)) [
      | inl e ↦ rw e (+ℤ-zero (signed_amount t))
      | inr e ↦ rw e refl
    ]

-- What CreateTransaction leaves when the schema takes the row.
pub create_transaction-Post :
    (p : TransactionParams) (db : Db)
    → Post
        (create_transaction p db)
        (λ t db'. (t ≡ new_transaction p db) × (db' ≡ add_transaction t db) × (accepts p db ≡ true))
unfolding create_transaction
create_transaction-Post p db = elim (Bool-cases (accepts p db)) [
  | inl e ↦ rw e (refl, refl, refl)
  | inr e ↦ rw e tt
]

-- A row that the schema takes is inserted.
pub create_transaction_ok :
    (p : TransactionParams) (db : Db)
    → accepts p db ≡ true
    → create_transaction p db
      ≡ (ok (new_transaction p db), add_transaction (new_transaction p db) db)
unfolding create_transaction
create_transaction_ok p db taken = rw taken refl

pub accepts-IsBounded :
    (p : TransactionParams) (db : Db)
    → accepts p db ≡ true
    → (pos 1 ≤ℤ p.amount) × (p.amount ≤ℤ max_amount)
unfolding accepts column_checks
accepts-IsBounded p db h = ground arith

max_id_below :
    (p : Transaction → Bool) (m : ℕ) (rows : List Transaction)
    → max_id p rows ≤ m
    → All (λ t. p t ≡ true → t.id ≤ m) rows
unfolding max_id
max_id_below p m [] h = tt
max_id_below p m (t ∷ rows) h =
    (λ (e : p t ≡ true). ground arith, max_id_below p m rows (ground arith))

-- No row that passes the test has a larger id.
pub max_id_lem :
    (p : Transaction → Bool) (rows : List Transaction)
    → All (λ t. p t ≡ true → t.id ≤ max_id p rows) rows
max_id_lem p rows = max_id_below p (max_id p rows) rows (omega arith)

max_id_mono :
    (p q : Transaction → Bool) (rows : List Transaction)
    → ((t : Transaction) → p t ≡ true → q t ≡ true)
    → max_id p rows ≤ max_id q rows
unfolding max_id
max_id_mono p q [] h = omega arith
max_id_mono p q (t ∷ rows) h = ground (arith, h t, max_id_mono p q rows h)

max_id-append :
    (p : Transaction → Bool) (xs ys : List Transaction) → max_id p xs ≤ max_id p (xs ++ ys)
unfolding max_id
max_id-append p [] ys = omega arith
max_id-append p (x ∷ xs) ys = ground (arith, max_id-append p xs ys)

-- One more row does not lower the id that the next row gets.
pub next_transaction_id_grows :
    (t : Transaction) (db : Db)
    → next_transaction_id db ≤ next_transaction_id (add_transaction t db)
next_transaction_id_grows t db = omega (arith, max_id-append (λ o. true) db.transactions (t ∷ []))

-- The largest id of a fund's rows lies below the id of the next row.
pub max_id-lt-next_transaction_id :
    (p : Transaction → Bool) (db : Db) → max_id p db.transactions < next_transaction_id db
max_id-lt-next_transaction_id p db =
    omega (arith, max_id_mono p (λ t. true) db.transactions (λ t h. refl))

module _ (fund : ℕ) (db : Db) {v : ℤ} where
  -- What a balance query answers is the exact sum of the signed amounts.
  pub fund_balance_exact : fund_balance fund db ≡ ok v → v ≡ total (in_fund fund) db
  unfolding fund_balance
  fund_balance_exact h = sql_sum-sum (pos 0) _ v h ∙ zero-+ℤ _

module _ (fund id : ℕ) (db : Db) {v : ℤ} where
  pub account_balance_exact : account_balance fund id db ≡ ok v → v ≡ total (in_account fund id) db
  unfolding account_balance
  account_balance_exact h = sql_sum-sum (pos 0) _ v h ∙ zero-+ℤ _

  pub purpose_balance_exact : purpose_balance fund id db ≡ ok v → v ≡ total (in_purpose fund id) db
  unfolding purpose_balance
  purpose_balance_exact h = sql_sum-sum (pos 0) _ v h ∙ zero-+ℤ _

pub account_balance_through_exact :
    (fund account id : ℕ) (db : Db) {v : ℤ}
    → account_balance_through fund account id db ≡ ok v
    → v ≡ total (in_account_through fund account id) db
unfolding account_balance_through
account_balance_through_exact fund account id db {v} h = sql_sum-sum (pos 0) _ v h ∙ zero-+ℤ _

magnitude-signed_amount :
    (t : Transaction) → IsBounded t → magnitude (signed_amount t) ≤ 999999999999
unfolding neg_ℤ
magnitude-signed_amount t h = ground arith

amounts_bounded :
    (p : Transaction → Bool) (rows : List Transaction)
    → All IsBounded rows
    → All (λ x. magnitude x ≤ 999999999999) (amounts p rows)
      × (length (amounts p rows) ≤ length rows)
amounts_bounded p [] h = (tt, omega arith)
amounts_bounded p (t ∷ rows) h = elim (Bool-cases (p t)) [
  | inl e ↦ rw e (
    (magnitude-signed_amount t h.0, (amounts_bounded p rows h.1).0),
    omega (arith, amounts_bounded p rows h.1),
  )
  | inr e ↦ rw e ((amounts_bounded p rows h.1).0, omega (arith, amounts_bounded p rows h.1))
]

-- With at most 9,223,372 rows, none above the ceiling, no balance overflows: each of the three
-- answers with its exact sum.
pub balances_total :
    (fund id : ℕ) (db : Db)
    → All IsBounded db.transactions
    → length db.transactions ≤ 9223372
    → (fund_balance fund db ≡ ok (total (in_fund fund) db))
      × (account_balance fund id db ≡ ok (total (in_account fund id) db))
      × (purpose_balance fund id db ≡ ok (total (in_purpose fund id) db))
unfolding fund_balance account_balance purpose_balance
balances_total fund id db h few =
    (answer (in_fund fund), answer (in_account fund id), answer (in_purpose fund id))
  where
    answer :
        (p : Transaction → Bool) → sql_sum (pos 0) (amounts p db.transactions) ≡ ok (total p db)
    answer p =
        let (small, short) = amounts_bounded p db.transactions h in
        sql_sum_bounded 999999999999 (pos 0) (amounts p db.transactions) small (omega arith)
        ∙ ap ok (zero-+ℤ (total p db))
