-- ===== src/Dues/Posted.antt =====
-- internal/ledger/dues.go: what a dues payment ensures.
use uruni.Base.{ℕ, ◌≡◌, true, false, List, [], ◌∷◌, ◌++◌, All, is_some}
use uruni.Base.Int.{ℤ, pos, ◌+ℤ◌, ◌≤ℤ◌}
use uruni.Errors.{ok}
use uruni.Money.{max_amount}
use uruni.Dates.{DateWindow, codes, text_lt, parse_period, window_dues}
use uruni.Store.Rows.{Db, Transaction}
use uruni.Store.Action.{Env, Action, Post}
use uruni.Store.Queries.{in_fund, in_account, in_purpose}
use uruni.Store.Balance.{total}
use uruni.Posting.{refuse_inactive_account}
use uruni.Dues.Payment.{
  PeriodAmount, PostDuesPaymentsParams, waivers_of, is_waived, main_purpose_id, month_params,
}
use uruni.Dues.Post.{new_payment}

-- The rows of a payment: one for each month, in order, each from the payment's own arguments.
abbrev pub RowsOf :
    Env → PostDuesPaymentsParams → ℕ → ℕ → List PeriodAmount → List Transaction → Type 0
RowsOf env p payment purpose [] [] = Unit
RowsOf env p payment purpose (period ∷ periods) (row ∷ rows) =
    (row.params ≡ month_params env p payment purpose period)
    × RowsOf env p payment purpose periods rows
RowsOf env p payment purpose _ _ = ⊥

-- The exact sum of the months' amounts.
abbrev pub paid_sum : List PeriodAmount → ℤ
paid_sum [] = pos 0
paid_sum (period ∷ periods) = period.amount +ℤ paid_sum periods

-- A payment as it was posted: a new header, one row for each month under it, in the main purpose.
abbrev pub Paid : Env → PostDuesPaymentsParams → Db → List Transaction → Db → Type 0
Paid env p before rows after =
    (purpose : ℕ) × (main_purpose_id p.fund_id before ≡ ok purpose)
    × (after.dues_payments ≡ before.dues_payments ++ (new_payment env p.fund_id before ∷ []))
    × (after.transactions ≡ before.transactions ++ rows)
    × RowsOf env p (new_payment env p.fund_id before).id purpose p.periods rows
    × (total (in_fund p.fund_id) after ≡ total (in_fund p.fund_id) before +ℤ paid_sum p.periods)
    × (total (in_account p.fund_id p.account_id) after
        ≡ total (in_account p.fund_id p.account_id) before +ℤ paid_sum p.periods)
    × (total (in_purpose p.fund_id purpose) after
        ≡ total (in_purpose p.fund_id purpose) before +ℤ paid_sum p.periods)
    × All
        (λ (m : PeriodAmount).
          is_waived (waivers_of p.fund_id p.member_id before) m.dues_period ≡ false)
        p.periods
    × (refuse_inactive_account p.fund_id p.account_id before ≡ ok tt)

-- A month of a payment that the guards let through: a positive amount within the ceiling, and a month
-- of the calendar from January 2000 to the window's last one.
abbrev pub IsPayable : DateWindow → PeriodAmount → Type 0
IsPayable w m =
    (pos 1 ≤ℤ m.amount)
    × (m.amount ≤ℤ max_amount)
    × (is_some (parse_period m.dues_period) ≡ true)
    × (text_lt m.dues_period (codes "2000-01") ≡ false)
    × (text_lt (window_dues w) m.dues_period ≡ false)
