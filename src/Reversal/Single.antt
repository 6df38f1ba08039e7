-- ===== src/Reversal/Single.antt =====
-- internal/ledger/reversal.go: what ReverseTransaction does to the row it is asked about.
use uruni.Base.{ℕ, ◌≡◌, Bool, true, false, some, List, ◌⊎◌, ◌&&◌, is_some}
use uruni.Errors.{ok}
use uruni.Store.Rows.{Db, Transaction, is_dues}
use uruni.Store.Action.{Env, Post}
use uruni.Reversal.Post.{target_of, ReverseParams, pick_first}
use uruni.Reversal.Net.{ReversedAlone}
use uruni.Reversal.Payment.{PaymentReversed}

-- A row of a dues payment: ADR-048 lets it be reversed only with its payment.
abbrev pub is_paid_month : Transaction → Bool
is_paid_month row = is_dues row.kind && is_some row.dues_payment_id

-- What the call did to the row: with the payment that it belongs to, or alone.
abbrev pub TransactionReversed : Env → ReverseParams → Transaction → Db → Transaction → Db → Type 0
TransactionReversed env p row before r after =
    ((is_paid_month row ≡ false)
      × ReversedAlone env p (target_of p.fund_id before row) before r after)
    ⊎ ((is_paid_month row ≡ true)
        × ((payment : ℕ) × (rs : List Transaction) × (row.dues_payment_id ≡ some payment)
            × PaymentReversed env (record p { id = payment }) before rs after
            × (pick_first p.id rs after ≡ (ok r, after))))
