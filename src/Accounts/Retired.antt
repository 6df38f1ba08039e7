-- ===== src/Accounts/Retired.antt =====
-- internal/ledger/account_active.go: what retiring a location leaves.
use uruni.Base.{◌≡◌, true}
use uruni.Store.Rows.{Db}
use uruni.Tx.{Reply}

-- A keyed call may still repeat its stored result; no new row is written.
abbrev pub WritesNothing : {A : Type 0} → Db → Reply A → Db → Type 0
WritesNothing before reply after = (reply.replayed ≡ true) × (after ≡ before)
