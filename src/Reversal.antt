-- ===== src/Reversal.antt =====
-- internal/ledger/reversal.go, in parts.
pub mod Refusal
pub mod Post
pub mod Net
pub mod Payment
pub mod Single
