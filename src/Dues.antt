-- ===== src/Dues.antt =====
-- internal/ledger/pricing.go, dues.go, dues_status.go, dues_waiver.go and dues_rate.go, in parts.
pub mod Pricing
pub mod Search
pub mod Payment
pub mod Post
pub mod Posted
pub mod Standing
pub mod Status
pub mod Outstanding
pub mod Rate
pub mod Rates
pub mod RateCalls
pub mod RateSteps
pub mod Waiver
pub mod Waive
pub mod WaiverRows
pub mod Waived
pub mod Unwaived
pub mod Through
