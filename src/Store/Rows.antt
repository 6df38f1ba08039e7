-- ===== src/Store/Rows.antt =====
-- internal/store/models.go, internal/ledger/enums.go: the rows of the tables. Ids and instants
-- are numbers, dates and notes texts. A list holds a table's rows in the order of their ids.
use uruni.Base.{ℕ, Bool, true, false, Option, List}
use uruni.Base.Int.{ℤ}
use uruni.Dates.{Text}

-- `Direction`; `other` is any string but "in" and "out".
pub data Direction : Type 0 where
  direction_in direction_out direction_other : Direction

-- `TransactionKind`; `unknown` is a string outside the closed set.
pub data TransactionKind : Type 0 where
  opening normal dues reimbursement adjustment transfer unknown : TransactionKind

pub data AccountKind : Type 0 where
  cash bank : AccountKind

pub data PurposeKind : Type 0 where
  main incidental pass_through : PurposeKind

pub data TransferKind : Type 0 where
  between_accounts reclass_purpose : TransferKind

-- transfer.reason
pub data Reason : Type 0 where
  roll allocation : Reason

pub data Resolution : Type 0 where
  matched entry_added adjusted left_open unrecognised : Resolution

pub record Fund : Type 0 where
  pub id : ℕ
  pub time_zone : Text

pub record Account : Type 0 where
  pub id : ℕ
  pub fund_id : ℕ
  pub kind : AccountKind
  pub name : Text
  pub created_at : ℕ
  pub inactive_on : Option Text

pub record Purpose : Type 0 where
  pub id : ℕ
  pub fund_id : ℕ
  pub kind : PurposeKind
  pub name : Text

pub record Incidental : Type 0 where
  pub purpose_id : ℕ
  pub opened_on : Text
  pub closed_on : Option Text
  pub minimum_per_member : Option ℤ

pub record Member : Type 0 where
  pub id : ℕ
  pub fund_id : ℕ
  pub name : Text
  pub joined_on : Text
  pub inactive_on : Option Text

pub record DuesTier : Type 0 where
  pub id : ℕ
  pub fund_id : ℕ

pub record DuesRate : Type 0 where
  pub id : ℕ
  pub tier_id : ℕ
  pub amount : ℤ
  pub effective_from : Text
  pub correction : ℕ
  pub deleted : Bool
  pub created_at : ℕ

pub record MemberTier : Type 0 where
  pub id : ℕ
  pub fund_id : ℕ
  pub member_id : ℕ
  pub tier_id : Option ℕ
  pub effective_from : Text
  pub correction : ℕ

pub record DuesWaiver : Type 0 where
  pub id : ℕ
  pub fund_id : ℕ
  pub member_id : ℕ
  pub dues_period : Text
  pub note : Option Text
  pub created_at : ℕ

pub record DuesPayment : Type 0 where
  pub id : ℕ
  pub fund_id : ℕ
  pub created_at : ℕ

pub record Transfer : Type 0 where
  pub id : ℕ
  pub fund_id : ℕ
  pub kind : TransferKind
  pub corrects_transaction_id : Option ℕ
  pub reason : Option Reason
  pub created_at : ℕ

pub record Reimbursement : Type 0 where
  pub id : ℕ
  pub fund_id : ℕ
  pub member_id : ℕ
  pub purpose_id : ℕ
  pub amount : ℤ
  pub incurred_on : Text
  pub waived_on : Option Text
  pub note : Option Text
  pub created_at : ℕ

-- `CreateTransactionParams`: a transaction without its id.
pub record TransactionParams : Type 0 where
  pub fund_id : ℕ
  pub account_id : ℕ
  pub purpose_id : ℕ
  pub direction : Direction
  pub amount : ℤ
  pub occurred_on : Text
  pub kind : TransactionKind
  pub member_id : Option ℕ
  pub dues_period : Option Text
  pub reimbursement_id : Option ℕ
  pub transfer_id : Option ℕ
  pub dues_payment_id : Option ℕ
  pub reverses_transaction_id : Option ℕ
  pub note : Option Text
  pub created_at : ℕ

pub record Transaction : Type 0 where
  pub id : ℕ
  pub params : TransactionParams
  pub open params use *

pub record Reconciliation : Type 0 where
  pub id : ℕ
  pub fund_id : ℕ
  pub performed_at : ℕ
  pub through_transaction_id : Option ℕ
  pub note : Option Text
  pub created_at : ℕ

pub record ReconciliationLine : Type 0 where
  pub id : ℕ
  pub fund_id : ℕ
  pub reconciliation_id : ℕ
  pub account_id : ℕ
  pub recorded_amount : ℤ
  pub actual_amount : ℤ
  pub difference_amount : ℤ
  pub resolution : Resolution
  pub adjustment_transaction_id : Option ℕ

pub record Receipt : Type 0 where
  pub id : ℕ
  pub fund_id : ℕ
  pub transaction_id : Option ℕ
  pub reimbursement_id : Option ℕ

-- The result that an idempotency key stores: the value that its JSON text encodes.
pub data StoredResult : Type 0 where
  stored_transaction : Transaction → StoredResult
  stored_transactions : List Transaction → StoredResult
  stored_transfer : Transfer → StoredResult
  stored_account : Account → StoredResult
  stored_reconciliation : Reconciliation → StoredResult

pub record IdempotencyKey : Type 0 where
  pub key : Text
  pub fingerprint : Text
  pub result : StoredResult
  pub created_at : ℕ
  pub expires_at : ℕ

pub record Db : Type 0 where
  pub funds : List Fund
  pub accounts : List Account
  pub purposes : List Purpose
  pub incidentals : List Incidental
  pub members : List Member
  pub dues_tiers : List DuesTier
  pub dues_rates : List DuesRate
  pub member_tiers : List MemberTier
  pub dues_waivers : List DuesWaiver
  pub dues_payments : List DuesPayment
  pub transfers : List Transfer
  pub reimbursements : List Reimbursement
  pub transactions : List Transaction
  pub receipts : List Receipt
  pub reconciliations : List Reconciliation
  pub reconciliation_lines : List ReconciliationLine
  pub idempotency_keys : List IdempotencyKey

abbrev pub is_in : Direction → Bool
is_in direction_in = true
is_in _ = false

abbrev pub is_out : Direction → Bool
is_out direction_out = true
is_out _ = false

abbrev pub same_direction : Direction → Direction → Bool
same_direction direction_in direction_in = true
same_direction direction_out direction_out = true
same_direction direction_other direction_other = true
same_direction _ _ = false

abbrev pub is_normal : TransactionKind → Bool
is_normal normal = true
is_normal _ = false

abbrev pub is_dues : TransactionKind → Bool
is_dues dues = true
is_dues _ = false

abbrev pub is_reimbursement : TransactionKind → Bool
is_reimbursement reimbursement = true
is_reimbursement _ = false

abbrev pub is_opening : TransactionKind → Bool
is_opening opening = true
is_opening _ = false

abbrev pub is_main : PurposeKind → Bool
is_main main = true
is_main _ = false

abbrev pub is_incidental : PurposeKind → Bool
is_incidental incidental = true
is_incidental _ = false

abbrev pub is_pass_through : PurposeKind → Bool
is_pass_through pass_through = true
is_pass_through _ = false
