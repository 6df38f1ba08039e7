-- ===== src/Examples/Data.antt =====
-- A fund with two locations, a main purpose, an open envelope and pass-through money.
use uruni.Base.{ℕ, false, none, some, [], ◌∷◌, if◌then◌else◌}
use uruni.Base.Int.{pos}
use uruni.Dates.{Text, codes, text_eq}
use uruni.Store.Rows.{
  Db, Transaction, TransactionParams, direction_in, TransactionKind, opening, normal, cash, bank,
  main, incidental, pass_through, direction_out, dues, adjustment,
}
use uruni.Store.Action.{Env}
use uruni.Tx.{Idempotency}
use uruni.Posting.{PostTransactionParams}
use uruni.Transfers.{
  PostTransferBetweenAccountsParams, PostPurposeMoveParams, PostPurposeCorrectionParams,
}
use uruni.Reversal.Post.{ReverseParams}

abbrev pub jakarta : Text
jakarta = codes "Asia/Jakarta"

abbrev pub today : Text
today = codes "2026-07-31"

abbrev pub env : Env
env = record {
  now = 1785456000;
  day_in = λ zone. if text_eq zone jakarta then some today else none;
  marked = false;
}

abbrev pub plain_row : ℕ → ℕ → TransactionKind → TransactionParams
plain_row account purpose kind = record {
  fund_id = 1;
  account_id = account;
  purpose_id = purpose;
  direction = direction_in;
  amount = pos 500000;
  occurred_on = codes "2026-07-01";
  kind = kind;
  member_id = none;
  dues_period = none;
  reimbursement_id = none;
  transfer_id = none;
  dues_payment_id = none;
  reverses_transaction_id = none;
  note = none;
  created_at = 1785000000;
}

abbrev pub opening_row : Transaction
opening_row = record { id = 1; params = plain_row 1 1 opening }

abbrev pub normal_row : Transaction
normal_row = record { id = 2; params = plain_row 1 1 normal }

abbrev pub db : Db
db = record {
  funds = record { id = 1; time_zone = jakarta } ∷ [];
  accounts =
      record {
        id = 1;
        fund_id = 1;
        kind = cash;
        name = codes "Kas";
        created_at = 1785000000;
        inactive_on = none;
      }
      ∷ record {
        id = 2;
        fund_id = 1;
        kind = bank;
        name = codes "Bank";
        created_at = 1785000000;
        inactive_on = none;
      }
      ∷ [];
  purposes =
      record { id = 1; fund_id = 1; kind = main; name = codes "Utama" }
      ∷ record { id = 2; fund_id = 1; kind = incidental; name = codes "Acara" }
      ∷ record { id = 3; fund_id = 1; kind = pass_through; name = codes "Titipan" }
      ∷ [];
  incidentals =
      record {
        purpose_id = 2;
        opened_on = codes "2026-06-01";
        closed_on = none;
        minimum_per_member = none;
      }
      ∷ [];
  members = [];
  dues_tiers = [];
  dues_rates = [];
  member_tiers = [];
  dues_waivers = [];
  dues_payments = [];
  transfers = [];
  reimbursements = [];
  transactions = opening_row ∷ normal_row ∷ [];
  receipts = [];
  reconciliations = [];
  reconciliation_lines = [];
  idempotency_keys = [];
}

abbrev pub key : Idempotency
key = record {
  key = codes "0123456789abcdef";
  fingerprint = codes "0123456789abcdef0123456789abcdef0123456789abcdef0123456789abcdef";
  now = 1785456000;
  expires_at = 1785542400;
}

abbrev pub entry_args : PostTransactionParams
entry_args = record {
  fund_id = 1;
  account_id = 2;
  purpose_id = 2;
  direction = direction_in;
  amount = pos 75000;
  occurred_on = codes "2026-07-30";
  note = none;
  is_adjustment = false;
  member_id = none;
  idempotency = some key;
}

abbrev pub between_args : PostTransferBetweenAccountsParams
between_args = record {
  fund_id = 1;
  purpose_id = 1;
  from_account_id = 1;
  to_account_id = 2;
  amount = pos 250000;
  occurred_on = codes "2026-07-30";
  note = some (codes "  setor ");
  idempotency = some key;
}

abbrev pub move_args : PostPurposeMoveParams
move_args = record {
  fund_id = 1;
  from_purpose_id = 1;
  to_purpose_id = 2;
  account_id = 1;
  amount = pos 1000000;
  occurred_on = codes "2026-07-30";
  note = none;
  idempotency = none;
}

abbrev pub correction_args : PostPurposeCorrectionParams
correction_args = record { fund_id = 1; transaction_id = 2; purpose_id = 2; idempotency = none }

abbrev pub reverse_args : ReverseParams
reverse_args = record { fund_id = 1; id = 2; note = some (codes "batal") }

-- A member's dues of June and July, paid in one payment, with June taken back already.
abbrev pub dues_row : ℕ → Text → Transaction
dues_row id period = record {
  id = id;
  params = record {
    fund_id = 1;
    account_id = 1;
    purpose_id = 1;
    direction = direction_in;
    amount = pos 50000;
    occurred_on = codes "2026-07-05";
    kind = dues;
    member_id = some 1;
    dues_period = some period;
    reimbursement_id = none;
    transfer_id = none;
    dues_payment_id = some 1;
    reverses_transaction_id = none;
    note = none;
    created_at = 1785000000;
  };
}

abbrev pub june_taken_back : Transaction
june_taken_back = record {
  id = 3;
  params = record {
    fund_id = 1;
    account_id = 1;
    purpose_id = 1;
    direction = direction_out;
    amount = pos 50000;
    occurred_on = codes "2026-07-06";
    kind = adjustment;
    member_id = some 1;
    dues_period = some (codes "2026-06");
    reimbursement_id = none;
    transfer_id = none;
    dues_payment_id = none;
    reverses_transaction_id = some 1;
    note = none;
    created_at = 1785100000;
  };
}

abbrev pub dues_db : Db
dues_db = record db {
  members =
      record {
        id = 1;
        fund_id = 1;
        name = codes "Ani";
        joined_on = codes "2026-01-01";
        inactive_on = none;
      }
      ∷ [];
  dues_payments = record { id = 1; fund_id = 1; created_at = 1785000000 } ∷ [];
  transactions = dues_row 1 (codes "2026-06") ∷ dues_row 2 (codes "2026-07") ∷ june_taken_back ∷ [];
}

abbrev pub payment_args : ReverseParams
payment_args = record { fund_id = 1; id = 1; note = none }
