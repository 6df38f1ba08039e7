-- ===== src/Lib.antt =====
-- The ledger of a neighbourhood fund's cash (internal/ledger) over its SQLite store
-- (internal/store), in Go. A ledger call checks the shape of its arguments, reads the fund's calendar
-- day, opens a transaction, checks the state of the rows it touches, and adds rows: no amount is ever
-- changed, every balance is the sum of the rows. A reversal or a correction is a further row.
--
-- Files, and what they model:
--   Base       shared names: Boolean tests, lists, integers over the native numbers
--   Money      internal/money/money.go: an int64 amount with checked arithmetic
--              (Money/Checked has the proofs)
--   Errors     the refusals of internal/ledger (errors.go and the files beside it) and results
--   Dates      internal/ledger/date_window.go: dates as strings, the window of plausible dates
--              (Dates/Order: strings and days in the same order; Window: the verdict; Months: arithmetic)
--   Store      internal/store: Rows (models.go), Action (ledger.go's withTx, internal/txguard),
--              Queries (the reads of *.sql.go), Insert (CreateTransaction and CreateTransfer with the
--              schema's refusals), Sums and Balance (SUM, and the balances as exact sums)
--   Tx         internal/ledger/idempotency.go (Tx/Replay: what a keyed write ensures;
--              Repeat: its repeat)
--   Posting    internal/ledger/transaction.go, amount_ceiling.go, account_active.go: PostTransaction and
--              the guards that the other calls share (Posting/Entries, Accepted and Taken: the proofs)
--   Accounts   internal/ledger/account_active.go: UpdateAccount (Retired has the proofs)
--   Transfers  internal/ledger/transfer.go, purpose_move.go, purpose_correction.go (Pair: the two rows of
--              a movement and the sums; Moves, PurposeMove, Correction: the three calls; Accepted,
--              MoveAccepted and Taken: when they answer)
--   Reversal   internal/ledger/reversal.go (Refusal: the rules; Post: the calls; Net, Payment, Single:
--              what they leave)
--   Dues       internal/ledger/pricing.go: the price of a month (Dues/Pricing; Search has the proofs);
--              dues.go: the payment of months (Payment and Post; Posted has the proofs); dues_status.go:
--              the rates in force (Standing), the months that are owed (Status; Outstanding) and the
--              month paid through (Through); dues_waiver.go: waivers (Waiver and Waive;
--              WaiverRows, Waived, Unwaived: what they leave); dues_rate.go: the rates of a tier (Rate;
--              Rates: the trail as a map; RateCalls and RateSteps: the calls on it)
--   Reimbursement   internal/ledger/reimbursement.go (Settle: what a payout leaves; Paid: when
--              a payout answers; Claims: claims that are paid, corrected or refused)
--   Reconciliation  internal/ledger/reconciliation.go: the checks of a count, and in Count the call
--              (Taken: the loop over the locations; Distinct: no location twice; Lines: the stored
--              lines; Complete: no location left out; Snapshot: the whole)
--   Envelope   internal/ledger/incidental.go: closing and reopening (Closed: the squaring; Lifecycle)
--   Atomic     withTx (internal/ledger/ledger.go) under the calls that write several rows
--   Examples   a small fund with runs of the calls
--
-- How the code's state corresponds: `Db` is the database, a list per table in the order of the ids. A
-- call is an `Action`, a function from a database to a result and a database; what an action wrote
-- before an error is still there, and `with_tx` rolls it back. `Env` is the ledger's clock, one reading
-- of it for a call, the calendar day of the clock in a time zone (a parameter: the zone database is not
-- this program's), and the mark that txguard leaves in a context. Ids, instants and counts are numbers,
-- amounts are integers with the int64 wrap-around written out in Money, SUM in SQLite answers with an
-- error past int64. Errors carry no wrapping text. `Post x Q` reads: if x answered, Q holds of the
-- answer and of the database after; a refusal is the other case.
--
-- Every loop of the modelled code runs over a list or a range of months, but for two. The binary search
-- of sort.Search runs on fuel: the length of the list, an upper bound of the number of its steps. The loop
-- of paidThrough runs on one step for each month up to the latest one paid, past which it leaves.
-- Months are counted from January of the year 0. A map from a month or a member to a value is a function.
--
-- Not modelled: the status roster of a month and the yearly grid, changes of tiers,
-- opening an envelope and its recipients, members, new locations, set-up, and the reports. Nor are the
-- HTTP server, sessions, backups, the command line and the web client, plumbing round the ledger. JSON
-- is the value that it encodes. A database error other than a missing row or a refused row does not occur in the model.
pub mod Base
pub mod Money
pub mod Errors
pub mod Dates
pub mod Store
pub mod Tx
pub mod Posting
pub mod Accounts
pub mod Transfers
pub mod Reversal
pub mod Reimbursement
pub mod Reconciliation
pub mod Envelope
pub mod Dues
pub mod Atomic
pub mod Examples
