-- ===== src/Examples/Retiring.antt =====
-- The bank account of the fund, empty, is retired.
use uruni.Base.{true, none, some}
use uruni.Dates.{codes}
use uruni.Store.Rows.{Account, bank}
use uruni.Accounts.{UpdateAccountParams}
use uruni.Examples.Data.{today}

abbrev retire_args : UpdateAccountParams
retire_args = record {
  name = none;
  kind = none;
  set_inactive_on = true;
  inactive_on = some today;
  id = 2;
}

abbrev bank_row : Account
bank_row = record {
  id = 2;
  fund_id = 1;
  kind = bank;
  name = codes "Bank";
  created_at = 1785000000;
  inactive_on = none;
}

abbrev retired_row : Account
retired_row = record bank_row { inactive_on = some today }
