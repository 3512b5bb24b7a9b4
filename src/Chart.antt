-- ===== src/Chart.antt =====
-- The chart of accounts (app/models/account.py) and the balance buckets that
-- app/repositories/ledger_entry.py derives from it.
use payzeno_ledger.Prelude.{ℕ, Bool, true, false, ◌==◌}

pub data AccountType : Type 0 where
  processor_clearing merchant_receivable authorization_hold merchant_payable : AccountType
  platform_fee_revenue interchange_expense scheme_fee_expense acquirer_fee_expense : AccountType
  reserve chargeback_liability cash rounding_adjustment fx_clearing fx_revenue : AccountType

pub data Direction : Type 0 where
  debit credit : Direction

-- `a == b` on directions
abbrev pub same_direction : Direction → Direction → Bool
same_direction debit debit = true
same_direction credit credit = true
same_direction debit credit = false
same_direction credit debit = false

-- A number for each type, by which types are compared.
abbrev pub index : AccountType → ℕ
index processor_clearing = 0
index merchant_receivable = 1
index authorization_hold = 2
index merchant_payable = 3
index platform_fee_revenue = 4
index interchange_expense = 5
index scheme_fee_expense = 6
index acquirer_fee_expense = 7
index reserve = 8
index chargeback_liability = 9
index cash = 10
index rounding_adjustment = 11
index fx_clearing = 12
index fx_revenue = 13

-- `a == b` on account types
abbrev pub same_type : AccountType → AccountType → Bool
same_type a b = index a == index b

-- `NORMAL_BALANCE_BY_TYPE`
abbrev pub normal_balance_by_type : AccountType → Direction
normal_balance_by_type processor_clearing = debit
normal_balance_by_type merchant_receivable = debit
normal_balance_by_type authorization_hold = credit
normal_balance_by_type merchant_payable = credit
normal_balance_by_type platform_fee_revenue = credit
normal_balance_by_type interchange_expense = debit
normal_balance_by_type scheme_fee_expense = debit
normal_balance_by_type acquirer_fee_expense = debit
normal_balance_by_type reserve = credit
normal_balance_by_type chargeback_liability = credit
normal_balance_by_type cash = debit
normal_balance_by_type rounding_adjustment = credit
normal_balance_by_type fx_clearing = debit
normal_balance_by_type fx_revenue = credit

-- `account_type in PLATFORM_ACCOUNT_TYPES`
abbrev pub is_platform_account : AccountType → Bool
is_platform_account cash = true
is_platform_account platform_fee_revenue = true
is_platform_account interchange_expense = true
is_platform_account scheme_fee_expense = true
is_platform_account acquirer_fee_expense = true
is_platform_account rounding_adjustment = true
is_platform_account fx_clearing = true
is_platform_account fx_revenue = true
is_platform_account _ = false

pub data Bucket : Type 0 where
  available pending reserved disputed : Bucket

-- `BUCKET_ACCOUNT_TYPES`, from the bucket to the one type that feeds it
abbrev pub bucket_type : Bucket → AccountType
bucket_type available = merchant_payable
bucket_type pending = merchant_receivable
bucket_type reserved = reserve
bucket_type disputed = chargeback_liability
