-- ===== src/Projections.antt =====
-- app/models/projections.py: the copies of rows that another service owns, with the columns that
-- payouts read.
use payzeno_ledger.Prelude.{ℕ, String, Bool, Option}

pub record MerchantProjection : Type 0 where
  pub merchant_id : ℕ
  pub default_currency : Option String
  pub status : String
  pub livemode : Bool

pub record BankAccountProjection : Type 0 where
  pub bank_account_id : ℕ
  pub merchant_id : ℕ
  pub currency : String
  pub scheme : String
  pub iban_last_four : Option String
  pub sort_code_last_four : Option String
  pub status : String
  pub is_default : Bool
  pub livemode : Bool
