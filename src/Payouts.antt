-- ===== src/Payouts.antt =====
-- app/services/payouts.py: what a payout is asked with, and what the service is built from.
pub mod Repository
pub mod Rails
pub mod Postings
pub mod Destination
pub mod Creation
pub mod Flushing
pub mod Movement
pub mod Drawing
pub mod Giving
pub mod RoundTrip
pub mod Invariants
pub mod Settling
use payzeno_ledger.Prelude.{ℕ, String, Bool, Option}
use payzeno_ledger.Prelude.Int.{ℤ}
use payzeno_ledger.Errors.{Result}
use payzeno_ledger.Money.{Contracts}
use payzeno_ledger.Calendar.{BankingCalendar}
use payzeno_ledger.Keys.{LedgerKey}
use payzeno_ledger.Payout.{PayoutMethod}

-- The body of the request; its currency is in upper case. Zero or no amount asks for everything.
pub record PayoutRequest : Type 0 where
  pub currency : String
  pub amount_minor : Option ℤ
  pub method : Option String
  pub livemode : Option Bool
  pub bank_account_id : Option ℕ

-- `PayoutRate` of app/services/fx.py
pub record PayoutRate : Type 0 where
  pub to_currency : String
  pub mid_rate : ℕ
  pub markup_bps : ℤ

-- `clock.now()`, as a day and a minute of the day.
pub record Now : Type 0 where
  pub date : ℕ
  pub time : ℕ

-- What `PayoutService` is built with: the currencies of the contracts, the calendar, the cutoffs of
-- the rails' settings, the flag, the clock, the rate provider if there is one, and SHA-256.
pub record PayoutSettings : Type 0 where
  pub contracts : Contracts
  pub calendar : BankingCalendar
  pub payout_cutoff : PayoutMethod → ℕ
  pub payout_same_day_ach : Bool
  pub now : Now
  pub fx : Option (String → String → Result PayoutRate)
  pub sha256_of : LedgerKey → ℕ
