-- ===== src/Ledger.antt =====
-- The tables (app/models/), and the session that the services run in. Identifiers, fingerprints and
-- merchant ids are text that the code only compares, so they are numbers here; `new_id`
-- (app/domain/ids.py) draws the next one.
pub mod Actions
pub mod Accounts
pub mod Transactions
pub mod Cache
pub mod Poster
pub mod Reports
pub mod Invariants
use payzeno_ledger.Prelude.{
  ℕ, zero, suc, ◌+◌, String, Bool, true, false, Option, some, none, List, ◌==◌,
}
use payzeno_ledger.Prelude.Int.{ℤ}
use payzeno_ledger.Errors.{Error, Result, ok, err}
use payzeno_ledger.Chart.{AccountType, Direction}
use payzeno_ledger.Rules.{LedgerPurpose}
use payzeno_ledger.Keys.{LedgerKey}
use payzeno_ledger.Payout.{Payout}
use payzeno_ledger.Projections.{MerchantProjection, BankAccountProjection}

pub data AccountStatus : Type 0 where
  active frozen closed : AccountStatus

-- app/models/account.py
pub record Account : Type 0 where
  pub id : ℕ
  pub merchant_id : Option ℕ
  pub type : AccountType
  pub currency : String
  pub normal_balance : Direction
  pub status : AccountStatus
  pub livemode : Bool

-- app/models/ledger_transaction.py
pub record LedgerTransaction : Type 0 where
  pub id : ℕ
  pub idempotency_key : LedgerKey
  pub request_fingerprint : ℕ
  pub purpose : LedgerPurpose
  pub merchant_id : Option ℕ
  pub currency : String
  pub livemode : Bool
  pub reference_type : String
  pub reference_id : ℕ
  pub created_by : String
  pub reverses_transaction_id : Option ℕ

-- app/models/ledger_entry.py
pub record LedgerEntry : Type 0 where
  pub id : ℕ
  pub transaction_id : ℕ
  pub account_id : ℕ
  pub direction : Direction
  pub amount_minor : ℤ
  pub currency : String
  pub livemode : Bool
  pub sequence : ℕ

-- app/models/merchant_balance_cache.py
pub record BalanceRow : Type 0 where
  pub merchant_id : ℕ
  pub currency : String
  pub livemode : Bool
  pub available_minor : ℤ
  pub pending_minor : ℤ
  pub reserved_minor : ℤ
  pub disputed_minor : ℤ
  pub negative_balance_minor : ℤ
  pub last_transaction_id : ℕ

-- The outbox row of `ledger.transaction_posted`.
pub record PostedEvent : Type 0 where
  pub transaction_id : ℕ
  pub idempotency_key : LedgerKey
  pub merchant_id : Option ℕ
  pub currency : String
  pub entry_count : ℕ
  pub amount_minor : ℤ
  pub livemode : Bool

pub data PayoutEventType : Type 0 where
  payout_scheduled payout_paid payout_failed payout_returned : PayoutEventType

-- The outbox rows of `payout.*`.
pub record PayoutEvent : Type 0 where
  pub event_type : PayoutEventType
  pub payout_id : ℕ
  pub merchant_id : ℕ
  pub amount_minor : ℤ
  pub currency : String
  pub transaction_id : Option ℕ

-- What a session sees. A row that is added stands first.
pub record Tables : Type 0 where
  pub accounts : List Account
  pub transactions : List LedgerTransaction
  pub entries : List LedgerEntry
  pub balances : List BalanceRow
  pub outbox : List PostedEvent
  pub payouts : List Payout
  pub payout_events : List PayoutEvent
  pub merchants : List MerchantProjection
  pub banks : List BankAccountProjection
  pub next_id : ℕ

-- A call inside a session: what it wrote stays written when it raises.
abbrev pub Action : Type 0 → Type 0
Action A = Tables → Result A × Tables

module _ {A : Type 0} where
  abbrev pub pure : A → Action A
  pure a s = (ok a, s)

  abbrev pub raise : Error → Action A
  raise e s = (err e, s)

  abbrev pub lift : Result A → Action A
  lift r s = (r, s)

-- How a chain goes on from the outcome of its first action.
abbrev pub next : {A B : Type 0} → (A → Action B) → Result A → Action B
next f (ok a) s = f a s
next f (err e) s = (err e, s)

infixl 5 ◌>>=◌ ◌>>◌
unfoldable pub ◌>>=◌ : {A B : Type 0} → Action A → (A → Action B) → Action B
◌>>=◌ m f s = next f (m s).0 (m s).1

abbrev pub ◌>>◌ : {A B : Type 0} → Action A → Action B → Action B
m >> k = m >>= λ _. k

-- `new_id(...)`
abbrev pub new_id : Action ℕ
new_id s = (ok s.next_id, record s { next_id = s.next_id + 1 })

-- `async with session_factory.begin()`: commits on a clean exit, rolls back on any exception.
abbrev pub finish : {A : Type 0} → Result A → (before after : Tables) → Result A × Tables
finish (ok a) before after = (ok a, after)
finish (err e) before after = (err e, before)

unfoldable pub begin : {A : Type 0} → Action A → Action A
begin m s = finish (m s).0 s (m s).1

-- Equality of nullable columns as the queries write it: `IS NULL` for none.
abbrev pub opt_eq : Option ℕ → Option ℕ → Bool
opt_eq none none = true
opt_eq (some a) (some b) = a == b
opt_eq none (some b) = false
opt_eq (some a) none = false
