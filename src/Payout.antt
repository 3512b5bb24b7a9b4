-- ===== src/Payout.antt =====
-- app/models/payout.py: the row of a payout, what its status says, and the constraints on it.
use payzeno_ledger.Prelude.{
  ℕ, String, Bool, true, false, not, ◌&&◌, ◌||◌, Option, none, some, str_eq, bool_eq, ◌==◌, ltb,
}
use payzeno_ledger.Prelude.Int.{ℤ, pos, leb_ℤ, ltb_ℤ}

pub data PayoutStatus : Type 0 where
  scheduled in_transit paid failed returned canceled : PayoutStatus

pub data PayoutMethod : Type 0 where
  standard_ach same_day_ach sepa faster_payments debit_ach : PayoutMethod

-- The balance that a converted payout was drawn from: the four columns that
-- `chk_payout_fx_complete` sets together.
pub record PayoutSource : Type 0 where
  pub source_amount_minor : ℤ
  pub source_currency : String
  pub fx_rate : ℕ
  pub fx_spread_minor : ℤ

-- The reference of a rail is made from the payout's id: which rail, and for which payout.
pub data BankReference : Type 0 where
  rail_reference : PayoutMethod → ℕ → BankReference
  statement_reference : String → BankReference

-- The statement descriptor and the times are not kept.
pub record Payout : Type 0 where
  pub id : ℕ
  pub merchant_id : ℕ
  pub bank_account_id : ℕ
  pub amount_minor : ℤ
  pub currency : String
  pub status : PayoutStatus
  pub method : PayoutMethod
  pub available_on : ℕ
  pub arrival_estimate : Option ℕ
  pub failure_code : Option String
  pub failure_message : Option String
  pub ledger_transaction_id : Option ℕ
  pub reversal_transaction_id : Option ℕ
  pub bank_reference : Option BankReference
  pub source : Option PayoutSource
  pub livemode : Bool

-- `IN_FLIGHT_STATUSES`
unfoldable pub in_flight_status : PayoutStatus → Bool
in_flight_status scheduled = true
in_flight_status in_transit = true
in_flight_status paid = false
in_flight_status failed = false
in_flight_status returned = false
in_flight_status canceled = false

-- `REVERSED_STATUSES`
unfoldable pub reversed_status : PayoutStatus → Bool
reversed_status scheduled = false
reversed_status in_transit = false
reversed_status paid = false
reversed_status failed = true
reversed_status returned = true
reversed_status canceled = false

abbrev pub is_in_flight : Payout → Bool
is_in_flight p = in_flight_status p.status

abbrev pub requires_reversal : Payout → Bool
requires_reversal p = reversed_status p.status

abbrev pub currency_of : String → Option PayoutSource → String
currency_of currency none = currency
currency_of currency (some source) = source.source_currency

abbrev pub amount_of : ℤ → Option PayoutSource → ℤ
amount_of amount_minor none = amount_minor
amount_of amount_minor (some source) = source.source_amount_minor

-- `source_currency or currency`
abbrev pub balance_currency : Payout → String
balance_currency p = currency_of p.currency p.source

abbrev pub balance_amount_minor : Payout → ℤ
balance_amount_minor p = amount_of p.amount_minor p.source

abbrev pub is_some : {A : Type 0} → Option A → Bool
is_some none = false
is_some (some a) = true

abbrev pub is_converted : Payout → Bool
is_converted p = is_some p.source

unfoldable pub rail_limit_minor : PayoutMethod → ℤ
rail_limit_minor standard_ach = pos 2_500_000_000
rail_limit_minor same_day_ach = pos 100_000_000
rail_limit_minor sepa = pos 1_000_000_000
rail_limit_minor faster_payments = pos 100_000_000
rail_limit_minor debit_ach = pos 50_000_000

unfoldable pub exceeds_rail_limit : Payout → Bool
exceeds_rail_limit p = ltb_ℤ (rail_limit_minor p.method) p.amount_minor

unfoldable pub is_merchant_debit : Payout → Bool
is_merchant_debit p = elim p.method [ PayoutMethod.debit_ach ↦ true | _ ↦ false ]

-- `fx_complete`; that the columns are null together is in the type.
abbrev pub fx_complete : Option PayoutSource → Bool
fx_complete none = true
fx_complete (some source) =
    ltb_ℤ (pos 0) source.source_amount_minor
    && (ltb 0 source.fx_rate && leb_ℤ (pos 0) source.fx_spread_minor)

-- The check constraints of the table.
unfoldable pub satisfies_checks : Payout → Bool
satisfies_checks p =
    ltb_ℤ (pos 0) p.amount_minor
    && (fx_complete p.source && (not (requires_reversal p) || is_some p.reversal_transaction_id))

-- The balance that a payout comes out of: a merchant's, in a currency and a mode.
unfoldable pub drawn_from : ℕ → String → Bool → Payout → Bool
drawn_from merchant_id currency livemode p =
    (p.merchant_id == merchant_id)
    && (str_eq (balance_currency p) currency && bool_eq p.livemode livemode)

-- The rows of `pix_payout_in_flight`
abbrev pub in_flight_for : ℕ → String → Bool → Payout → Bool
in_flight_for merchant_id currency livemode p =
    drawn_from merchant_id currency livemode p && is_in_flight p
