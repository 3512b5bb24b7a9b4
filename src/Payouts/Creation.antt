-- ===== src/Payouts/Creation.antt =====
-- The second half of `create_payout` of app/services/payouts.py: the amount, the conversion, the row
-- and its postings. (The lock on the balance is left out, as a session runs alone.)
use payzeno_ledger.Prelude.{ℕ, String, Bool, ◌||◌, Option, none, some, if◌then◌else◌}
use payzeno_ledger.Prelude.Int.{ℤ, pos, ltb_ℤ, leb_ℤ, eqb_ℤ}
use payzeno_ledger.Errors.{
  Result, ok, err, validation, payout_blocked, insufficient_balance, amount_minor_not_positive,
}
use payzeno_ledger.Money.{Money}
use payzeno_ledger.Chart.{available}
use payzeno_ledger.Calendar.{next_business_day}
use payzeno_ledger.Fx.{FxConversion, quote_payout_conversion, spread_minor}
use payzeno_ledger.Payout.{Payout, scheduled, PayoutSource}
use payzeno_ledger.Ledger.{Tables, payout_scheduled, Action, pure, lift, ◌>>=◌, ◌>>◌, new_id}
use payzeno_ledger.Ledger.Reports.{sum_bucket}
use payzeno_ledger.Payouts.{PayoutRequest, PayoutRate, PayoutSettings}
use payzeno_ledger.Payouts.Repository.{find_in_flight, add_payout, save_payout}
use payzeno_ledger.Payouts.Rails.{InitiationResult, method_name, initiate}
use payzeno_ledger.Payouts.Postings.{post_payout, post_converted_payout}
use payzeno_ledger.Payouts.Settling.{publish_payout}
use payzeno_ledger.Payouts.Destination.{Destination, destination_of}

-- `int(req.get("amount_minor") or funds.amount.amount_minor)`
abbrev pub requested_minor : Option ℤ → ℤ → ℤ
requested_minor none available_minor = available_minor
requested_minor (some amount_minor) available_minor =
    if eqb_ℤ amount_minor (pos 0) then available_minor else amount_minor

-- `in_flight is not None`
abbrev pub refuse_in_flight : Option Payout → Result (Unit {0})
refuse_in_flight none = ok tt
refuse_in_flight (some payout) = err payout_blocked

-- The tests of the amount against the funds
unfoldable pub check_amount : (requested available_minor : ℤ) → Result ℤ
check_amount requested available_minor =
    if leb_ℤ available_minor (pos 0) || ltb_ℤ available_minor requested
    then err insufficient_balance
    else if leb_ℤ requested (pos 0)
    then err (validation amount_minor_not_positive)
    else ok requested

-- `PayoutCalculator.compute_available`: what the entries of the merchant's payable account sum to.
unfoldable pub compute_available : ℕ → String → Bool → Tables → ℤ
compute_available merchant_id currency livemode s =
    sum_bucket merchant_id currency livemode available s.accounts s.entries

-- The part of `create_payout` under the lock that decides on the amount
unfoldable pub amount_of_payout : ℕ → PayoutRequest → Bool → Action ℤ
amount_of_payout merchant_id req livemode s =
    (do
      lift (refuse_in_flight (find_in_flight merchant_id req.currency livemode s.payouts))
      lift (
          let available_minor = compute_available merchant_id req.currency livemode s in
          check_amount (requested_minor req.amount_minor available_minor) available_minor))
      s

-- What lands in the bank
abbrev pub landed_of : Money → Option FxConversion → Money
landed_of source none = source
landed_of source (some conversion) = conversion.target

abbrev pub source_of : Option FxConversion → Option PayoutSource
source_of none = none
source_of (some conversion) = some (record {
  source_amount_minor = conversion.source.amount_minor;
  source_currency = conversion.source.currency;
  fx_rate = conversion.rate;
  fx_spread_minor = spread_minor conversion;
})

-- The row that is inserted
unfoldable pub new_payout :
    ℕ → Destination → Money → Option FxConversion → (available_on id : ℕ) → Payout
new_payout merchant_id dest source conversion available_on id =
    let landed = landed_of source conversion in
    record {
      id = id;
      merchant_id = merchant_id;
      bank_account_id = dest.bank.bank_account_id;
      amount_minor = landed.amount_minor;
      currency = landed.currency;
      status = scheduled;
      method = dest.method;
      available_on = available_on;
      arrival_estimate = none;
      failure_code = none;
      failure_message = none;
      ledger_transaction_id = none;
      reversal_transaction_id = none;
      bank_reference = none;
      source = source_of conversion;
      livemode = dest.livemode;
    }

-- The row after its posting and its initiation
abbrev pub initiated : Payout → ℕ → InitiationResult → Payout
initiated payout transaction_id result = record payout {
  ledger_transaction_id = some transaction_id;
  arrival_estimate = some result.arrival_estimate;
  bank_reference = some result.reference;
}

abbrev pub quoted : Result FxConversion → Result (Option FxConversion)
quoted (ok conversion) = ok (some conversion)
quoted (err error) = err error

module _ (svc : PayoutSettings) where
  -- `FxRateService.convert` (app/services/fx.py), if there is a rate
  unfoldable pub conversion_of : Money → Option PayoutRate → Result (Option FxConversion)
  conversion_of source none = ok none
  conversion_of source (some rate) =
      quoted (
        quote_payout_conversion svc.contracts source rate.to_currency rate.mid_rate rate.markup_bps)

  abbrev pub post_created : Payout → Option FxConversion → Action ℕ
  post_created payout none = post_payout svc payout
  post_created payout (some conversion) = post_converted_payout svc payout conversion

  -- From the insert of the row on
  unfoldable pub insert_and_post : Destination → Option FxConversion → Payout → Action Payout
  insert_and_post dest conversion payout = do
    add_payout payout
    transaction_id ← post_created payout conversion
    result ← lift (initiate svc dest.method payout dest.bank)
    saved ← save_payout (initiated payout transaction_id result)
    publish_payout payout_scheduled saved none
    pure saved

  unfoldable pub create_payout : ℕ → PayoutRequest → Action Payout
  create_payout merchant_id req = do
    dest ← destination_of svc merchant_id req
    amount ← amount_of_payout merchant_id req dest.livemode
    conversion ←
        lift (conversion_of (record { amount_minor = amount; currency = req.currency }) dest.rate)
    available_on ← lift (
        next_business_day svc.calendar
          (landed_of (record { amount_minor = amount; currency = req.currency })
            conversion).currency
          (method_name dest.method) svc.now.date)
    id ← new_id
    insert_and_post dest conversion (
        new_payout merchant_id dest (record { amount_minor = amount; currency = req.currency })
          conversion available_on id)
