-- ===== src/Payouts/Rails.antt =====
-- The four rails of app/services/rails/, and `_assert_usable` of app/services/payouts.py: when the
-- money arrives, and which accounts a rail refuses. (Logging, and the parts of a split transfer that
-- are only logged, are left out.)
use payzeno_ledger.Prelude.{
  ℕ, ◌+◌, String, Bool, true, not, Option, none, some, leb, str_eq, if◌then◌else◌,
}
use payzeno_ledger.Prelude.Int.{ℤ, pos, ltb_ℤ}
use payzeno_ledger.Errors.{Result, ok, err, ◌>>=◌, ◌>>◌, raise_if, bank_account_unusable}
use payzeno_ledger.Calendar.{next_business_day}
use payzeno_ledger.Payout.{
  Payout, PayoutMethod, standard_ach, same_day_ach, sepa, faster_payments, debit_ach, BankReference,
  rail_reference,
}
use payzeno_ledger.Projections.{BankAccountProjection}
use payzeno_ledger.Payouts.{PayoutSettings}

-- `InitiationResult` of app/ports.py
pub record InitiationResult : Type 0 where
  pub reference : BankReference
  pub arrival_estimate : ℕ

abbrev pub method_name : PayoutMethod → String
method_name standard_ach = "standard_ach"
method_name same_day_ach = "same_day_ach"
method_name sepa = "sepa"
method_name faster_payments = "faster_payments"
method_name debit_ach = "debit_ach"

-- `if not bank.iban_last_four`
abbrev pub is_missing : Option String → Bool
is_missing none = true
is_missing (some text) = str_eq text ""

unfoldable pub assert_usable : BankAccountProjection → Result (Unit {0})
assert_usable bank = raise_if (not (str_eq bank.status "verified")) bank_account_unusable

module _ (svc : PayoutSettings) where
  -- The day an instruction counts for: the day itself before the cutoff, else the next business
  -- day on or after it.
  unfoldable pub effective_date : String → PayoutMethod → ℕ → Result ℕ
  effective_date currency method cutoff =
      if leb cutoff svc.now.time
      then next_business_day svc.calendar currency (method_name method) svc.now.date
      else ok svc.now.date

  -- `AchPayoutInitiator.initiate`, run for its own method or, as the fallback, for same-day ACH
  unfoldable pub initiate_ach :
      PayoutMethod → Payout → BankAccountProjection → Result InitiationResult
  initiate_ach method payout bank = do
    assert_usable bank
    effective ← effective_date payout.currency method (svc.payout_cutoff standard_ach)
    arrival ← next_business_day svc.calendar payout.currency (method_name method) (effective + 1)
    ok (record { reference = rail_reference standard_ach payout.id; arrival_estimate = arrival })

  abbrev pub same_day_limit_minor : ℤ
  same_day_limit_minor = pos 100_000_000

  -- `SameDayAchPayoutInitiator.initiate`
  unfoldable pub initiate_same_day_ach : Payout → BankAccountProjection → Result InitiationResult
  initiate_same_day_ach payout bank = do
    assert_usable bank
    if ltb_ℤ same_day_limit_minor payout.amount_minor
        then initiate_ach same_day_ach payout bank
        else do
          arrival ← effective_date payout.currency same_day_ach (svc.payout_cutoff same_day_ach)
          ok (record {
            reference = rail_reference same_day_ach payout.id;
            arrival_estimate = arrival;
          })

  -- `SepaPayoutInitiator.initiate`
  unfoldable pub initiate_sepa : Payout → BankAccountProjection → Result InitiationResult
  initiate_sepa payout bank = do
    assert_usable bank
    raise_if (is_missing bank.iban_last_four) bank_account_unusable
    raise_if (not (str_eq payout.currency "EUR")) bank_account_unusable
    value_date ← effective_date payout.currency sepa (svc.payout_cutoff sepa)
    arrival ← next_business_day svc.calendar payout.currency (method_name sepa) (value_date + 1)
    ok (record { reference = rail_reference sepa payout.id; arrival_estimate = arrival })

  -- `FasterPaymentsPayoutInitiator.initiate`
  unfoldable pub initiate_faster_payments : Payout → BankAccountProjection → Result InitiationResult
  initiate_faster_payments payout bank = do
    assert_usable bank
    raise_if (not (str_eq payout.currency "GBP")) bank_account_unusable
    raise_if (is_missing bank.sort_code_last_four) bank_account_unusable
    arrival ← effective_date payout.currency faster_payments (svc.payout_cutoff faster_payments)
    ok (record { reference = rail_reference faster_payments payout.id; arrival_estimate = arrival })

  -- `self._initiators[method].initiate`: debits have no initiator, and `create_payout` refuses them.
  unfoldable pub initiate : PayoutMethod → Payout → BankAccountProjection → Result InitiationResult
  initiate standard_ach payout bank = initiate_ach standard_ach payout bank
  initiate same_day_ach payout bank = initiate_same_day_ach payout bank
  initiate sepa payout bank = initiate_sepa payout bank
  initiate faster_payments payout bank = initiate_faster_payments payout bank
  initiate debit_ach payout bank = err bank_account_unusable
