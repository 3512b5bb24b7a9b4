-- ===== src/Payouts/Destination.antt =====
-- The first half of `create_payout` of app/services/payouts.py, which reads: the merchant, the account
-- that is paid, the rail and the rate.
use payzeno_ledger.Prelude.{
  ℕ, String, Bool, true, false, not, ◌&&◌, ◌||◌, Option, none, some, List, [], ◌∷◌, keep, find, ltb,
  ◌==◌, str_eq, bool_eq, if◌then◌else◌,
}
use payzeno_ledger.Errors.{
  Result, ok, err, raise_if, validation, payout_blocked, merchant_not_found, bank_account_not_found,
  currency_required, currency_unsupported, bank_of_another_merchant, method_unsupported,
  no_fx_provider,
}
use payzeno_ledger.Payout.{PayoutMethod, standard_ach, same_day_ach, sepa, faster_payments}
use payzeno_ledger.Projections.{MerchantProjection, BankAccountProjection}
use payzeno_ledger.Ledger.{Action, pure, raise, lift, ◌>>=◌, ◌>>◌}
use payzeno_ledger.Payouts.{PayoutRequest, PayoutRate, PayoutSettings}
use Prim.Native.String.{String as Text}
use Prim.Native.Char.{code}

-- `BLOCKED_MERCHANT_STATUSES`
unfoldable pub is_blocked : String → Bool
is_blocked status =
    str_eq status "restricted" || (str_eq status "suspended" || str_eq status "closed")

abbrev pub found_merchant : Option MerchantProjection → Action MerchantProjection
found_merchant (some m) s = (ok m, s)
found_merchant none s = (err merchant_not_found, s)

-- `merchants.get_or_raise`
unfoldable pub get_merchant : ℕ → Action MerchantProjection
get_merchant id s =
    found_merchant (find (λ (m : MerchantProjection). m.merchant_id == id) s.merchants) s

abbrev pub found_bank : Option BankAccountProjection → Action BankAccountProjection
found_bank (some b) s = (ok b, s)
found_bank none s = (err bank_account_not_found, s)

-- `banks.get_or_raise`
unfoldable pub get_bank : ℕ → Action BankAccountProjection
get_bank id s = found_bank (find (λ (b : BankAccountProjection). b.bank_account_id == id) s.banks) s

abbrev pub is_default_of : ℕ → Bool → BankAccountProjection → Bool
is_default_of merchant_id livemode b =
    b.merchant_id == merchant_id && (bool_eq b.livemode livemode && b.is_default)

unfoldable pub find_default :
    ℕ → String → Bool → List BankAccountProjection → Option BankAccountProjection
find_default merchant_id currency livemode banks =
    find
      (λ (b : BankAccountProjection).
        is_default_of merchant_id livemode b && str_eq b.currency currency)
      banks

-- The order by currency is left to `min`, which needs none.
unfoldable pub list_defaults : ℕ → Bool → List BankAccountProjection → List BankAccountProjection
list_defaults merchant_id livemode banks = keep (is_default_of merchant_id livemode) banks

-- The order of Python's texts.
unfoldable pub text_ltb : Text → Text → Bool
text_ltb Text.[] Text.[] = false
text_ltb Text.[] (Text.◌∷◌ d t) = true
text_ltb (Text.◌∷◌ c s) Text.[] = false
text_ltb (Text.◌∷◌ c s) (Text.◌∷◌ d t) =
    let rest = text_ltb s t in if code c == code d then rest else ltb (code c) (code d)

abbrev pub is_preferred : Option String → BankAccountProjection → Bool
is_preferred none b = false
is_preferred (some currency) b = str_eq b.currency currency

-- Whether the key `(b.currency != preferred, b.currency)` of one account is below another's.
unfoldable pub ranks_before : Option String → BankAccountProjection → BankAccountProjection → Bool
unfolding text_ltb
ranks_before preferred a b =
    if is_preferred preferred a
    then not (is_preferred preferred b)
    else not (is_preferred preferred b) && text_ltb a.currency b.currency

-- `min(defaults, key=...)`, from the first of them
unfoldable pub best_default :
    Option String → BankAccountProjection → List BankAccountProjection → BankAccountProjection
best_default preferred best [] = best
best_default preferred best (b ∷ bs) =
    best_default preferred (if ranks_before preferred b best then b else best) bs

abbrev pub default_or_raise :
    Option String → List BankAccountProjection → Action BankAccountProjection
default_or_raise preferred [] = raise bank_account_not_found
default_or_raise preferred (b ∷ bs) = pure (best_default preferred b bs)

abbrev pub found_or_default :
    MerchantProjection → Bool → Option BankAccountProjection → Action BankAccountProjection
found_or_default merchant livemode (some bank) s = (ok bank, s)
found_or_default merchant livemode none s =
    default_or_raise merchant.default_currency (list_defaults merchant.merchant_id livemode s.banks)
      s

-- `_resolve_bank`, when the request names no account
unfoldable pub default_bank : MerchantProjection → String → Bool → Action BankAccountProjection
default_bank merchant currency livemode s =
    found_or_default merchant livemode (find_default merchant.merchant_id currency livemode s.banks)
      s

unfoldable pub named_bank : MerchantProjection → ℕ → Action BankAccountProjection
named_bank merchant id = do
  bank ← get_bank id
  lift (
      raise_if (not (bank.merchant_id == merchant.merchant_id))
        (validation bank_of_another_merchant))
  pure bank

-- `_resolve_bank`
unfoldable pub resolve_bank :
    MerchantProjection → String → Bool → Option ℕ → Action BankAccountProjection
resolve_bank merchant currency livemode (some id) = named_bank merchant id
resolve_bank merchant currency livemode none = default_bank merchant currency livemode

-- `DEFAULT_METHOD_BY_SCHEME.get(scheme, "standard_ach")`
unfoldable pub default_method : String → PayoutMethod
default_method scheme =
    if str_eq scheme "iban"
    then sepa
    else if str_eq scheme "uk_sort_code"
    then faster_payments
    else standard_ach

-- The keys of the map of initiators in app/container.py
unfoldable pub initiator_named : String → Option PayoutMethod
initiator_named name =
    if str_eq name "standard_ach"
    then some standard_ach
    else if str_eq name "same_day_ach"
    then some same_day_ach
    else if str_eq name "sepa"
    then some sepa
    else if str_eq name "faster_payments"
    then some faster_payments
    else none

abbrev pub supported_method : Option PayoutMethod → Result PayoutMethod
supported_method (some method) = ok method
supported_method none = err (validation method_unsupported)

-- `requested_method or DEFAULT_METHOD_BY_SCHEME...`, and its initiator
unfoldable pub method_for : Option String → String → Result PayoutMethod
method_for none scheme = ok (default_method scheme)
method_for (some name) scheme =
    if str_eq name "" then ok (default_method scheme) else supported_method (initiator_named name)

abbrev pub asks_for_same_day : Option String → Bool
asks_for_same_day none = false
asks_for_same_day (some name) = str_eq name "same_day_ach"

-- What is paid to: the account, the rail, the rate of a conversion, and the mode.
pub record Destination : Type 0 where
  pub bank : BankAccountProjection
  pub method : PayoutMethod
  pub rate : Option PayoutRate
  pub livemode : Bool

abbrev pub mode_of : Option Bool → MerchantProjection → Bool
mode_of none merchant = merchant.livemode
mode_of (some livemode) merchant = livemode

module _ (svc : PayoutSettings) where
  abbrev pub rate_from :
      Option (String → String → Result PayoutRate) → String → String → Result (Option PayoutRate)
  rate_from none from_currency to_currency = err (validation no_fx_provider)
  rate_from (some payout_rate) from_currency to_currency =
      elim (payout_rate from_currency to_currency) [
        | ok rate ↦ ok (some rate)
        | err error ↦ err error
      ]

  -- `_rate_for`
  unfoldable pub rate_for : String → String → Result (Option PayoutRate)
  rate_for from_currency to_currency =
      if str_eq from_currency to_currency
      then ok none
      else rate_from svc.fx from_currency to_currency

  -- The checks and reads of `create_payout` before the lock
  unfoldable pub destination_of : ℕ → PayoutRequest → Action Destination
  destination_of merchant_id req = do
    lift (raise_if (str_eq req.currency "") (validation currency_required))
    lift (raise_if (not (svc.contracts.supports req.currency)) (validation currency_unsupported))
    lift (raise_if (asks_for_same_day req.method && not svc.payout_same_day_ach) payout_blocked)
    merchant ← get_merchant merchant_id
    lift (raise_if (is_blocked merchant.status) payout_blocked)
    bank ← resolve_bank merchant req.currency (mode_of req.livemode merchant) req.bank_account_id
    method ← lift (method_for req.method bank.scheme)
    rate ← lift (rate_for req.currency bank.currency)
    pure (record {
      bank = bank;
      method = method;
      rate = rate;
      livemode = mode_of req.livemode merchant;
    })
