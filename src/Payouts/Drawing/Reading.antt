-- ===== src/Payouts/Drawing/Reading.antt =====
-- The first half of `create_payout` of app/services/payouts.py writes nothing.
use payzeno_ledger.Prelude.{ℕ, refl, String, Bool, Option, some, none, List, [], ◌∷◌}
use payzeno_ledger.Projections.{MerchantProjection, BankAccountProjection}
use payzeno_ledger.Ledger.Actions.{Reads, Reads->>=, lift->>=-Reads}
use payzeno_ledger.Payouts.{PayoutRequest, PayoutSettings}
use payzeno_ledger.Payouts.Destination.{
  found_merchant, get_merchant, found_bank, get_bank, named_bank, default_or_raise,
  found_or_default, default_bank, resolve_bank, destination_of,
}

found_merchant-Reads : (o : Option MerchantProjection) → Reads (found_merchant o)
found_merchant-Reads (some m) s = refl
found_merchant-Reads none s = refl

get_merchant-Reads : (id : ℕ) → Reads (get_merchant id)
unfolding get_merchant
get_merchant-Reads id s = found_merchant-Reads _ s

found_bank-Reads : (o : Option BankAccountProjection) → Reads (found_bank o)
found_bank-Reads (some m) s = refl
found_bank-Reads none s = refl

get_bank-Reads : (id : ℕ) → Reads (get_bank id)
unfolding get_bank
get_bank-Reads id s = found_bank-Reads _ s

default_or_raise-Reads :
    (preferred : Option String) (banks : List BankAccountProjection)
    → Reads (default_or_raise preferred banks)
default_or_raise-Reads preferred [] s = refl
default_or_raise-Reads preferred (b ∷ bs) s = refl

found_or_default-Reads :
    (merchant : MerchantProjection) (livemode : Bool) (found : Option BankAccountProjection)
    → Reads (found_or_default merchant livemode found)
found_or_default-Reads merchant livemode (some bank) s = refl
found_or_default-Reads merchant livemode none s =
    default_or_raise-Reads merchant.default_currency _ s

default_bank-Reads :
    (merchant : MerchantProjection) (currency : String) (livemode : Bool)
    → Reads (default_bank merchant currency livemode)
unfolding default_bank
default_bank-Reads merchant currency livemode s = found_or_default-Reads merchant livemode _ s

resolve_bank-Reads :
    (merchant : MerchantProjection) (currency : String) (livemode : Bool) (named : Option ℕ)
    → Reads (resolve_bank merchant currency livemode named)
unfolding resolve_bank named_bank
resolve_bank-Reads merchant currency livemode (some id) =
    Reads->>= (get_bank id) _ (get_bank-Reads id) (λ bank. lift->>=-Reads _ _ (λ u s. refl))
resolve_bank-Reads merchant currency livemode none = default_bank-Reads merchant currency livemode

module _ (svc : PayoutSettings) where
  pub destination_of-Reads :
      (merchant_id : ℕ) (req : PayoutRequest) → Reads (destination_of svc merchant_id req)
  unfolding destination_of
  destination_of-Reads merchant_id req = lift->>=-Reads _ _ (λ u. lift->>=-Reads _ _ (λ u.
      lift->>=-Reads _ _ (λ u.
        Reads->>= (get_merchant merchant_id) _ (get_merchant-Reads merchant_id) (λ merchant.
          lift->>=-Reads _ _ (λ u.
            Reads->>= (resolve_bank merchant _ _ _) _ (resolve_bank-Reads merchant _ _ _)
              (λ bank. lift->>=-Reads _ _ (λ method. lift->>=-Reads _ _ (λ rate s. refl))))))))
