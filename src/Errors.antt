-- ===== src/Errors.antt =====
-- The exceptions of app/errors.py as values. A constructor of `Error` is a class of the tree that
-- the modelled code raises; `Reason` tells apart the places that raise `ValidationError`.
use payzeno_ledger.Prelude.{ℕ, ◌≡◌, refl, Bool, true, false}

pub data Reason : Type 0 where
  -- app/domain/money.py
  unsupported_currency bps_negative parts_not_positive weights_not_positive : Reason
  -- app/domain/fees.py
  fixed_fee_negative no_components names_not_unique no_dispute_fee fee_currency_differs : Reason
  -- app/domain/fx.py
  markup_out_of_range source_not_positive same_currency too_small : Reason
  -- app/domain/calendar.py
  no_business_day count_negative unknown_rail end_precedes_start : Reason
  -- app/domain/postings.py and app/domain/rules/
  context_without_currency fee_plus_reserve_exceeds settle_without_fee no_original : Reason
  no_approved_line line_without_amount amount_not_positive conversion_amounts : Reason
  mid_not_payout_plus_spread : Reason
  -- app/domain/idempotency.py and app/domain/backoff.py
  unexpected_id_prefix malformed_ledger_key attempt_count_negative base_not_positive : Reason
  -- app/services/payouts.py
  currency_required currency_unsupported bank_of_another_merchant method_unsupported : Reason
  no_fx_provider amount_minor_not_positive : Reason

pub data Error : Type 0 where
  validation : Reason → Error
  currency_mismatch negative_amount unbalanced_transaction : Error
  account_not_found transaction_not_found : Error
  merchant_not_found bank_account_not_found payout_not_found : Error
  payout_blocked insufficient_balance bank_account_unusable fx_rate_unavailable : Error
  -- Python's own ValueError.
  value_error : Error
  -- What the database raises for a constraint.
  integrity_error : Error
  account_frozen : ℕ → Error
  duplicate_settlement : (existing_transaction_id : ℕ) (fingerprint_matches : Bool) → Error

-- What a call of the program does: it returns, or it raises.
pub data Result {ℓ} (A : Type ℓ) : Type ℓ where
  err : Error → Result A
  ok : A → Result A

-- `if test: raise error`
abbrev pub raise_if : (test : Bool) (error : Error) → Result (Unit {0})
raise_if false error = ok tt
raise_if true error = err error

module _ {ℓ κ} {A : Type ℓ} {B : Type κ} where
  infixl 5 ◌>>=◌
  -- An exception ends the chain.
  abbrev pub ◌>>=◌ : Result A → (A → Result B) → Result B
  err error >>= after = err error
  ok value >>= after = after value

  pub >>=-eq-ok :
      (call : Result A) (after : A → Result B) {b : B}
      → (call >>= after) ≡ ok b
      → (value : A) × (call ≡ ok value) × (after value ≡ ok b)
  >>=-eq-ok (err error) after h = cc
  >>=-eq-ok (ok value) after h = (value, refl, h)

infixl 5 ◌>>◌
abbrev pub ◌>>◌ {κ} : {B : Type κ} → (check : Result (Unit {0})) (then_ : Result B) → Result B
check >> then_ = check >>= λ passed. then_
