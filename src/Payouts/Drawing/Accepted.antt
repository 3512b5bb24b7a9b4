-- ===== src/Payouts/Drawing/Accepted.antt =====
-- When `create_payout` of app/services/payouts.py accepts a payout, with a conversion or without.
use payzeno_ledger.Prelude.{ℕ, ◌≡◌, ◌+◌, Option, some, none, ◌∷◌}
use payzeno_ledger.Prelude.Int.{ℤ}
use payzeno_ledger.Money.{Money}
use payzeno_ledger.Fx.{FxConversion}
use payzeno_ledger.Fx.Spread.{IsQuote}
use payzeno_ledger.Payout.{Payout}
use payzeno_ledger.Ledger.{Tables}
use payzeno_ledger.Payouts.{PayoutRequest, PayoutSettings}
use payzeno_ledger.Payouts.Rails.{InitiationResult}
use payzeno_ledger.Payouts.Destination.{Destination}
use payzeno_ledger.Payouts.Creation.{new_payout}

module _ (svc : PayoutSettings) (merchant_id : ℕ) (req : PayoutRequest) (s : Tables)
    (dest : Destination) (amount : ℤ) (available_on : ℕ) (result : InitiationResult) where
  abbrev pub source : Money
  source = record { amount_minor = amount; currency = req.currency }

  -- The row that is made
  abbrev pub row : Option FxConversion → Payout
  row conversion = new_payout merchant_id dest source conversion available_on s.next_id

  -- A conversion is of the amount, at a positive rate, to a positive amount below the mid amount.
  abbrev IsPriced : Option FxConversion → Type 0
  IsPriced none = Unit
  IsPriced (some q) = (q.source ≡ source) × IsQuote q

  abbrev inserted : Option FxConversion → Tables
  inserted conversion = record s { next_id = s.next_id + 1; payouts = row conversion ∷ s.payouts }

  abbrev HasRow : Option FxConversion → ℕ → Tables → Type 0
  HasRow conversion id t = t.payouts ≡ row conversion ∷ s.payouts

  abbrev Returns : Payout → Tables → Type 0
  Returns p t = Unit {0}
