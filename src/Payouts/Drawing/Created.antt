-- ===== src/Payouts/Drawing/Created.antt =====
-- A payout that `create_payout` of app/services/payouts.py returns.
use payzeno_ledger.Prelude.{ℕ, ◌≡◌, refl, ap, sym, subst, Option, some, none, ◌∷◌, ◌+◌, Any}
use payzeno_ledger.Prelude.Int.{ℤ, pos, neg_ℤ, ◌≤ℤ◌}
use payzeno_ledger.Errors.{Result, ok, err}
use payzeno_ledger.Money.{Money}
use payzeno_ledger.Rules.{LedgerPurpose}
use payzeno_ledger.Fx.{FxConversion, quote_payout_conversion}
use payzeno_ledger.Fx.Spread.{quote_payout_conversion-source}
use payzeno_ledger.Payout.{
  Payout, PayoutSource, scheduled, balance_currency, balance_amount_minor, currency_of, amount_of,
}
use payzeno_ledger.Ledger.{Tables}
use payzeno_ledger.Ledger.Actions.{
  Ensures, Ensures-weaken, lift->>=-Ensures, new_id->>=-Ensures, reading-Ensures,
}
use payzeno_ledger.Payouts.{PayoutRequest, PayoutRate, PayoutSettings}
use payzeno_ledger.Payouts.Repository.{find_in_flight}
use payzeno_ledger.Payouts.Destination.{Destination, destination_of}
use payzeno_ledger.Payouts.Creation.{
  source_of, landed_of, compute_available, amount_of_payout, conversion_of, new_payout, quoted,
  insert_and_post, create_payout,
}
use payzeno_ledger.Payouts.Movement.{Moves, IsAbout}
use payzeno_ledger.Payouts.Drawing.{IsInserted, insert_and_post-IsInserted}
use payzeno_ledger.Payouts.Drawing.Reading.{destination_of-Reads}
use payzeno_ledger.Payouts.Drawing.Amount.{
  IsAmount, amount_of_payout-reads, amount_of_payout-IsAmount,
}

-- What the row says was drawn is what the source of the conversion says.
abbrev IsFor : Money → Money → Option PayoutSource → Type 0
IsFor source landed from =
    (currency_of landed.currency from ≡ source.currency)
    × (amount_of landed.amount_minor from ≡ source.amount_minor)

conversion_of-IsFor :
    (svc : PayoutSettings) (source : Money) (rate : Option PayoutRate)
    (conversion : Option FxConversion)
    → conversion_of svc source rate ≡ ok conversion
    → IsFor source (landed_of source conversion) (source_of conversion)
unfolding conversion_of
conversion_of-IsFor svc source none none h = (refl, refl)
conversion_of-IsFor svc source none (some q) h = cc
conversion_of-IsFor svc source (some rate) conversion h =
    by_quote
      (quote_payout_conversion svc.contracts source rate.to_currency rate.mid_rate rate.markup_bps)
      conversion
      (λ q.
        quote_payout_conversion-source svc.contracts source rate.to_currency rate.mid_rate
          rate.markup_bps q)
      h
  where
    by_quote :
        (quote : Result FxConversion) (conversion : Option FxConversion)
        → ((q : FxConversion) → quote ≡ ok q → q.source ≡ source)
        → quoted quote ≡ ok conversion
        → IsFor source (landed_of source conversion) (source_of conversion)
    by_quote (ok q) (some q') k e =
        let from = k q' (cc) in
        (ap (λ (m : Money). m.currency) from, ap (λ (m : Money). m.amount_minor) from)
    by_quote (ok q) none k e = (refl, refl)
    by_quote (err error) conversion k e = cc

-- What is to be said of a payout that was created, and of the tables before and after.
pub record IsCreated (merchant_id : ℕ) (req : PayoutRequest) (s : Tables) (p : Payout) (t : Tables)
    : Type 0 where
  pub owner : p.merchant_id ≡ merchant_id
  pub is_scheduled : p.status ≡ scheduled
  pub currency : balance_currency p ≡ req.currency
  pub none_in_flight : find_in_flight merchant_id req.currency p.livemode s.payouts ≡ none
  pub positive : pos 1 ≤ℤ balance_amount_minor p
  pub within : balance_amount_minor p ≤ℤ compute_available merchant_id req.currency p.livemode s
  pub drawn : Moves merchant_id req.currency p.livemode (neg_ℤ (balance_amount_minor p)) s t
  pub payouts : t.payouts ≡ p ∷ s.payouts
  pub posted :
      (transaction_id : ℕ) × (p.ledger_transaction_id ≡ some transaction_id)
      × Any (IsAbout p LedgerPurpose.payout transaction_id) t.transactions

module _ (svc : PayoutSettings) (merchant_id : ℕ) (req : PayoutRequest) (s : Tables) where
  inserted-IsCreated :
      (dest : Destination) (amount : ℤ) (conversion : Option FxConversion) (available_on id : ℕ)
      (p : Payout) (t : Tables)
      → IsAmount merchant_id req.currency dest.livemode s amount
      → IsFor
          (record { amount_minor = amount; currency = req.currency })
          (landed_of (record { amount_minor = amount; currency = req.currency }) conversion)
          (source_of conversion)
      → IsInserted
          (new_payout merchant_id dest
            (record { amount_minor = amount; currency = req.currency })
            conversion
            available_on
            id)
          (source_of conversion)
          (record s { next_id = s.next_id + 1 })
          p
          t
      → IsCreated merchant_id req s p t
  unfolding new_payout
  inserted-IsCreated dest amount conversion available_on id p t decided (cur, amt) h =
      let source : Money = record { amount_minor = amount; currency = req.currency } in
      let delta =
        neg_ℤ (amount_of (landed_of source conversion).amount_minor (source_of conversion)) in
      subst (λ q. IsCreated merchant_id req s q t) (sym h.row)
        (record {
          owner = refl;
          is_scheduled = refl;
          currency = cur;
          none_in_flight = decided.none_in_flight;
          positive = subst (λ a. pos 1 ≤ℤ a) (sym amt) decided.positive;
          within =
              subst (λ a. a ≤ℤ compute_available merchant_id req.currency dest.livemode s) (sym amt)
                decided.within;
          drawn = subst (λ c. Moves merchant_id c dest.livemode delta s t) cur h.moved;
          payouts = subst (λ q. t.payouts ≡ q ∷ s.payouts) h.row h.payouts;
          posted = (h.transaction_id, refl, h.transaction);
        })

  -- When `create_payout` returns, the payout is scheduled, belongs to the merchant and draws on the
  -- currency that was asked for; that balance had no payout in flight and covers the amount, which is
  -- positive and was taken from it and from no other balance; and the row and its transaction are
  -- stored.
  pub create_payout-IsCreated :
      Ensures (create_payout svc merchant_id req) s (IsCreated merchant_id req s)
  unfolding create_payout
  create_payout-IsCreated =
      reading-Ensures (destination_of svc merchant_id req) _ s Q
        (destination_of-Reads svc merchant_id req)
        (λ dest found.
          reading-Ensures (amount_of_payout merchant_id req dest.livemode) _ s Q
            (λ t. amount_of_payout-reads merchant_id req dest.livemode t)
            (λ amount decided. lift->>=-Ensures _ _ s Q (λ conversion converts.
              lift->>=-Ensures _ _ s Q (λ available_on opens. new_id->>=-Ensures _ s Q (
                Ensures-weaken
                  (IsInserted (row dest amount conversion available_on) (source_of conversion)
                    (record s { next_id = s.next_id + 1 }))
                  Q (insert_and_post svc dest conversion (row dest amount conversion available_on))
                  (record s { next_id = s.next_id + 1 })
                  (λ p t inserted.
                    inserted-IsCreated dest amount conversion available_on s.next_id p t
                      (amount_of_payout-IsAmount merchant_id req dest.livemode s amount decided)
                      (conversion_of-IsFor svc _ dest.rate conversion converts) inserted)
                  (insert_and_post-IsInserted svc dest conversion
                    (row dest amount conversion available_on)
                    (record s { next_id = s.next_id + 1 })))))))
    where
      row : Destination → ℤ → Option FxConversion → ℕ → Payout
      row dest amount conversion available_on =
          new_payout merchant_id dest (record { amount_minor = amount; currency = req.currency })
            conversion available_on s.next_id

      Q : Payout → Tables → Type 0
      Q = IsCreated merchant_id req s
