-- ===== src/Payouts/Drawing/Alone.antt =====
-- When the unique index of app/models/payout.py lets a payout stand.
use payzeno_ledger.Prelude.{
  ◌≡◌, refl, false, none, List, [], ◌∷◌, ==_iff, find, arith, Bool-cases, inl, inr,
}
use payzeno_ledger.Payout.{Payout, in_flight_for, balance_currency}
use payzeno_ledger.Payouts.Repository.{conflicts, clashes, find_in_flight}

-- A row clashes with none when its balance has nothing in flight.
pub clashes-free :
    (p : Payout) (ps : List Payout)
    → find_in_flight p.merchant_id (balance_currency p) p.livemode ps ≡ none
    → clashes p ps ≡ false
unfolding clashes conflicts find_in_flight find
clashes-free p [] h = refl
clashes-free p (q ∷ qs) h =
    elim (Bool-cases (in_flight_for p.merchant_id (balance_currency p) p.livemode q)) [
      | inl e ↦ absurd (cc)
      | inr e ↦ ground (arith, clashes-free p qs)
    ]

pub clashes_self :
    (p q : Payout) (ps : List Payout)
    → q.id ≡ p.id
    → clashes p ps ≡ false
    → clashes p (q ∷ ps) ≡ false
unfolding clashes conflicts
clashes_self p q ps same h = ground (arith, ==_iff q.id p.id)
