-- ===== src/Payouts/Flushing.antt =====
-- The flushes of app/repositories/payout.py, and the flush of a row with its event in
-- app/services/payouts.py, as steps of a chain.
use payzeno_ledger.Prelude.{ℕ, ◌≡◌, refl, Bool, true, false, not, ◌&&◌, Option, List, ◌∷◌, ==_iff}
use payzeno_ledger.Payout.{Payout, satisfies_checks}
use payzeno_ledger.Ledger.{PayoutEvent, PayoutEventType, Tables, pure, ◌>>=◌, ◌>>◌}
use payzeno_ledger.Ledger.Actions.{Ensures}
use payzeno_ledger.Payouts.Repository.{clashes, flushed, add_payout, save_payout, replace_payout}
use payzeno_ledger.Payouts.Settling.{publish_payout}

flushed-Ensures :
    {A : Type 0} (accepted : Bool) (a : A) (after s : Tables) (Q : A → Tables → Type 0)
    → Q a after
    → Ensures (flushed accepted a after) s Q
unfolding flushed
flushed-Ensures true a after s Q h = h
flushed-Ensures false a after s Q h = tt

pub add_payout-Ensures :
    (payout : Payout) (s : Tables)
    → Ensures (add_payout payout) s (λ u t. t ≡ record s { payouts = payout ∷ s.payouts })
unfolding add_payout
add_payout-Ensures payout s =
    flushed-Ensures _ tt _ s (λ u t. t ≡ record s { payouts = payout ∷ s.payouts }) refl

pub save_payout-Ensures :
    (payout : Payout) (s : Tables)
    → Ensures
        (save_payout payout)
        s
        (λ p t. (p ≡ payout) × (t ≡ record s { payouts = replace_payout payout s.payouts }))
unfolding save_payout
save_payout-Ensures payout s =
    flushed-Ensures _ payout _ s
      (λ p t. (p ≡ payout) × (t ≡ record s { payouts = replace_payout payout s.payouts }))
      (refl, refl)

-- The event of a row, which is then returned.
pub publish_payout-Ensures :
    (event : PayoutEventType) (transaction : Option ℕ) (p : Payout) (s : Tables)
    (Q : Payout → Tables → Type 0)
    → ((events : List PayoutEvent) → Q p (record s { payout_events = events }))
    → Ensures (publish_payout event p transaction >> pure p) s Q
unfolding publish_payout ◌>>=◌
publish_payout-Ensures event transaction p s Q k = k _

module _ (event : PayoutEventType) (transaction_of : Payout → Option ℕ)
    (Q : Payout → Tables → Type 0) where
  flush_and_publish :
      (accepted : Bool) (p : Payout) (after s : Tables)
      → ((events : List PayoutEvent) → Q p (record after { payout_events = events }))
      → Ensures
          (flushed accepted p after >>= λ saved.
            publish_payout event saved (transaction_of saved) >> pure saved)
          s
          Q
  unfolding flushed publish_payout ◌>>=◌
  flush_and_publish true p after s k = k _
  flush_and_publish false p after s k = tt

  -- A row that is flushed and told of is the row that is returned.
  pub save_and_publish-Ensures :
      (p : Payout) (s : Tables)
      → ((events : List PayoutEvent)
          → Q p (record s { payouts = replace_payout p s.payouts; payout_events = events }))
      → Ensures
          (save_payout p >>= λ saved.
            publish_payout event saved (transaction_of saved) >> pure saved)
          s
          Q
  unfolding save_payout ◌>>=◌
  save_and_publish-Ensures p s k =
      flush_and_publish (satisfies_checks p && not (clashes p s.payouts)) p
        (record s { payouts = replace_payout p s.payouts }) s k

pub replace-first :
    (p q : Payout) (ps : List Payout) → q.id ≡ p.id → replace_payout p (q ∷ ps) ≡ p ∷ ps
unfolding replace_payout
replace-first p q ps same = rw ((==_iff q.id p.id).1 same) refl
