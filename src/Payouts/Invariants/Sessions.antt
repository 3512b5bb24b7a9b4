-- ===== src/Payouts/Invariants/Sessions.antt =====
-- The sessions of app/services/payouts.py, in any order and with any other work in between.
use payzeno_ledger.Prelude.{
  eq_iff, ℕ, ◌≡◌, refl, sym, subst, String, Bool, true, false, not, ◌&&◌, ◌||◌, Option, some, none,
  List, [], ◌∷◌, All, Any, inl, inr, arith,
}
use payzeno_ledger.Prelude.Int.{pos, ltb_ℤ}
use payzeno_ledger.Payout.{
  is_some, fx_complete, Payout, BankReference, satisfies_checks, in_flight_for, drawn_from,
  balance_currency, reversed_status,
}
use payzeno_ledger.Ledger.{Tables, begin}
use payzeno_ledger.Ledger.Invariants.{begin-Keeps}
use payzeno_ledger.Payouts.{PayoutRequest, PayoutSettings}
use payzeno_ledger.Payouts.Repository.{conflicts, mark_in_transit}
use payzeno_ledger.Payouts.Creation.{create_payout}
use payzeno_ledger.Payouts.Settling.{cancel_payout, mark_paid, mark_failed}
use payzeno_ledger.Payouts.Invariants.{bool_eq_iff, IsSoundRow, AreSound, HasSoundPayouts}
use payzeno_ledger.Payouts.Invariants.Calls.{
  create-KeepsPayouts, cancel-KeepsPayouts, mark_paid-KeepsPayouts, mark_failed-KeepsPayouts,
  in_transit-KeepsPayouts,
}

-- The tables that sessions with payouts lead to, failed ones included: it begins with tables without
-- payouts, and other work may write everything but the payouts. The settings and the clock may
-- differ from session to session.
pub data PayoutsReachable : Tables → Type 0 where
  started : (s : Tables) → s.payouts ≡ [] → PayoutsReachable s
  other_work :
      {s : Tables} → PayoutsReachable s → (t : Tables) → t.payouts ≡ s.payouts → PayoutsReachable t
  created :
      {s : Tables}
      → PayoutsReachable s
      → (svc : PayoutSettings) (merchant_id : ℕ) (req : PayoutRequest)
      → PayoutsReachable (begin (create_payout svc merchant_id req) s).1
  cancelled :
      {s : Tables}
      → PayoutsReachable s
      → (svc : PayoutSettings) (id : ℕ) → PayoutsReachable (begin (cancel_payout svc id) s).1
  under_way :
      {s : Tables}
      → PayoutsReachable s
      → (id : ℕ) (reference : Option BankReference)
      → PayoutsReachable (begin (mark_in_transit id reference) s).1
  settled :
      {s : Tables}
      → PayoutsReachable s
      → (svc : PayoutSettings) (id : ℕ) (reference : BankReference)
      → PayoutsReachable (begin (mark_paid svc id reference) s).1
  rejected :
      {s : Tables}
      → PayoutsReachable s
      → (svc : PayoutSettings) (id : ℕ) (code message : String)
      → PayoutsReachable (begin (mark_failed svc id code message) s).1

PayoutsReachable-HasSoundPayouts : (s : Tables) → PayoutsReachable s → HasSoundPayouts s
PayoutsReachable-HasSoundPayouts _ (started s none_) = subst AreSound (sym none_) tt
PayoutsReachable-HasSoundPayouts _ (other_work {s} r t same) =
    subst AreSound (sym same) (PayoutsReachable-HasSoundPayouts s r)
PayoutsReachable-HasSoundPayouts _ (created {s} r svc merchant_id req) =
    begin-Keeps HasSoundPayouts (create_payout svc merchant_id req) s
      (create-KeepsPayouts svc merchant_id req) (PayoutsReachable-HasSoundPayouts s r)
PayoutsReachable-HasSoundPayouts _ (cancelled {s} r svc id) =
    begin-Keeps HasSoundPayouts (cancel_payout svc id) s (cancel-KeepsPayouts svc id)
      (PayoutsReachable-HasSoundPayouts s r)
PayoutsReachable-HasSoundPayouts _ (under_way {s} r id reference) =
    begin-Keeps HasSoundPayouts (mark_in_transit id reference) s
      (in_transit-KeepsPayouts id reference) (PayoutsReachable-HasSoundPayouts s r)
PayoutsReachable-HasSoundPayouts _ (settled {s} r svc id reference) =
    begin-Keeps HasSoundPayouts (mark_paid svc id reference) s
      (mark_paid-KeepsPayouts svc id reference) (PayoutsReachable-HasSoundPayouts s r)
PayoutsReachable-HasSoundPayouts _ (rejected {s} r svc id code message) =
    begin-Keeps HasSoundPayouts (mark_failed svc id code message) s
      (mark_failed-KeepsPayouts svc id code message) (PayoutsReachable-HasSoundPayouts s r)

-- A payout that stands in the tables.
abbrev pub IsStored : Payout → List Payout → Type 0
IsStored p ps = Any (λ q. q ≡ p) ps

All-stored : (P : Payout → Type 0) (p : Payout) (ps : List Payout) → All P ps → IsStored p ps → P p
All-stored P p [] h stored = absurd stored
All-stored P p (q ∷ qs) h (inl same) = subst P same h.0
All-stored P p (q ∷ qs) h (inr later) = All-stored P p qs h.1 later

same_balance :
    (merchant_id : ℕ) (currency : String) (livemode : Bool) (p q : Payout)
    → conflicts p q ≡ false
    → in_flight_for merchant_id currency livemode p ≡ true
    → in_flight_for merchant_id currency livemode q ≡ true
    → p.id ≡ q.id
unfolding conflicts drawn_from
same_balance merchant_id currency livemode p q apart hp hq = ground (
  arith,
  eq_iff (balance_currency p) currency,
  eq_iff (balance_currency q) currency,
  eq_iff (balance_currency q) (balance_currency p),
  bool_eq_iff p.livemode livemode,
  bool_eq_iff q.livemode livemode,
  bool_eq_iff q.livemode p.livemode,
)

-- Whatever sessions were run, committed or rolled back, with whatever other work in between, two
-- payouts in flight out of one balance of a merchant, currency and mode are the same payout.
pub one_in_flight :
    (s : Tables)
    → PayoutsReachable s
    → (merchant_id : ℕ) (currency : String) (livemode : Bool) (p q : Payout) → IsStored p s.payouts
    → IsStored q s.payouts
    → in_flight_for merchant_id currency livemode p ≡ true
    → in_flight_for merchant_id currency livemode q ≡ true
    → p.id ≡ q.id
one_in_flight s r merchant_id currency livemode p q stored_p stored_q hp hq =
    same_balance merchant_id currency livemode p q
      (All-stored (λ q. conflicts p q ≡ false) q s.payouts
        (All-stored (IsSoundRow s.payouts) p s.payouts (PayoutsReachable-HasSoundPayouts s r)
          stored_p).1
        stored_q)
      hp hq

last_check :
    (a b r : Bool) (o : Option ℕ)
    → (a && (b && (not r || is_some o))) ≡ true
    → r ≡ true
    → (id : ℕ) × (o ≡ some id)
last_check true true true (some id) h e = (id, refl)
last_check true true true none h e = cc
last_check true true false o h e = cc
last_check true false r o h e = cc
last_check false b r o h e = cc

checked_reversal :
    (p : Payout)
    → satisfies_checks p ≡ true
    → reversed_status p.status ≡ true
    → (id : ℕ) × (p.reversal_transaction_id ≡ some id)
unfolding satisfies_checks
checked_reversal p h reversed =
    last_check (ltb_ℤ (pos 0) p.amount_minor) (fx_complete p.source) (reversed_status p.status)
      p.reversal_transaction_id h reversed

-- Whatever sessions were run, every payout that has failed or was returned names a reversal.
pub reversal_present :
    (s : Tables)
    → PayoutsReachable s
    → (p : Payout) → IsStored p s.payouts
    → reversed_status p.status ≡ true
    → (id : ℕ) × (p.reversal_transaction_id ≡ some id)
reversal_present s r p stored reversed =
    checked_reversal p
      (All-stored (IsSoundRow s.payouts) p s.payouts (PayoutsReachable-HasSoundPayouts s r)
        stored).0
      reversed
