-- ===== src/Payouts/Invariants.antt =====
-- The payouts that sessions of app/services/payouts.py lead to: what the constraints of
-- app/models/payout.py say of all rows at once, and how an action keeps it.
pub mod Calls
pub mod Sessions
use payzeno_ledger.Prelude.{
  ℕ, ◌≡◌, refl, sym, ◌∙◌, String, Bool, true, false, not, ◌&&◌, ◌||◌, ◌↔◌, Option, some, none, List,
  [], ◌∷◌, ◌==◌, ==_iff, str_eq, eq_iff, bool_eq, any, All, inl, inr, Bool-cases, arith,
  if◌then◌else◌,
}
use payzeno_ledger.Payout.{
  Payout, satisfies_checks, is_in_flight, in_flight_for, drawn_from, balance_currency,
}
use payzeno_ledger.Ledger.{Tables, ◌>>=◌}
use payzeno_ledger.Ledger.Actions.{OnOk, Ensures}
use payzeno_ledger.Ledger.Invariants.{Keeps}
use payzeno_ledger.Payouts.Repository.{
  conflicts, clashes, replace_payout, flushed, add_payout, save_payout,
}

-- A row meets its checks and shares its balance with no other that is in flight.
abbrev pub IsAlone : List Payout → Payout → Type 0
IsAlone ps p = All (λ q. conflicts p q ≡ false) ps

abbrev pub IsSoundRow : List Payout → Payout → Type 0
IsSoundRow ps p = (satisfies_checks p ≡ true) × IsAlone ps p

abbrev pub AreSound : List Payout → Type 0
AreSound ps = All (IsSoundRow ps) ps

pub bool_eq_iff : (a b : Bool) → (bool_eq a b ≡ true) ↔ (a ≡ b)
bool_eq_iff true b = (λ h. sym h, λ h. sym h)
bool_eq_iff false true = (λ h. cc, λ h. cc)
bool_eq_iff false false = (λ h. refl, λ h. refl)

-- Two rows conflict both ways or neither.
conflicts_comm : (p q : Payout) → conflicts p q ≡ conflicts q p
unfolding conflicts drawn_from
conflicts_comm p q = ground (
  arith,
  eq_iff (balance_currency p) (balance_currency q),
  eq_iff (balance_currency q) (balance_currency p),
  bool_eq_iff p.livemode q.livemode,
  bool_eq_iff q.livemode p.livemode,
)

alone_with_itself : (p : Payout) → conflicts p p ≡ false
unfolding conflicts
alone_with_itself p = ground (arith, ==_iff p.id p.id)

clashes-IsAlone : (p : Payout) (ps : List Payout) → clashes p ps ≡ false → IsAlone ps p
unfolding clashes
clashes-IsAlone p [] h = tt
clashes-IsAlone p (q ∷ qs) h = elim (Bool-cases (conflicts p q)) [
  | inl some_ ↦ cc
  | inr none_ ↦ (none_, clashes-IsAlone p qs (later (conflicts p q) none_ h))
]
  where
    later : (b : Bool) {rest : Bool} → b ≡ false → (b || rest) ≡ false → rest ≡ false
    later true e h = cc
    later false e h = h

module _ (P : Payout → Type 0) (p : Payout) where
  All-replace : (ps : List Payout) → P p → All P ps → All P (replace_payout p ps)
  unfolding replace_payout
  All-replace [] here h = tt
  All-replace (q ∷ qs) here h = by_test (q.id == p.id) (All-replace qs here h.1)
    where
      by_test :
          (t : Bool)
          → All P (replace_payout p qs)
          → All P (if t then p ∷ qs else q ∷ replace_payout p qs)
      by_test true later = (here, h.1)
      by_test false later = (h.0, later)

-- Each row, with what is known of it and of it and p, stays sound among the new rows.
All-zip :
    (P Q R : Payout → Type 0) (ps : List Payout)
    → ((q : Payout) → P q → Q q → R q)
    → All P ps
    → All Q ps
    → All R ps
All-zip P Q R [] k h g = tt
All-zip P Q R (q ∷ qs) k h g = (k q h.0 g.0, All-zip P Q R qs k h.1 g.1)

add-AreSound :
    (p : Payout) (ps : List Payout)
    → satisfies_checks p ≡ true
    → IsAlone ps p
    → AreSound ps
    → AreSound (p ∷ ps)
add-AreSound p ps checked alone sound = (
  (checked, (alone_with_itself p, alone)),
  All-zip (IsSoundRow ps) (λ q. conflicts p q ≡ false) (IsSoundRow (p ∷ ps)) ps
      (λ q row apart. (row.0, (conflicts_comm q p ∙ apart, row.1))) sound alone,
)

replace-AreSound :
    (p : Payout) (ps : List Payout)
    → satisfies_checks p ≡ true
    → IsAlone ps p
    → AreSound ps
    → AreSound (replace_payout p ps)
replace-AreSound p ps checked alone sound =
    All-replace (IsSoundRow (replace_payout p ps)) p ps
      (checked, All-replace (λ q. conflicts p q ≡ false) p ps (alone_with_itself p) alone)
      (All-zip (IsSoundRow ps) (λ q. conflicts p q ≡ false) (IsSoundRow (replace_payout p ps)) ps
        (λ q row apart.
          (row.0, All-replace (λ r. conflicts q r ≡ false) p ps (conflicts_comm q p ∙ apart) row.1))
        sound alone)

-- The rows of the tables are sound.
abbrev pub HasSoundPayouts : Tables → Type 0
HasSoundPayouts s = AreSound s.payouts

both_true : (a b : Bool) → (a && not b) ≡ true → (a ≡ true) × (b ≡ false)
both_true true false h = (refl, refl)
both_true true true h = cc
both_true false b h = cc

flushed-HasSoundPayouts :
    {A : Type 0} (accepted : Bool) (a : A) (after s : Tables)
    → (accepted ≡ true → HasSoundPayouts after)
    → Ensures (flushed accepted a after) s (λ a t. HasSoundPayouts t)
unfolding flushed
flushed-HasSoundPayouts true a after s k = k refl
flushed-HasSoundPayouts false a after s k = tt

pub add_payout-Keeps : (p : Payout) → Keeps HasSoundPayouts (add_payout p)
unfolding add_payout
add_payout-Keeps p s sound =
    flushed-HasSoundPayouts (satisfies_checks p && not (clashes p s.payouts)) tt
      (record s { payouts = p ∷ s.payouts }) s
      (λ accepted.
        let (checked, apart) = both_true (satisfies_checks p) (clashes p s.payouts) accepted in
        add-AreSound p s.payouts checked (clashes-IsAlone p s.payouts apart) sound)

pub save_payout-Keeps : (p : Payout) → Keeps HasSoundPayouts (save_payout p)
unfolding save_payout
save_payout-Keeps p s sound =
    flushed-HasSoundPayouts (satisfies_checks p && not (clashes p s.payouts)) p
      (record s { payouts = replace_payout p s.payouts }) s
      (λ accepted.
        let (checked, apart) = both_true (satisfies_checks p) (clashes p s.payouts) accepted in
        replace-AreSound p s.payouts checked (clashes-IsAlone p s.payouts apart) sound)
