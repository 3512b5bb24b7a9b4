-- ===== src/Ledger/Poster/Booking.antt =====
-- The accounts on which `_materialise_entries` (app/services/transactions.py) books the legs.
use payzeno_ledger.Prelude.{
  ℕ, ◌+◌, ◌≤◌, ◌<◌, ◌≡◌, refl, ◌∙◌, String, Bool, true, Option, some, List, [], ◌∷◌, All, arith,
}
use payzeno_ledger.Posting.{PostingLine}
use payzeno_ledger.Ledger.{Account, LedgerEntry, Tables, new_id}
use payzeno_ledger.Ledger.Actions.{Ensures, >>=-Ensures, OnOk-any}
use payzeno_ledger.Ledger.Accounts.{has_key, account_by_id, get_or_create}
use payzeno_ledger.Ledger.Accounts.Identity.{
  AreNumbered, Descending-weaken, Extends, Extends-refl, IsResolved, get_or_create-IsResolved,
}
use payzeno_ledger.Ledger.Poster.{owner_of, refuse_shut, make_entry, materialise_entries}

-- The entry of a leg, on an account of the leg's key.
pub record IsBooked (o : Option ℕ) (c : String) (m : Bool) (t : Tables) (l : PostingLine)
    (e : LedgerEntry) : Type 0 where
  pub below : e.account_id < t.next_id
  pub account :
      (a : Account) × (account_by_id e.account_id t.accounts ≡ some a)
      × (has_key (owner_of o l) l.account_type c m a ≡ true)
  pub side : e.direction ≡ l.direction
  pub amount : e.amount_minor ≡ l.amount_minor
  pub currency : e.currency ≡ c
  pub mode : e.livemode ≡ m

abbrev pub AreBooked :
    Option ℕ → String → Bool → Tables → List PostingLine → List LedgerEntry → Type 0
AreBooked o c m t [] [] = Unit
AreBooked o c m t [] (e ∷ es) = ⊥
AreBooked o c m t (l ∷ ls) [] = ⊥
AreBooked o c m t (l ∷ ls) (e ∷ es) = IsBooked o c m t l e × AreBooked o c m t ls es

abbrev pub AreKnown : Tables → List LedgerEntry → Type 0
AreKnown t es = All (λ (e : LedgerEntry). e.account_id < t.next_id) es

pub AreKnown-extends :
    (s t : Tables) (es : List LedgerEntry) → s.next_id ≤ t.next_id → AreKnown s es → AreKnown t es
AreKnown-extends s t [] h k = tt
AreKnown-extends s t (e ∷ es) h k = (omega (arith, k.0), AreKnown-extends s t es h k.1)

pub AreBooked-AreKnown :
    (o : Option ℕ) (c : String) (m : Bool) (t : Tables) (ls : List PostingLine)
    (es : List LedgerEntry)
    → AreBooked o c m t ls es
    → AreKnown t es
AreBooked-AreKnown o c m t [] [] h = tt
AreBooked-AreKnown o c m t [] (e ∷ es) h = absurd h
AreBooked-AreKnown o c m t (l ∷ ls) [] h = absurd h
AreBooked-AreKnown o c m t (l ∷ ls) (e ∷ es) h = (h.0.below, AreBooked-AreKnown o c m t ls es h.1)

pub record IsBooking (s : Tables) (o : Option ℕ) (c : String) (m : Bool) (ls : List PostingLine)
    (es : List LedgerEntry) (t : Tables) : Type 0 where
  pub numbered : AreNumbered t
  pub extends : Extends s t
  pub booked : AreBooked o c m t ls es

abbrev drawn : Tables → Tables
drawn s = record s { next_id = s.next_id + 1 }

first_booked :
    (s s1 t : Tables) (txn id n : ℕ) (o : Option ℕ) (c : String) (m : Bool) (l : PostingLine)
    (ls : List PostingLine) (a : Account) (es : List LedgerEntry)
    → IsResolved s (owner_of o l) l.account_type c m a s1
    → IsBooking (drawn s1) o c m ls es t
    → IsBooking s o c m (l ∷ ls) (make_entry id txn a.id c m n l ∷ es) t
first_booked s s1 t txn id n o c m l ls a es r b = record {
  numbered = b.numbered;
  extends = record {
    later = omega (arith, r.extends.later, b.extends.later);
    stable = λ id below.
        b.extends.stable id (omega (arith, r.extends.later)) ∙ r.extends.stable id below;
  };
  booked = (
    record {
      below = omega (arith, r.below, b.extends.later);
      account = (a, b.extends.stable a.id (omega (arith, r.below)) ∙ r.named, r.of_key);
      side = refl;
      amount = refl;
      currency = refl;
      mode = refl;
    },
    b.booked,
  );
}

-- When the entries are made, each is on the account of its leg's key, and the accounts of before
-- keep their ids.
pub materialise_entries-IsBooking :
    (txn : ℕ) (o : Option ℕ) (c : String) (m : Bool) (n : ℕ) (ls : List PostingLine) (s : Tables)
    → AreNumbered s
    → Ensures (materialise_entries txn o c m n ls) s (IsBooking s o c m ls)
unfolding materialise_entries refuse_shut
materialise_entries-IsBooking txn o c m n [] s d = record {
  numbered = d;
  extends = Extends-refl s;
  booked = tt;
}
materialise_entries-IsBooking txn o c m n (l ∷ ls) s d =
    >>=-Ensures (IsResolved s (owner_of o l) l.account_type c m) _
      (get_or_create (owner_of o l) l.account_type c m) _ s
      (get_or_create-IsResolved s (owner_of o l) l.account_type c m d)
      (λ a resolved.
        >>=-Ensures (λ u t. Unit {0}) _ (refuse_shut a) _ (after s) (OnOk-any _ (after s))
          (λ u _.
            >>=-Ensures (λ u t. Unit {0}) _ new_id _ (after s) tt
              (λ id _.
                >>=-Ensures (IsBooking (drawn (after s)) o c m ls) _
                  (materialise_entries txn o c m (n + 1) ls) _ (drawn (after s))
                  (materialise_entries-IsBooking txn o c m (n + 1) ls (drawn (after s))
                    (Descending-weaken _ _ (after s).accounts (omega arith) resolved.numbered))
                  (λ es booked.
                    first_booked s (after s) _ txn id n o c m l ls a es resolved booked))))
  where
    after : Tables → Tables
    after s = (get_or_create (owner_of o l) l.account_type c m s).1
