-- ===== src/Ledger/Poster/Entries.antt =====
-- What `_materialise_entries` of app/services/transactions.py makes of the legs, and the tables
-- that it leaves alone.
use payzeno_ledger.Prelude.{ℕ, ◌+◌, ◌≡◌, refl, ◌∙◌, String, Bool, Option, some, none, List, [], ◌∷◌}
use payzeno_ledger.Posting.{PostingLine}
use payzeno_ledger.Ledger.{Account, LedgerEntry, Tables, Action, ◌>>=◌, new_id}
use payzeno_ledger.Ledger.Actions.{>>=-holds, Ensures, >>=-Ensures, forgetting}
use payzeno_ledger.Ledger.Accounts.{existing_or_new, get_or_create}
use payzeno_ledger.Ledger.Poster.{owner_of, refuse_shut, materialise_entries}

pub record IsEntryOf (txn : ℕ) (c : String) (m : Bool) (n : ℕ) (l : PostingLine) (e : LedgerEntry)
    : Type 0 where
  pub same_transaction : e.transaction_id ≡ txn
  pub same_side : e.direction ≡ l.direction
  pub same_amount : e.amount_minor ≡ l.amount_minor
  pub same_currency : e.currency ≡ c
  pub same_mode : e.livemode ≡ m
  pub in_sequence : e.sequence ≡ n

-- One entry for each leg, in order, with sequence numbers from n on.
abbrev pub AreEntriesOf : ℕ → String → Bool → ℕ → List PostingLine → List LedgerEntry → Type 0
AreEntriesOf txn c m n [] [] = Unit
AreEntriesOf txn c m n [] (e ∷ es) = ⊥
AreEntriesOf txn c m n (l ∷ ls) [] = ⊥
AreEntriesOf txn c m n (l ∷ ls) (e ∷ es) =
    IsEntryOf txn c m n l e × AreEntriesOf txn c m (n + 1) ls es

-- The tables other than the accounts are those of s.
pub record IsFramed (s t : Tables) : Type 0 where
  pub transactions : t.transactions ≡ s.transactions
  pub entries : t.entries ≡ s.entries
  pub balances : t.balances ≡ s.balances
  pub outbox : t.outbox ≡ s.outbox
  pub payouts : t.payouts ≡ s.payouts
  pub payout_events : t.payout_events ≡ s.payout_events
  pub merchants : t.merchants ≡ s.merchants
  pub banks : t.banks ≡ s.banks

IsFramed-refl : (s : Tables) → IsFramed s s
IsFramed-refl s = record {
  transactions = refl;
  entries = refl;
  balances = refl;
  outbox = refl;
  payouts = refl;
  payout_events = refl;
  merchants = refl;
  banks = refl;
}

existing_or_new-IsFramed :
    (o : Option ℕ) (l : PostingLine) (c : String) (m : Bool) (found : Option Account) (s : Tables)
    → IsFramed s (existing_or_new o l.account_type c m found s).1
existing_or_new-IsFramed o l c m none s = record {
  transactions = refl;
  entries = refl;
  balances = refl;
  outbox = refl;
  payouts = refl;
  payout_events = refl;
  merchants = refl;
  banks = refl;
}
existing_or_new-IsFramed o l c m (some a) s = IsFramed-refl s

get_or_create-IsFramed :
    (o : Option ℕ) (l : PostingLine) (c : String) (m : Bool) (s : Tables)
    → IsFramed s (get_or_create o l.account_type c m s).1
unfolding get_or_create
get_or_create-IsFramed o l c m s = existing_or_new-IsFramed o l c m _ s

IsFramed-trans : (s t u : Tables) → IsFramed s t → IsFramed t u → IsFramed s u
IsFramed-trans s t u h k = record {
  transactions = k.transactions ∙ h.transactions;
  entries = k.entries ∙ h.entries;
  balances = k.balances ∙ h.balances;
  outbox = k.outbox ∙ h.outbox;
  payouts = k.payouts ∙ h.payouts;
  payout_events = k.payout_events ∙ h.payout_events;
  merchants = k.merchants ∙ h.merchants;
  banks = k.banks ∙ h.banks;
}

abbrev Frames : {A : Type 0} → Action A → Type 0
Frames m = (s : Tables) → IsFramed s (m s).1

Frames->>= :
    {A B : Type 0} (m : Action A) (f : A → Action B)
    → Frames m
    → ((a : A) → Frames (f a))
    → Frames (m >>= f)
Frames->>= m f hm hf s =
    >>=-holds (IsFramed s) m f s (hm s) (λ a. IsFramed-trans s (m s).1 _ (hm s) (hf a (m s).1))

refuse_shut-Frames : (a : Account) → Frames (refuse_shut a)
unfolding refuse_shut
refuse_shut-Frames a s = IsFramed-refl s

new_id-Frames : Frames new_id
new_id-Frames s = record {
  transactions = refl;
  entries = refl;
  balances = refl;
  outbox = refl;
  payouts = refl;
  payout_events = refl;
  merchants = refl;
  banks = refl;
}

-- Whatever it returns, only the accounts and the ids move.
pub materialise_entries-IsFramed :
    (txn : ℕ) (o : Option ℕ) (c : String) (m : Bool) (n : ℕ) (ls : List PostingLine)
    → Frames (materialise_entries txn o c m n ls)
unfolding materialise_entries
materialise_entries-IsFramed txn o c m n [] = IsFramed-refl
materialise_entries-IsFramed txn o c m n (l ∷ ls) =
    Frames->>= _ _ (get_or_create-IsFramed (owner_of o l) l c m) (λ a.
      Frames->>= _ _ (refuse_shut-Frames a) (λ u. Frames->>= _ _ new_id-Frames (λ id.
        Frames->>= _ _ (materialise_entries-IsFramed txn o c m (n + 1) ls)
          (λ rest. IsFramed-refl))))

-- When it returns, it returns one entry for each leg, numbered in order.
pub materialise_entries-AreEntriesOf :
    (txn : ℕ) (o : Option ℕ) (c : String) (m : Bool) (n : ℕ) (ls : List PostingLine) (s : Tables)
    → Ensures (materialise_entries txn o c m n ls) s (λ es t. AreEntriesOf txn c m n ls es)
unfolding materialise_entries
materialise_entries-AreEntriesOf txn o c m n [] s = tt
materialise_entries-AreEntriesOf txn o c m n (l ∷ ls) s =
    forgetting (get_or_create (owner_of o l) l.account_type c m) _ s _ (λ a s1.
      forgetting (refuse_shut a) _ s1 _ (λ u s2. forgetting new_id _ s2 _ (λ id s3.
        >>=-Ensures (λ es t. AreEntriesOf txn c m (n + 1) ls es) _
          (materialise_entries txn o c m (n + 1) ls) _ s3
          (materialise_entries-AreEntriesOf txn o c m (n + 1) ls s3)
          (λ rest made. (
            record {
              same_transaction = refl;
              same_side = refl;
              same_amount = refl;
              same_currency = refl;
              same_mode = refl;
              in_sequence = refl;
            },
            made,
          )))))
