-- ===== src/Ledger/Invariants.antt =====
-- The tables that sessions of app/services/transactions.py lead to, and how an invariant of them is
-- proved.
pub mod TrialBalance
pub mod UniqueKeys
pub mod Drift
use payzeno_ledger.Prelude.{◌≡◌, Option, some, none, List, [], ◌∷◌, ℕ, String}
use payzeno_ledger.Errors.{Result, ok, err}
use payzeno_ledger.Keys.{LedgerKey}
use payzeno_ledger.Ledger.{
  Account, LedgerTransaction, LedgerEntry, Tables, Action, finish, begin, ◌>>=◌,
}
use payzeno_ledger.Ledger.Actions.{OnOk, Ensures, >>=-Ensures}
use payzeno_ledger.Ledger.Poster.{Request, post}
use payzeno_ledger.Ledger.Poster.Reversal.{
  found_account, get_account, entries_of, flipped_lines, reversal_request, set_reverses, reverse,
}

abbrev pub no_tables : Tables
no_tables = record {
  accounts = [];
  transactions = [];
  entries = [];
  balances = [];
  outbox = [];
  payouts = [];
  payout_events = [];
  merchants = [];
  banks = [];
  next_id = 0;
}

-- The tables that sessions of the poster can lead to, failed ones included.
pub data Reachable : Tables → Type 0 where
  empty : Reachable no_tables
  posted : {s : Tables} → Reachable s → (req : Request) → Reachable (begin (post req) s).1
  reversed :
      {s : Tables}
      → Reachable s
      → (original : LedgerTransaction) (idempotency_key : LedgerKey) (created_by : String)
      → Reachable (begin (reverse original idempotency_key created_by) s).1

-- The action takes tables that the invariant holds of to such tables, when it returns.
abbrev pub Keeps : {A : Type 0} → (Tables → Type 0) → Action A → Type 0
Keeps Inv m = (s : Tables) → Inv s → Ensures m s (λ a t. Inv t)

pub Keeps->>= :
    {A B : Type 0} (Inv : Tables → Type 0) (m : Action A) (f : A → Action B)
    → Keeps Inv m
    → ((a : A) → Keeps Inv (f a))
    → Keeps Inv (m >>= f)
Keeps->>= Inv m f hm hf s h =
    >>=-Ensures (λ a t. Inv t) (λ a t. Inv t) m f s (hm s h) (λ a k. hf a (m s).1 k)

commit :
    {A : Type 0} (Inv : Tables → Type 0) (r : Result A) (s t : Tables)
    → Inv s
    → OnOk (λ a t. Inv t) r t
    → Inv (finish r s t).1
commit Inv (ok a) s t h k = k
commit Inv (err e) s t h k = h

-- A session that rolls back on failure keeps what its body keeps when it returns.
pub begin-Keeps :
    {A : Type 0} (Inv : Tables → Type 0) (m : Action A) (s : Tables)
    → Keeps Inv m
    → Inv s
    → Inv (begin m s).1
unfolding begin
begin-Keeps Inv m s k h = commit Inv (m s).0 s (m s).1 h (k s h)

module _ (Inv : Tables → Type 0) where
  found_account-Keeps : (found : Option Account) → Keeps Inv (found_account found)
  found_account-Keeps (some a) s h = h
  found_account-Keeps none s h = tt

  get_account-Keeps : (id : ℕ) → Keeps Inv (get_account id)
  unfolding get_account
  get_account-Keeps id s h = found_account-Keeps _ s h

  flipped_lines-Keeps : (es : List LedgerEntry) → Keeps Inv (flipped_lines es)
  unfolding flipped_lines
  flipped_lines-Keeps [] = λ s h. h
  flipped_lines-Keeps (e ∷ es) =
      Keeps->>= Inv (get_account e.account_id) _ (get_account-Keeps e.account_id)
        (λ a. Keeps->>= Inv (flipped_lines es) _ (flipped_lines-Keeps es) (λ rest s h. h))

  -- A reversal reads, posts and marks the new transaction.
  reverse-Keeps :
      ((req : Request) → Keeps Inv (post req))
      → ((id original : ℕ) → Keeps Inv (set_reverses id original))
      → (original : LedgerTransaction) (key : LedgerKey) (by : String)
      → Keeps Inv (reverse original key by)
  unfolding reverse
  reverse-Keeps hp hs original key by =
      Keeps->>= Inv (entries_of original.id) _ (λ s h. h)
        (λ entries.
          Keeps->>= Inv (flipped_lines entries) _ (flipped_lines-Keeps entries) (λ flipped.
            Keeps->>= Inv (post (reversal_request original key by flipped)) _ (hp _) (λ result.
              Keeps->>= Inv (set_reverses result.transaction.id original.id) _
                (hs result.transaction.id original.id) (λ u s h. h))))

  -- An invariant of the empty tables, kept by a posting and by the mark of a reversal, holds of
  -- every reachable table.
  pub Reachable-induction :
      Inv no_tables
      → ((req : Request) → Keeps Inv (post req))
      → ((id original : ℕ) → Keeps Inv (set_reverses id original))
      → (s : Tables) → Reachable s
      → Inv s
  Reachable-induction h hp hs _ empty = h
  Reachable-induction h hp hs _ (posted {s} r req) =
      begin-Keeps Inv (post req) s (hp req) (Reachable-induction h hp hs s r)
  Reachable-induction h hp hs _ (reversed {s} r original key by) =
      begin-Keeps Inv (reverse original key by) s (reverse-Keeps hp hs original key by)
        (Reachable-induction h hp hs s r)
