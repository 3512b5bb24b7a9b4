-- ===== src/Ledger/Poster/Outcome.antt =====
-- The two ways in which `LedgerPoster.post` (app/services/transactions.py) returns: it posts, or
-- it answers with the transaction that owns the key.
use payzeno_ledger.Prelude.{
  ℕ, ◌+◌, ◌≡◌, refl, ap, ◌⊎◌, inl, inr, Bool, true, false, Option, some, none, List, ◌∷◌, ◌++◌,
  find, ◌==◌, if◌then◌else◌, ==_iff, find-eq_some,
}
use payzeno_ledger.Posting.Balance.{IsBalanced}
use payzeno_ledger.Ledger.{LedgerTransaction, LedgerEntry, Tables, Action, ◌>>=◌, pure, ◌>>◌}
use payzeno_ledger.Ledger.Actions.{
  Ensures, >>=-Ensures, Ensures-and, Ensures-weaken, lift->>-Ensures,
}
use payzeno_ledger.Ledger.Transactions.{
  IdempotencyClaim, find_by_idempotency_key, get_or_raise, claim_from, claim_idempotency_key,
}
use payzeno_ledger.Ledger.Poster.{
  OnConflict, raise_error, return_existing, Request, PostResult, assert_invariants, row_of,
  post_claimed, post_conflict, post, add_all, publish_posted, materialise_entries,
  apply_balance_delta, balances_after,
}
use payzeno_ledger.Ledger.Poster.Checks.{assert_invariants_iff}
use payzeno_ledger.Ledger.Poster.Entries.{
  AreEntriesOf, IsFramed, materialise_entries-IsFramed, materialise_entries-AreEntriesOf,
}

-- A new transaction with an entry for each leg; the rows of before stay as they are.
pub record IsPosted (req : Request) (s : Tables) (r : PostResult) (t : Tables) : Type 0 where
  pub was_created : r.created ≡ true
  pub fresh : find_by_idempotency_key req.idempotency_key s.transactions ≡ none
  pub transaction : r.transaction ≡ row_of req s.next_id
  pub transactions : t.transactions ≡ row_of req s.next_id ∷ s.transactions
  pub payouts : t.payouts ≡ s.payouts
  pub balances :
      t.balances
      ≡ balances_after req.merchant_id req.currency req.livemode req.lines s.next_id s.balances
  pub entries :
      (es : List LedgerEntry) × (t.entries ≡ es ++ s.entries)
      × AreEntriesOf s.next_id req.currency req.livemode 1 req.lines es

-- Nothing but an id was used up, and the answer is the transaction of the key's owner.
pub record IsReplayed (req : Request) (s : Tables) (r : PostResult) (t : Tables) : Type 0 where
  pub not_created : r.created ≡ false
  pub owner :
      (existing : LedgerTransaction) × (find_by_idempotency_key req.idempotency_key s.transactions
        ≡ some existing)
      × (r.transaction.id ≡ existing.id)
  pub same_accounts : t.accounts ≡ s.accounts
  pub unchanged : IsFramed s t

abbrev rest : Request → IdempotencyClaim → Action PostResult
rest req claim =
    if claim.created then post_claimed req claim else post_conflict req.on_conflict claim

abbrev IsOutcome : Request → Tables → PostResult → Tables → Type 0
IsOutcome req s r t = IsPosted req s r t ⊎ IsReplayed req s r t

pub found-Ensures :
    {B : Type 0} (id : ℕ) (s : Tables) (t : LedgerTransaction) (f : LedgerTransaction → Action B)
    (Q : B → Tables → Type 0)
    → find (λ (t : LedgerTransaction). t.id == id) s.transactions ≡ some t
    → Ensures (f t) s Q
    → Ensures (get_or_raise id >>= f) s Q
unfolding ◌>>=◌ get_or_raise
found-Ensures id s t f Q e h = rw (e) h

pub new_is_first :
    (req : Request) (n : ℕ) (ts : List LedgerTransaction)
    → find (λ (t : LedgerTransaction). t.id == n) (row_of req n ∷ ts) ≡ some (row_of req n)
unfolding find
new_is_first req n ts = rw ((==_iff n n).1 refl) refl

abbrev pub after_insert : Request → Tables → Tables
after_insert req s = record s {
  transactions = row_of req s.next_id ∷ s.transactions;
  next_id = s.next_id + 1;
}

abbrev IsMade : Request → Tables → List LedgerEntry → Tables → Type 0
IsMade req s es t =
    AreEntriesOf s.next_id req.currency req.livemode 1 req.lines es
    × IsFramed (after_insert req s) t

materialise-IsMade :
    (req : Request) (s : Tables)
    → Ensures
        (materialise_entries s.next_id req.merchant_id req.currency req.livemode 1 req.lines)
        (after_insert req s)
        (IsMade req s)
materialise-IsMade req s =
    Ensures-and (λ es t. AreEntriesOf s.next_id req.currency req.livemode 1 req.lines es)
      (IsFramed (after_insert req s))
      (materialise_entries s.next_id req.merchant_id req.currency req.livemode 1 req.lines)
      (after_insert req s)
      (materialise_entries-AreEntriesOf s.next_id req.merchant_id req.currency req.livemode 1
        req.lines _)
      (materialise_entries-IsFramed s.next_id req.merchant_id req.currency req.livemode 1 req.lines
        _)

-- The writes after the entries are made.
abbrev pub writes : Request → ℕ → List LedgerEntry → Action PostResult
writes req id es = do
  add_all es
  apply_balance_delta req.merchant_id req.currency req.livemode req.lines id
  publish_posted (row_of req id) es
  pure (record { transaction = row_of req id; created = true })

writes-IsPosted :
    (req : Request) (s t : Tables) (es : List LedgerEntry)
    → find_by_idempotency_key req.idempotency_key s.transactions ≡ none
    → IsMade req s es t
    → Ensures (writes req s.next_id es) t (IsPosted req s)
unfolding ◌>>=◌ publish_posted
writes-IsPosted req s t es fresh made = record {
  was_created = refl;
  fresh = fresh;
  transaction = refl;
  transactions = made.1.transactions;
  payouts = made.1.payouts;
  balances =
      ap (balances_after req.merchant_id req.currency req.livemode req.lines s.next_id)
        made.1.balances;
  entries = (es, ap (λ old. es ++ old) made.1.entries, made.0);
}

pub post_claimed-IsPosted :
    (req : Request) (s : Tables)
    → find_by_idempotency_key req.idempotency_key s.transactions ≡ none
    → Ensures
        (post_claimed req
          (record { transaction_id = s.next_id; created = true; fingerprint_matches = true }))
        (after_insert req s)
        (IsPosted req s)
unfolding post_claimed
post_claimed-IsPosted req s fresh =
    found-Ensures s.next_id _ (row_of req s.next_id) _ _ (new_is_first req s.next_id s.transactions)
      (>>=-Ensures (IsMade req s) _
        (materialise_entries s.next_id req.merchant_id req.currency req.livemode 1 req.lines)
        (writes req s.next_id) (after_insert req s) (materialise-IsMade req s)
        (λ es made. writes-IsPosted req s _ es fresh made))

post_conflict-IsReplayed :
    (req : Request) (s : Tables) (existing : LedgerTransaction) (on_conflict : OnConflict)
    (matches : Bool) (found : Option LedgerTransaction)
    → find_by_idempotency_key req.idempotency_key s.transactions ≡ some existing
    → find (λ (t : LedgerTransaction). t.id == existing.id) s.transactions ≡ found
    → Ensures
        (post_conflict on_conflict
          (record { transaction_id = existing.id; created = false; fingerprint_matches = matches }))
        (record s { next_id = s.next_id + 1 })
        (IsReplayed req s)
unfolding post_conflict ◌>>=◌ get_or_raise
post_conflict-IsReplayed req s existing return_existing matches none owned h = rw (h) tt
post_conflict-IsReplayed req s existing raise_error matches none owned h = rw (h) tt
post_conflict-IsReplayed req s existing raise_error matches (some t) owned h = rw (h) tt
post_conflict-IsReplayed req s existing return_existing matches (some t) owned h = rw (h) (record {
  not_created = refl;
  owner = (existing, owned, (==_iff t.id existing.id).0 (find-eq_some _ s.transactions h));
  same_accounts = refl;
  unchanged = record {
    transactions = refl;
    entries = refl;
    balances = refl;
    outbox = refl;
    payouts = refl;
    payout_events = refl;
    merchants = refl;
    banks = refl;
  };
})

-- The claims of a free key and of a taken one.
abbrev pub free_claim : ℕ → IdempotencyClaim
free_claim id = record { transaction_id = id; created = true; fingerprint_matches = true }

abbrev pub taken_claim : LedgerTransaction → Bool → IdempotencyClaim
taken_claim existing matches = record {
  transaction_id = existing.id;
  created = false;
  fingerprint_matches = matches;
}

module _ (req : Request) (s : Tables) (Q : PostResult → Tables → Type 0) where
  after_claim :
      (found : Option LedgerTransaction)
      → find_by_idempotency_key req.idempotency_key s.transactions ≡ found
      → (find_by_idempotency_key req.idempotency_key s.transactions ≡ none
          → Ensures (post_claimed req (free_claim s.next_id)) (after_insert req s) Q)
      → ((existing : LedgerTransaction) (matches : Bool)
          → find_by_idempotency_key req.idempotency_key s.transactions ≡ some existing
          → Ensures
              (post_conflict req.on_conflict (taken_claim existing matches))
              (record s { next_id = s.next_id + 1 })
              Q)
      → Ensures (claim_from (row_of req s.next_id) found >>= rest req) s Q
  unfolding ◌>>=◌
  after_claim none h free taken = free h
  after_claim (some existing) h free taken = taken existing _ h

  -- What `post` ensures: what it ensures of a free key, and what it does of a taken one.
  pub post-Ensures :
      (IsBalanced req.lines
        → find_by_idempotency_key req.idempotency_key s.transactions ≡ none
        → Ensures (post_claimed req (free_claim s.next_id)) (after_insert req s) Q)
      → (IsBalanced req.lines
          → (existing : LedgerTransaction) (matches : Bool)
          → find_by_idempotency_key req.idempotency_key s.transactions ≡ some existing
          → Ensures
              (post_conflict req.on_conflict (taken_claim existing matches))
              (record s { next_id = s.next_id + 1 })
              Q)
      → Ensures (post req) s Q
  unfolding post ◌>>=◌ claim_idempotency_key
  post-Ensures free taken = lift->>-Ensures (assert_invariants req.lines) _ s Q (λ passed.
      let b = (assert_invariants_iff req.lines).0 passed in after_claim _ refl (free b) (taken b))

-- When `post` returns, the legs are balanced, and either the key was free and one transaction with
-- their entries was written, or its owner is returned and no table but the id counter changed.
pub post_outcome :
    (req : Request) (s : Tables)
    → Ensures
        (post req)
        s
        (λ r t. IsBalanced req.lines × (IsPosted req s r t ⊎ IsReplayed req s r t))
post_outcome req s =
    post-Ensures req s Outcome
      (λ b free.
        Ensures-weaken (IsPosted req s) Outcome (post_claimed req _) (after_insert req s)
          (λ r t posted. (b, inl posted)) (post_claimed-IsPosted req s free))
      (λ b existing matches owned.
        Ensures-weaken (IsReplayed req s) Outcome (post_conflict req.on_conflict _) _
          (λ r t replayed. (b, inr replayed))
          (post_conflict-IsReplayed req s existing req.on_conflict matches _ owned refl))
  where
    Outcome : PostResult → Tables → Type 0
    Outcome r t = IsBalanced req.lines × (IsPosted req s r t ⊎ IsReplayed req s r t)
