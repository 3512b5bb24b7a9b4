-- ===== src/Ledger/Invariants/UniqueKeys.antt =====
-- The keys of the transactions that app/repositories/ledger_transaction.py claims: the invariant of
-- the unique index of app/models/ledger_transaction.py.
use payzeno_ledger.Prelude.{
  ℕ, ◌≡◌, refl, true, false, ◌⊎◌, inl, inr, Bool-cases, some, none, List, [], ◌∷◌, keep, find,
  length, ◌≤◌, ◌==◌, arith, if◌then◌else◌,
}
use payzeno_ledger.Posting.Balance.{IsBalanced}
use payzeno_ledger.Keys.{LedgerKey, same_key, same_key_iff}
use payzeno_ledger.Ledger.{LedgerTransaction, Tables}
use payzeno_ledger.Ledger.Actions.{Ensures-weaken}
use payzeno_ledger.Ledger.Transactions.{find_by_idempotency_key}
use payzeno_ledger.Ledger.Poster.{Request, PostResult, post}
use payzeno_ledger.Ledger.Poster.Reversal.{mark_reversal}
use payzeno_ledger.Ledger.Poster.Outcome.{IsPosted, IsReplayed, post_outcome}
use payzeno_ledger.Ledger.Invariants.{Reachable, Keeps, Reachable-induction}

-- No transaction has the key of an earlier one.
abbrev pub HaveUniqueKeys : List LedgerTransaction → Type 0
HaveUniqueKeys [] = Unit
HaveUniqueKeys (t ∷ ts) = (find_by_idempotency_key t.idempotency_key ts ≡ none) × HaveUniqueKeys ts

abbrev HasUniqueKeys : Tables → Type 0
HasUniqueKeys s = HaveUniqueKeys s.transactions

post-Keeps : (req : Request) → Keeps HasUniqueKeys (post req)
post-Keeps req s unique =
    Ensures-weaken (λ r t. IsBalanced req.lines × (IsPosted req s r t ⊎ IsReplayed req s r t))
      (λ r t. HasUniqueKeys t) (post req) s (λ r t outcome. by_outcome r t outcome)
      (post_outcome req s)
  where
    by_outcome :
        (r : PostResult) (t : Tables)
        → IsBalanced req.lines × (IsPosted req s r t ⊎ IsReplayed req s r t)
        → HasUniqueKeys t
    by_outcome r t (b, inl p) = rw (p.transactions) (p.fresh, unique)
    by_outcome r t (b, inr p) = rw (p.unchanged.transactions) unique

find-mark_reversal :
    (key : LedgerKey) (id original : ℕ) (ts : List LedgerTransaction)
    → find_by_idempotency_key key ts ≡ none
    → find_by_idempotency_key key (mark_reversal id original ts) ≡ none
unfolding find_by_idempotency_key find mark_reversal
find-mark_reversal key id original [] h = refl
find-mark_reversal key id original (t ∷ ts) h =
    ground (arith, find-mark_reversal key id original ts)

mark_reversal-HaveUniqueKeys :
    (id original : ℕ) (ts : List LedgerTransaction)
    → HaveUniqueKeys ts
    → HaveUniqueKeys (mark_reversal id original ts)
unfolding mark_reversal
mark_reversal-HaveUniqueKeys id original [] h = tt
mark_reversal-HaveUniqueKeys id original (t ∷ ts) h =
    elim (t.id == id)
      as (λ b. HaveUniqueKeys (
        if b
        then record t { reverses_transaction_id = some original } ∷ ts
        else t ∷ mark_reversal id original ts)) [
          | true ↦ h
          | false ↦ (
            find-mark_reversal t.idempotency_key id original ts h.0,
            mark_reversal-HaveUniqueKeys id original ts h.1,
          )
        ]

Reachable-HaveUniqueKeys : (s : Tables) → Reachable s → HaveUniqueKeys s.transactions
Reachable-HaveUniqueKeys =
    Reachable-induction HasUniqueKeys tt post-Keeps
      (λ id original s h. mark_reversal-HaveUniqueKeys id original s.transactions h)

abbrev pub with_key : LedgerKey → List LedgerTransaction → List LedgerTransaction
with_key key ts = keep (λ (t : LedgerTransaction). same_key t.idempotency_key key) ts

none-with_key :
    (key : LedgerKey) (ts : List LedgerTransaction)
    → find_by_idempotency_key key ts ≡ none
    → length (with_key key ts) ≡ 0
unfolding find_by_idempotency_key find keep
none-with_key key [] h = refl
none-with_key key (t ∷ ts) h = ground (arith, none-with_key key ts)

at_most_one :
    (key : LedgerKey) (ts : List LedgerTransaction)
    → HaveUniqueKeys ts
    → length (with_key key ts) ≤ 1
unfolding keep
at_most_one key [] h = omega arith
at_most_one key (t ∷ ts) h = elim (Bool-cases (same_key t.idempotency_key key)) [
  | inl same ↦
      let is_key = (same_key_iff t.idempotency_key key).0 same in
      rw (same) (omega (arith, none-with_key key ts (rw (← is_key) h.0)))
  | inr other ↦ rw (other) (at_most_one key ts h.1)
]

-- Whatever was posted and reversed, a key has at most one transaction.
pub post-at_most_once :
    (s : Tables) → Reachable s → (key : LedgerKey) → length (with_key key s.transactions) ≤ 1
post-at_most_once s r key = at_most_one key s.transactions (Reachable-HaveUniqueKeys s r)
