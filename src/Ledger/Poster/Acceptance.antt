-- ===== src/Ledger/Poster/Acceptance.antt =====
-- The conditions under which `LedgerPoster.post` (app/services/transactions.py) posts.
use payzeno_ledger.Prelude.{
  ℕ, ◌+◌, ◌≡◌, refl, String, Bool, true, false, ◌⊎◌, inl, inr, Option, some, none, List, [], ◌∷◌,
  find-All, All,
}
use payzeno_ledger.Errors.{ok}
use payzeno_ledger.Posting.{PostingLine}
use payzeno_ledger.Posting.Balance.{IsBalanced}
use payzeno_ledger.Ledger.{Account, LedgerEntry, Tables, ◌>>=◌, new_id}
use payzeno_ledger.Ledger.Actions.{Succeeds, >>=-Succeeds, Succeeds-run}
use payzeno_ledger.Ledger.Accounts.{existing_or_new, find_one, get_or_create}
use payzeno_ledger.Ledger.Transactions.{
  find_by_idempotency_key, claim_idempotency_key, get_or_raise,
}
use payzeno_ledger.Ledger.Poster.{
  Request, PostResult, is_shut, owner_of, refuse_shut, materialise_entries, publish_posted,
  post_claimed, post,
}
use payzeno_ledger.Ledger.Poster.Checks.{assert_invariants_iff}
use payzeno_ledger.Ledger.Poster.Outcome.{
  after_insert, new_is_first, writes, IsPosted, IsReplayed, post_outcome,
}

abbrev pub IsOpen : Account → Type 0
IsOpen a = is_shut a.status ≡ false

abbrev pub AreOpen : List Account → Type 0
AreOpen accounts = All IsOpen accounts

existing_or_new-IsOpen :
    (o : Option ℕ) (l : PostingLine) (c : String) (m : Bool) (s : Tables) (found : Option Account)
    → AreOpen s.accounts
    → ((a : Account) → found ≡ some a → IsOpen a)
    → Succeeds (existing_or_new o l.account_type c m found) s (λ a t. IsOpen a × AreOpen t.accounts)
existing_or_new-IsOpen o l c m s none open_ from = (refl, (refl, open_))
existing_or_new-IsOpen o l c m s (some a) open_ from = (from a refl, open_)

get_or_create-IsOpen :
    (o : Option ℕ) (l : PostingLine) (c : String) (m : Bool) (s : Tables)
    → AreOpen s.accounts
    → Succeeds (get_or_create o l.account_type c m) s (λ a t. IsOpen a × AreOpen t.accounts)
unfolding get_or_create find_one
get_or_create-IsOpen o l c m s open_ =
    existing_or_new-IsOpen o l c m s _ open_ (find-All IsOpen _ s.accounts open_)

refuse_shut-open :
    (a : Account) (s : Tables)
    → IsOpen a
    → AreOpen s.accounts
    → Succeeds (refuse_shut a) s (λ u t. AreOpen t.accounts)
unfolding refuse_shut
refuse_shut-open a s is_open open_ = rw (is_open) open_

materialise_entries-open :
    (txn : ℕ) (o : Option ℕ) (c : String) (m : Bool) (n : ℕ) (ls : List PostingLine) (s : Tables)
    → AreOpen s.accounts
    → Succeeds (materialise_entries txn o c m n ls) s (λ es t. AreOpen t.accounts)
unfolding materialise_entries
materialise_entries-open txn o c m n [] s open_ = open_
materialise_entries-open txn o c m n (l ∷ ls) s open_ =
    >>=-Succeeds (λ a t. IsOpen a × AreOpen t.accounts) Q
      (get_or_create (owner_of o l) l.account_type c m) _ s
      (get_or_create-IsOpen (owner_of o l) l c m s open_)
      (λ a got.
        >>=-Succeeds (λ u t. AreOpen t.accounts) Q (refuse_shut a) _ _
          (refuse_shut-open a _ got.0 got.1)
          (λ u passed.
            >>=-Succeeds (λ id t. AreOpen t.accounts) Q new_id _ _ passed
              (λ id drawn.
                >>=-Succeeds (λ es t. AreOpen t.accounts) Q
                  (materialise_entries txn o c m (n + 1) ls) _ _
                  (materialise_entries-open txn o c m (n + 1) ls _ drawn) (λ rest made. made))))
  where
    Q : List LedgerEntry → Tables → Type 0
    Q es t = AreOpen t.accounts

writes-open :
    (req : Request) (id : ℕ) (es : List LedgerEntry) (s : Tables)
    → AreOpen s.accounts
    → Succeeds (writes req id es) s (λ r t. AreOpen t.accounts)
unfolding ◌>>=◌ publish_posted
writes-open req id es s open_ = open_

post_claimed-open :
    (req : Request) (s : Tables)
    → AreOpen s.accounts
    → Succeeds
        (post_claimed req
          (record { transaction_id = s.next_id; created = true; fingerprint_matches = true }))
        (after_insert req s)
        (λ r t. AreOpen t.accounts)
unfolding post_claimed ◌>>=◌ get_or_raise
post_claimed-open req s open_ = rw (new_is_first req s.next_id s.transactions) (
    >>=-Succeeds (λ es t. AreOpen t.accounts) (λ r t. AreOpen t.accounts)
      (materialise_entries s.next_id req.merchant_id req.currency req.livemode 1 req.lines)
      (writes req s.next_id) (after_insert req s)
      (materialise_entries-open s.next_id req.merchant_id req.currency req.livemode 1 req.lines _
        open_)
      (λ es made. writes-open req s.next_id es _ made))

pub post-open :
    (req : Request) (s : Tables)
    → IsBalanced req.lines
    → find_by_idempotency_key req.idempotency_key s.transactions ≡ none
    → AreOpen s.accounts
    → Succeeds (post req) s (λ r t. AreOpen t.accounts)
unfolding post ◌>>=◌ claim_idempotency_key
post-open req s b fresh open_ =
    rw ((assert_invariants_iff req.lines).1 b, fresh) (post_claimed-open req s open_)

-- With legs that balance, a key that is free and no account frozen or closed, `post` returns: it
-- creates one transaction, with one entry for each leg in their order, numbered from 1, and the
-- transactions and entries of before stay as they are.
pub post-accepts :
    (req : Request) (s : Tables)
    → IsBalanced req.lines
    → find_by_idempotency_key req.idempotency_key s.transactions ≡ none
    → AreOpen s.accounts
    → (r : PostResult) × ((post req s).0 ≡ ok r) × IsPosted req s r (post req s).1
post-accepts req s b fresh open_ =
    let (r, returned, (_, outcome)) = run in (r, returned, posted r (post req s).1 outcome)
  where
    run :
        (r : PostResult) × ((post req s).0 ≡ ok r)
        × (IsBalanced req.lines
            × (IsPosted req s r (post req s).1 ⊎ IsReplayed req s r (post req s).1))
    run =
        Succeeds-run (λ r t. AreOpen t.accounts) _ (post req) s (post-open req s b fresh open_)
          (post_outcome req s)

    posted :
        (r : PostResult) (t : Tables)
        → IsPosted req s r t ⊎ IsReplayed req s r t
        → IsPosted req s r t
    posted r t (inl p) = p
    posted r t (inr p) = let (existing, owned, _) = p.owner in cc
