-- ===== src/Ledger/Poster/Fresh.antt =====
-- `LedgerPoster.post` (app/services/transactions.py) when a conflict raises: whatever it returns is
-- a new posting, and the cached balance of the merchant moves by its legs.
use payzeno_ledger.Prelude.{
  ℕ, ◌+◌, ◌≡◌, refl, sym, subst, String, Bool, Option, some, none, List, [], ◌∷◌, find, Bool-cases,
  inl, inr, ◌==◌, if◌then◌else◌,
}
use payzeno_ledger.Prelude.Int.{ℤ, pos, ◌+ℤ◌, neg_ℤ, int_laws, parts_of}
use payzeno_ledger.Chart.{
  available, Direction, debit, credit, merchant_payable, same_type, same_direction,
}
use payzeno_ledger.Posting.{PostingLine, signed}
use payzeno_ledger.Posting.Balance.{movement}
use payzeno_ledger.Ledger.{LedgerTransaction, Tables, ◌>>=◌}
use payzeno_ledger.Ledger.Actions.{Ensures}
use payzeno_ledger.Ledger.Transactions.{get_or_raise}
use payzeno_ledger.Ledger.Cache.{get_balance}
use payzeno_ledger.Ledger.Cache.Delta.{cached}
use payzeno_ledger.Ledger.Reports.Buckets.{type_of_bucket}
use payzeno_ledger.Ledger.Poster.{
  Request, PostResult, raise_error, signed_total, post, post_conflict,
}
use payzeno_ledger.Ledger.Poster.Movement.{is_posting_of, balances_after_lem, delta_of-deltas_of}
use payzeno_ledger.Ledger.Poster.Outcome.{
  IsPosted, post-Ensures, post_claimed-IsPosted, taken_claim,
}

post_conflict-raises :
    (existing : LedgerTransaction) (matches : Bool) (s : Tables) (found : Option LedgerTransaction)
    (Q : PostResult → Tables → Type 0)
    → find (λ (t : LedgerTransaction). t.id == existing.id) s.transactions ≡ found
    → Ensures
        (post_conflict raise_error (taken_claim existing matches))
        (record s { next_id = s.next_id + 1 })
        Q
unfolding post_conflict ◌>>=◌ get_or_raise
post_conflict-raises existing matches s none Q h = rw (h) tt
post_conflict-raises existing matches s (some t) Q h = rw (h) tt

pub post-IsPosted :
    (req : Request) (s : Tables)
    → req.on_conflict ≡ raise_error
    → Ensures (post req) s (IsPosted req s)
post-IsPosted req s raises =
    post-Ensures req s (IsPosted req s) (λ b free. post_claimed-IsPosted req s free)
      (λ b existing matches owned.
        subst
          (λ on_conflict.
            Ensures (post_conflict on_conflict (taken_claim existing matches))
              (record s { next_id = s.next_id + 1 }) (IsPosted req s))
          (sym raises) (post_conflict-raises existing matches s _ (IsPosted req s) refl))

-- The available balance that the cache gives.
abbrev pub available_minor : ℕ → String → Bool → Tables → ℤ
available_minor merchant currency livemode s =
    cached available (get_balance merchant currency livemode s.balances)

pub posted_moves :
    (req : Request) (s t : Tables) (r : PostResult)
    → IsPosted req s r t
    → (merchant : ℕ) (cur : String) (mode : Bool)
    → available_minor merchant cur mode t
      ≡ available_minor merchant cur mode s
        +ℤ (if is_posting_of req.merchant_id req.currency req.livemode merchant cur mode
            then signed_total merchant_payable req.lines
            else pos 0)
posted_moves req s t r p merchant cur mode =
    rw
      (
        p.balances,
        balances_after_lem available req.merchant_id req.currency req.livemode req.lines s.next_id
            s.balances merchant cur mode,
        delta_of-deltas_of available req.lines,
      )
      refl

add_leg :
    (d : Direction) (a x y : ℤ)
    → x +ℤ y ≡ pos 0
    → (if same_direction d credit then a else neg_ℤ a) +ℤ x +ℤ (signed d a +ℤ y) ≡ pos 0
add_leg debit a x y h = omega (int_laws, parts_of h)
add_leg credit a x y h = omega (int_laws, parts_of h)

add_zero : (x y : ℤ) → x +ℤ y ≡ pos 0 → pos 0 +ℤ x +ℤ (pos 0 +ℤ y) ≡ pos 0
add_zero x y h = omega (int_laws, parts_of h)

-- What the cache counts for the payable account is what the legs move there, credits positive.
signed_total-movement :
    (ls : List PostingLine)
    → signed_total merchant_payable ls +ℤ movement merchant_payable ls ≡ pos 0
unfolding signed_total movement
signed_total-movement [] = omega int_laws
signed_total-movement (l ∷ ls) = elim (Bool-cases (same_type l.account_type merchant_payable)) [
  | inl same ↦
      let payable : l.account_type ≡ merchant_payable =
        type_of_bucket l.account_type available same in
      rw (same, payable) (add_leg l.direction l.amount_minor _ _ (signed_total-movement ls))
  | inr other ↦ rw (other) (add_zero _ _ (signed_total-movement ls))
]

-- The cache's share of legs that move so much.
pub signed_total-moved :
    (ls : List PostingLine) (x : ℤ)
    → movement merchant_payable ls ≡ neg_ℤ x
    → signed_total merchant_payable ls ≡ x
signed_total-moved ls x h =
    let cancel = signed_total-movement ls in omega (int_laws, parts_of h, parts_of cancel)
