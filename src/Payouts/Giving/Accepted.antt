-- ===== src/Payouts/Giving/Accepted.antt =====
-- When the postings of a payout and its end are accepted, in app/services/payouts.py.
use payzeno_ledger.Prelude.{◌≡◌, refl, String, false, none, List, find, arith}
use payzeno_ledger.Prelude.Int.{ℤ, pos, ◌+ℤ◌, ◌≤ℤ◌, leb_ℤ, int_laws}
use payzeno_ledger.Errors.{ok}
use payzeno_ledger.Money.{Contracts}
use payzeno_ledger.Chart.{merchant_payable, fx_clearing}
use payzeno_ledger.Posting.{PostingLine, is_blank}
use payzeno_ledger.Posting.Balance.{IsBalanced, side_total}
use payzeno_ledger.Posting.Built.{built_pair}
use payzeno_ledger.Rules.{LedgerPurpose, PostingRule, build}
use payzeno_ledger.Rules.Payouts.{build_fx_payout_source}
use payzeno_ledger.Accounting.Cycles.{build_fx_payout_target_posts}
use payzeno_ledger.Accounting.Soundness.{build-IsBalanced}
use payzeno_ledger.Keys.{LedgerKey, same_key}
use payzeno_ledger.Payout.{Payout}
use payzeno_ledger.Ledger.{Tables}
use payzeno_ledger.Ledger.Actions.{Succeeds, Succeeds-and, >>=-Succeeds}
use payzeno_ledger.Ledger.Transactions.{find_by_idempotency_key}
use payzeno_ledger.Ledger.Poster.{Request, post}
use payzeno_ledger.Ledger.Poster.Acceptance.{AreOpen, post-open}
use payzeno_ledger.Ledger.Poster.Outcome.{IsPosted}
use payzeno_ledger.Ledger.Poster.Fresh.{post-IsPosted}
use payzeno_ledger.Payouts.{PayoutSettings}
use payzeno_ledger.Payouts.Postings.{
  fx_context, fx_target_lines, payout_request, reversal_lines, payout_lines, post_for_payout,
}

-- No transaction has the key.
abbrev pub IsFree : LedgerKey → Tables → Type 0
IsFree key s = find_by_idempotency_key key s.transactions ≡ none

-- After a posting under a key the payouts are as before, the accounts are open, and every other key
-- that was free is.
pub record IsReady (key : LedgerKey) (s : Tables) (t : Tables) : Type 0 where
  pub payouts : t.payouts ≡ s.payouts
  pub open_ : AreOpen t.accounts
  pub free : (other : LedgerKey) → same_key key other ≡ false → IsFree other s → IsFree other t

module _ (svc : PayoutSettings) (payout : Payout) (purpose : LedgerPurpose) (key : LedgerKey) where
  pub post_for_payout-Succeeds :
      (currency : String) (fingerprint : LedgerKey) (lines : List PostingLine) (s : Tables)
      → IsBalanced lines
      → IsFree key s
      → AreOpen s.accounts
      → Succeeds
          (post_for_payout svc payout purpose key currency fingerprint lines)
          s
          (λ id t. IsReady key s t)
  unfolding post_for_payout payout_request find_by_idempotency_key find
  post_for_payout-Succeeds currency fingerprint lines s balanced free open_ =
      >>=-Succeeds (λ r t. AreOpen t.accounts × IsPosted req s r t) (λ id t. IsReady key s t)
        (post req) _ s
        (Succeeds-and (λ r t. AreOpen t.accounts) (IsPosted req s) (post req) s
          (post-open req s balanced free open_) (post-IsPosted req s refl))
        (λ r (still, posted). record {
          payouts = posted.payouts;
          open_ = still;
          free = λ other differs unused. rw (posted.transactions, differs) unused;
        })
    where
      req : Request
      req = payout_request payout purpose key currency (svc.sha256_of fingerprint) lines

pub payout_lines-IsBalanced : (a : ℤ) → pos 1 ≤ℤ a → IsBalanced (payout_lines a)
unfolding side_total
payout_lines-IsBalanced a h = record {
  two_legs = omega arith;
  positive = (h, (h, tt));
  equal_sides = omega int_laws;
}

pub reversal_lines-IsBalanced : (a : ℤ) → pos 1 ≤ℤ a → IsBalanced (reversal_lines a)
unfolding side_total
reversal_lines-IsBalanced a h = record {
  two_legs = omega arith;
  positive = (h, (h, tt));
  equal_sides = omega int_laws;
}

module _ (contracts : Contracts) (payout : Payout) where
  pub fx_source_lines-accepted :
      (currency : String) (a : ℤ)
      → is_blank currency ≡ false
      → pos 1 ≤ℤ a
      → (lines : List PostingLine) × (build_fx_payout_source
            (fx_context payout currency a a (pos 0))
          ≡ ok lines)
        × IsBalanced lines
  unfolding build_fx_payout_source fx_context build
  fx_source_lines-accepted currency a named positive =
      let ctx = fx_context payout currency a a (pos 0) in
      let test : leb_ℤ a (pos 0) ≡ false = ground arith in
      let (lines, accepted, _) = built_pair ctx merchant_payable fx_clearing a named positive in
      let whole : build_fx_payout_source ctx ≡ ok lines = rw (test) accepted in
      (lines, whole, build-IsBalanced contracts PostingRule.fx_payout_source ctx whole)

  pub fx_target_lines-accepted :
      (paid spread : ℤ)
      → is_blank payout.currency ≡ false
      → pos 1 ≤ℤ paid
      → pos 0 ≤ℤ spread
      → (lines : List PostingLine) × (fx_target_lines payout (paid +ℤ spread) paid spread
          ≡ ok lines)
        × IsBalanced lines
  unfolding fx_target_lines fx_context build
  fx_target_lines-accepted paid spread named positive low =
      let ctx = fx_context payout payout.currency (paid +ℤ spread) paid spread in
      let (lines, accepted, _, _, _) = build_fx_payout_target_posts ctx named positive low refl in
      (lines, accepted, build-IsBalanced contracts PostingRule.fx_payout_target ctx accepted)
