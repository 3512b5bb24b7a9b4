-- ===== src/Payouts/Movement.antt =====
-- What the postings of a payout in app/services/payouts.py do to the available balances: the payout
-- takes its amount from the one balance it is drawn from, and the reversal gives it back.
pub mod Both
use payzeno_ledger.Prelude.{
  ℕ, ◌+◌, ◌≡◌, refl, ap, ◌∙◌, String, Bool, true, false, Option, some, none, List, [], ◌∷◌,
  if◌then◌else◌, ◌++◌, append_assoc, Any, Any-append, inl, inr, not, ◌||◌,
}
use payzeno_ledger.Prelude.Int.{ℤ, pos, ◌+ℤ◌, neg_ℤ, leb_ℤ, ltb_ℤ, eqb_ℤ, int_laws, parts_of}
use payzeno_ledger.Errors.{
  Result, ok, err, Error, raise_if, ◌>>◌, validation, conversion_amounts,
  mid_not_payout_plus_spread,
}
use payzeno_ledger.Chart.{merchant_payable, cash, fx_clearing, fx_revenue}
use payzeno_ledger.Posting.{PostingContext, PostingLine, debit_line, credit_line, built}
use payzeno_ledger.Posting.Balance.{movement}
use payzeno_ledger.Posting.Built.{built-moves_same}
use payzeno_ledger.Posting.Mirror.{mirrored, movement-mirrored}
use payzeno_ledger.Rules.{LedgerPurpose}
use payzeno_ledger.Rules.Payouts.{build_fx_payout_source, build_fx_payout_target}
use payzeno_ledger.Fx.{FxConversion, spread_minor}
use payzeno_ledger.Keys.{LedgerKey}
use payzeno_ledger.Payout.{Payout, PayoutSource, balance_currency, balance_amount_minor}
use payzeno_ledger.Ledger.{Tables, LedgerTransaction, lift, pure, ◌>>=◌}
use payzeno_ledger.Ledger.Actions.{Ensures, >>=-Ensures, Ensures-weaken, lift->>=-Ensures}
use payzeno_ledger.Ledger.Poster.{Request, PostResult, row_of, post}
use payzeno_ledger.Ledger.Poster.Movement.{is_posting_of}
use payzeno_ledger.Ledger.Poster.Outcome.{IsPosted}
use payzeno_ledger.Ledger.Poster.Fresh.{
  post-IsPosted, available_minor, posted_moves, signed_total-moved,
}
use payzeno_ledger.Payouts.{PayoutSettings}
use payzeno_ledger.Payouts.Postings.{
  fx_context, fx_source_lines, fx_target_lines, payout_request, payout_lines, reversal_lines,
  post_for_payout, post_payout, post_converted_payout, reverse_converted_payout,
  reverse_plain_payout, reverse_by_source, reverse_payout_posting,
}

-- One available balance moves by so much, and no other moves.
abbrev pub Moves : ℕ → String → Bool → ℤ → Tables → Tables → Type 0
Moves merchant_id currency livemode delta s t =
    (merchant : ℕ) (cur : String) (mode : Bool)
    → available_minor merchant cur mode t
      ≡ available_minor merchant cur mode s
        +ℤ (if is_posting_of (some merchant_id) currency livemode merchant cur mode
            then delta
            else pos 0)

abbrev pub IsAbout : Payout → LedgerPurpose → ℕ → LedgerTransaction → Type 0
IsAbout payout purpose id txn =
    (txn.id ≡ id) × (txn.purpose ≡ purpose) × (txn.reference_id ≡ payout.id)

-- The payouts stay, a transaction about the payout was added, and a balance moved.
pub record IsPayoutPosting (payout : Payout) (purpose : LedgerPurpose) (currency : String)
    (delta : ℤ) (s : Tables) (transaction_id : ℕ) (t : Tables) : Type 0 where
  pub payouts : t.payouts ≡ s.payouts
  pub moved : Moves payout.merchant_id currency payout.livemode delta s t
  pub transaction : Any (IsAbout payout purpose transaction_id) t.transactions
  pub later : (newer : List LedgerTransaction) × (t.transactions ≡ newer ++ s.transactions)

module _ (svc : PayoutSettings) (payout : Payout) (purpose : LedgerPurpose) where
  pub post_for_payout-IsPayoutPosting :
      (key : LedgerKey) (currency : String) (fingerprint : LedgerKey) (lines : List PostingLine)
      (delta : ℤ) (s : Tables)
      → movement merchant_payable lines ≡ neg_ℤ delta
      → Ensures
          (post_for_payout svc payout purpose key currency fingerprint lines)
          s
          (IsPayoutPosting payout purpose currency delta s)
  unfolding post_for_payout payout_request
  post_for_payout-IsPayoutPosting key currency fingerprint lines delta s moves =
      >>=-Ensures (IsPosted req s) (IsPayoutPosting payout purpose currency delta s) (post req) _ s
        (post-IsPosted req s refl)
        (λ r p. record {
          payouts = p.payouts;
          moved = λ merchant cur mode.
              posted_moves req s _ r p merchant cur mode
              ∙ rw (signed_total-moved lines delta moves) refl;
          transaction = rw (p.transactions) (inl (id_of r p.transaction, refl, refl));
          later = (row_of req s.next_id ∷ [], p.transactions);
        })
    where
      req : Request
      req = payout_request payout purpose key currency (svc.sha256_of fingerprint) lines

      id_of : (r : PostResult) → r.transaction ≡ row_of req s.next_id → s.next_id ≡ r.transaction.id
      id_of r h = rw (h) refl

pub payout_moves : (a : ℤ) → movement merchant_payable (payout_lines a) ≡ neg_ℤ (neg_ℤ a)
unfolding movement
payout_moves a = omega int_laws

pub reversal_moves : (a : ℤ) → movement merchant_payable (reversal_lines a) ≡ neg_ℤ a
unfolding movement
reversal_moves a = omega int_laws

after_test :
    (test : Bool) (e : Error) (built_ : Result (List PostingLine)) {out : List PostingLine}
    → (raise_if test e >> built_) ≡ ok out
    → built_ ≡ ok out
after_test true e built_ h = cc
after_test false e built_ h = h

abbrev source_legs : ℤ → List PostingLine
source_legs a = debit_line merchant_payable a ∷ credit_line fx_clearing a ∷ []

abbrev target_legs : (mid paid spread : ℤ) → List PostingLine
target_legs mid paid spread =
    debit_line fx_clearing mid ∷ credit_line cash paid ∷ credit_line fx_revenue spread ∷ []

source_legs_move : (a : ℤ) → movement merchant_payable (source_legs a) ≡ neg_ℤ (neg_ℤ a)
unfolding movement
source_legs_move a = omega int_laws

target_legs_move :
    (mid paid spread : ℤ) → movement merchant_payable (target_legs mid paid spread) ≡ neg_ℤ (pos 0)
unfolding movement
target_legs_move mid paid spread = omega int_laws

pub source_moves :
    (payout : Payout) (a : ℤ) {out : List PostingLine}
    → fx_source_lines payout a ≡ ok out
    → movement merchant_payable out ≡ neg_ℤ (neg_ℤ a)
unfolding fx_source_lines fx_context build_fx_payout_source
source_moves payout a h =
    built-moves_same (fx_context payout (balance_currency payout) a a (pos 0)) (source_legs a)
      (after_test _ _ _ h) merchant_payable
    ∙ source_legs_move a

pub target_moves :
    (payout : Payout) (mid paid spread : ℤ) {out : List PostingLine}
    → fx_target_lines payout mid paid spread ≡ ok out
    → movement merchant_payable out ≡ neg_ℤ (pos 0)
unfolding fx_target_lines fx_context build_fx_payout_target
target_moves payout mid paid spread h =
    let first =
      after_test (leb_ℤ paid (pos 0) || ltb_ℤ spread (pos 0)) (validation conversion_amounts)
        (raise_if (not (eqb_ℤ mid (paid +ℤ spread))) (validation mid_not_payout_plus_spread)
          >> built (fx_context payout payout.currency mid paid spread)
              (target_legs mid paid spread))
        h in
    built-moves_same (fx_context payout payout.currency mid paid spread)
      (target_legs mid paid spread)
      (after_test (not (eqb_ℤ mid (paid +ℤ spread))) (validation mid_not_payout_plus_spread) _
        first)
      merchant_payable
    ∙ target_legs_move mid paid spread

pub mirrored_moves :
    (lines : List PostingLine) (a : ℤ)
    → movement merchant_payable lines ≡ neg_ℤ a
    → movement merchant_payable (mirrored lines) ≡ neg_ℤ (neg_ℤ a)
mirrored_moves lines a h =
    let cancel = movement-mirrored merchant_payable lines in
    omega (int_laws, parts_of h, parts_of cancel)

pub given_back :
    (lines : List PostingLine) (a : ℤ)
    → movement merchant_payable lines ≡ neg_ℤ (neg_ℤ a)
    → movement merchant_payable (mirrored lines) ≡ neg_ℤ a
given_back lines a h =
    let cancel = movement-mirrored merchant_payable lines in
    omega (int_laws, parts_of h, parts_of cancel)

-- A second posting that moves nothing, after one or before it.
module _ (payout : Payout) (purpose : LedgerPurpose) (c c' : String) (delta : ℤ) where
  no_more : (x : ℤ) (b : Bool) → x +ℤ (if b then pos 0 else pos 0) ≡ x
  no_more x true = omega int_laws
  no_more x false = omega int_laws

  moves_last :
      (s t u : Tables)
      → Moves payout.merchant_id c' payout.livemode (pos 0) s t
      → Moves payout.merchant_id c payout.livemode delta t u
      → Moves payout.merchant_id c payout.livemode delta s u
  moves_last s t u h k merchant cur mode =
      k merchant cur mode
      ∙ ap
          (λ x.
            x
            +ℤ (if is_posting_of (some payout.merchant_id) c payout.livemode merchant cur mode
                then delta
                else pos 0))
          (h merchant cur mode
            ∙ no_more _
                (is_posting_of (some payout.merchant_id) c' payout.livemode merchant cur mode))

  moves_first :
      (s t u : Tables)
      → Moves payout.merchant_id c payout.livemode delta s t
      → Moves payout.merchant_id c' payout.livemode (pos 0) t u
      → Moves payout.merchant_id c payout.livemode delta s u
  moves_first s t u h k merchant cur mode =
      k merchant cur mode
      ∙ no_more _ (is_posting_of (some payout.merchant_id) c' payout.livemode merchant cur mode)
      ∙ h merchant cur mode

  pub nothing_before :
      (s t u : Tables) (id other : ℕ)
      → IsPayoutPosting payout purpose c' (pos 0) s other t
      → IsPayoutPosting payout purpose c delta t id u
      → IsPayoutPosting payout purpose c delta s id u
  nothing_before s t u id other h k =
      let (older, same) = h.later in
      let (newer, same') = k.later in
      record {
        payouts = k.payouts ∙ h.payouts;
        moved = moves_last s t u h.moved k.moved;
        transaction = k.transaction;
        later = (newer ++ older, rw (same', same, append_assoc newer older s.transactions) refl);
      }

  pub then_nothing :
      (s t u : Tables) (id other : ℕ)
      → IsPayoutPosting payout purpose c delta s id t
      → IsPayoutPosting payout purpose c' (pos 0) t other u
      → IsPayoutPosting payout purpose c delta s id u
  then_nothing s t u id other h k =
      let (older, same) = h.later in
      let (newer, same') = k.later in
      record {
        payouts = k.payouts ∙ h.payouts;
        moved = moves_first s t u h.moved k.moved;
        transaction = rw (same') (Any-append _ newer t.transactions h.transaction);
        later = (newer ++ older, rw (same', same, append_assoc newer older s.transactions) refl);
      }
