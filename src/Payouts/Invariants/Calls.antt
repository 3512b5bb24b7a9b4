-- ===== src/Payouts/Invariants/Calls.antt =====
-- The calls of app/services/payouts.py keep the rows of payouts sound.
use payzeno_ledger.Prelude.{ℕ, sym, subst, String, Option, some, none, List, inl, inr, ◌⊎◌}
use payzeno_ledger.Errors.{Result, ok, err}
use payzeno_ledger.Posting.{PostingLine}
use payzeno_ledger.Posting.Balance.{IsBalanced}
use payzeno_ledger.Rules.{LedgerPurpose}
use payzeno_ledger.Fx.{FxConversion}
use payzeno_ledger.Keys.{LedgerKey}
use payzeno_ledger.Payout.{
  Payout, PayoutSource, PayoutStatus, scheduled, in_transit, paid, failed, returned, canceled,
  BankReference,
}
use payzeno_ledger.Ledger.{Tables, Action, PayoutEventType, lift, pure, new_id, ◌>>=◌, ◌>>◌}
use payzeno_ledger.Ledger.Actions.{OnOk, Ensures-weaken, Reads}
use payzeno_ledger.Ledger.Invariants.{Keeps, Keeps->>=}
use payzeno_ledger.Ledger.Poster.{Request, PostResult, post}
use payzeno_ledger.Ledger.Poster.Outcome.{IsPosted, IsReplayed, post_outcome}
use payzeno_ledger.Payouts.{PayoutRequest, PayoutSettings}
use payzeno_ledger.Payouts.Repository.{
  found_payout, get_payout, add_payout, save_payout, mark_returned, mark_in_transit,
}
use payzeno_ledger.Payouts.Postings.{
  payout_request, post_for_payout, post_payout, post_converted_payout, reverse_converted_payout,
  reverse_plain_payout, reverse_by_source, reverse_payout_posting,
}
use payzeno_ledger.Payouts.Destination.{Destination, destination_of}
use payzeno_ledger.Payouts.Creation.{amount_of_payout, post_created, insert_and_post, create_payout}
use payzeno_ledger.Payouts.Settling.{
  publish_payout, cancel_from, cancel_payout, pay, paid_from, mark_paid, return_payout, fail_payout,
  failed_from, mark_failed,
}
use payzeno_ledger.Payouts.Drawing.Reading.{destination_of-Reads}
use payzeno_ledger.Payouts.Drawing.Amount.{amount_of_payout-reads}
use payzeno_ledger.Payouts.Invariants.{
  AreSound, HasSoundPayouts, add_payout-Keeps, save_payout-Keeps,
}

abbrev pub KeepsPayouts : {A : Type 0} → Action A → Type 0
KeepsPayouts m = Keeps HasSoundPayouts m

holds_at_end :
    {A : Type 0} (r : Result A) (t : Tables)
    → HasSoundPayouts t
    → OnOk (λ a t. HasSoundPayouts t) r t
holds_at_end (ok a) t h = h
holds_at_end (err e) t h = tt

reading-KeepsPayouts : {A : Type 0} (m : Action A) → Reads m → KeepsPayouts m
reading-KeepsPayouts m reads s h =
    holds_at_end (m s).0 (m s).1 (subst HasSoundPayouts (sym (reads s)) h)

lift-KeepsPayouts : {A : Type 0} (r : Result A) → KeepsPayouts (lift r)
lift-KeepsPayouts r s h = holds_at_end r s h

lifted :
    {A B : Type 0} (r : Result A) (f : A → Action B)
    → ((a : A) → KeepsPayouts (f a))
    → KeepsPayouts (lift r >>= f)
lifted r f k = Keeps->>= HasSoundPayouts (lift r) f (lift-KeepsPayouts r) k

post-KeepsPayouts : (req : Request) → KeepsPayouts (post req)
post-KeepsPayouts req s sound =
    Ensures-weaken (λ r t. IsBalanced req.lines × (IsPosted req s r t ⊎ IsReplayed req s r t))
      (λ r t. HasSoundPayouts t) (post req) s (λ r t outcome. kept r t outcome.1)
      (post_outcome req s)
  where
    kept :
        (r : PostResult) (t : Tables)
        → IsPosted req s r t ⊎ IsReplayed req s r t
        → HasSoundPayouts t
    kept r t (inl p) = subst AreSound (sym p.payouts) sound
    kept r t (inr p) = subst AreSound (sym p.unchanged.payouts) sound

found-KeepsPayouts : (o : Option Payout) → KeepsPayouts (found_payout o)
found-KeepsPayouts (some p) s h = h
found-KeepsPayouts none s h = tt

get_payout-KeepsPayouts : (id : ℕ) → KeepsPayouts (get_payout id)
unfolding get_payout
get_payout-KeepsPayouts id s h = found-KeepsPayouts _ s h

publish-KeepsPayouts :
    (e : PayoutEventType) (p : Payout) (txn : Option ℕ) → KeepsPayouts (publish_payout e p txn)
unfolding publish_payout
publish-KeepsPayouts e p txn s h = h

told :
    (e : PayoutEventType) (p : Payout) (txn : Option ℕ)
    → KeepsPayouts (publish_payout e p txn >> pure p)
told e p txn =
    Keeps->>= HasSoundPayouts (publish_payout e p txn) _ (publish-KeepsPayouts e p txn) (λ u s h. h)

saved_and_told :
    (e : PayoutEventType) (p : Payout) (txn : Payout → Option ℕ)
    → KeepsPayouts (save_payout p >>= λ saved. publish_payout e saved (txn saved) >> pure saved)
saved_and_told e p txn =
    Keeps->>= HasSoundPayouts (save_payout p) _ (save_payout-Keeps p)
      (λ saved. told e saved (txn saved))

module _ (svc : PayoutSettings) where
  posting :
      (p : Payout) (purpose : LedgerPurpose) (key : LedgerKey) (c : String) (fp : LedgerKey)
      (ls : List PostingLine)
      → KeepsPayouts (post_for_payout svc p purpose key c fp ls)
  unfolding post_for_payout
  posting p purpose key c fp ls =
      Keeps->>= HasSoundPayouts (post (payout_request p purpose key c (svc.sha256_of fp) ls)) _
        (post-KeepsPayouts _) (λ r s h. h)

  created_posting : (p : Payout) (q : Option FxConversion) → KeepsPayouts (post_created svc p q)
  unfolding post_payout post_converted_payout
  created_posting p none = posting p _ _ _ _ _
  created_posting p (some q) = lifted _ _ (λ ls. lifted _ _ (λ ls'.
      Keeps->>= HasSoundPayouts (post_for_payout svc p _ _ _ _ ls) _ (posting p _ _ _ _ ls) (λ id.
        Keeps->>= HasSoundPayouts (post_for_payout svc p _ _ _ _ ls') _ (posting p _ _ _ _ ls')
          (λ other s h. h))))

  reversal :
      (p : Payout) (reason : String) (source : Option PayoutSource)
      → KeepsPayouts (reverse_by_source svc p reason source)
  unfolding reverse_plain_payout reverse_converted_payout
  reversal p reason none = posting p _ _ _ _ _
  reversal p reason (some source) = lifted _ _ (λ ls.
      Keeps->>= HasSoundPayouts (post_for_payout svc p _ _ _ _ _) _ (posting p _ _ _ _ _)
        (λ other. lifted _ _ (λ ls'. posting p _ _ _ _ _)))

  reverse-KeepsPayouts :
      (p : Payout) (reason : String) → KeepsPayouts (reverse_payout_posting svc p reason)
  unfolding reverse_payout_posting
  reverse-KeepsPayouts p reason = reversal p reason p.source

  insert-KeepsPayouts :
      (dest : Destination) (q : Option FxConversion) (p : Payout)
      → KeepsPayouts (insert_and_post svc dest q p)
  unfolding insert_and_post
  insert-KeepsPayouts dest q p =
      Keeps->>= HasSoundPayouts (add_payout p) _ (add_payout-Keeps p) (λ u.
        Keeps->>= HasSoundPayouts (post_created svc p q) _ (created_posting p q)
          (λ id. lifted _ _ (λ result. saved_and_told _ _ (λ saved. none))))

  pub create-KeepsPayouts :
      (merchant_id : ℕ) (req : PayoutRequest) → KeepsPayouts (create_payout svc merchant_id req)
  unfolding create_payout
  create-KeepsPayouts merchant_id req =
      Keeps->>= HasSoundPayouts (destination_of svc merchant_id req) _
        (reading-KeepsPayouts _ (destination_of-Reads svc merchant_id req))
        (λ dest.
          Keeps->>= HasSoundPayouts (amount_of_payout merchant_id req dest.livemode) _
            (reading-KeepsPayouts _ (amount_of_payout-reads merchant_id req dest.livemode))
            (λ amount. lifted _ _ (λ q. lifted _ _ (λ day.
              Keeps->>= HasSoundPayouts new_id _ (λ s h. h) (λ id. insert-KeepsPayouts dest q _)))))

  cancel_from-KeepsPayouts :
      (status : PayoutStatus) (p : Payout) → KeepsPayouts (cancel_from svc status p)
  unfolding cancel_from
  cancel_from-KeepsPayouts scheduled p =
      Keeps->>= HasSoundPayouts (save_payout _) _ (save_payout-Keeps _) (λ flushed.
        Keeps->>= HasSoundPayouts (reverse_payout_posting svc flushed _) _
          (reverse-KeepsPayouts flushed _) (λ id. save_payout-Keeps _))
  cancel_from-KeepsPayouts in_transit p = λ s h. tt
  cancel_from-KeepsPayouts paid p = λ s h. tt
  cancel_from-KeepsPayouts failed p = λ s h. tt
  cancel_from-KeepsPayouts returned p = λ s h. tt
  cancel_from-KeepsPayouts canceled p = λ s h. tt

  pub cancel-KeepsPayouts : (id : ℕ) → KeepsPayouts (cancel_payout svc id)
  unfolding cancel_payout
  cancel-KeepsPayouts id =
      Keeps->>= HasSoundPayouts (get_payout id) _ (get_payout-KeepsPayouts id)
        (λ p. cancel_from-KeepsPayouts p.status p)

  pay-KeepsPayouts : (reference : BankReference) (p : Payout) → KeepsPayouts (pay svc reference p)
  unfolding pay
  pay-KeepsPayouts reference p = saved_and_told _ _ (λ saved. saved.ledger_transaction_id)

  paid_from-KeepsPayouts :
      (status : PayoutStatus) (reference : BankReference) (p : Payout)
      → KeepsPayouts (paid_from svc status reference p)
  unfolding paid_from
  paid_from-KeepsPayouts paid reference p = λ s h. h
  paid_from-KeepsPayouts scheduled reference p = pay-KeepsPayouts reference p
  paid_from-KeepsPayouts in_transit reference p = pay-KeepsPayouts reference p
  paid_from-KeepsPayouts failed reference p = pay-KeepsPayouts reference p
  paid_from-KeepsPayouts returned reference p = pay-KeepsPayouts reference p
  paid_from-KeepsPayouts canceled reference p = pay-KeepsPayouts reference p

  pub mark_paid-KeepsPayouts :
      (id : ℕ) (reference : BankReference) → KeepsPayouts (mark_paid svc id reference)
  unfolding mark_paid
  mark_paid-KeepsPayouts id reference =
      Keeps->>= HasSoundPayouts (get_payout id) _ (get_payout-KeepsPayouts id)
        (λ p. paid_from-KeepsPayouts p.status reference p)

  mark_returned-KeepsPayouts :
      (id : ℕ) (code message : String) (undone : ℕ)
      → KeepsPayouts (mark_returned id code message undone)
  unfolding mark_returned
  mark_returned-KeepsPayouts id code message undone =
      Keeps->>= HasSoundPayouts (get_payout id) _ (get_payout-KeepsPayouts id)
        (λ p. save_payout-Keeps _)

  return-KeepsPayouts :
      (code message : String) (p : Payout) → KeepsPayouts (return_payout svc code message p)
  unfolding return_payout
  return-KeepsPayouts code message p =
      Keeps->>= HasSoundPayouts (reverse_payout_posting svc p code) _ (reverse-KeepsPayouts p code)
        (λ id.
          Keeps->>= HasSoundPayouts (mark_returned p.id code message id) _
            (mark_returned-KeepsPayouts p.id code message id) (λ q. told _ q _))

  fail-KeepsPayouts :
      (code message : String) (p : Payout) → KeepsPayouts (fail_payout svc code message p)
  unfolding fail_payout
  fail-KeepsPayouts code message p =
      Keeps->>= HasSoundPayouts (reverse_payout_posting svc p code) _ (reverse-KeepsPayouts p code)
        (λ id. saved_and_told _ _ (λ saved. some id))

  failed_from-KeepsPayouts :
      (status : PayoutStatus) (code message : String) (p : Payout)
      → KeepsPayouts (failed_from svc status code message p)
  unfolding failed_from
  failed_from-KeepsPayouts failed code message p = λ s h. h
  failed_from-KeepsPayouts returned code message p = λ s h. h
  failed_from-KeepsPayouts paid code message p = return-KeepsPayouts code message p
  failed_from-KeepsPayouts in_transit code message p = return-KeepsPayouts code message p
  failed_from-KeepsPayouts scheduled code message p = fail-KeepsPayouts code message p
  failed_from-KeepsPayouts canceled code message p = fail-KeepsPayouts code message p

  pub mark_failed-KeepsPayouts :
      (id : ℕ) (code message : String) → KeepsPayouts (mark_failed svc id code message)
  unfolding mark_failed
  mark_failed-KeepsPayouts id code message =
      Keeps->>= HasSoundPayouts (get_payout id) _ (get_payout-KeepsPayouts id)
        (λ p. failed_from-KeepsPayouts p.status code message p)

pub in_transit-KeepsPayouts :
    (id : ℕ) (reference : Option BankReference) → KeepsPayouts (mark_in_transit id reference)
unfolding mark_in_transit
in_transit-KeepsPayouts id reference =
    Keeps->>= HasSoundPayouts (get_payout id) _ (get_payout-KeepsPayouts id)
      (λ p. save_payout-Keeps _)
