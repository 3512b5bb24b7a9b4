-- ===== src/Payouts/RoundTrip.antt =====
-- A payout of app/services/payouts.py that is created and then fails, and a failure that is told
-- twice.
use payzeno_ledger.Prelude.{
  ℕ, ◌≡◌, refl, ap, sym, ◌∙◌, subst, String, Bool, true, false, some, List, ◌∷◌, ==_iff, inl, inr,
  find, Any, if◌then◌else◌,
}
use payzeno_ledger.Prelude.Int.{ℤ, pos, ◌+ℤ◌, neg_ℤ, int_laws}
use payzeno_ledger.Errors.{ok}
use payzeno_ledger.Rules.{LedgerPurpose}
use payzeno_ledger.Payout.{
  Payout, PayoutStatus, scheduled, in_transit, paid, failed, returned, canceled, reversed_status,
  balance_amount_minor,
}
use payzeno_ledger.Ledger.{Tables, ◌>>=◌}
use payzeno_ledger.Ledger.Actions.{Ensures, >>=-Ensures, Ensures-weaken, Ensures-returned}
use payzeno_ledger.Ledger.Poster.Movement.{is_posting_of}
use payzeno_ledger.Ledger.Poster.Fresh.{available_minor}
use payzeno_ledger.Payouts.{PayoutRequest, PayoutSettings}
use payzeno_ledger.Payouts.Repository.{payout_by_id}
use payzeno_ledger.Payouts.Settling.{mark_failed}
use payzeno_ledger.Payouts.Creation.{create_payout}
use payzeno_ledger.Payouts.Movement.{IsAbout}
use payzeno_ledger.Payouts.Drawing.Created.{IsCreated, create_payout-IsCreated}
use payzeno_ledger.Payouts.Giving.{IsGivenBack}
use payzeno_ledger.Payouts.Giving.Ends.{
  end_of, IsFailure, mark_failed-IsFailure, mark_failed-again, stored_after, id_of_found,
}

-- Every available balance is as it was, and the payout has failed with a reversal.
pub record IsUndone (s : Tables) (p : Payout) (t : Tables) : Type 0 where
  pub has_failed : p.status ≡ failed
  pub restored :
      (merchant : ℕ) (cur : String) (mode : Bool)
      → available_minor merchant cur mode t ≡ available_minor merchant cur mode s
  pub reversal :
      (transaction_id : ℕ) × (p.reversal_transaction_id ≡ some transaction_id)
      × Any (IsAbout p LedgerPurpose.payout_reversal transaction_id) t.transactions

cancels : (x a : ℤ) (b : Bool) → x +ℤ (if b then neg_ℤ a else pos 0) +ℤ (if b then a else pos 0) ≡ x
cancels x a true = omega int_laws
cancels x a false = omega int_laws

found_first :
    (p q : Payout) (ps rows : List Payout) → rows ≡ p ∷ ps → payout_by_id p.id rows ≡ some q → q ≡ p
unfolding payout_by_id find
found_first p q ps rows first found =
    let here : payout_by_id p.id (p ∷ ps) ≡ some p = rw ((==_iff p.id p.id).1 refl) refl in
    some_eq (sym found ∙ ap (payout_by_id p.id) first ∙ here)
  where
    some_eq : {p q : Payout} → some p ≡ some q → p ≡ q
    some_eq h = cc

scheduled_fails :
    (p0 p : Payout) (u t : Tables)
    → p0.status ≡ scheduled
    → IsFailure p0 u p t
    → IsGivenBack p0 failed u p t
unfolding reversed_status
scheduled_fails p0 p u t sch (inl (h, same, still)) =
    let bad : reversed_status scheduled ≡ true = subst (λ st. reversed_status st ≡ true) sch h in cc
scheduled_fails p0 p u t sch (inr (h, given)) =
    subst (λ st. IsGivenBack p0 (end_of st) u p t) sch given

module _ (svc : PayoutSettings) (merchant_id : ℕ) (req : PayoutRequest) (s : Tables) where
  undone :
      (p0 p : Payout) (u t : Tables)
      → IsCreated merchant_id req s p0 u
      → IsGivenBack p0 failed u p t
      → IsUndone s p t
  undone p0 p u t made given = record {
    has_failed = given.ended;
    restored = λ merchant cur mode.
        given.given_back merchant cur mode
        ∙ rw (made.owner, made.currency, made.drawn merchant cur mode)
            (cancels _ (balance_amount_minor p0)
              (is_posting_of (some merchant_id) req.currency p0.livemode merchant cur mode));
    reversal =
        let (id, named, about) = given.reversal in
        (
          id,
          named,
          subst
              (λ i.
                Any
                  (λ txn.
                    (txn.id ≡ id)
                    × (txn.purpose ≡ LedgerPurpose.payout_reversal)
                    × (txn.reference_id ≡ i))
                  t.transactions)
              (sym given.same_id) about,
        );
  }

  by_outcome :
      (p0 p1 p : Payout) (u t : Tables)
      → IsCreated merchant_id req s p0 u
      → p1 ≡ p0
      → IsFailure p1 u p t
      → IsUndone s p t
  by_outcome p0 p1 p u t made same outcome =
      undone p0 p u t made
        (scheduled_fails p0 p u t made.is_scheduled (subst (λ q. IsFailure q u p t) same outcome))

  -- When a payout is created and then fails, and both calls return, every available balance is as it
  -- was before, in each currency and mode, and the payout has failed and names a reversal that was
  -- posted for it; whether or not the payout was converted.
  pub create_payout-mark_failed :
      (code message : String)
      → Ensures
          (create_payout svc merchant_id req >>= λ p. mark_failed svc p.id code message)
          s
          (IsUndone s)
  create_payout-mark_failed code message =
      >>=-Ensures (IsCreated merchant_id req s) (IsUndone s) (create_payout svc merchant_id req)
        (λ p. mark_failed svc p.id code message) s (create_payout-IsCreated svc merchant_id req s)
        (λ p0 made.
          Ensures-weaken
            (λ p t.
              (p1 : Payout) × (payout_by_id p0.id (create_payout svc merchant_id req s).1.payouts
                ≡ some p1)
              × IsFailure p1 (create_payout svc merchant_id req s).1 p t)
            (IsUndone s) (mark_failed svc p0.id code message)
            (create_payout svc merchant_id req s).1
            (λ p t (p1, found, outcome).
              by_outcome p0 p1 p _ t made (found_first p0 p1 s.payouts _ made.payouts found)
                outcome)
            (mark_failed-IsFailure svc code message p0.id (create_payout svc merchant_id req s).1))

end_of-reversed : (status : PayoutStatus) → reversed_status (end_of status) ≡ true
unfolding reversed_status
end_of-reversed scheduled = refl
end_of-reversed canceled = refl
end_of-reversed in_transit = refl
end_of-reversed paid = refl
end_of-reversed failed = refl
end_of-reversed returned = refl

-- A payout that failed or was returned is left alone by a second failure: the call returns the same
-- row and writes nothing.
pub mark_failed-mark_failed :
    (svc : PayoutSettings) (id : ℕ) (code message code' message' : String) (s t : Tables)
    (p : Payout)
    → mark_failed svc id code message s ≡ (ok p, t)
    → mark_failed svc id code' message' t ≡ (ok p, t)
mark_failed-mark_failed svc id code message code' message' s t p ran =
    let (p0, found, outcome) =
      Ensures-returned _ (mark_failed svc id code message) s t p ran
        (mark_failed-IsFailure svc code message id s) in
    by_outcome' p0 found outcome
  where
    by_outcome' :
        (p0 : Payout)
        → payout_by_id id s.payouts ≡ some p0
        → IsFailure p0 s p t
        → mark_failed svc id code' message' t ≡ (ok p, t)
    by_outcome' p0 found (inl (ended, same, still)) =
        mark_failed-again svc code' message' id p t
          (subst (λ u. payout_by_id id u.payouts ≡ some p) (sym still) (found ∙ ap some (sym same)))
          (subst (λ q. reversed_status q.status ≡ true) (sym same) ended)
    by_outcome' p0 found (inr (open_, given)) =
        mark_failed-again svc code' message' id p t
          (subst (λ rows. payout_by_id id rows ≡ some p) (sym given.payouts)
            (stored_after id p0 p s.payouts found
              (given.same_id ∙ id_of_found svc code message id s p0 found)))
          (subst (λ st. reversed_status st ≡ true) (sym given.ended) (end_of-reversed p0.status))
