-- ===== src/Payouts/Giving/Ends.antt =====
-- `mark_failed` and `cancel_payout` of app/services/payouts.py, from every status.
use payzeno_ledger.Prelude.{
  ℕ, ◌≡◌, refl, sym, subst, String, true, false, some, List, [], ◌∷◌, ◌==◌, ==_iff, ◌⊎◌, inl, inr,
  find, find-eq_some, arith,
}
use payzeno_ledger.Errors.{ok}
use payzeno_ledger.Payout.{
  Payout, PayoutStatus, scheduled, in_transit, paid, failed, returned, canceled, reversed_status,
}
use payzeno_ledger.Ledger.{Tables, ◌>>=◌}
use payzeno_ledger.Ledger.Actions.{Ensures, Ensures-weaken}
use payzeno_ledger.Payouts.{PayoutSettings}
use payzeno_ledger.Payouts.Repository.{payout_by_id, get_payout, replace_payout}
use payzeno_ledger.Payouts.Settling.{fail_payout, return_payout, failed_from, mark_failed}
use payzeno_ledger.Payouts.Giving.{
  get_payout-Ensures, IsGivenBack, fail_payout-IsGivenBack, return_payout-IsGivenBack,
}

-- The status that a failure leads to: the bank returned what was already under way.
abbrev pub end_of : PayoutStatus → PayoutStatus
end_of scheduled = failed
end_of canceled = failed
end_of in_transit = returned
end_of paid = returned
end_of failed = failed
end_of returned = returned

-- What `mark_failed` returns of a payout: itself, when it failed or was returned before, and else
-- the payout with its end and with its amount given back.
abbrev pub IsFailure : Payout → Tables → Payout → Tables → Type 0
IsFailure p0 s p t =
    ((reversed_status p0.status ≡ true) × (p ≡ p0) × (t ≡ s))
    ⊎ ((reversed_status p0.status ≡ false) × IsGivenBack p0 (end_of p0.status) s p t)

module _ (svc : PayoutSettings) (code message : String) where
  failed_from-IsFailure :
      (status : PayoutStatus) (p0 : Payout) (s : Tables)
      → p0.status ≡ status
      → payout_by_id p0.id s.payouts ≡ some p0
      → Ensures (failed_from svc status code message p0) s (λ p t.
        ((reversed_status status ≡ true) × (p ≡ p0) × (t ≡ s))
        ⊎ ((reversed_status status ≡ false) × IsGivenBack p0 (end_of status) s p t))
  unfolding failed_from reversed_status
  failed_from-IsFailure failed p0 s h stored = inl (refl, refl, refl)
  failed_from-IsFailure returned p0 s h stored = inl (refl, refl, refl)
  failed_from-IsFailure paid p0 s h stored =
      Ensures-weaken (IsGivenBack p0 returned s) _ (return_payout svc code message p0) s
        (λ p t given. inr (refl, given)) (return_payout-IsGivenBack svc code message p0 s stored)
  failed_from-IsFailure in_transit p0 s h stored =
      Ensures-weaken (IsGivenBack p0 returned s) _ (return_payout svc code message p0) s
        (λ p t given. inr (refl, given)) (return_payout-IsGivenBack svc code message p0 s stored)
  failed_from-IsFailure scheduled p0 s h stored =
      Ensures-weaken (IsGivenBack p0 failed s) _ (fail_payout svc code message p0) s
        (λ p t given. inr (refl, given)) (fail_payout-IsGivenBack svc code message p0 s)
  failed_from-IsFailure canceled p0 s h stored =
      Ensures-weaken (IsGivenBack p0 failed s) _ (fail_payout svc code message p0) s
        (λ p t given. inr (refl, given)) (fail_payout-IsGivenBack svc code message p0 s)

  pub id_of_found :
      (id : ℕ) (s : Tables) (p0 : Payout) → payout_by_id id s.payouts ≡ some p0 → p0.id ≡ id
  unfolding payout_by_id
  id_of_found id s p0 found =
      (==_iff p0.id id).0 (find-eq_some (λ (p : Payout). p.id == id) s.payouts found)

  -- When `mark_failed` returns, the payout existed, and it either had failed or been returned before
  -- and nothing is written, or it now is `returned` if it was in transit or paid, and `failed` if it
  -- was scheduled or cancelled, with its amount given back to the balance that it was drawn from and to no other.
  pub mark_failed-IsFailure :
      (id : ℕ) (s : Tables)
      → Ensures
          (mark_failed svc id code message)
          s
          (λ p t. (p0 : Payout) × (payout_by_id id s.payouts ≡ some p0) × IsFailure p0 s p t)
  unfolding mark_failed
  mark_failed-IsFailure id s = get_payout-Ensures id _ Q s (λ p0 found.
      Ensures-weaken (IsFailure p0 s) Q (failed_from svc p0.status code message p0) s
        (λ p t outcome. (p0, found, outcome))
        (failed_from-IsFailure p0.status p0 s refl (
          subst (λ i. payout_by_id i s.payouts ≡ some p0) (sym (id_of_found id s p0 found)) found)))
    where
      Q : Payout → Tables → Type 0
      Q p t = (p0 : Payout) × (payout_by_id id s.payouts ≡ some p0) × IsFailure p0 s p t

  failed_from-again :
      (status : PayoutStatus) (p : Payout) (t : Tables)
      → reversed_status status ≡ true
      → failed_from svc status code message p t ≡ (ok p, t)
  unfolding failed_from reversed_status
  failed_from-again failed p t h = refl
  failed_from-again returned p t h = refl
  failed_from-again scheduled p t h = cc
  failed_from-again in_transit p t h = cc
  failed_from-again paid p t h = cc
  failed_from-again canceled p t h = cc

  pub mark_failed-again :
      (id : ℕ) (p : Payout) (t : Tables)
      → payout_by_id id t.payouts ≡ some p
      → reversed_status p.status ≡ true
      → mark_failed svc id code message t ≡ (ok p, t)
  unfolding mark_failed get_payout ◌>>=◌
  mark_failed-again id p t found ended = rw (found) (failed_from-again p.status p t ended)

pub stored_after :
    (id : ℕ) (p0 p : Payout) (ps : List Payout)
    → payout_by_id id ps ≡ some p0
    → p.id ≡ id
    → payout_by_id id (replace_payout p ps) ≡ some p
unfolding payout_by_id find replace_payout
stored_after id p0 p [] found same = cc
stored_after id p0 p (q ∷ qs) found same = ground (arith, stored_after id p0 p qs)
