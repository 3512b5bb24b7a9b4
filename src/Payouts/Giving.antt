-- ===== src/Payouts/Giving.antt =====
-- How payouts end in app/services/payouts.py: a payout that fails, is returned or is cancelled gives
-- its amount back, and names the transaction that did so.
pub mod Ends
pub mod Accepted
pub mod Failing
pub mod Paid
use payzeno_ledger.Prelude.{
  ℕ, ◌≡◌, refl, ap, sym, ◌∙◌, subst, String, Bool, true, false, Option, some, none, List, [], ◌∷◌,
  ◌==◌, ==_iff, ◌⊎◌, inl, inr, Any, find, Bool-cases, if◌then◌else◌, find-eq_some,
}
use payzeno_ledger.Errors.{Result, ok, err}
use payzeno_ledger.Rules.{LedgerPurpose}
use payzeno_ledger.Payout.{
  Payout, PayoutStatus, scheduled, in_transit, paid, failed, returned, canceled, reversed_status,
  balance_currency, balance_amount_minor,
}
use payzeno_ledger.Ledger.{Tables, Action, payout_failed, payout_returned, pure, ◌>>=◌, ◌>>◌}
use payzeno_ledger.Ledger.Actions.{Ensures, >>=-Ensures, Ensures-weaken}
use payzeno_ledger.Payouts.{PayoutSettings}
use payzeno_ledger.Payouts.Repository.{
  found_payout, payout_by_id, get_payout, replace_payout, save_payout, mark_returned,
}
use payzeno_ledger.Payouts.Postings.{reverse_payout_posting}
use payzeno_ledger.Payouts.Settling.{
  publish_payout, fail_payout, return_payout, failed_from, mark_failed,
}
use payzeno_ledger.Payouts.Flushing.{
  publish_payout-Ensures, save_payout-Ensures, save_and_publish-Ensures,
}
use payzeno_ledger.Payouts.Movement.{Moves, IsAbout, IsPayoutPosting}
use payzeno_ledger.Payouts.Movement.Both.{reverse_payout_posting-IsPayoutPosting}

module _ {B : Type 0} (id : ℕ) (f : Payout → Action B) (Q : B → Tables → Type 0) where
  found-Ensures :
      (found : Option Payout) (s : Tables)
      → ((p : Payout) → found ≡ some p → Ensures (f p) s Q)
      → Ensures (found_payout found >>= f) s Q
  unfolding ◌>>=◌
  found-Ensures (some p) s k = k p refl
  found-Ensures none s k = tt

  pub get_payout-Ensures :
      (s : Tables)
      → ((p : Payout) → payout_by_id id s.payouts ≡ some p → Ensures (f p) s Q)
      → Ensures (get_payout id >>= f) s Q
  unfolding get_payout ◌>>=◌
  get_payout-Ensures s k = found-Ensures (payout_by_id id s.payouts) s k

-- The payout that was p0 is p, with its end; its amount was given back to the balance that it was
-- drawn from, by a reversal that it names.
pub record IsGivenBack (p0 : Payout) (end : PayoutStatus) (s : Tables) (p : Payout) (t : Tables)
    : Type 0 where
  pub same_id : p.id ≡ p0.id
  pub ended : p.status ≡ end
  pub payouts : t.payouts ≡ replace_payout p s.payouts
  pub given_back :
      Moves p0.merchant_id (balance_currency p0) p0.livemode (balance_amount_minor p0) s t
  pub reversal :
      (transaction_id : ℕ) × (p.reversal_transaction_id ≡ some transaction_id)
      × Any (IsAbout p0 LedgerPurpose.payout_reversal transaction_id) t.transactions

some_eq : {p q : Payout} → some p ≡ some q → p ≡ q
some_eq h = cc

-- The row of a payout that ended
abbrev pub ended_row : PayoutStatus → String → String → ℕ → Payout → Payout
ended_row end code message reversal payout = record payout {
  status = end;
  failure_code = some code;
  failure_message = some message;
  reversal_transaction_id = some reversal;
}

module _ (svc : PayoutSettings) (code message : String) (payout : Payout) (s : Tables) where
  abbrev IsReversal : ℕ → Tables → Type 0
  IsReversal =
      IsPayoutPosting payout LedgerPurpose.payout_reversal (balance_currency payout)
        (balance_amount_minor payout) s

  given :
      (end : PayoutStatus) (id : ℕ) (u t : Tables)
      → IsReversal id u
      → t.balances ≡ u.balances
      → t.transactions ≡ u.transactions
      → t.payouts ≡ replace_payout (ended_row end code message id payout) u.payouts
      → IsGivenBack payout end s (ended_row end code message id payout) t
  given end id u t posted bal txn rows = record {
    same_id = refl;
    ended = refl;
    payouts = rows ∙ ap (replace_payout (ended_row end code message id payout)) posted.payouts;
    given_back = λ merchant cur mode. rw (bal) (posted.moved merchant cur mode);
    reversal = (id, refl, rw (txn) posted.transaction);
  }

  pub fail_payout-IsGivenBack :
      Ensures (fail_payout svc code message payout) s (IsGivenBack payout failed s)
  unfolding fail_payout
  fail_payout-IsGivenBack =
      >>=-Ensures IsReversal (IsGivenBack payout failed s) (reverse_payout_posting svc payout code)
        _ s (reverse_payout_posting-IsPayoutPosting svc payout s code)
        (λ id posted.
          save_and_publish-Ensures payout_failed (λ p. some id) (IsGivenBack payout failed s)
            (ended_row failed code message id payout) _
            (λ events. given failed id _ _ posted refl refl refl))

  publish_return : Payout → ℕ → Action Payout
  publish_return p id = publish_payout payout_returned p (some id) >> pure p

  same_row :
      (u : Tables) (p : Payout)
      → payout_by_id payout.id s.payouts ≡ some payout
      → payout_by_id payout.id u.payouts ≡ some p
      → u.payouts ≡ s.payouts
      → p ≡ payout
  same_row u p stored found kept = some_eq (sym found ∙ ap (payout_by_id payout.id) kept ∙ stored)

  -- The row is read again after the reversal was posted.
  marks_returned :
      (id : ℕ) (u : Tables)
      → payout_by_id payout.id s.payouts ≡ some payout
      → IsReversal id u
      → Ensures (mark_returned payout.id code message id) u (λ p t.
        (p ≡ ended_row returned code message id payout)
        × (t ≡ record u {
          payouts = replace_payout (ended_row returned code message id payout) u.payouts;
        }))
  unfolding mark_returned
  marks_returned id u stored posted = get_payout-Ensures payout.id _ IsSaved u (λ p found.
      subst (λ q. Ensures (save_payout (ended_row returned code message id q)) u IsSaved)
        (sym (same_row u p stored found posted.payouts))
        (save_payout-Ensures (ended_row returned code message id payout) u))
    where
      IsSaved : Payout → Tables → Type 0
      IsSaved p t =
          (p ≡ ended_row returned code message id payout)
          × (t ≡ record u {
            payouts = replace_payout (ended_row returned code message id payout) u.payouts;
          })

  tells_of_return :
      (id : ℕ) (u : Tables) (p : Payout) (t : Tables)
      → IsReversal id u
      → p ≡ ended_row returned code message id payout
      → t ≡ record u {
        payouts = replace_payout (ended_row returned code message id payout) u.payouts;
      }
      → Ensures (publish_return p id) t (IsGivenBack payout returned s)
  unfolding publish_return
  tells_of_return id u p t posted same written =
      subst (λ q. Ensures (publish_return q id) t (IsGivenBack payout returned s)) (sym same)
        (subst
          (λ t.
            Ensures (publish_return (ended_row returned code message id payout) id) t
              (IsGivenBack payout returned s))
          (sym written)
          (publish_payout-Ensures payout_returned (some id)
            (ended_row returned code message id payout) _ (IsGivenBack payout returned s)
            (λ events. given returned id u _ posted refl refl refl)))

  pub return_payout-IsGivenBack :
      payout_by_id payout.id s.payouts ≡ some payout
      → Ensures (return_payout svc code message payout) s (IsGivenBack payout returned s)
  unfolding return_payout publish_return
  return_payout-IsGivenBack stored =
      >>=-Ensures IsReversal (IsGivenBack payout returned s)
        (reverse_payout_posting svc payout code) _ s
        (reverse_payout_posting-IsPayoutPosting svc payout s code)
        (λ id posted.
          >>=-Ensures
            (λ p t.
              (p ≡ ended_row returned code message id payout)
              × (t ≡ record (reverse_payout_posting svc payout code s).1 {
                payouts =
                    replace_payout (ended_row returned code message id payout)
                      (reverse_payout_posting svc payout code s).1.payouts;
              }))
            (IsGivenBack payout returned s) (mark_returned payout.id code message id)
            (λ p. publish_return p id) (reverse_payout_posting svc payout code s).1
            (marks_returned id (reverse_payout_posting svc payout code s).1 stored posted)
            (λ p saved.
              tells_of_return id (reverse_payout_posting svc payout code s).1 p _ posted saved.0
                saved.1))
