-- ===== src/Payouts/Drawing.antt =====
-- `create_payout` of app/services/payouts.py: what a payout that is created draws, and from where.
pub mod Reading
pub mod Amount
pub mod Created
pub mod Alone
pub mod Accepted
use payzeno_ledger.Prelude.{
  ℕ, ◌≡◌, refl, ap, sym, ◌∙◌, subst, String, Bool, true, false, not, ◌&&◌, ◌||◌, Option, some, none,
  List, [], ◌∷◌, ◌==◌, ==_iff, Any, find, arith, Option-cases, inl, inr, if◌then◌else◌,
}
use payzeno_ledger.Prelude.Int.{ℤ, pos, neg_ℤ, ◌≤ℤ◌, leb_ℤ, ltb_ℤ}
use payzeno_ledger.Errors.{
  Result, ok, err, >>=-eq-ok, insufficient_balance, validation, amount_minor_not_positive,
  integrity_error,
}
use payzeno_ledger.Money.{Money}
use payzeno_ledger.Rules.{LedgerPurpose}
use payzeno_ledger.Fx.{FxConversion}
use payzeno_ledger.Projections.{MerchantProjection, BankAccountProjection}
use payzeno_ledger.Payout.{
  Payout, PayoutSource, satisfies_checks, scheduled, balance_currency, balance_amount_minor,
  currency_of, amount_of,
}
use payzeno_ledger.Ledger.{Tables, Action, payout_scheduled, lift, pure, ◌>>=◌, ◌>>◌, new_id}
use payzeno_ledger.Ledger.Actions.{
  OnOk, Ensures, >>=-Ensures, Ensures-weaken, lift->>=-Ensures, Reads, Reads->>=, lift->>=-Reads,
  reading-Ensures,
}
use payzeno_ledger.Payouts.{PayoutRequest, PayoutRate, PayoutSettings}
use payzeno_ledger.Payouts.Repository.{
  clashes, flushed, add_payout, save_payout, replace_payout, find_in_flight, payout_by_id,
}
use payzeno_ledger.Payouts.Flushing.{add_payout-Ensures, save_and_publish-Ensures, replace-first}
use payzeno_ledger.Payouts.Rails.{InitiationResult, initiate}
use payzeno_ledger.Payouts.Settling.{publish_payout}
use payzeno_ledger.Payouts.Destination.{
  Destination, found_merchant, get_merchant, found_bank, get_bank, named_bank, default_or_raise,
  found_or_default, default_bank, resolve_bank, destination_of,
}
use payzeno_ledger.Payouts.Creation.{
  source_of, landed_of, refuse_in_flight, check_amount, compute_available, amount_of_payout,
  conversion_of, new_payout, post_created, initiated, insert_and_post, create_payout,
  requested_minor,
}
use payzeno_ledger.Payouts.Movement.{Moves, IsAbout, IsPayoutPosting}
use payzeno_ledger.Payouts.Movement.Both.{post_created-IsPayoutPosting}
use payzeno_ledger.Payouts.Drawing.Reading.{destination_of-Reads}
use payzeno_ledger.Payouts.Drawing.Amount.{
  IsAmount, amount_of_payout-reads, amount_of_payout-IsAmount,
}

-- What the insert and the posting of a payout leave.
pub record IsInserted (payout : Payout) (source : Option PayoutSource) (s : Tables) (p : Payout)
    (t : Tables) : Type 0 where
  pub transaction_id : ℕ
  pub result : InitiationResult
  pub row : p ≡ initiated payout transaction_id result
  pub payouts : t.payouts ≡ p ∷ s.payouts
  pub moved :
      Moves payout.merchant_id
        (currency_of payout.currency source)
        payout.livemode
        (neg_ℤ (amount_of payout.amount_minor source))
        s
        t
  pub transaction : Any (IsAbout payout LedgerPurpose.payout transaction_id) t.transactions

module _ (svc : PayoutSettings) where
  pub insert_and_post-IsInserted :
      (dest : Destination) (conversion : Option FxConversion) (payout : Payout) (s : Tables)
      → Ensures
          (insert_and_post svc dest conversion payout)
          s
          (IsInserted payout (source_of conversion) s)
  unfolding insert_and_post
  insert_and_post-IsInserted dest conversion payout s =
      >>=-Ensures (λ u t. t ≡ inserted) Q (add_payout payout) _ s (add_payout-Ensures payout s)
        (λ u same.
          subst (λ t. Ensures (after_insert u) t Q) (sym same)
            (>>=-Ensures
              (IsPayoutPosting payout LedgerPurpose.payout
                (currency_of payout.currency (source_of conversion))
                (neg_ℤ (amount_of payout.amount_minor (source_of conversion))) inserted)
              Q (post_created svc payout conversion) _ inserted
              (post_created-IsPayoutPosting svc payout inserted conversion)
              (λ id posted.
                lift->>=-Ensures (initiate svc dest.method payout dest.bank) _ _ Q (λ result h.
                  save_and_publish-Ensures payout_scheduled (λ p. none) Q
                    (initiated payout id result) _
                    (λ events. record {
                      transaction_id = id;
                      result = result;
                      row = refl;
                      payouts =
                          ap (replace_payout (initiated payout id result)) posted.payouts
                          ∙ replace-first (initiated payout id result) payout s.payouts refl;
                      moved = posted.moved;
                      transaction = posted.transaction;
                    })))))
    where
      Q : Payout → Tables → Type 0
      Q = IsInserted payout (source_of conversion) s

      inserted : Tables
      inserted = record s { payouts = payout ∷ s.payouts }

      after_insert : Unit {0} → Action Payout
      after_insert u = do
        transaction_id ← post_created svc payout conversion
        result ← lift (initiate svc dest.method payout dest.bank)
        saved ← save_payout (initiated payout transaction_id result)
        publish_payout payout_scheduled saved none
        pure saved
