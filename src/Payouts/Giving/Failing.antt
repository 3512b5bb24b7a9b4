-- ===== src/Payouts/Giving/Failing.antt =====
-- When `mark_failed` of app/services/payouts.py accepts the failure of a payout.
use payzeno_ledger.Prelude.{ℕ, ◌≡◌, String, true, false}
use payzeno_ledger.Posting.{is_blank}
use payzeno_ledger.Payout.{Payout, satisfies_checks, balance_currency}
use payzeno_ledger.Ledger.{Tables}
use payzeno_ledger.Ledger.Poster.Acceptance.{AreOpen}
use payzeno_ledger.Payouts.{PayoutSettings}
use payzeno_ledger.Payouts.Postings.{payout_key}
use payzeno_ledger.Payouts.Giving.Accepted.{IsFree}

-- What a reversal needs: a row that the constraints of the table allow, currencies, keys that no
-- transaction has, and no account that is frozen or closed.
pub record IsReversible (payout : Payout) (s : Tables) : Type 0 where
  pub checked : satisfies_checks payout ≡ true
  pub named : is_blank payout.currency ≡ false
  pub source_named : is_blank (balance_currency payout) ≡ false
  pub free : IsFree (payout_key "payoutrev" payout) s
  pub fx_free : IsFree (payout_key "payoutfxrev" payout) s
  pub open_ : AreOpen s.accounts

module _ (svc : PayoutSettings) (payout : Payout) (s : Tables) (r : IsReversible payout s)
    (reason : String) where
  abbrev KeepsRows : ℕ → Tables → Type 0
  KeepsRows id t = t.payouts ≡ s.payouts

module _ (svc : PayoutSettings) (code message : String) (payout : Payout) (s : Tables)
    (r : IsReversible payout s) where
  abbrev Returns : Payout → Tables → Type 0
  Returns p t = Unit {0}
