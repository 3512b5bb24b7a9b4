-- ===== src/Payouts/Movement/Both.antt =====
-- The postings of a payout and of its reversal in app/services/payouts.py, in one currency or two.
use payzeno_ledger.Prelude.{ℕ, String, Option, some, none}
use payzeno_ledger.Prelude.Int.{pos, ◌+ℤ◌, neg_ℤ}
use payzeno_ledger.Posting.Mirror.{mirrored}
use payzeno_ledger.Rules.{LedgerPurpose}
use payzeno_ledger.Fx.{FxConversion, spread_minor}
use payzeno_ledger.Keys.{ledger_key, id_part, text_part, rate_part}
use payzeno_ledger.Payout.{
  Payout, PayoutSource, balance_currency, balance_amount_minor, currency_of, amount_of,
}
use payzeno_ledger.Ledger.{Tables}
use payzeno_ledger.Ledger.Actions.{Ensures, >>=-Ensures, lift->>=-Ensures, Ensures-weaken}
use payzeno_ledger.Payouts.{PayoutSettings}
use payzeno_ledger.Payouts.Postings.{
  fx_source_lines, fx_target_lines, payout_key, payout_lines, reversal_lines, post_for_payout,
  post_payout, post_converted_payout, reverse_converted_payout, reverse_plain_payout,
  reverse_by_source, reverse_payout_posting,
}
use payzeno_ledger.Payouts.Creation.{source_of, post_created}
use payzeno_ledger.Payouts.Movement.{
  IsPayoutPosting, post_for_payout-IsPayoutPosting, payout_moves, reversal_moves, source_moves,
  target_moves, mirrored_moves, given_back, nothing_before, then_nothing,
}

module _ (svc : PayoutSettings) (payout : Payout) (s : Tables) where
  post_converted_payout-IsPayoutPosting :
      (q : FxConversion)
      → Ensures (post_converted_payout svc payout q) s (
          IsPayoutPosting payout LedgerPurpose.payout q.source.currency
            (neg_ℤ q.source.amount_minor)
            s)
  unfolding post_converted_payout
  post_converted_payout-IsPayoutPosting q =
      lift->>=-Ensures (fx_source_lines payout q.source.amount_minor) _ s Q (λ source_lines h.
        lift->>=-Ensures
          (fx_target_lines payout q.mid_target_minor q.target.amount_minor (spread_minor q)) _ s Q
          (λ target_lines k.
            >>=-Ensures Q Q
              (post_for_payout svc payout LedgerPurpose.payout (payout_key "payout" payout)
                q.source.currency (payout_key "payoutfp" payout) source_lines)
              _ s
              (post_for_payout-IsPayoutPosting svc payout LedgerPurpose.payout
                (payout_key "payout" payout) q.source.currency (payout_key "payoutfp" payout)
                source_lines (neg_ℤ q.source.amount_minor) s
                (source_moves payout q.source.amount_minor h))
              (λ id first.
                >>=-Ensures
                  (IsPayoutPosting payout LedgerPurpose.payout q.target.currency (pos 0) _) Q
                  (post_for_payout svc payout LedgerPurpose.payout (payout_key "payoutfx" payout)
                    q.target.currency
                    (ledger_key "payoutfxfp" (id_part payout.id) (rate_part q.rate)) target_lines)
                  _ _
                  (post_for_payout-IsPayoutPosting svc payout LedgerPurpose.payout
                    (payout_key "payoutfx" payout) q.target.currency
                    (ledger_key "payoutfxfp" (id_part payout.id) (rate_part q.rate)) target_lines
                    (pos 0) _ (target_moves payout _ _ _ k))
                  (λ other second.
                    then_nothing payout LedgerPurpose.payout q.source.currency q.target.currency
                      (neg_ℤ q.source.amount_minor) s _ _ id other first second))))
    where
      Q : ℕ → Tables → Type 0
      Q =
          IsPayoutPosting payout LedgerPurpose.payout q.source.currency
            (neg_ℤ q.source.amount_minor) s

  -- A payout takes its amount from the balance that it is drawn from.
  pub post_created-IsPayoutPosting :
      (conversion : Option FxConversion)
      → Ensures (post_created svc payout conversion) s (
          IsPayoutPosting payout LedgerPurpose.payout
            (currency_of payout.currency (source_of conversion))
            (neg_ℤ (amount_of payout.amount_minor (source_of conversion)))
            s)
  unfolding post_payout
  post_created-IsPayoutPosting none =
      post_for_payout-IsPayoutPosting svc payout LedgerPurpose.payout (payout_key "payout" payout)
        payout.currency (payout_key "payoutfp" payout) (payout_lines payout.amount_minor)
        (neg_ℤ payout.amount_minor) s (payout_moves payout.amount_minor)
  post_created-IsPayoutPosting (some q) = post_converted_payout-IsPayoutPosting q

  reverse_converted_payout-IsPayoutPosting :
      (source : PayoutSource) (reason : String)
      → Ensures (reverse_converted_payout svc payout source reason) s (
          IsPayoutPosting payout LedgerPurpose.payout_reversal source.source_currency
            source.source_amount_minor s)
  unfolding reverse_converted_payout neg_ℤ
  reverse_converted_payout-IsPayoutPosting source reason =
      lift->>=-Ensures
        (fx_target_lines payout (payout.amount_minor +ℤ source.fx_spread_minor) payout.amount_minor
          source.fx_spread_minor)
        _ s Q
        (λ target_lines k.
          >>=-Ensures
            (IsPayoutPosting payout LedgerPurpose.payout_reversal payout.currency (pos 0) s) Q
            (post_for_payout svc payout LedgerPurpose.payout_reversal
              (payout_key "payoutfxrev" payout) payout.currency
              (ledger_key "payoutfxrevfp" (id_part payout.id) (text_part reason))
              (mirrored target_lines))
            _ s
            (post_for_payout-IsPayoutPosting svc payout LedgerPurpose.payout_reversal
              (payout_key "payoutfxrev" payout) payout.currency
              (ledger_key "payoutfxrevfp" (id_part payout.id) (text_part reason))
              (mirrored target_lines) (pos 0) s
              (mirrored_moves target_lines (pos 0) (target_moves payout _ _ _ k)))
            (λ other first.
              lift->>=-Ensures (fx_source_lines payout source.source_amount_minor) _ _ Q
                (λ source_lines h.
                  Ensures-weaken
                    (IsPayoutPosting payout LedgerPurpose.payout_reversal source.source_currency
                      source.source_amount_minor _)
                    Q
                    (post_for_payout svc payout LedgerPurpose.payout_reversal
                      (payout_key "payoutrev" payout) source.source_currency
                      (ledger_key "payoutrevfp" (id_part payout.id) (text_part reason))
                      (mirrored source_lines))
                    _
                    (λ id t second.
                      nothing_before payout LedgerPurpose.payout_reversal source.source_currency
                        payout.currency source.source_amount_minor s _ _ id other first second)
                    (post_for_payout-IsPayoutPosting svc payout LedgerPurpose.payout_reversal
                      (payout_key "payoutrev" payout) source.source_currency
                      (ledger_key "payoutrevfp" (id_part payout.id) (text_part reason))
                      (mirrored source_lines) source.source_amount_minor _
                      (given_back source_lines source.source_amount_minor
                        (source_moves payout source.source_amount_minor h))))))
    where
      Q : ℕ → Tables → Type 0
      Q =
          IsPayoutPosting payout LedgerPurpose.payout_reversal source.source_currency
            source.source_amount_minor s

  reverse_by_source-IsPayoutPosting :
      (reason : String) (source : Option PayoutSource)
      → Ensures (reverse_by_source svc payout reason source) s (
          IsPayoutPosting payout LedgerPurpose.payout_reversal
            (currency_of payout.currency source)
            (amount_of payout.amount_minor source)
            s)
  unfolding reverse_plain_payout
  reverse_by_source-IsPayoutPosting reason none =
      post_for_payout-IsPayoutPosting svc payout LedgerPurpose.payout_reversal
        (payout_key "payoutrev" payout) payout.currency
        (ledger_key "payoutrevfp" (id_part payout.id) (text_part reason))
        (reversal_lines payout.amount_minor) payout.amount_minor s
        (reversal_moves payout.amount_minor)
  reverse_by_source-IsPayoutPosting reason (some source) =
      reverse_converted_payout-IsPayoutPosting source reason

  -- A reversal gives the amount back to that balance.
  pub reverse_payout_posting-IsPayoutPosting :
      (reason : String)
      → Ensures (reverse_payout_posting svc payout reason) s (
          IsPayoutPosting payout LedgerPurpose.payout_reversal
            (balance_currency payout)
            (balance_amount_minor payout)
            s)
  unfolding reverse_payout_posting
  reverse_payout_posting-IsPayoutPosting reason =
      reverse_by_source-IsPayoutPosting reason payout.source
