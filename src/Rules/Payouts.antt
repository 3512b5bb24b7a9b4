-- ===== src/Rules/Payouts.antt =====
-- app/domain/rules/payouts.py: payouts, plain and converted, and the rolling reserve.
use payzeno_ledger.Prelude.{List, [], ◌∷◌, ◌||◌, not}
use payzeno_ledger.Prelude.Int.{pos, ◌+ℤ◌, ltb_ℤ, leb_ℤ, eqb_ℤ, abs_ℤ}
use payzeno_ledger.Errors.{
  Result, ◌>>◌, raise_if, validation, line_without_amount, amount_not_positive, conversion_amounts,
  mid_not_payout_plus_spread,
}
use payzeno_ledger.Chart.{merchant_payable, reserve, cash, fx_clearing, fx_revenue}
use payzeno_ledger.Posting.{PostingContext, PostingLine, debit_line, credit_line, built}

-- `PayoutPostingRule.build`
unfoldable pub build_payout : PostingContext → Result (List PostingLine)
build_payout ctx = do
  raise_if (leb_ℤ ctx.gross_minor (pos 0)) (validation amount_not_positive)
  built ctx (debit_line merchant_payable ctx.gross_minor ∷ credit_line cash ctx.gross_minor ∷ [])

-- `PayoutReversalPostingRule.build`
unfoldable pub build_payout_reversal : PostingContext → Result (List PostingLine)
build_payout_reversal ctx = do
  raise_if (leb_ℤ ctx.gross_minor (pos 0)) (validation amount_not_positive)
  built ctx (debit_line cash ctx.gross_minor ∷ credit_line merchant_payable ctx.gross_minor ∷ [])

-- `FxPayoutSourcePostingRule.build`
unfoldable pub build_fx_payout_source : PostingContext → Result (List PostingLine)
build_fx_payout_source ctx = do
  raise_if (leb_ℤ ctx.gross_minor (pos 0)) (validation amount_not_positive)
  built ctx
      (debit_line merchant_payable ctx.gross_minor ∷ credit_line fx_clearing ctx.gross_minor ∷ [])

-- `FxPayoutTargetPostingRule.build`
unfoldable pub build_fx_payout_target : PostingContext → Result (List PostingLine)
build_fx_payout_target ctx = do
  raise_if (leb_ℤ ctx.net_minor (pos 0) || ltb_ℤ ctx.fee_minor (pos 0))
      (validation conversion_amounts)
  raise_if (not (eqb_ℤ ctx.gross_minor (ctx.net_minor +ℤ ctx.fee_minor)))
      (validation mid_not_payout_plus_spread)
  built ctx (
      debit_line fx_clearing ctx.gross_minor
      ∷ credit_line cash ctx.net_minor
      ∷ credit_line fx_revenue ctx.fee_minor
      ∷ [])

-- `ReserveHoldPostingRule.build`
unfoldable pub build_reserve_hold : PostingContext → Result (List PostingLine)
build_reserve_hold ctx =
    let amount_minor = abs_ℤ ctx.gross_minor in
    do
      raise_if (eqb_ℤ amount_minor (pos 0)) (validation line_without_amount)
      built ctx (debit_line merchant_payable amount_minor ∷ credit_line reserve amount_minor ∷ [])

-- `ReserveReleasePostingRule.build`
unfoldable pub build_reserve_release : PostingContext → Result (List PostingLine)
build_reserve_release ctx =
    let amount_minor = abs_ℤ ctx.gross_minor in
    do
      raise_if (eqb_ℤ amount_minor (pos 0)) (validation line_without_amount)
      built ctx (debit_line reserve amount_minor ∷ credit_line merchant_payable amount_minor ∷ [])
