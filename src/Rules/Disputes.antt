-- ===== src/Rules/Disputes.antt =====
-- app/domain/rules/disputes.py: disputes, chargebacks, and their reversal.
use payzeno_ledger.Prelude.{List, [], ◌∷◌, ◌++◌, if◌then◌else◌}
use payzeno_ledger.Prelude.Int.{pos, ltb_ℤ, leb_ℤ, eqb_ℤ, abs_ℤ}
use payzeno_ledger.Errors.{
  Result, ◌>>◌, raise_if, validation, line_without_amount, amount_not_positive,
}
use payzeno_ledger.Chart.{
  processor_clearing, merchant_payable, platform_fee_revenue, chargeback_liability,
}
use payzeno_ledger.Posting.{PostingContext, PostingLine, debit_line, credit_line, built}
use payzeno_ledger.Rules.Sale.{handling_fee_legs}

-- `DisputePostingRule.build`
unfoldable pub build_dispute : PostingContext → Result (List PostingLine)
build_dispute ctx = do
  raise_if (leb_ℤ ctx.gross_minor (pos 0)) (validation amount_not_positive)
  built ctx (
      (debit_line merchant_payable ctx.gross_minor
        ∷ credit_line chargeback_liability ctx.gross_minor
        ∷ [])
      ++ (if ltb_ℤ (pos 0) ctx.fee_minor
          then debit_line merchant_payable ctx.fee_minor
            ∷ credit_line platform_fee_revenue ctx.fee_minor
            ∷ []
          else []))

-- `ChargebackPostingRule.build`
unfoldable pub build_chargeback : PostingContext → Result (List PostingLine)
build_chargeback ctx =
    let amount_minor = abs_ℤ ctx.gross_minor in
    do
      raise_if (eqb_ℤ amount_minor (pos 0)) (validation line_without_amount)
      built ctx (
          (debit_line chargeback_liability amount_minor
            ∷ credit_line processor_clearing amount_minor
            ∷ [])
          ++ handling_fee_legs ctx.fee_minor)

-- `ChargebackReversalPostingRule.build`
unfoldable pub build_chargeback_reversal : PostingContext → Result (List PostingLine)
build_chargeback_reversal ctx =
    let amount_minor = abs_ℤ ctx.gross_minor in
    do
      raise_if (eqb_ℤ amount_minor (pos 0)) (validation line_without_amount)
      built ctx (
          (debit_line processor_clearing amount_minor
            ∷ credit_line chargeback_liability amount_minor
            ∷ [])
          ++ handling_fee_legs ctx.fee_minor)
