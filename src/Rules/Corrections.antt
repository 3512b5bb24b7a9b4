-- ===== src/Rules/Corrections.antt =====
-- app/domain/rules/corrections.py: reversals, approved adjustments, and refunds of charges.
use payzeno_ledger.Prelude.{Bool, List, [], ◌∷◌, if◌then◌else◌}
use payzeno_ledger.Prelude.Int.{pos, ltb_ℤ, leb_ℤ, eqb_ℤ, abs_ℤ}
use payzeno_ledger.Errors.{
  Result, err, ◌>>◌, raise_if, validation, no_original, no_approved_line, line_without_amount,
  amount_not_positive,
}
use payzeno_ledger.Chart.{processor_clearing, merchant_payable, cash}
use payzeno_ledger.Posting.{PostingContext, PostingLine, debit_line, credit_line, built}
use payzeno_ledger.Posting.Mirror.{flip_line}
use mathlib.Core.List.{map}

-- `ReversalPostingRule.build`, of the rule that holds `original`
unfoldable pub build_reversal : List PostingLine → PostingContext → Result (List PostingLine)
build_reversal [] ctx = err (validation no_original)
build_reversal (l ∷ ls) ctx = built ctx (map flip_line (l ∷ ls))

-- `AdjustmentPostingRule.build`, of the rule that holds `requested`
unfoldable pub build_adjustment : List PostingLine → PostingContext → Result (List PostingLine)
build_adjustment [] ctx = err (validation no_approved_line)
build_adjustment (l ∷ ls) ctx = built ctx (l ∷ ls)

-- `AdjustmentLinePostingRule.build`
unfoldable pub build_adjustment_line : PostingContext → Result (List PostingLine)
build_adjustment_line ctx =
    let amount_minor = abs_ℤ ctx.gross_minor in
    do
      raise_if (eqb_ℤ amount_minor (pos 0)) (validation line_without_amount)
      built ctx (
          if ltb_ℤ (pos 0) ctx.gross_minor
          then debit_line processor_clearing amount_minor
            ∷ credit_line merchant_payable amount_minor
            ∷ []
          else debit_line merchant_payable amount_minor
            ∷ credit_line processor_clearing amount_minor
            ∷ [])

-- `RefundPostingRule.build`, of the rule for a charge that is settled or not
unfoldable pub build_refund : Bool → PostingContext → Result (List PostingLine)
build_refund settled ctx = do
  raise_if (leb_ℤ ctx.gross_minor (pos 0)) (validation amount_not_positive)
  built ctx (
      debit_line merchant_payable ctx.gross_minor
      ∷ credit_line (if settled then cash else processor_clearing) ctx.gross_minor
      ∷ [])
