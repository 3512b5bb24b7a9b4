-- ===== src/Rules/Charges.antt =====
-- app/domain/rules/fees.py: fees that are not part of a sale.
use payzeno_ledger.Prelude.{List, [], ◌∷◌, if◌then◌else◌}
use payzeno_ledger.Prelude.Int.{ℤ, pos, leb_ℤ, eqb_ℤ}
use payzeno_ledger.Errors.{
  Result, ◌>>◌, raise_if, validation, line_without_amount, amount_not_positive,
}
use payzeno_ledger.Chart.{
  processor_clearing, merchant_payable, platform_fee_revenue, scheme_fee_expense,
}
use payzeno_ledger.Posting.{PostingContext, PostingLine, debit_line, credit_line, built}

-- Python's `a or b` on integers
abbrev pub or_else : ℤ → ℤ → ℤ
or_else a b = if eqb_ℤ a (pos 0) then b else a

-- `FeePostingRule.build`
unfoldable pub build_fee : PostingContext → Result (List PostingLine)
build_fee ctx =
    let amount_minor = or_else ctx.fee_minor ctx.gross_minor in
    do
      raise_if (leb_ℤ amount_minor (pos 0)) (validation amount_not_positive)
      built ctx (
          debit_line merchant_payable amount_minor
          ∷ credit_line platform_fee_revenue amount_minor
          ∷ [])

-- `SchemeFeePostingRule.build`
unfoldable pub build_scheme_fee : PostingContext → Result (List PostingLine)
build_scheme_fee ctx =
    let amount_minor = or_else ctx.scheme_fee_minor ctx.gross_minor in
    do
      raise_if (leb_ℤ amount_minor (pos 0)) (validation line_without_amount)
      built ctx (
          debit_line scheme_fee_expense amount_minor
          ∷ credit_line processor_clearing amount_minor
          ∷ [])
