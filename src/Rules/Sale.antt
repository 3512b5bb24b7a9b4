-- ===== src/Rules/Sale.antt =====
-- app/domain/rules/sale.py: authorisation, capture, settlement, funding, and refunds in a file.
use payzeno_ledger.Prelude.{List, [], ◌∷◌, ◌++◌, if◌then◌else◌}
use payzeno_ledger.Prelude.Int.{ℤ, pos, ◌-ℤ◌, ltb_ℤ, leb_ℤ, min_ℤ, max_ℤ}
use payzeno_ledger.Errors.{
  Result, ◌>>=◌, ◌>>◌, raise_if, validation, fee_plus_reserve_exceeds, settle_without_fee,
}
use payzeno_ledger.Money.{Contracts, make_money, apply_bps}
use payzeno_ledger.Fees.{compute_platform_fee, acquirer_markup_minor}
use payzeno_ledger.Chart.{
  processor_clearing, merchant_receivable, authorization_hold, merchant_payable,
  platform_fee_revenue, interchange_expense, scheme_fee_expense, acquirer_fee_expense, reserve,
  cash,
}
use payzeno_ledger.Posting.{PostingContext, PostingLine, debit_line, credit_line, built}

-- `AuthPostingRule.build`
unfoldable pub build_auth : PostingContext → Result (List PostingLine)
build_auth ctx = built ctx (
    debit_line merchant_receivable ctx.gross_minor
    ∷ credit_line authorization_hold ctx.gross_minor
    ∷ [])

-- `AuthReleasePostingRule.build`
unfoldable pub build_auth_release : PostingContext → Result (List PostingLine)
build_auth_release ctx = built ctx (
    debit_line authorization_hold ctx.gross_minor
    ∷ credit_line merchant_receivable ctx.gross_minor
    ∷ [])

-- The legs of a capture, by its four amounts.
abbrev pub capture_legs : (gross net markup held : ℤ) → List PostingLine
capture_legs gross net markup held =
    debit_line processor_clearing gross
    ∷ credit_line merchant_payable net
    ∷ credit_line platform_fee_revenue markup
    ∷ credit_line reserve held
    ∷ debit_line authorization_hold gross
    ∷ credit_line merchant_receivable gross
    ∷ []

-- `CapturePostingRule.build`
unfoldable pub build_capture : Contracts → PostingContext → Result (List PostingLine)
build_capture c ctx = do
  gross ← make_money c ctx.gross_minor ctx.currency
  markup ← compute_platform_fee c gross ctx.platform_fee_bps ctx.platform_fee_fixed_minor
  held ← apply_bps c gross ctx.reserve_bps
  let net_minor = ctx.gross_minor -ℤ markup.amount_minor -ℤ held.amount_minor
  raise_if (ltb_ℤ net_minor (pos 0)) (validation fee_plus_reserve_exceeds)
  built ctx (capture_legs ctx.gross_minor net_minor markup.amount_minor held.amount_minor)

-- The three parts of the acquirer's fee: each clamped to what the ones before it leave.
abbrev pub interchange_part : PostingContext → ℤ
interchange_part ctx = min_ℤ (max_ℤ ctx.interchange_minor (pos 0)) ctx.fee_minor

abbrev pub scheme_part : PostingContext → ℤ
scheme_part ctx = min_ℤ (max_ℤ ctx.scheme_fee_minor (pos 0)) (ctx.fee_minor -ℤ interchange_part ctx)

abbrev pub markup_part : PostingContext → ℤ
markup_part ctx = acquirer_markup_minor ctx.fee_minor (interchange_part ctx) (scheme_part ctx)

-- `SettlementPostingRule.build`
unfoldable pub build_settlement : PostingContext → Result (List PostingLine)
build_settlement ctx = do
  raise_if (leb_ℤ ctx.fee_minor (pos 0)) (validation settle_without_fee)
  built ctx (
      debit_line interchange_expense (interchange_part ctx)
      ∷ debit_line scheme_fee_expense (scheme_part ctx)
      ∷ debit_line acquirer_fee_expense (markup_part ctx)
      ∷ credit_line processor_clearing ctx.fee_minor
      ∷ [])

-- `SettlementFundingPostingRule.build`
unfoldable pub build_settlement_funding : PostingContext → Result (List PostingLine)
build_settlement_funding ctx =
    built ctx
      (debit_line cash ctx.gross_minor ∷ credit_line processor_clearing ctx.gross_minor ∷ [])

-- The acquirer's handling fee, which several file lines carry.
abbrev pub handling_fee_legs : ℤ → List PostingLine
handling_fee_legs fee =
    if ltb_ℤ (pos 0) fee
    then debit_line acquirer_fee_expense fee ∷ credit_line processor_clearing fee ∷ []
    else []

-- `SettlementRefundPostingRule.build`
unfoldable pub build_settlement_refund : PostingContext → Result (List PostingLine)
build_settlement_refund ctx = built ctx (
    (debit_line merchant_payable ctx.gross_minor
      ∷ credit_line processor_clearing ctx.gross_minor
      ∷ [])
    ++ handling_fee_legs ctx.fee_minor)
