-- ===== src/Tests/Rules.antt =====
-- Runs of app/domain/rules/ on one sale.
use payzeno_ledger.Prelude.{◌≡◌, ◌≢◌, refl, ap, false, List, [], ◌∷◌, ◌++◌, keep, arith}
use payzeno_ledger.Prelude.Int.{
  pos, pos_part, neg_ℤ, ◌+ℤ◌, ◌-ℤ◌, ◌*ℤ◌, ◌≤ℤ◌, ◌<ℤ◌, round_half_up, abs_ℤ, sum_ℤ,
}
use payzeno_ledger.Errors.{ok}
use payzeno_ledger.Chart.{
  AccountType, merchant_payable, merchant_receivable, authorization_hold, platform_fee_revenue,
  reserve, processor_clearing,
}
use payzeno_ledger.Money.{make_money, apply_bps}
use payzeno_ledger.Fees.{compute_platform_fee}
use payzeno_ledger.Posting.{
  PostingContext, PostingLine, debit_line, credit_line, validate, check_positive, built, is_blank,
}
use payzeno_ledger.Posting.Balance.{IsBalanced, movement}
use payzeno_ledger.Rules.{PostingRule, build}
use payzeno_ledger.Rules.Sale.{
  build_auth, build_capture, build_settlement, build_settlement_funding, interchange_part,
  scheme_part, markup_part,
}
use payzeno_ledger.Rules.Payouts.{build_reserve_hold, build_reserve_release}
use payzeno_ledger.Accounting.Soundness.{build-IsBalanced}
use payzeno_ledger.Accounting.Sale.{IsSale, take_of, held_of, captured, build_capture-captured}
use payzeno_ledger.Accounting.Sale.Settlement.{settled, build_settlement-settled}
use payzeno_ledger.Accounting.Sale.Lifecycle.{funding_of, sale_outcome, sale_lifecycle}
use payzeno_ledger.Accounting.Cycles.{build_reserve_release_undoes}
use payzeno_ledger.Tests.{contracts, a_sale}

a_sale-IsSale : IsSale contracts a_sale
unfolding is_blank
a_sale-IsSale = record {
  known = refl;
  named = refl;
  gross_positive = omega arith;
  fee_rate = omega arith;
  fee_fixed = omega arith;
  reserve_rate = omega arith;
}

named : is_blank "USD" ≡ false
unfolding is_blank
named = refl

capture_run :
    build_capture contracts a_sale
    ≡ ok (
        debit_line processor_clearing (pos 10_000)
        ∷ credit_line merchant_payable (pos 8_680)
        ∷ credit_line platform_fee_revenue (pos 320)
        ∷ credit_line reserve (pos 1_000)
        ∷ debit_line authorization_hold (pos 10_000)
        ∷ credit_line merchant_receivable (pos 10_000)
        ∷ [])
unfolding build_capture built validate check_positive make_money compute_platform_fee apply_bps
    sum_ℤ keep ◌-ℤ◌ ◌+ℤ◌ round_half_up ◌*ℤ◌ neg_ℤ is_blank
capture_run = refl

build-IsBalanced_example : IsBalanced (
    debit_line processor_clearing (pos 10_000)
    ∷ credit_line merchant_payable (pos 8_680)
    ∷ credit_line platform_fee_revenue (pos 320)
    ∷ credit_line reserve (pos 1_000)
    ∷ debit_line authorization_hold (pos 10_000)
    ∷ credit_line merchant_receivable (pos 10_000)
    ∷ [])
unfolding build
build-IsBalanced_example = build-IsBalanced contracts PostingRule.capture a_sale capture_run

it_fits : take_of a_sale +ℤ held_of a_sale ≤ℤ pos 10_000
unfolding take_of held_of ◌+ℤ◌ round_half_up ◌*ℤ◌
it_fits = omega arith

build_capture-captured_example :
    (out : List PostingLine) × (build_capture contracts a_sale ≡ ok out)
    × ((t : AccountType) → movement t out ≡ captured a_sale t)
build_capture-captured_example = build_capture-captured contracts a_sale a_sale-IsSale it_fits

-- The same sale with nine tenths held back and a fee of 20 %.
abbrev a_greedy_sale : PostingContext
a_greedy_sale = record a_sale { reserve_bps = pos 9_000; platform_fee_bps = pos 2_000 }

a_greedy_sale-IsSale : IsSale contracts a_greedy_sale
unfolding is_blank
a_greedy_sale-IsSale = record {
  known = refl;
  named = refl;
  gross_positive = omega arith;
  fee_rate = omega arith;
  fee_fixed = omega arith;
  reserve_rate = omega arith;
}

too_much : pos 10_000 <ℤ take_of a_greedy_sale +ℤ held_of a_greedy_sale
unfolding take_of held_of ◌+ℤ◌ round_half_up ◌*ℤ◌
too_much = omega arith

build_settlement-settled_example :
    (out : List PostingLine) × (build_settlement a_sale ≡ ok out)
    × ((t : AccountType) → movement t out ≡ settled a_sale t)
    × (interchange_part a_sale +ℤ scheme_part a_sale +ℤ markup_part a_sale ≡ pos 180)
build_settlement-settled_example = build_settlement-settled a_sale named (omega arith)

sale_lifecycle_example :
    (auths captures settles fundings : List PostingLine) × (build_auth a_sale ≡ ok auths)
    × (build_capture contracts a_sale ≡ ok captures)
    × (build_settlement a_sale ≡ ok settles)
    × (build_settlement_funding (funding_of a_sale) ≡ ok fundings)
    × ((t : AccountType)
        → movement t (auths ++ (captures ++ (settles ++ fundings))) ≡ sale_outcome a_sale t)
sale_lifecycle_example =
    sale_lifecycle contracts a_sale a_sale-IsSale it_fits (omega arith) (omega arith)

a_sale_moves : a_sale.gross_minor ≢ pos 0
a_sale_moves h = omega (arith, ap pos_part h)

build_reserve_release_undoes_example :
    (holds releases : List PostingLine) × (build_reserve_hold a_sale ≡ ok holds)
    × (build_reserve_release a_sale ≡ ok releases)
    × (movement reserve holds ≡ neg_ℤ (abs_ℤ (pos 10_000)))
    × ((t : AccountType) → movement t (holds ++ releases) ≡ pos 0)
build_reserve_release_undoes_example = build_reserve_release_undoes a_sale named a_sale_moves
