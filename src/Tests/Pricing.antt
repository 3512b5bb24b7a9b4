-- ===== src/Tests/Pricing.antt =====
-- Runs of app/domain/money.py and app/domain/fees.py.
use payzeno_ledger.Prelude.{map, ◌≡◌, refl, List, [], ◌∷◌, suc, arith}
use payzeno_ledger.Prelude.Int.{ℤ, pos, ◌+ℤ◌, ◌*ℤ◌, ◌≤ℤ◌, floor_div, round_half_up}
use payzeno_ledger.Prelude.Int.Rounding.{IsHalfUp}
use payzeno_ledger.Errors.{ok}
use payzeno_ledger.Money.{Money, split_evenly, slices, apply_bps, bps_denominator, make_money}
use payzeno_ledger.Money.Arithmetic.{apply_bps-IsHalfUp}
use payzeno_ledger.Money.Split.{IsSplit, split_evenly-IsSplit}
use payzeno_ledger.Fees.{
  FeeComponent, FeeBreakdown, compute_platform_fee, legacy_blended_fee, legacy_blended_bps,
  legacy_blended_fixed_minor, net_of_fee, apportion_fee, has_duplicates, names_of,
}
use payzeno_ledger.Fees.Platform.{
  IsFeeOf, legacy_blended_fee-compute_platform_fee, compute_platform_fee-IsFeeOf,
  net_of_fee-compute_platform_fee,
}
use payzeno_ledger.Fees.Apportion.{IsBreakdownOf, apportion_fee-IsBreakdownOf}
use payzeno_ledger.Tests.{contracts, usd}

split_run :
    split_evenly contracts (usd (pos 100)) (pos 3)
    ≡ ok (usd (pos 34) ∷ usd (pos 33) ∷ usd (pos 33) ∷ [])
unfolding split_evenly slices make_money ◌+ℤ◌
split_run = refl

fee_run : compute_platform_fee contracts (usd (pos 10_000)) (pos 290) (pos 30) ≡ ok (usd (pos 320))
unfolding compute_platform_fee apply_bps make_money ◌+ℤ◌ round_half_up ◌*ℤ◌
fee_run = refl

-- The amounts that tests/unit/test_fees.py lists.
legacy_run :
    map (λ (a : ℤ). legacy_blended_fee contracts (usd a)) (pos 10_000 ∷ pos 333 ∷ pos 1 ∷ [])
    ≡ ok (usd (pos 320)) ∷ ok (usd (pos 40)) ∷ ok (usd (pos 1)) ∷ []
unfolding legacy_blended_fee make_money ◌+ℤ◌ round_half_up ◌*ℤ◌
legacy_run = refl

split_evenly-IsSplit_example :
    (ms : List Money) × (split_evenly contracts (usd (pos 100)) (pos (suc 2)) ≡ ok ms)
    × IsSplit (usd (pos 100)) (suc 2) (floor_div (pos 100) (suc 2)) ms
split_evenly-IsSplit_example = split_evenly-IsSplit contracts (usd (pos 100)) 2 refl

apply_bps-IsHalfUp_example :
    (r : Money) × (apply_bps contracts (usd (pos 50)) (pos 290) ≡ ok r)
    × (r.currency ≡ "USD")
    × IsHalfUp (pos 50 *ℤ pos 290) bps_denominator r.amount_minor
apply_bps-IsHalfUp_example =
    apply_bps-IsHalfUp contracts (usd (pos 50)) (pos 290) refl (omega arith)

legacy_blended_fee-compute_platform_fee_example :
    legacy_blended_fee contracts (usd (pos 1_999))
    ≡ compute_platform_fee contracts (usd (pos 1_999)) legacy_blended_bps legacy_blended_fixed_minor
legacy_blended_fee-compute_platform_fee_example =
    legacy_blended_fee-compute_platform_fee contracts (usd (pos 1_999))

compute_platform_fee-IsFeeOf_example :
    (fee : Money) × (compute_platform_fee contracts (usd (pos 20)) (pos 290) (pos 30) ≡ ok fee)
    × IsFeeOf (usd (pos 20)) fee
compute_platform_fee-IsFeeOf_example =
    compute_platform_fee-IsFeeOf contracts (usd (pos 20)) (pos 290) (pos 30) refl (omega arith)
      (omega arith) (omega arith)

net_of_fee-compute_platform_fee_example :
    (fee net : Money) × (compute_platform_fee contracts (usd (pos 10_000)) (pos 290) (pos 30)
      ≡ ok fee)
    × (net_of_fee contracts (usd (pos 10_000)) fee ≡ ok net)
    × (fee.amount_minor +ℤ net.amount_minor ≡ pos 10_000)
    × (pos 0 ≤ℤ net.amount_minor)
net_of_fee-compute_platform_fee_example =
    net_of_fee-compute_platform_fee contracts (usd (pos 10_000)) (pos 290) (pos 30) refl
      (omega arith) (omega arith) (omega arith)

abbrev interchange : FeeComponent
interchange = record { name = "interchange"; bps = pos 165; fixed_minor = pos 10 }

abbrev scheme : FeeComponent
scheme = record { name = "scheme"; bps = pos 13; fixed_minor = pos 0 }

apportion_fee-IsBreakdownOf_example :
    (b : FeeBreakdown) × (apportion_fee contracts (usd (pos 4_999)) (interchange ∷ scheme ∷ [])
      ≡ ok b)
    × IsBreakdownOf (usd (pos 4_999)) (interchange ∷ scheme ∷ []) b
unfolding has_duplicates names_of
apportion_fee-IsBreakdownOf_example =
    apportion_fee-IsBreakdownOf contracts (usd (pos 4_999)) interchange (scheme ∷ []) refl refl
