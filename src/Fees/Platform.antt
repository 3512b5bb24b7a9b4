-- ===== src/Fees/Platform.antt =====
-- The platform fee of app/domain/fees.py, and the amount it is taken from.
use payzeno_ledger.Prelude.{◌≡◌, refl, sym, inl, inr, Bool-cases, true, false, arith}
use payzeno_ledger.Prelude.Int.{
  ℤ, pos, negsuc, ◌+ℤ◌, ◌-ℤ◌, ◌*ℤ◌, ◌≤ℤ◌, int_laws, round_half_up, ltb_ℤ, min_ℤ,
}
use payzeno_ledger.Prelude.Int.Rounding.{round_half_up_nonneg}
use payzeno_ledger.Errors.{ok}
use payzeno_ledger.Money.{Contracts, Money, make_money, apply_bps, bps_denominator}
use payzeno_ledger.Money.Arithmetic.{str_eq_of}
use payzeno_ledger.Fees.{
  compute_platform_fee, net_of_fee, legacy_blended_fee, legacy_blended_bps,
  legacy_blended_fixed_minor,
}

-- Rounding an integer changes nothing.
round_whole : (a : ℤ) → round_half_up a 1 ≡ a
unfolding round_half_up
round_whole (pos n) = ground arith
round_whole (negsuc n) = ground arith

-- What a fee taken from `gross` has to be.
pub record IsFeeOf (gross fee : Money) : Type 0 where
  pub same_currency : fee.currency ≡ gross.currency
  pub capped : fee.amount_minor ≤ℤ gross.amount_minor
  pub nonneg : pos 0 ≤ℤ fee.amount_minor

pub *ℤ_nonneg : (a b : ℤ) → pos 0 ≤ℤ a → pos 0 ≤ℤ b → pos 0 ≤ℤ a *ℤ b
unfolding ◌*ℤ◌
*ℤ_nonneg (pos a) (pos b) h k = ground arith
*ℤ_nonneg (pos a) (negsuc b) h k = absurd (omega arith)
*ℤ_nonneg (negsuc a) b h k = absurd (omega arith)

pub min_ℤ_bounds : (a b : ℤ) → (min_ℤ a b ≤ℤ b) × (pos 0 ≤ℤ a → pos 0 ≤ℤ b → pos 0 ≤ℤ min_ℤ a b)
min_ℤ_bounds a b = (ground arith, λ h k. ground arith)

module _ (c : Contracts) where
  -- The legacy fee is the modern one at 290 basis points and 30 minor units.
  pub legacy_blended_fee-compute_platform_fee :
      (gross : Money)
      → legacy_blended_fee c gross
        ≡ compute_platform_fee c gross legacy_blended_bps legacy_blended_fixed_minor
  unfolding legacy_blended_fee compute_platform_fee apply_bps make_money
  legacy_blended_fee-compute_platform_fee gross = elim (Bool-cases (c.supports gross.currency)) [
    | inl known ↦ rw (round_whole, known)
    | inr unknown ↦ rw unknown
  ]

  -- The fee that is charged for rates which are not negative.
  pub compute_platform_fee-IsFeeOf :
      (gross : Money) (bps fixed : ℤ)
      → c.supports gross.currency ≡ true
      → pos 0 ≤ℤ gross.amount_minor
      → pos 0 ≤ℤ bps
      → pos 0 ≤ℤ fixed
      → (fee : Money) × (compute_platform_fee c gross bps fixed ≡ ok fee) × IsFeeOf gross fee
  unfolding compute_platform_fee apply_bps make_money
  compute_platform_fee-IsFeeOf gross bps fixed known hg hb hf =
      let rounded = round_half_up (gross.amount_minor *ℤ bps) bps_denominator in
      let bounds = min_ℤ_bounds (rounded +ℤ fixed) gross.amount_minor in
      let b : ltb_ℤ bps (pos 0) ≡ false = ground arith in
      let f : ltb_ℤ fixed (pos 0) ≡ false = ground arith in
      (
        record {
          amount_minor = min_ℤ (rounded +ℤ fixed) gross.amount_minor;
          currency = gross.currency;
        },
        rw (f, b, known),
        record {
          same_currency = refl;
          capped = bounds.0;
          nonneg =
              bounds.1
                (omega (
                  int_laws,
                  round_half_up_nonneg _ bps_denominator (*ℤ_nonneg gross.amount_minor bps hg hb),
                ))
                hg;
        },
      )

  -- For an amount and rates that are not negative, in a supported currency, the fee and what is left
  -- after it are computed and make up the amount, and what is left is not negative.
  pub net_of_fee-compute_platform_fee :
      (gross : Money) (bps fixed : ℤ)
      → c.supports gross.currency ≡ true
      → pos 0 ≤ℤ gross.amount_minor
      → pos 0 ≤ℤ bps
      → pos 0 ≤ℤ fixed
      → (fee net : Money) × (compute_platform_fee c gross bps fixed ≡ ok fee)
        × (net_of_fee c gross fee ≡ ok net)
        × (fee.amount_minor +ℤ net.amount_minor ≡ gross.amount_minor)
        × (pos 0 ≤ℤ net.amount_minor)
  unfolding net_of_fee make_money
  net_of_fee-compute_platform_fee gross bps fixed known hg hb hf =
      let (fee, computed, is_fee) = compute_platform_fee-IsFeeOf gross bps fixed known hg hb hf in
      let capped = is_fee.capped in
      let fits : ltb_ℤ gross.amount_minor fee.amount_minor ≡ false = ground arith in
      (
        fee,
        record { amount_minor = gross.amount_minor -ℤ fee.amount_minor; currency = gross.currency },
        computed,
        rw (str_eq_of (sym is_fee.same_currency), fits, known),
        omega int_laws,
        omega int_laws,
      )
