-- ===== src/Money/Arithmetic.antt =====
-- Sums, differences and rates of amounts in app/domain/money.py.
use payzeno_ledger.Prelude.{
  ◌≡◌, refl, ap, String, true, false, arith, if◌then◌else◌, str_eq, eq_iff, Bool-cases, inl, inr,
}
use payzeno_ledger.Prelude.Int.{ℤ, pos, ◌+ℤ◌, ◌-ℤ◌, ◌*ℤ◌, ◌≤ℤ◌, int_laws, round_half_up, ltb_ℤ}
use payzeno_ledger.Prelude.Int.Rounding.{IsHalfUp, round_half_up-IsHalfUp}
use payzeno_ledger.Errors.{ok, err, ◌>>=◌, currency_mismatch}
use payzeno_ledger.Money.{Contracts, Money, add_money, sub_money, apply_bps, bps_denominator}

pub str_eq_of : {s t : String} → s ≡ t → str_eq s t ≡ true
str_eq_of {s} {t} e = (eq_iff s t).1 e

pub str_ne_of : {s t : String} → ¬ (s ≡ t) → str_eq s t ≡ false
str_ne_of {s} {t} h = ground (arith, eq_iff s t)

pub add_sub : (a b : ℤ) → a +ℤ b -ℤ b ≡ a
add_sub a b = omega int_laws

module _ (c : Contracts) where
  -- A difference takes a sum back, in one supported currency; two currencies do not add up.
  pub add_money-sub_money :
      (a b : Money)
      → c.supports a.currency ≡ true
      → (add_money c a b >>= λ s. sub_money c s b)
        ≡ (if str_eq a.currency b.currency then ok a else err currency_mismatch)
  unfolding add_money sub_money
  add_money-sub_money a b known = elim (Bool-cases (str_eq a.currency b.currency)) [
    | inl same ↦
        rw (same, known, same, known)
          (ap (λ x. ok (record { amount_minor = x; currency = a.currency }))
            (add_sub a.amount_minor b.amount_minor))
    | inr differ ↦ rw differ refl
  ]

  -- A rate that is not negative gives the nearest amount, a half rounded away from zero.
  pub apply_bps-IsHalfUp :
      (m : Money) (bps : ℤ)
      → c.supports m.currency ≡ true
      → pos 0 ≤ℤ bps
      → (r : Money) × (apply_bps c m bps ≡ ok r)
        × (r.currency ≡ m.currency)
        × IsHalfUp (m.amount_minor *ℤ bps) bps_denominator r.amount_minor
  unfolding apply_bps
  apply_bps-IsHalfUp m bps known h =
      let nonneg : ltb_ℤ bps (pos 0) ≡ false = ground arith in
      (
        record {
          amount_minor = round_half_up (m.amount_minor *ℤ bps) bps_denominator;
          currency = m.currency;
        },
        rw (nonneg, known),
        refl,
        round_half_up-IsHalfUp _ _ (omega arith),
      )
