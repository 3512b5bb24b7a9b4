-- ===== src/Money.antt =====
-- app/domain/money.py: an integer amount in minor units with its currency.
pub mod Arithmetic
pub mod Split
use payzeno_ledger.Prelude.{
  ℕ, zero, suc, ◌+◌, ◌*◌, String, Bool, true, false, not, Option, none, some, List, [], ◌∷◌, ltb,
  if◌then◌else◌, str_eq,
}
use payzeno_ledger.Prelude.Int.{
  ℤ, pos, negsuc, ◌+ℤ◌, ◌-ℤ◌, ◌*ℤ◌, neg_ℤ, ltb_ℤ, leb_ℤ, eqb_ℤ, floor_div, floor_mod, round_half_up,
}
use payzeno_ledger.Errors.{
  Result, ok, err, ◌>>=◌, ◌>>◌, raise_if, validation, currency_mismatch, negative_amount,
  unsupported_currency, bps_negative, parts_not_positive,
}

-- What the package payzeno_contracts says of currencies: `CURRENCIES`, and `CURRENCY_EXPONENT`.
pub record Contracts : Type 0 where
  pub supports : String → Bool
  pub exponent : String → Option ℕ

abbrev pub bps_denominator : ℕ
bps_denominator = 10_000

pub record Money : Type 0 where
  pub amount_minor : ℤ
  pub currency : String

module _ (c : Contracts) where
  -- `Money(amount_minor=..., currency=...)` with its `__post_init__`
  unfoldable pub make_money : ℤ → String → Result Money
  make_money amount currency =
      if c.supports currency
      then ok (record { amount_minor = amount; currency = currency })
      else err (validation unsupported_currency)

  unfoldable pub exponent_for : String → Result ℕ
  exponent_for currency = elim (c.exponent currency) [
    | some e ↦ ok e
    | none ↦ err (validation unsupported_currency)
  ]

  -- `zero(currency)`
  unfoldable pub zero_money : String → Result Money
  unfolding make_money
  zero_money currency = make_money (pos 0) currency

unfoldable pub is_zero : Money → Bool
is_zero m = eqb_ℤ m.amount_minor (pos 0)

unfoldable pub assert_same_currency : Money → Money → Result (Unit {0})
assert_same_currency a b = raise_if (not (str_eq a.currency b.currency)) currency_mismatch

module _ (c : Contracts) where
  unfoldable pub add_money : Money → Money → Result Money
  unfolding assert_same_currency make_money
  add_money a b = do
    assert_same_currency a b
    make_money c (a.amount_minor +ℤ b.amount_minor) a.currency

  unfoldable pub sub_money : Money → Money → Result Money
  unfolding assert_same_currency make_money
  sub_money a b = do
    assert_same_currency a b
    make_money c (a.amount_minor -ℤ b.amount_minor) a.currency

  unfoldable pub negate : Money → Result Money
  unfolding make_money
  negate m = make_money c (neg_ℤ m.amount_minor) m.currency

  unfoldable pub apply_bps : Money → ℤ → Result Money
  unfolding make_money
  apply_bps m bps = do
    raise_if (ltb_ℤ bps (pos 0)) (validation bps_negative)
    make_money c (round_half_up (m.amount_minor *ℤ bps) bps_denominator) m.currency

unfoldable pub require_positive : Money → Result Money
require_positive m = do raise_if (leb_ℤ m.amount_minor (pos 0)) negative_amount; ok m

module _ (c : Contracts) where
  -- the slices `i, i + 1, ...`, as many as there are left
  unfoldable pub slices : ℤ → ℕ → String → ℕ → ℕ → Result (List Money)
  unfolding make_money
  slices base remainder currency i zero = ok []
  slices base remainder currency i (suc left) = do
    m ← make_money c (base +ℤ (if ltb i remainder then pos 1 else pos 0)) currency
    rest ← slices base remainder currency (i + 1) left
    ok (m ∷ rest)

  unfoldable pub split_evenly : Money → ℤ → Result (List Money)
  unfolding slices
  split_evenly m (negsuc n) = err (validation parts_not_positive)
  split_evenly m (pos zero) = err (validation parts_not_positive)
  split_evenly m (pos (suc n)) =
      slices (floor_div m.amount_minor (suc n)) (floor_mod m.amount_minor (suc n)) m.currency 0
        (suc n)
