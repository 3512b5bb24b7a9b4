-- ===== src/Fx.antt =====
-- app/domain/fx.py: the conversion of a payout. A rate is a whole number of units of 10 ^ -10, which
-- is what the code quantises every rate to; how a rate is parsed and crossed is not modelled.
pub mod Spread
use payzeno_ledger.Prelude.{
  ℕ, ◌+◌, ◌-◌, ◌*◌, ◌^◌, String, Bool, true, false, ◌||◌, str_eq, if◌then◌else◌,
}
use payzeno_ledger.Prelude.Int.{ℤ, pos, pos_part, ◌-ℤ◌, ◌*ℤ◌, ltb_ℤ, leb_ℤ, half_up, round_half_up}
use payzeno_ledger.Errors.{
  Result, ok, err, ◌>>=◌, ◌>>◌, raise_if, validation, markup_out_of_range, source_not_positive,
  same_currency, too_small,
}
use payzeno_ledger.Money.{Contracts, Money, make_money, exponent_for, bps_denominator}

-- One unit of a rate is 1 / rate_scale; `RATE_PLACES` is 10.
abbrev pub rate_scale : ℕ
rate_scale = 10_000_000_000

pub record FxConversion : Type 0 where
  pub source : Money
  pub target : Money
  pub mid_rate : ℕ
  pub rate : ℕ
  pub markup_bps : ℤ
  pub mid_target_minor : ℤ

-- `FxConversion.spread_minor`
abbrev pub spread_minor : FxConversion → ℤ
spread_minor q = q.mid_target_minor -ℤ q.target.amount_minor

unfoldable pub marked_down_rate : ℕ → ℤ → Result ℕ
marked_down_rate mid_rate markup_bps =
    if ltb_ℤ markup_bps (pos 0) || leb_ℤ (pos bps_denominator) markup_bps
    then err (validation markup_out_of_range)
    else ok (half_up (mid_rate * (bps_denominator - pos_part markup_bps)) bps_denominator)

-- The rounded conversion, by the exponents of the two currencies.
abbrev pub converted : ℤ → ℕ → (to_exponent from_exponent : ℕ) → ℤ
converted amount_minor rate to_exponent from_exponent =
    round_half_up (amount_minor *ℤ pos (rate * 10 ^ to_exponent)) (rate_scale * 10 ^ from_exponent)

module _ (c : Contracts) where
  unfoldable pub convert_minor : ℤ → String → String → ℕ → Result ℤ
  convert_minor amount_minor from_currency to_currency rate = do
    to_exponent ← exponent_for c to_currency
    from_exponent ← exponent_for c from_currency
    ok (converted amount_minor rate to_exponent from_exponent)

  unfoldable pub quote_payout_conversion : Money → String → ℕ → ℤ → Result FxConversion
  quote_payout_conversion source to_currency mid_rate markup_bps = do
    raise_if (leb_ℤ source.amount_minor (pos 0)) (validation source_not_positive)
    raise_if (str_eq source.currency to_currency) (validation same_currency)
    rate ← marked_down_rate mid_rate markup_bps
    target_minor ← convert_minor source.amount_minor source.currency to_currency rate
    mid_minor ← convert_minor source.amount_minor source.currency to_currency mid_rate
    raise_if (leb_ℤ target_minor (pos 0)) (validation too_small)
    target ← make_money c target_minor to_currency
    ok (record {
      source = source;
      target = target;
      mid_rate = mid_rate;
      rate = rate;
      markup_bps = markup_bps;
      mid_target_minor = mid_minor;
    })
