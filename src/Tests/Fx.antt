-- ===== src/Tests/Fx.antt =====
-- A quote of app/domain/fx.py: 100.00 USD into JPY at 151.20 with a markup of 1 %.
use payzeno_ledger.Prelude.{◌≡◌, refl, false, List}
use payzeno_ledger.Prelude.Int.{pos, neg_ℤ, ◌*ℤ◌, round_half_up}
use payzeno_ledger.Errors.{ok}
use payzeno_ledger.Money.{make_money, exponent_for}
use payzeno_ledger.Chart.{cash, fx_clearing, fx_revenue}
use payzeno_ledger.Posting.{PostingContext, PostingLine, is_blank}
use payzeno_ledger.Posting.Balance.{movement}
use payzeno_ledger.Rules.Payouts.{build_fx_payout_target}
use payzeno_ledger.Fx.{
  FxConversion, spread_minor, marked_down_rate, convert_minor, quote_payout_conversion,
}
use payzeno_ledger.Fx.Spread.{build_fx_payout_target-quote_payout_conversion}
use payzeno_ledger.Tests.{contracts, usd, a_sale}

abbrev a_quote : FxConversion
a_quote = record {
  source = usd (pos 10_000);
  target = record { amount_minor = pos 14_969; currency = "JPY" };
  mid_rate = 1_512_000_000_000;
  rate = 1_496_880_000_000;
  markup_bps = pos 100;
  mid_target_minor = pos 15_120;
}

quote_run :
    quote_payout_conversion contracts (usd (pos 10_000)) "JPY" 1_512_000_000_000 (pos 100)
    ≡ ok a_quote
unfolding quote_payout_conversion marked_down_rate convert_minor exponent_for make_money
    round_half_up ◌*ℤ◌
quote_run = refl

abbrev a_payout : PostingContext
a_payout = record a_sale {
  currency = "JPY";
  gross_minor = pos 15_120;
  net_minor = pos 14_969;
  fee_minor = spread_minor a_quote;
}

named : is_blank "JPY" ≡ false
unfolding is_blank
named = refl

build_fx_payout_target-quote_payout_conversion_example :
    (out : List PostingLine) × (build_fx_payout_target a_payout ≡ ok out)
    × (movement fx_clearing out ≡ pos 15_120)
    × (movement cash out ≡ neg_ℤ (pos 14_969))
    × (movement fx_revenue out ≡ neg_ℤ (spread_minor a_quote))
build_fx_payout_target-quote_payout_conversion_example =
    build_fx_payout_target-quote_payout_conversion contracts (usd (pos 10_000)) "JPY"
      1_512_000_000_000 (pos 100) a_quote a_payout quote_run named refl refl refl
