-- ===== src/Tests/Acceptance.antt =====
-- The conditions under which app/services/payouts.py accepts a payout and its failure, on the rows of
-- Tests/Payouts.
use payzeno_ledger.Prelude.{true, some, none, [], ◌∷◌}
use payzeno_ledger.Prelude.Int.{pos}
use payzeno_ledger.Errors.{ok}
use payzeno_ledger.Posting.{is_blank}
use payzeno_ledger.Payout.{Payout, sepa, rail_reference}
use payzeno_ledger.Ledger.{Tables}
use payzeno_ledger.Payouts.Rails.{InitiationResult}
use payzeno_ledger.Payouts.Destination.{Destination}
use payzeno_ledger.Fx.{FxConversion}
use payzeno_ledger.Projections.{BankAccountProjection}
use payzeno_ledger.Payouts.{PayoutSettings, PayoutRate}
use payzeno_ledger.Posting.{is_blank}
use payzeno_ledger.Tests.Payouts.{a_service, books_of, a_payout}

-- The merchant's only account is in Germany, and the provider's rate is 0.90 less 2 percent.
abbrev a_bank : BankAccountProjection
a_bank = record {
  bank_account_id = 12;
  merchant_id = 7;
  currency = "EUR";
  scheme = "iban";
  iban_last_four = some "3000";
  sort_code_last_four = none;
  status = "verified";
  is_default = true;
  livemode = true;
}

abbrev a_rate : PayoutRate
a_rate = record { to_currency = "EUR"; mid_rate = 9_000_000_000; markup_bps = pos 200 }

abbrev an_fx_service : PayoutSettings
an_fx_service = record a_service { fx = some (λ from_currency to_currency. ok a_rate) }

abbrev foreign_books : Tables
foreign_books = record (books_of []) { banks = a_bank ∷ [] }

abbrev a_destination : Destination
a_destination = record { bank = a_bank; method = sepa; rate = some a_rate; livemode = true }

abbrev a_result : InitiationResult
a_result = record { reference = rail_reference sepa 3; arrival_estimate = 738_001 }

abbrev a_quote : FxConversion
a_quote = record {
  source = record { amount_minor = pos 2000; currency = "USD" };
  target = record { amount_minor = pos 1764; currency = "EUR" };
  mid_rate = 9_000_000_000;
  rate = 8_820_000_000;
  markup_bps = pos 200;
  mid_target_minor = pos 1800;
}

-- 20.00 dollars that reach a bank in Germany as 17.64 euros, with 0.36 of spread.
abbrev a_converted_payout : Payout
a_converted_payout = record a_payout {
  currency = "EUR";
  method = sepa;
  amount_minor = pos 1764;
  source = some (record {
    source_amount_minor = pos 2000;
    source_currency = "USD";
    fx_rate = 8_820_000_000;
    fx_spread_minor = pos 36;
  });
}

abbrev converted_books : Tables
converted_books = books_of (a_converted_payout ∷ [])
