-- ===== src/Tests.antt =====
-- Concrete runs of the code that the other modules model, and the theorems applied to them.
mod Pricing
mod Calendar
mod Fx
mod Rules
mod Ledger
mod Payouts
mod Acceptance
mod Matching
mod Keys
mod Pacing
use payzeno_ledger.Prelude.{
  refl, List, [], ◌∷◌, arith, String, true, false, ◌||◌, Option, some, none, str_eq, if◌then◌else◌,
}
use payzeno_ledger.Prelude.Int.{ℤ, pos, ◌+ℤ◌}
use payzeno_ledger.Money.{Contracts, Money}
use payzeno_ledger.Chart.{cash, merchant_payable}
use payzeno_ledger.Posting.{PostingContext, PostingLine, debit_line, credit_line}
use payzeno_ledger.Posting.Balance.{IsBalanced, side_total}

-- Two currencies of the contracts package.
abbrev contracts : Contracts
contracts = record {
  supports = λ c. str_eq c "USD" || str_eq c "JPY";
  exponent = λ c. if str_eq c "USD" then some 2 else if str_eq c "JPY" then some 0 else none;
}

abbrev usd : ℤ → Money
usd amount = record { amount_minor = amount; currency = "USD" }

-- A sale of 100.00 USD at 2.9 % and 0.30, with a tenth of it reserved and an acquirer's fee of 1.80.
abbrev a_sale : PostingContext
a_sale = record {
  merchant_id = some 7;
  currency = "USD";
  livemode = true;
  gross_minor = pos 10_000;
  fee_minor = pos 180;
  net_minor = pos 9_000;
  interchange_minor = pos 120;
  scheme_fee_minor = pos 15;
  reserve_bps = pos 1_000;
  platform_fee_bps = pos 290;
  platform_fee_fixed_minor = pos 30;
}

-- A merchant is credited 5.00.
abbrev two_legs : List PostingLine
two_legs = debit_line cash (pos 500) ∷ credit_line merchant_payable (pos 500) ∷ []

two_legs-IsBalanced : IsBalanced two_legs
unfolding side_total ◌+ℤ◌
two_legs-IsBalanced = record {
  two_legs = omega arith;
  positive = (omega arith, (omega arith, tt));
  equal_sides = refl;
}
