-- ===== src/Tests/Ledger.antt =====
-- Runs of the poster of app/services/transactions.py on empty tables.
use payzeno_ledger.Prelude.{◌≡◌, refl, ◌↔◌, ◌⊎◌, ◌≤◌, true, some, none, length, find}
use payzeno_ledger.Errors.{ok}
use payzeno_ledger.Posting.{validate}
use payzeno_ledger.Posting.Balance.{IsBalanced}
use payzeno_ledger.Rules.{LedgerPurpose}
use payzeno_ledger.Keys.{LedgerKey, ledger_key, id_part, text_part}
use payzeno_ledger.Ledger.{Tables, begin}
use payzeno_ledger.Ledger.Actions.{Ensures}
use payzeno_ledger.Ledger.Transactions.{find_by_idempotency_key}
use payzeno_ledger.Ledger.Reports.{trial_balance_by_currency}
use payzeno_ledger.Ledger.Poster.{
  Request, PostResult, return_existing, row_of, assert_invariants, post,
}
use payzeno_ledger.Ledger.Poster.Checks.{assert_invariants_iff-validate}
use payzeno_ledger.Ledger.Poster.Outcome.{IsPosted, IsReplayed, post_outcome}
use payzeno_ledger.Ledger.Poster.Acceptance.{post-accepts}
use payzeno_ledger.Ledger.Invariants.{no_tables, empty, posted}
use payzeno_ledger.Ledger.Invariants.TrialBalance.{trial_balance_by_currency-level}
use payzeno_ledger.Ledger.Invariants.UniqueKeys.{with_key, post-at_most_once}
use payzeno_ledger.Ledger.Invariants.Drift.{cache-agrees}
use payzeno_ledger.Ledger.Cache.{get_balance}
use payzeno_ledger.Ledger.Cache.Delta.{cached}
use payzeno_ledger.Ledger.Reports.{sum_bucket}
use payzeno_ledger.Chart.{available}
use payzeno_ledger.Tests.{two_legs, two_legs-IsBalanced}

abbrev a_key : LedgerKey
a_key = ledger_key "fund" (id_part 5) (text_part "2024-05-01")

abbrev a_request : Request
a_request = record {
  idempotency_key = a_key;
  purpose = LedgerPurpose.settlement_funding;
  merchant_id = some 7;
  currency = "USD";
  livemode = true;
  reference_type = "settlement_batch";
  reference_id = 5;
  lines = two_legs;
  created_by = "test";
  request_fingerprint = 99;
  on_conflict = return_existing;
}

abbrev a_result : PostResult
a_result = record { transaction = row_of a_request 0; created = true }

abbrev after_post : Tables
after_post = (post a_request no_tables).1

abbrev books : Tables
books = (begin (post a_request) no_tables).1

assert_invariants_iff-validate_example :
    (assert_invariants two_legs ≡ ok tt) ↔ (validate two_legs ≡ ok tt)
assert_invariants_iff-validate_example = assert_invariants_iff-validate two_legs

post_outcome_example : Ensures (post a_request) no_tables (λ r t.
    IsBalanced two_legs × (IsPosted a_request no_tables r t ⊎ IsReplayed a_request no_tables r t))
post_outcome_example = post_outcome a_request no_tables

post-accepts_example :
    (r : PostResult) × ((post a_request no_tables).0 ≡ ok r)
    × IsPosted a_request no_tables r (post a_request no_tables).1
unfolding find_by_idempotency_key find
post-accepts_example = post-accepts a_request no_tables two_legs-IsBalanced refl tt

trial_balance_by_currency-level_example :
    (trial_balance_by_currency "USD" none books.entries).debit_minor
    ≡ (trial_balance_by_currency "USD" none books.entries).credit_minor
trial_balance_by_currency-level_example =
    trial_balance_by_currency-level books (posted empty a_request) "USD" none

post-at_most_once_example : length (with_key a_key books.transactions) ≤ 1
post-at_most_once_example = post-at_most_once books (posted empty a_request) a_key

cache-agrees_example :
    cached available (get_balance 7 "USD" true books.balances)
    ≡ sum_bucket 7 "USD" true available books.accounts books.entries
cache-agrees_example = cache-agrees books (posted empty a_request) 7 "USD" true available
