-- ===== src/Tests/Payouts.antt =====
-- Runs of app/services/payouts.py: a merchant with 5000 minor units payable, paid out over ACH.
use payzeno_ledger.Prelude.{ℕ, ◌≡◌, refl, true, false, some, none, List, [], ◌∷◌, inl}
use payzeno_ledger.Prelude.Int.{pos}
use payzeno_ledger.Errors.{ok}
use payzeno_ledger.Chart.{merchant_payable, credit}
use payzeno_ledger.Calendar.{make_calendar}
use payzeno_ledger.Payout.{
  Payout, scheduled, failed, standard_ach, rail_reference, statement_reference, reversed_status,
  in_flight_for,
}
use payzeno_ledger.Ledger.{active, Tables, begin, ◌>>=◌}
use payzeno_ledger.Ledger.Actions.{Ensures}
use payzeno_ledger.Prelude.{find, keep}
use payzeno_ledger.Prelude.Int.{◌-ℤ◌, ◌+ℤ◌, neg_ℤ}
use payzeno_ledger.Calendar.{next_business_day, search_open, is_business_day, known_day}
use payzeno_ledger.Posting.Balance.{side_total}
use payzeno_ledger.Keys.{same_key}
use payzeno_ledger.Payout.{satisfies_checks, in_flight_status, drawn_from}
use payzeno_ledger.Ledger.Accounts.{account_by_id, get_or_create, find_one}
use payzeno_ledger.Ledger.Transactions.{
  find_by_idempotency_key, claim_idempotency_key, get_or_raise,
}
use payzeno_ledger.Ledger.Reports.{sum_bucket, case_sum}
use payzeno_ledger.Ledger.Poster.{
  post, assert_invariants, check_lines, post_claimed, materialise_entries, refuse_shut,
  publish_posted, balances_after,
}
use payzeno_ledger.Payouts.Repository.{
  get_payout, payout_by_id, find_in_flight, add_payout, flushed, clashes, conflicts, save_payout,
  replace_payout,
}
use payzeno_ledger.Payouts.Rails.{initiate, initiate_ach, assert_usable, effective_date}
use payzeno_ledger.Payouts.Postings.{
  payout_request, post_for_payout, post_payout, reverse_plain_payout, reverse_payout_posting,
}
use payzeno_ledger.Payouts.Destination.{
  destination_of, get_merchant, is_blocked, resolve_bank, default_bank, find_default, method_for,
  default_method, rate_for,
}
use payzeno_ledger.Payouts.Creation.{
  amount_of_payout, check_amount, compute_available, conversion_of, insert_and_post, new_payout,
}
use payzeno_ledger.Payouts.Settling.{publish_payout, failed_from, fail_payout}
use payzeno_ledger.Payouts.Giving.Ends.{IsFailure, mark_failed-IsFailure}
use payzeno_ledger.Payouts.{PayoutRequest, PayoutSettings}
use payzeno_ledger.Payouts.Settling.{mark_failed, mark_paid}
use payzeno_ledger.Payouts.Creation.{create_payout}
use payzeno_ledger.Payouts.Drawing.Created.{IsCreated, create_payout-IsCreated}
use payzeno_ledger.Payouts.Giving.Paid.{paid_row, mark_paid_after_failure}
use payzeno_ledger.Payouts.RoundTrip.{IsUndone, create_payout-mark_failed, mark_failed-mark_failed}
use payzeno_ledger.Payouts.Invariants.Sessions.{
  started, created, rejected, IsStored, one_in_flight, reversal_present,
}

abbrev pub a_service : PayoutSettings
a_service = record {
  contracts = record { supports = λ currency. true; exponent = λ currency. some 2 };
  calendar = make_calendar [] [];
  payout_cutoff = λ method. 1260;
  payout_same_day_ach = false;
  now = record { date = 738_000; time = 600 };
  fx = none;
  sha256_of = λ key. 0;
}

abbrev pub a_payout_request : PayoutRequest
a_payout_request = record {
  currency = "USD";
  amount_minor = some (pos 2000);
  method = none;
  livemode = none;
  bank_account_id = none;
}

abbrev pub books_of : List Payout → Tables
books_of payouts = record {
  accounts =
      record {
        id = 0;
        merchant_id = some 7;
        type = merchant_payable;
        currency = "USD";
        normal_balance = credit;
        status = active;
        livemode = true;
      }
      ∷ [];
  transactions = [];
  entries =
      record {
        id = 1;
        transaction_id = 2;
        account_id = 0;
        direction = credit;
        amount_minor = pos 5000;
        currency = "USD";
        livemode = true;
        sequence = 1;
      }
      ∷ [];
  balances =
      record {
        merchant_id = 7;
        currency = "USD";
        livemode = true;
        available_minor = pos 5000;
        pending_minor = pos 0;
        reserved_minor = pos 0;
        disputed_minor = pos 0;
        negative_balance_minor = pos 0;
        last_transaction_id = 2;
      }
      ∷ [];
  outbox = [];
  payouts = payouts;
  payout_events = [];
  merchants =
      record { merchant_id = 7; default_currency = some "USD"; status = "active"; livemode = true }
      ∷ [];
  banks =
      record {
        bank_account_id = 11;
        merchant_id = 7;
        currency = "USD";
        scheme = "aba";
        iban_last_four = none;
        sort_code_last_four = none;
        status = "verified";
        is_default = true;
        livemode = true;
      }
      ∷ [];
  next_id = 3;
}

abbrev pub a_payout : Payout
a_payout = record {
  id = 3;
  merchant_id = 7;
  bank_account_id = 11;
  amount_minor = pos 2000;
  currency = "USD";
  status = scheduled;
  method = standard_ach;
  available_on = 738_000;
  arrival_estimate = some 738_001;
  failure_code = none;
  failure_message = none;
  ledger_transaction_id = some 4;
  reversal_transaction_id = none;
  bank_reference = some (rail_reference standard_ach 3);
  source = none;
  livemode = true;
}

create_payout_run : (create_payout a_service 7 a_payout_request (books_of [])).0 ≡ ok a_payout
unfolding create_payout ◌>>=◌ destination_of get_merchant find is_blocked resolve_bank default_bank
    find_default method_for default_method rate_for amount_of_payout find_in_flight check_amount
    compute_available sum_bucket case_sum keep account_by_id ◌-ℤ◌ ◌+ℤ◌ neg_ℤ conversion_of
    next_business_day search_open is_business_day known_day insert_and_post add_payout flushed
    satisfies_checks in_flight_status reversed_status clashes conflicts drawn_from new_payout
    post_payout payout_request post_for_payout post assert_invariants side_total check_lines
    claim_idempotency_key find_by_idempotency_key same_key post_claimed get_or_raise
    materialise_entries get_or_create find_one refuse_shut publish_posted initiate initiate_ach
    assert_usable effective_date save_payout replace_payout publish_payout balances_after
create_payout_run = refl

create_payout-IsCreated_example :
    Ensures
      (create_payout a_service 7 a_payout_request)
      (books_of [])
      (IsCreated 7 a_payout_request (books_of []))
create_payout-IsCreated_example = create_payout-IsCreated a_service 7 a_payout_request (books_of [])

create_payout-mark_failed_example :
    Ensures
      (create_payout a_service 7 a_payout_request >>= λ p.
        mark_failed a_service p.id "account_closed" "R02")
      (books_of [])
      (IsUndone (books_of []))
create_payout-mark_failed_example =
    create_payout-mark_failed a_service 7 a_payout_request (books_of []) "account_closed" "R02"

abbrev after_creation : Tables
after_creation = (begin (create_payout a_service 7 a_payout_request) (books_of [])).1

IsStored-payout : IsStored a_payout after_creation.payouts
unfolding create_payout ◌>>=◌ destination_of get_merchant find is_blocked resolve_bank default_bank
    find_default method_for default_method rate_for amount_of_payout find_in_flight check_amount
    compute_available sum_bucket case_sum keep account_by_id ◌-ℤ◌ ◌+ℤ◌ neg_ℤ conversion_of
    next_business_day search_open is_business_day known_day insert_and_post add_payout flushed
    satisfies_checks in_flight_status reversed_status clashes conflicts drawn_from new_payout
    post_payout payout_request post_for_payout post assert_invariants side_total check_lines
    claim_idempotency_key find_by_idempotency_key same_key post_claimed get_or_raise
    materialise_entries get_or_create find_one refuse_shut publish_posted initiate initiate_ach
    assert_usable effective_date save_payout replace_payout publish_payout balances_after begin
IsStored-payout = inl refl

open_payout : in_flight_for 7 "USD" true a_payout ≡ true
unfolding in_flight_status drawn_from
open_payout = refl

one_in_flight_example : a_payout.id ≡ a_payout.id
one_in_flight_example =
    one_in_flight after_creation (created (started (books_of []) refl) a_service 7 a_payout_request)
      7 "USD" true a_payout a_payout IsStored-payout IsStored-payout open_payout open_payout

abbrev books : Tables
books = books_of (a_payout ∷ [])

abbrev a_failed_payout : Payout
a_failed_payout = record a_payout {
  status = failed;
  failure_code = some "account_closed";
  failure_message = some "R02";
  reversal_transaction_id = some 3;
}

abbrev after_failure : Tables
after_failure = (mark_failed a_service 3 "account_closed" "R02" books).1

mark_failed_run :
    mark_failed a_service 3 "account_closed" "R02" books ≡ (ok a_failed_payout, after_failure)
unfolding mark_failed get_payout payout_by_id failed_from fail_payout reverse_payout_posting
    reverse_plain_payout ◌>>=◌ destination_of get_merchant find is_blocked resolve_bank default_bank
    find_default method_for default_method rate_for amount_of_payout find_in_flight check_amount
    compute_available sum_bucket case_sum keep account_by_id ◌-ℤ◌ ◌+ℤ◌ neg_ℤ conversion_of
    next_business_day search_open is_business_day known_day insert_and_post add_payout flushed
    satisfies_checks in_flight_status reversed_status clashes conflicts drawn_from new_payout
    post_payout payout_request post_for_payout post assert_invariants side_total check_lines
    claim_idempotency_key find_by_idempotency_key same_key post_claimed get_or_raise
    materialise_entries get_or_create find_one refuse_shut publish_posted initiate initiate_ach
    assert_usable effective_date save_payout replace_payout publish_payout balances_after
mark_failed_run = refl

mark_failed-mark_failed_example :
    mark_failed a_service 3 "other" "R03" after_failure ≡ (ok a_failed_payout, after_failure)
mark_failed-mark_failed_example =
    mark_failed-mark_failed a_service 3 "account_closed" "R02" "other" "R03" books after_failure
      a_failed_payout mark_failed_run

mark_failed-IsFailure_example :
    Ensures
      (mark_failed a_service 3 "account_closed" "R02")
      books
      (λ p t. (p0 : Payout) × (payout_by_id 3 books.payouts ≡ some p0) × IsFailure p0 books p t)
mark_failed-IsFailure_example = mark_failed-IsFailure a_service "account_closed" "R02" 3 books

abbrev after_both : Tables
after_both = (begin (mark_failed a_service 3 "account_closed" "R02") after_creation).1

abbrev a_returned_row : Payout
a_returned_row = record a_failed_payout { reversal_transaction_id = some 8 }

IsStored-failure : IsStored a_returned_row after_both.payouts
unfolding begin create_payout mark_failed get_payout payout_by_id failed_from fail_payout
    reverse_payout_posting reverse_plain_payout ◌>>=◌ destination_of get_merchant find is_blocked
    resolve_bank default_bank find_default method_for default_method rate_for amount_of_payout
    find_in_flight check_amount compute_available sum_bucket case_sum keep account_by_id ◌-ℤ◌ ◌+ℤ◌
    neg_ℤ conversion_of next_business_day search_open is_business_day known_day insert_and_post
    add_payout flushed satisfies_checks in_flight_status reversed_status clashes conflicts
    drawn_from new_payout post_payout payout_request post_for_payout post assert_invariants
    side_total check_lines claim_idempotency_key find_by_idempotency_key same_key post_claimed
    get_or_raise materialise_entries get_or_create find_one refuse_shut publish_posted initiate
    initiate_ach assert_usable effective_date save_payout replace_payout publish_payout
    balances_after
IsStored-failure = inl refl

has_failed : reversed_status a_returned_row.status ≡ true
unfolding reversed_status
has_failed = refl

reversal_present_example : (id : ℕ) × (a_returned_row.reversal_transaction_id ≡ some id)
reversal_present_example =
    reversal_present after_both
      (rejected (created (started (books_of []) refl) a_service 7 a_payout_request) a_service 3
        "account_closed" "R02")
      a_returned_row IsStored-failure has_failed

mark_paid_after_failure_example :
    (mark_paid a_service 3 (statement_reference "BANK-1") (books_of (a_failed_payout ∷ []))).0
    ≡ ok (paid_row (statement_reference "BANK-1") a_failed_payout)
unfolding payout_by_id find satisfies_checks reversed_status
mark_paid_after_failure_example =
    mark_paid_after_failure a_service 3 (statement_reference "BANK-1") a_failed_payout
      (books_of (a_failed_payout ∷ [])) refl refl refl
