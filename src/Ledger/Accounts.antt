-- ===== src/Ledger/Accounts.antt =====
-- `AccountRepository.find_one` and `AccountResolver.get_or_create`: the one account of a merchant,
-- type, currency and mode. (A second connection that creates it at the same time is not modelled.)
pub mod Identity
use payzeno_ledger.Prelude.{
  ℕ, ◌+◌, String, Bool, ◌&&◌, Option, some, none, List, ◌∷◌, find, ◌==◌, bool_eq, str_eq,
}
use payzeno_ledger.Errors.{ok}
use payzeno_ledger.Chart.{AccountType, same_type, normal_balance_by_type}
use payzeno_ledger.Ledger.{Account, Action, active, opt_eq}

abbrev pub has_key : Option ℕ → AccountType → String → Bool → Account → Bool
has_key merchant_id type currency livemode a =
    same_type a.type type
    && (str_eq a.currency currency
        && (bool_eq a.livemode livemode && opt_eq a.merchant_id merchant_id))

unfoldable pub find_one : Option ℕ → AccountType → String → Bool → List Account → Option Account
find_one merchant_id type currency livemode accounts =
    find (has_key merchant_id type currency livemode) accounts

-- `accounts.get(session, id)`
unfoldable pub account_by_id : ℕ → List Account → Option Account
account_by_id id accounts = find (λ (a : Account). a.id == id) accounts

abbrev pub new_account : ℕ → Option ℕ → AccountType → String → Bool → Account
new_account id merchant_id type currency livemode = record {
  id = id;
  merchant_id = merchant_id;
  type = type;
  currency = currency;
  normal_balance = normal_balance_by_type type;
  status = active;
  livemode = livemode;
}

-- The rest of `get_or_create`, from what `find_one` found. The table of normal balances has every
-- type, so the test for an unknown type never fires.
abbrev pub existing_or_new :
    Option ℕ → AccountType → String → Bool → Option Account → Action Account
existing_or_new merchant_id type currency livemode (some existing) s = (ok existing, s)
existing_or_new merchant_id type currency livemode none s =
    let account = new_account s.next_id merchant_id type currency livemode in
    (ok account, record s { accounts = account ∷ s.accounts; next_id = s.next_id + 1 })

unfoldable pub get_or_create : Option ℕ → AccountType → String → Bool → Action Account
get_or_create merchant_id type currency livemode s =
    existing_or_new merchant_id type currency livemode
      (find_one merchant_id type currency livemode s.accounts) s
