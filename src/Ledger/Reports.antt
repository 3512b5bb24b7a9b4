-- ===== src/Ledger/Reports.antt =====
-- The two sums over the entries of app/repositories/ledger_entry.py: the trial balance of a
-- currency, and the four buckets of a merchant. (Both are taken as of now.)
pub mod Buckets
use payzeno_ledger.Prelude.{
  ℕ, String, Bool, true, false, ◌&&◌, Option, some, none, List, [], ◌∷◌, map, keep, any, bool_eq,
  str_eq, if◌then◌else◌,
}
use payzeno_ledger.Prelude.Int.{ℤ, pos, ◌+ℤ◌, ◌-ℤ◌, neg_ℤ}
use payzeno_ledger.Chart.{
  Direction, debit, credit, same_direction, same_type, normal_balance_by_type, Bucket, bucket_type,
}
use payzeno_ledger.Ledger.{Account, LedgerEntry, opt_eq}
use payzeno_ledger.Ledger.Accounts.{account_by_id}

-- `func.sum(case((LedgerEntry.direction == d, LedgerEntry.amount_minor), else_=0))`
unfoldable pub case_sum : Direction → List LedgerEntry → ℤ
case_sum d [] = pos 0
case_sum d (e ∷ es) =
    (if same_direction e.direction d then e.amount_minor else pos 0) +ℤ case_sum d es

abbrev pub in_group : String → Bool → LedgerEntry → Bool
in_group currency livemode e = str_eq e.currency currency && bool_eq e.livemode livemode

pub record TrialBalanceRow : Type 0 where
  pub currency : String
  pub livemode : Bool
  pub debit_minor : ℤ
  pub credit_minor : ℤ

pub record TrialBalanceTotals : Type 0 where
  pub currency : String
  pub debit_minor : ℤ
  pub credit_minor : ℤ
  pub rows : List TrialBalanceRow

unfoldable pub trial_row : String → List LedgerEntry → Bool → TrialBalanceRow
trial_row currency entries livemode =
    let group = keep (in_group currency livemode) entries in
    record {
      currency = currency;
      livemode = livemode;
      debit_minor = case_sum debit group;
      credit_minor = case_sum credit group;
    }

-- A row of `GROUP BY livemode` for each mode that is asked for and has entries.
abbrev pub is_asked : Option Bool → Bool → Bool
is_asked none m = true
is_asked (some livemode) m = bool_eq m livemode

abbrev pub total_of : (TrialBalanceRow → ℤ) → List TrialBalanceRow → ℤ
total_of f [] = pos 0
total_of f (r ∷ rs) = f r +ℤ total_of f rs

unfoldable pub trial_balance_rows : String → Option Bool → List LedgerEntry → List TrialBalanceRow
trial_balance_rows currency livemode entries =
    map (trial_row currency entries)
      (keep (λ m. is_asked livemode m && any (in_group currency m) entries) (false ∷ true ∷ []))

unfoldable pub trial_balance_by_currency :
    String → Option Bool → List LedgerEntry → TrialBalanceTotals
trial_balance_by_currency currency livemode entries =
    let rows = trial_balance_rows currency livemode entries in
    record {
      currency = currency;
      debit_minor = total_of (λ (r : TrialBalanceRow). r.debit_minor) rows;
      credit_minor = total_of (λ (r : TrialBalanceRow). r.credit_minor) rows;
      rows = rows;
    }

-- The join of an entry with its account, and the query's conditions on the pair.
abbrev pub is_of_bucket : ℕ → Bucket → Option Account → Bool
is_of_bucket merchant_id b none = false
is_of_bucket merchant_id b (some a) =
    opt_eq a.merchant_id (some merchant_id) && same_type a.type (bucket_type b)

abbrev pub counts : ℕ → String → Bool → Bucket → List Account → LedgerEntry → Bool
counts merchant_id currency livemode b accounts e =
    is_of_bucket merchant_id b (account_by_id e.account_id accounts) && in_group currency livemode e

-- `_sum_buckets`, at one bucket
unfoldable pub sum_bucket : ℕ → String → Bool → Bucket → List Account → List LedgerEntry → ℤ
sum_bucket merchant_id currency livemode b accounts entries =
    let rows = keep (counts merchant_id currency livemode b accounts) entries in
    let credit_positive = case_sum credit rows -ℤ case_sum debit rows in
    if same_direction (normal_balance_by_type (bucket_type b)) debit
    then neg_ℤ credit_positive
    else credit_positive
