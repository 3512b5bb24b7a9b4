-- ===== src/Reconciliation.antt =====
-- The rows that app/services/reconciliation/ works on: a line of an acquirer's file
-- (app/models/reconciliation_item.py) and a charge (app/models/projections.py), with the columns that
-- matching reads or writes. Times are seconds; the statuses are texts of the contracts package.
pub mod Matching
use payzeno_ledger.Prelude.{ℕ, String, Bool, Option, none, some}
use payzeno_ledger.Prelude.Int.{ℤ, pos, ◌-ℤ◌}
use payzeno_ledger.Rules.{LineType}

pub data MatchMethod : Type 0 where
  exact_reference network_txn heuristic manual unmatched : MatchMethod

pub record SettlementCharge : Type 0 where
  pub charge_id : ℕ
  pub merchant_id : ℕ
  pub amount_minor : ℤ
  pub currency : String
  pub acquirer : String
  pub processor_reference : Option String
  pub network_transaction_id : Option String
  pub authorized_at : ℕ

pub record ReconciliationItem : Type 0 where
  pub id : ℕ
  pub charge_id : Option ℕ
  pub merchant_id : Option ℕ
  pub line_type : LineType
  pub gross_minor : ℤ
  pub expected_gross_minor : Option ℤ
  pub variance_minor : ℤ
  pub currency : String
  pub acquirer : String
  pub acquirer_reference : String
  pub network_reference : Option String
  pub match_method : MatchMethod
  pub matched_at : Option ℕ
  pub status : String

unfoldable pub compute_variance_minor : Option ℤ → ℤ → ℤ
compute_variance_minor none gross_minor = pos 0
compute_variance_minor (some expected_gross_minor) gross_minor = gross_minor -ℤ expected_gross_minor
