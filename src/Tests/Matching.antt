-- ===== src/Tests/Matching.antt =====
-- Runs of app/services/reconciliation/matcher.py on two charges and three lines.
use payzeno_ledger.Prelude.{◌≡◌, refl, true, none, some, List, [], ◌∷◌, inl}
use payzeno_ledger.Prelude.Int.{pos, ◌-ℤ◌, ◌+ℤ◌, neg_ℤ}
use payzeno_ledger.Rules.{LineType}
use payzeno_ledger.Reconciliation.{
  SettlementCharge, ReconciliationItem, unmatched, exact_reference, heuristic,
  compute_variance_minor,
}
use payzeno_ledger.Prelude.{find, keep}
use payzeno_ledger.Reconciliation.Matching.{
  match_strategies, match_item, match_items, exact_reference_match, network_transaction_match,
  heuristic_amount_window_match, find_by_processor_reference, find_by_network_transaction,
  find_in_amount_window, first_hit, apply_match, is_sale_line,
}
use payzeno_ledger.Reconciliation.Matching.Pass.{IsAttached, match_item-by_reference}

abbrev a_charge : SettlementCharge
a_charge = record {
  charge_id = 1;
  merchant_id = 7;
  amount_minor = pos 4200;
  currency = "USD";
  acquirer = "worldflow";
  processor_reference = some "WF-1";
  network_transaction_id = none;
  authorized_at = 900_000;
}

abbrev another_charge : SettlementCharge
another_charge = record a_charge {
  charge_id = 2;
  amount_minor = pos 999;
  processor_reference = some "WF-2";
}

abbrev charges : List SettlementCharge
charges = a_charge ∷ another_charge ∷ []

abbrev a_line : ReconciliationItem
a_line = record {
  id = 10;
  charge_id = none;
  merchant_id = none;
  line_type = LineType.sale;
  gross_minor = pos 4150;
  expected_gross_minor = none;
  variance_minor = pos 0;
  currency = "USD";
  acquirer = "worldflow";
  acquirer_reference = "WF-1";
  network_reference = none;
  match_method = unmatched;
  matched_at = none;
  status = "pending";
}

-- One cent off the second charge, with a reference that no charge has.
abbrev a_near_line : ReconciliationItem
a_near_line = record a_line {
  id = 11;
  merchant_id = some 7;
  gross_minor = pos 1000;
  acquirer_reference = "WF-9";
}

abbrev a_stray_line : ReconciliationItem
a_stray_line = record a_line { id = 12; acquirer_reference = "WF-8" }

abbrev lines : List ReconciliationItem
lines = a_line ∷ a_near_line ∷ a_stray_line ∷ []

match_items_run : match_items charges 900_100 match_strategies lines ≡ (
  record a_line {
    charge_id = some 1;
    merchant_id = some 7;
    expected_gross_minor = some (pos 4200);
    variance_minor = neg_ℤ (pos 50);
    match_method = exact_reference;
    matched_at = some 900_100;
  }
      ∷ record a_near_line {
        charge_id = some 2;
        expected_gross_minor = some (pos 999);
        variance_minor = pos 1;
        match_method = heuristic;
        matched_at = some 900_100;
        status = "needs_review";
      }
      ∷ a_stray_line
      ∷ [],
  2,
)
unfolding match_items match_item first_hit exact_reference_match network_transaction_match
    heuristic_amount_window_match find_by_processor_reference find_by_network_transaction
    find_in_amount_window apply_match is_sale_line compute_variance_minor find keep ◌-ℤ◌ ◌+ℤ◌ neg_ℤ
match_items_run = refl

match_item-by_reference_example :
    (d : SettlementCharge) × (d.acquirer ≡ "worldflow")
    × (d.processor_reference ≡ some "WF-1")
    × IsAttached a_line
        (is_sale_line LineType.sale)
        true
        d
        exact_reference
        (match_item charges 900_100 match_strategies a_line)
match_item-by_reference_example =
    match_item-by_reference charges 900_100 a_line a_charge (inl refl) refl refl
