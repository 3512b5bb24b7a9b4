-- ===== src/Reconciliation/Matching/Pass.antt =====
-- What the pass of app/services/reconciliation/matcher.py makes of every line.
use payzeno_ledger.Prelude.{
  ℕ, ◌≡◌, refl, Bool, true, false, some, List, [], ◌∷◌, ◌⊎◌, find-eq_some, keep, length, eq_iff,
  if◌then◌else◌,
}
use payzeno_ledger.Prelude.Int.{◌-ℤ◌}
use payzeno_ledger.Reconciliation.{
  MatchMethod, exact_reference, network_txn, heuristic, manual, unmatched, SettlementCharge,
  ReconciliationItem, compute_variance_minor,
}
use payzeno_ledger.Reconciliation.Matching.{
  has_reference, find_by_processor_reference, exact_reference_match, match_strategies, merchant_or,
  is_sale_line, expects, apply_match, first_hit, reviewed, match_item,
}
use payzeno_ledger.Reconciliation.Matching.Rows.{IsStoredCharge, found_stored}
use payzeno_ledger.Reconciliation.Matching.Misses.{IsLeftOut, reference_found}
use payzeno_ledger.Reconciliation.Matching.Evidence.{IsEvidence, is_sure, is_text_eq, both}

-- What a line becomes when a charge is linked to it.
pub record IsAttached (item : ReconciliationItem) (is_sale sure : Bool) (c : SettlementCharge)
    (m : MatchMethod) (after : ReconciliationItem) : Type 0 where
  pub charge : after.charge_id ≡ some c.charge_id
  pub method : after.match_method ≡ m
  pub merchant : after.merchant_id ≡ merchant_or item.merchant_id (some c.merchant_id)
  pub variance :
      after.variance_minor
      ≡ (if is_sale then item.gross_minor -ℤ c.amount_minor else item.variance_minor)
  pub status : after.status ≡ (if sure then item.status else "needs_review")

attached :
    (now : ℕ) (item : ReconciliationItem) (is_sale sure : Bool) (c : SettlementCharge)
    (m : MatchMethod)
    → IsAttached item is_sale sure c m (
        reviewed sure
          (record (expects is_sale (some c.amount_minor) (record item {
            charge_id = some c.charge_id;
            match_method = m;
            merchant_id = merchant_or item.merchant_id (some c.merchant_id);
          })) { matched_at = some now }))
unfolding compute_variance_minor
attached now item true true c m = record {
  charge = refl;
  method = refl;
  merchant = refl;
  variance = refl;
  status = refl;
}
attached now item true false c m = record {
  charge = refl;
  method = refl;
  merchant = refl;
  variance = refl;
  status = refl;
}
attached now item false true c m = record {
  charge = refl;
  method = refl;
  merchant = refl;
  variance = refl;
  status = refl;
}
attached now item false false c m = record {
  charge = refl;
  method = refl;
  merchant = refl;
  variance = refl;
  status = refl;
}

-- A line is linked to a stored charge for a reason, or there is none, and it is marked as unmatched and
-- nothing else.
abbrev pub IsSettled : List SettlementCharge → ℕ → ReconciliationItem → ReconciliationItem → Type 0
IsSettled charges now item after =
    ((c : SettlementCharge) × (m : MatchMethod) × IsStoredCharge c charges
      × IsEvidence charges now item c m
      × IsAttached item (is_sale_line item.line_type) (is_sure m) c m after)
    ⊎ ((after ≡ record item { match_method = unmatched }) × IsLeftOut charges now item)

-- Each line, with what it became.
abbrev pub AreSettled :
    List SettlementCharge → ℕ → List ReconciliationItem → List ReconciliationItem → Type 0
AreSettled charges now [] [] = Unit
AreSettled charges now (item ∷ items) (after ∷ rest) =
    IsSettled charges now item after × AreSettled charges now items rest
AreSettled charges now [] (after ∷ rest) = ⊥
AreSettled charges now (item ∷ items) [] = ⊥

abbrev pub is_linked : MatchMethod → Bool
is_linked exact_reference = true
is_linked network_txn = true
is_linked heuristic = true
is_linked manual = true
is_linked unmatched = false

unfoldable pub linked : List ReconciliationItem → ℕ
linked items = length (keep (λ (item : ReconciliationItem). is_linked item.match_method) items)

module _ (charges : List SettlementCharge) (now : ℕ) (item : ReconciliationItem) where
  by_exact :
      (d : SettlementCharge)
      → find_by_processor_reference item.acquirer item.acquirer_reference charges ≡ some d
      → IsAttached item
          (is_sale_line item.line_type)
          true
          d
          exact_reference
          (match_item charges now match_strategies item)
  unfolding match_item first_hit exact_reference_match apply_match
  by_exact d found =
      rw (found) (attached now item (is_sale_line item.line_type) true d exact_reference)

  -- When a stored charge has the acquirer and the reference of a line, the line is linked by its
  -- reference to such a charge, whatever the other strategies would find; its status stays.
  pub match_item-by_reference :
      (c : SettlementCharge)
      → IsStoredCharge c charges
      → c.acquirer ≡ item.acquirer
      → c.processor_reference ≡ some item.acquirer_reference
      → (d : SettlementCharge) × (d.acquirer ≡ item.acquirer)
        × (d.processor_reference ≡ some item.acquirer_reference)
        × IsAttached item
            (is_sale_line item.line_type)
            true
            d
            exact_reference
            (match_item charges now match_strategies item)
  unfolding find_by_processor_reference
  match_item-by_reference c stored acq ref =
      let (d, found) =
        found_stored (has_reference item.acquirer item.acquirer_reference) charges c stored
          (reference_found item c acq ref) in
      let (same, named) = both _ _ (find-eq_some _ charges found) in
      (d, (eq_iff _ _).0 same, is_text_eq _ _ named, by_exact d found)
