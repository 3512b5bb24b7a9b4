-- ===== src/Reconciliation/Matching/Misses.antt =====
-- What is known of the stored charges when no strategy of
-- app/services/reconciliation/matcher.py answers.
use payzeno_ledger.Prelude.{
  ℕ, ◌≤◌, ◌≡◌, refl, subst, String, Bool, true, false, ◌&&◌, Option, none, some, List, [], ◌∷◌, All,
  keep, take_first, length, str_eq, eq_iff, arith, if◌then◌else◌,
}
use payzeno_ledger.Payout.{is_some}
use payzeno_ledger.Reconciliation.{
  MatchMethod, exact_reference, network_txn, SettlementCharge, ReconciliationItem,
}
use payzeno_ledger.Reconciliation.Matching.{
  MatchOutcome, no_match, is_text, has_reference, has_network_id, find_by_processor_reference,
  find_by_network_transaction, find_in_amount_window, matched_if, network_match_of, only_one,
  window_match_of, Strategy, exact_reference_match, network_transaction_match,
  heuristic_amount_window_match, match_strategies, first_hit,
}
use payzeno_ledger.Reconciliation.Matching.Rows.{IsStoredCharge, stored_keep, found_stored}
use payzeno_ledger.Reconciliation.Matching.Evidence.{
  IsNear, IsEvidence, by_reference, by_network, window_of, near_in_window, outcome_of,
}

abbrev has_text : (acquirer reference : String) (a : String) (r : Option String) → Bool
has_text acquirer reference a r = str_eq a acquirer && is_text r reference

same_text :
    (acquirer reference a : String) (r : Option String)
    → a ≡ acquirer
    → r ≡ some reference
    → has_text acquirer reference a r ≡ true
same_text acquirer reference a r acq ref =
    rw (acq, ref)
      (ground (arith, (eq_iff acquirer acquirer).1 refl, (eq_iff reference reference).1 refl))

pub reference_found :
    (item : ReconciliationItem) (c : SettlementCharge)
    → c.acquirer ≡ item.acquirer
    → c.processor_reference ≡ some item.acquirer_reference
    → has_reference item.acquirer item.acquirer_reference c ≡ true
reference_found item c acq ref =
    same_text item.acquirer item.acquirer_reference c.acquirer c.processor_reference acq ref

-- No stored charge has the line's reference or its network id, and none is near it alone.
pub record IsLeftOut (charges : List SettlementCharge) (now : ℕ) (item : ReconciliationItem)
    : Type 0 where
  pub no_reference :
      (c : SettlementCharge)
      → IsStoredCharge c charges
      → ¬ IsEvidence charges now item c exact_reference
  pub no_network :
      (c : SettlementCharge)
      → IsStoredCharge c charges
      → ¬ IsEvidence charges now item c network_txn
  pub several :
      (c : SettlementCharge)
      → IsStoredCharge c charges
      → IsNear now item c
      → 2 ≤ length (keep (window_of charges now item c.merchant_id) charges)

contradiction :
    (m : MatchMethod) (o : Option SettlementCharge) (d : SettlementCharge)
    → o ≡ some d
    → (matched_if m o).charge_id ≡ none
    → ⊥
contradiction m none d e h = cc
contradiction m (some c) d e h = cc

module _ (charges : List SettlementCharge) (now : ℕ) (item : ReconciliationItem) where
  abbrev IsMiss : Strategy → Type 0
  IsMiss m = (m charges now item).charge_id ≡ none

  misses :
      (o : MatchOutcome) (strategies : List Strategy)
      → (first_hit charges now item o strategies).charge_id ≡ none
      → All IsMiss strategies
  unfolding first_hit
  misses o [] h = tt
  misses o (m ∷ ms) h =
      by_charge (m charges now item) (m charges now item).charge_id refl h
        (misses (m charges now item) ms)
    where
      by_charge :
          (hit : MatchOutcome) (found : Option ℕ)
          → hit.charge_id ≡ found
          → (if is_some found then hit else first_hit charges now item hit ms).charge_id ≡ none
          → ((first_hit charges now item hit ms).charge_id ≡ none → All IsMiss ms)
          → (hit.charge_id ≡ none) × All IsMiss ms
      by_charge hit none e h later = (e, later h)
      by_charge hit (some c) e h later = cc

  no_exact :
      IsMiss exact_reference_match
      → (c : SettlementCharge) → IsStoredCharge c charges
      → ¬ IsEvidence charges now item c exact_reference
  unfolding exact_reference_match find_by_processor_reference
  no_exact miss c stored (by_reference acq ref) =
      let (d, found) =
        found_stored (has_reference item.acquirer item.acquirer_reference) charges c stored
          (reference_found item c acq ref) in
      contradiction exact_reference _ d found miss

  no_network :
      IsMiss network_transaction_match
      → (c : SettlementCharge) → IsStoredCharge c charges
      → ¬ IsEvidence charges now item c network_txn
  unfolding network_transaction_match find_by_network_transaction
  no_network miss c stored (by_network reference filled acq named ref) =
      let (d, found) =
        found_stored (has_network_id item.acquirer reference) charges c stored
          (same_text item.acquirer reference c.acquirer c.network_transaction_id acq ref) in
      contradiction network_txn _ d found (
        looked_up (str_eq reference "") _ filled
          (subst (λ o. (network_match_of charges item o).charge_id ≡ none) named miss))
    where
      looked_up :
          (empty : Bool) (o : MatchOutcome)
          → empty ≡ false
          → (if empty then no_match else o).charge_id ≡ none
          → o.charge_id ≡ none
      looked_up true o e h = cc
      looked_up false o e h = h

  several_rows :
      (rows : List SettlementCharge) (c : SettlementCharge)
      → IsStoredCharge c rows
      → (only_one (take_first 5 rows)).charge_id ≡ none
      → 2 ≤ length rows
  several_rows [] c stored miss = absurd stored
  several_rows (r ∷ []) c stored miss = cc
  several_rows (r ∷ q ∷ rows) c stored miss = omega arith

  no_near :
      IsMiss heuristic_amount_window_match
      → (c : SettlementCharge) → IsStoredCharge c charges
      → IsNear now item c
      → 2 ≤ length (keep (window_of charges now item c.merchant_id) charges)
  unfolding heuristic_amount_window_match find_in_amount_window window_of
  no_near miss c stored near =
      several_rows (keep (window_of charges now item c.merchant_id) charges) c
        (stored_keep (window_of charges now item c.merchant_id) charges c stored
          (near_in_window charges now item c.merchant_id c near.merchant near))
        (subst (λ o. (window_match_of charges now item o).charge_id ≡ none) near.merchant miss)

  -- A line that no strategy answers
  pub missed-IsLeftOut : (outcome_of charges now item).charge_id ≡ none → IsLeftOut charges now item
  missed-IsLeftOut h =
      let (exact, (network, (window, _))) = misses no_match match_strategies h in
      record {
        no_reference = no_exact exact;
        no_network = no_network network;
        several = no_near window;
      }
