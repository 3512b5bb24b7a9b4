-- ===== src/Reconciliation/Matching.antt =====
-- app/services/reconciliation/matcher.py and the queries of
-- app/repositories/settlement_charge.py that it runs. A query without an order takes the rows as they
-- stand. `ManualMatch`, which `match_items` never reaches, is left out.
pub mod Rows
pub mod Evidence
pub mod Misses
pub mod Pass
use payzeno_ledger.Prelude.{
  ℕ, suc, ◌+◌, ◌-◌, String, Bool, true, false, ◌&&◌, Option, none, some, List, [], ◌∷◌, find, keep,
  take_first, str_eq, ◌==◌, leb, if◌then◌else◌,
}
use payzeno_ledger.Prelude.Int.{ℤ, pos, ◌+ℤ◌, ◌-ℤ◌, leb_ℤ}
use payzeno_ledger.Rules.{LineType}
use payzeno_ledger.Payout.{is_some}
use payzeno_ledger.Reconciliation.{
  MatchMethod, exact_reference, network_txn, heuristic, unmatched, SettlementCharge,
  ReconciliationItem, compute_variance_minor,
}

pub record MatchOutcome : Type 0 where
  pub charge_id : Option ℕ
  pub method : MatchMethod
  pub confident : Bool
  pub merchant_id : Option ℕ
  pub expected_gross_minor : Option ℤ

abbrev pub heuristic_window : ℕ
heuristic_window = 172_800

abbrev pub heuristic_amount_slack_minor : ℤ
heuristic_amount_slack_minor = pos 2

abbrev pub no_match : MatchOutcome
no_match = record {
  charge_id = none;
  method = unmatched;
  confident = false;
  merchant_id = none;
  expected_gross_minor = none;
}

abbrev pub matched : SettlementCharge → MatchMethod → (confident : Bool) → MatchOutcome
matched charge method confident = record {
  charge_id = some charge.charge_id;
  method = method;
  confident = confident;
  merchant_id = some charge.merchant_id;
  expected_gross_minor = some charge.amount_minor;
}

-- A null column equals no text.
abbrev pub is_text : Option String → String → Bool
is_text none text = false
is_text (some stored) text = str_eq stored text

abbrev pub has_reference : String → String → SettlementCharge → Bool
has_reference acquirer processor_reference c =
    str_eq c.acquirer acquirer && is_text c.processor_reference processor_reference

unfoldable pub find_by_processor_reference :
    (acquirer processor_reference : String) → List SettlementCharge → Option SettlementCharge
find_by_processor_reference acquirer processor_reference charges =
    find (has_reference acquirer processor_reference) charges

abbrev pub has_network_id : String → String → SettlementCharge → Bool
has_network_id acquirer network_transaction_id c =
    str_eq c.acquirer acquirer && is_text c.network_transaction_id network_transaction_id

unfoldable pub find_by_network_transaction :
    (acquirer network_transaction_id : String) → List SettlementCharge → Option SettlementCharge
find_by_network_transaction acquirer network_transaction_id charges =
    find (has_network_id acquirer network_transaction_id) charges

abbrev pub is_in_window :
    (merchant_id : ℕ) (currency : String) (amount_minor slack_minor : ℤ)
    (authorized_from authorized_to : ℕ)
    → SettlementCharge
    → Bool
is_in_window merchant_id currency amount_minor slack_minor authorized_from authorized_to c =
    c.merchant_id == merchant_id
    && (str_eq c.currency currency
        && (leb_ℤ (amount_minor -ℤ slack_minor) c.amount_minor
            && (leb_ℤ c.amount_minor (amount_minor +ℤ slack_minor)
                && (leb authorized_from c.authorized_at && leb c.authorized_at authorized_to))))

-- Five rows at most; their order is left out, as the caller uses a row only when it is alone.
unfoldable pub find_in_amount_window :
    (merchant_id : ℕ) (currency : String) (amount_minor slack_minor : ℤ)
    (authorized_from authorized_to : ℕ)
    → List SettlementCharge
    → List SettlementCharge
find_in_amount_window merchant_id currency amount_minor slack_minor authorized_from authorized_to
      charges =
    take_first 5 (
      keep
        (is_in_window merchant_id currency amount_minor slack_minor authorized_from authorized_to)
        charges)

abbrev pub matched_if : MatchMethod → Option SettlementCharge → MatchOutcome
matched_if method none = no_match
matched_if method (some charge) = matched charge method true

-- `MatchStrategy.match`, with the stored charges and the time
abbrev pub Strategy : Type 0
Strategy = List SettlementCharge → ℕ → ReconciliationItem → MatchOutcome

unfoldable pub exact_reference_match : Strategy
exact_reference_match charges now item =
    matched_if exact_reference
      (find_by_processor_reference item.acquirer item.acquirer_reference charges)

-- `if not item.network_reference`: no reference, or an empty one
abbrev pub network_match_of :
    List SettlementCharge → ReconciliationItem → Option String → MatchOutcome
network_match_of charges item none = no_match
network_match_of charges item (some reference) =
    if str_eq reference ""
    then no_match
    else matched_if network_txn (find_by_network_transaction item.acquirer reference charges)

unfoldable pub network_transaction_match : Strategy
network_transaction_match charges now item = network_match_of charges item item.network_reference

-- `if len(candidates) != 1`
abbrev pub only_one : List SettlementCharge → MatchOutcome
only_one [] = no_match
only_one (c ∷ []) = matched c heuristic false
only_one (c ∷ d ∷ cs) = no_match

abbrev pub window_match_of :
    List SettlementCharge → ℕ → ReconciliationItem → Option ℕ → MatchOutcome
window_match_of charges now item none = no_match
window_match_of charges now item (some merchant_id) = only_one (
    find_in_amount_window merchant_id item.currency item.gross_minor heuristic_amount_slack_minor
      (now - heuristic_window) (now + heuristic_window) charges)

unfoldable pub heuristic_amount_window_match : Strategy
heuristic_amount_window_match charges now item = window_match_of charges now item item.merchant_id

-- The strategies of app/container.py, in their order
abbrev pub match_strategies : List Strategy
match_strategies =
    exact_reference_match ∷ network_transaction_match ∷ heuristic_amount_window_match ∷ []

-- `apply_match`'s merchant
abbrev pub merchant_or : Option ℕ → Option ℕ → Option ℕ
merchant_or (some merchant) other = some merchant
merchant_or none other = other

unfoldable pub is_sale_line : LineType → Bool
is_sale_line line_type = elim line_type [ LineType.sale ↦ true | _ ↦ false ]

-- The expected amount and the variance, of a sale line only
abbrev pub expects : (is_sale : Bool) → Option ℤ → ReconciliationItem → ReconciliationItem
expects true (some expected) item = record item {
  expected_gross_minor = some expected;
  variance_minor = compute_variance_minor (some expected) item.gross_minor;
}
expects true none item = item
expects false expected item = item

unfoldable pub apply_match : ReconciliationItem → MatchOutcome → ReconciliationItem
apply_match item outcome =
    expects (is_sale_line item.line_type) outcome.expected_gross_minor (record item {
      charge_id = outcome.charge_id;
      match_method = outcome.method;
      merchant_id = merchant_or item.merchant_id outcome.merchant_id;
    })

-- The inner loop: the outcome of the first hit, or of the last strategy.
unfoldable pub first_hit :
    List SettlementCharge → ℕ → ReconciliationItem → MatchOutcome → List Strategy → MatchOutcome
first_hit charges now item outcome [] = outcome
first_hit charges now item outcome (strategy ∷ rest) =
    let hit = strategy charges now item in
    let later = first_hit charges now item hit rest in if is_some hit.charge_id then hit else later

abbrev pub reviewed : (confident : Bool) → ReconciliationItem → ReconciliationItem
reviewed true item = item
reviewed false item = record item { status = "needs_review" }

-- What the loop does with an item and its outcome
abbrev pub settle_match : ℕ → ReconciliationItem → MatchOutcome → Option ℕ → ReconciliationItem
settle_match now item outcome none = record item { match_method = unmatched }
settle_match now item outcome (some charge) =
    reviewed outcome.confident (record (apply_match item outcome) { matched_at = some now })

unfoldable pub match_item :
    List SettlementCharge → ℕ → List Strategy → ReconciliationItem → ReconciliationItem
match_item charges now strategies item =
    let outcome = first_hit charges now item no_match strategies in
    settle_match now item outcome outcome.charge_id

abbrev pub count_if : Option ℕ → ℕ → ℕ
count_if none n = n
count_if (some charge) n = suc n

-- The items as they stand after the pass, and the count of the matched ones
unfoldable pub match_items :
    List SettlementCharge
    → ℕ
    → List Strategy
    → List ReconciliationItem
    → List ReconciliationItem × ℕ
match_items charges now strategies [] = ([], 0)
match_items charges now strategies (item ∷ items) =
    let (done, n) = match_items charges now strategies items in
    (
      match_item charges now strategies item ∷ done,
      count_if (first_hit charges now item no_match strategies).charge_id n,
    )
