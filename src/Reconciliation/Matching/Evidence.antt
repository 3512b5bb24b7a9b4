-- ===== src/Reconciliation/Matching/Evidence.antt =====
-- The answers of the strategies of app/services/reconciliation/matcher.py, and why they are given.
use payzeno_ledger.Prelude.{
  ℕ, ◌+◌, ◌-◌, ◌≤◌, ◌≡◌, ◌∙◌, refl, ap, sym, String, Bool, true, false, ◌&&◌, Option, none, some,
  List, [], ◌∷◌, All, find, find-eq_some, keep, take_first, str_eq, eq_iff, ◌==◌, leb, arith,
  if◌then◌else◌,
}
use payzeno_ledger.Prelude.Int.{pos, ◌+ℤ◌, ◌-ℤ◌, ◌≤ℤ◌, leb_ℤ}
use payzeno_ledger.Payout.{is_some}
use payzeno_ledger.Reconciliation.{
  MatchMethod, exact_reference, network_txn, heuristic, manual, unmatched, SettlementCharge,
  ReconciliationItem,
}
use payzeno_ledger.Reconciliation.Matching.{
  MatchOutcome, no_match, matched, heuristic_window, heuristic_amount_slack_minor, is_text,
  has_reference, has_network_id, is_in_window, find_by_processor_reference,
  find_by_network_transaction, find_in_amount_window, matched_if, network_match_of, only_one,
  window_match_of, Strategy, exact_reference_match, network_transaction_match,
  heuristic_amount_window_match, match_strategies, first_hit,
}
use payzeno_ledger.Reconciliation.Matching.Rows.{
  IsStoredCharge, find-stored, keep_first, keep_alone,
}

-- The line's merchant and currency, within two minor units and two days.
pub record IsNear (now : ℕ) (item : ReconciliationItem) (c : SettlementCharge) : Type 0 where
  pub merchant : item.merchant_id ≡ some c.merchant_id
  pub currency : c.currency ≡ item.currency
  pub not_below : item.gross_minor -ℤ pos 2 ≤ℤ c.amount_minor
  pub not_above : c.amount_minor ≤ℤ item.gross_minor +ℤ pos 2
  pub not_early : now ≤ c.authorized_at + 172_800
  pub not_late : c.authorized_at ≤ now + 172_800

-- Why a charge is linked to a line, for each method.
pub data IsEvidence (charges : List SettlementCharge) (now : ℕ) (item : ReconciliationItem)
    (c : SettlementCharge) : MatchMethod → Type 0 where
  by_reference :
      c.acquirer ≡ item.acquirer
      → c.processor_reference ≡ some item.acquirer_reference
      → IsEvidence charges now item c exact_reference
  by_network :
      (reference : String)
      → str_eq reference "" ≡ false
      → c.acquirer ≡ item.acquirer
      → item.network_reference ≡ some reference
      → c.network_transaction_id ≡ some reference
      → IsEvidence charges now item c network_txn
  by_amount :
      IsNear now item c
      → ((d : SettlementCharge) → IsStoredCharge d charges → IsNear now item d → d ≡ c)
      → IsEvidence charges now item c heuristic

abbrev pub is_sure : MatchMethod → Bool
is_sure exact_reference = true
is_sure network_txn = true
is_sure heuristic = false
is_sure manual = true
is_sure unmatched = false

-- The answers of a strategy
pub data IsAnswer (charges : List SettlementCharge) (now : ℕ) (item : ReconciliationItem)
    : MatchOutcome → Type 0 where
  missed : IsAnswer charges now item no_match
  hit :
      (c : SettlementCharge) (m : MatchMethod)
      → IsStoredCharge c charges
      → IsEvidence charges now item c m
      → IsAnswer charges now item (matched c m (is_sure m))

pub is_text_eq : (o : Option String) (t : String) → is_text o t ≡ true → o ≡ some t
is_text_eq none t h = cc
is_text_eq (some u) t h = ap some ((eq_iff u t).0 h)

pub both : (a b : Bool) → (a && b) ≡ true → (a ≡ true) × (b ≡ true)
both a b h = (ground arith, ground arith)

all_six :
    (a b c d e f : Bool)
    → (a && (b && (c && (d && (e && f))))) ≡ true
    → (a ≡ true) × (b ≡ true) × (c ≡ true) × (d ≡ true) × (e ≡ true) × (f ≡ true)
all_six a b c d e f h =
    (ground arith, ground arith, ground arith, ground arith, ground arith, ground arith)

module _ (charges : List SettlementCharge) (now : ℕ) (item : ReconciliationItem) where
  exact-IsAnswer : IsAnswer charges now item (exact_reference_match charges now item)
  unfolding exact_reference_match find_by_processor_reference
  exact-IsAnswer =
      by_found (find (has_reference item.acquirer item.acquirer_reference) charges) refl
    where
      by_found :
          (found : Option SettlementCharge)
          → find (has_reference item.acquirer item.acquirer_reference) charges ≡ found
          → IsAnswer charges now item (matched_if exact_reference found)
      by_found none e = missed
      by_found (some c) e =
          let (acq, ref) = both _ _ (find-eq_some _ charges e) in
          hit c exact_reference (find-stored _ charges c e)
            (by_reference ((eq_iff _ _).0 acq) (is_text_eq _ _ ref))

  network-IsAnswer : IsAnswer charges now item (network_transaction_match charges now item)
  unfolding network_transaction_match find_by_network_transaction
  network-IsAnswer = by_reference_of item.network_reference refl
    where
      by_found :
          (reference : String)
          → str_eq reference "" ≡ false
          → item.network_reference ≡ some reference
          → (found : Option SettlementCharge)
          → find (has_network_id item.acquirer reference) charges ≡ found
          → IsAnswer charges now item (matched_if network_txn found)
      by_found reference filled named none e = missed
      by_found reference filled named (some c) e =
          let (acq, ref) = both _ _ (find-eq_some _ charges e) in
          let same : c.network_transaction_id ≡ some reference = is_text_eq _ _ ref in
          hit c network_txn (find-stored _ charges c e)
            (by_network reference filled ((eq_iff _ _).0 acq) named same)

      by_test :
          (t : Bool) (o : MatchOutcome)
          → (t ≡ false → IsAnswer charges now item o)
          → IsAnswer charges now item (if t then no_match else o)
      by_test true o a = missed
      by_test false o a = a refl

      by_reference_of :
          (named : Option String)
          → item.network_reference ≡ named
          → IsAnswer charges now item (network_match_of charges item named)
      by_reference_of none h = missed
      by_reference_of (some reference) h =
          by_test (str_eq reference "") _ (λ filled. by_found reference filled h _ refl)

  unfoldable pub window_of : ℕ → SettlementCharge → Bool
  window_of merchant c =
      is_in_window merchant item.currency item.gross_minor heuristic_amount_slack_minor
        (now - heuristic_window) (now + heuristic_window) c

  window-IsNear :
      (merchant : ℕ) (c : SettlementCharge)
      → item.merchant_id ≡ some merchant
      → window_of merchant c ≡ true
      → IsNear now item c
  unfolding window_of
  window-IsNear merchant c named h =
      let (m, cur, low, high, after, before) =
        all_six (c.merchant_id == merchant) (str_eq c.currency item.currency)
          (leb_ℤ (item.gross_minor -ℤ heuristic_amount_slack_minor) c.amount_minor)
          (leb_ℤ c.amount_minor (item.gross_minor +ℤ heuristic_amount_slack_minor))
          (leb (now - heuristic_window) c.authorized_at)
          (leb c.authorized_at (now + heuristic_window)) h in
      let same : merchant ≡ c.merchant_id = ground arith in
      record {
        merchant = named ∙ ap some same;
        currency = (eq_iff _ _).0 cur;
        not_below = ground arith;
        not_above = ground arith;
        not_early = ground arith;
        not_late = ground arith;
      }

  pub near_in_window :
      (merchant : ℕ) (c : SettlementCharge)
      → item.merchant_id ≡ some merchant
      → IsNear now item c
      → window_of merchant c ≡ true
  unfolding window_of
  near_in_window merchant c named near =
      let same : c.merchant_id ≡ merchant = some_eq (sym near.merchant ∙ named) in
      let m : (c.merchant_id == merchant) ≡ true = ground arith in
      let cur : str_eq c.currency item.currency ≡ true = (eq_iff _ _).1 near.currency in
      let low : leb_ℤ (item.gross_minor -ℤ heuristic_amount_slack_minor) c.amount_minor ≡ true =
        ground (arith, near.not_below) in
      let high : leb_ℤ c.amount_minor (item.gross_minor +ℤ heuristic_amount_slack_minor) ≡ true =
        ground (arith, near.not_above) in
      let after : leb (now - heuristic_window) c.authorized_at ≡ true =
        ground (arith, near.not_early) in
      let before : leb c.authorized_at (now + heuristic_window) ≡ true =
        ground (arith, near.not_late) in
      rw (m, cur, low, high, after, before) refl
    where
      some_eq : {a b : ℕ} → some a ≡ some b → a ≡ b
      some_eq e = cc

  heuristic-IsAnswer : IsAnswer charges now item (heuristic_amount_window_match charges now item)
  unfolding heuristic_amount_window_match find_in_amount_window window_of
  heuristic-IsAnswer = by_merchant item.merchant_id refl
    where
      by_rows :
          (merchant : ℕ)
          → item.merchant_id ≡ some merchant
          → (rows : List SettlementCharge) → keep (window_of merchant) charges ≡ rows
          → IsAnswer charges now item (only_one (take_first 5 rows))
      by_rows merchant named [] e = missed
      by_rows merchant named (c ∷ []) e =
          let (stored, fine) = keep_first (window_of merchant) charges c [] e in
          hit c heuristic stored (
            by_amount (window-IsNear merchant c named fine) (λ d kept near.
              keep_alone (window_of merchant) charges c d e kept
                (near_in_window merchant d named near)))
      by_rows merchant named (c ∷ d ∷ rows) e = missed

      by_merchant :
          (named : Option ℕ)
          → item.merchant_id ≡ named
          → IsAnswer charges now item (window_match_of charges now item named)
      by_merchant none h = missed
      by_merchant (some merchant) h = by_rows merchant h _ refl

  -- The first hit of a list of strategies is the answer of one of them.
  first_hit-IsAnswer :
      (o : MatchOutcome) (strategies : List Strategy)
      → IsAnswer charges now item o
      → All (λ (m : Strategy). IsAnswer charges now item (m charges now item)) strategies
      → IsAnswer charges now item (first_hit charges now item o strategies)
  unfolding first_hit
  first_hit-IsAnswer o [] answered h = answered
  first_hit-IsAnswer o (m ∷ ms) answered h =
      by_charge (m charges now item).charge_id (m charges now item) _ h.0
        (first_hit-IsAnswer (m charges now item) ms h.0 h.1)
    where
      by_charge :
          (found : Option ℕ) (first later : MatchOutcome)
          → IsAnswer charges now item first
          → IsAnswer charges now item later
          → IsAnswer charges now item (if is_some found then first else later)
      by_charge none first later a b = b
      by_charge (some c) first later a b = a

  abbrev pub outcome_of : MatchOutcome
  outcome_of = first_hit charges now item no_match match_strategies

  pub outcome-IsAnswer : IsAnswer charges now item outcome_of
  outcome-IsAnswer =
      first_hit-IsAnswer no_match match_strategies missed
        (exact-IsAnswer, (network-IsAnswer, (heuristic-IsAnswer, tt)))
