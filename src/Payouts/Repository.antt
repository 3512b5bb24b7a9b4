-- ===== src/Payouts/Repository.antt =====
-- app/repositories/payout.py: the queries and the updates of payouts. A flush that a check
-- constraint or the unique index of app/models/payout.py refuses raises.
use payzeno_ledger.Prelude.{
  take_first, ℕ, String, Bool, true, false, not, ◌&&◌, Option, none, some, List, [], ◌∷◌, keep,
  find, any, length, map, ◌==◌, leb, if◌then◌else◌,
}
use payzeno_ledger.Prelude.Int.{ℤ, sum_ℤ}
use payzeno_ledger.Errors.{ok, err, payout_not_found, integrity_error}
use payzeno_ledger.Payout.{
  Payout, PayoutStatus, scheduled, in_transit, paid, failed, returned, canceled, BankReference,
  balance_currency, balance_amount_minor, satisfies_checks, in_flight_for, is_in_flight,
}
use payzeno_ledger.Ledger.{Tables, Action, ◌>>=◌}

abbrev pub place_of : PayoutStatus → ℕ
place_of scheduled = 0
place_of in_transit = 1
place_of paid = 2
place_of failed = 3
place_of returned = 4
place_of canceled = 5

abbrev pub same_status : PayoutStatus → PayoutStatus → Bool
same_status a b = place_of a == place_of b

abbrev pub found_payout : Option Payout → Action Payout
found_payout (some p) s = (ok p, s)
found_payout none s = (err payout_not_found, s)

unfoldable pub payout_by_id : ℕ → List Payout → Option Payout
payout_by_id id payouts = find (λ (p : Payout). p.id == id) payouts

-- `get_or_raise`
unfoldable pub get_payout : ℕ → Action Payout
get_payout id s = found_payout (payout_by_id id s.payouts) s

unfoldable pub sum_in_flight : ℕ → String → Bool → List Payout → ℤ
sum_in_flight merchant_id currency livemode payouts =
    sum_ℤ (map balance_amount_minor (keep (in_flight_for merchant_id currency livemode) payouts))

unfoldable pub find_in_flight : ℕ → String → Bool → List Payout → Option Payout
find_in_flight merchant_id currency livemode payouts =
    find (in_flight_for merchant_id currency livemode) payouts

abbrev pub has_status : Option PayoutStatus → Payout → Bool
has_status none p = true
has_status (some status) p = same_status p.status status

-- Newest first, as the rows stand.
unfoldable pub list_for_merchant : ℕ → Option PayoutStatus → ℕ → List Payout → List Payout
list_for_merchant merchant_id status limit payouts =
    take_first limit
      (keep (λ (p : Payout). p.merchant_id == merchant_id && has_status status p) payouts)

-- `ORDER BY available_on, created_at`: rows come newest first, so a row goes behind the older ones
-- of its day.
unfoldable pub insert_due : Payout → List Payout → List Payout
insert_due p [] = p ∷ []
insert_due p (q ∷ qs) =
    let rest = insert_due p qs in if leb q.available_on p.available_on then q ∷ rest else p ∷ q ∷ qs

unfoldable pub sort_due : List Payout → List Payout
sort_due [] = []
sort_due (p ∷ ps) = insert_due p (sort_due ps)

abbrev pub is_due_on : ℕ → Payout → Bool
is_due_on day p = same_status p.status scheduled && leb p.available_on day

unfoldable pub list_due : ℕ → ℕ → List Payout → List Payout
list_due day limit payouts = take_first limit (sort_due (keep (is_due_on day) payouts))

abbrev pub is_of : Option ℕ → Payout → Bool
is_of none p = true
is_of (some m) p = p.merchant_id == m

-- One count of `count_by_status`
unfoldable pub count_of : PayoutStatus → Option ℕ → List Payout → ℕ
count_of status merchant payouts =
    length (keep (λ (p : Payout). same_status p.status status && is_of merchant p) payouts)

-- Two rows of the unique index have the same key.
unfoldable pub conflicts : Payout → Payout → Bool
conflicts p q =
    is_in_flight p
    && (not (q.id == p.id) && in_flight_for p.merchant_id (balance_currency p) p.livemode q)

unfoldable pub clashes : Payout → List Payout → Bool
unfolding conflicts
clashes p payouts = any (conflicts p) payouts

unfoldable pub replace_payout : Payout → List Payout → List Payout
replace_payout p [] = []
replace_payout p (q ∷ qs) =
    let rest = replace_payout p qs in if q.id == p.id then p ∷ qs else q ∷ rest

-- A flush that the constraints accept or refuse.
unfoldable pub flushed : {A : Type 0} → (accepted : Bool) → A → (after : Tables) → Action A
flushed true a after s = (ok a, after)
flushed false a after s = (err integrity_error, s)

-- `add`: the insert and its flush.
unfoldable pub add_payout : Payout → Action (Unit {0})
add_payout p s =
    flushed (satisfies_checks p && not (clashes p s.payouts)) tt
      (record s { payouts = p ∷ s.payouts }) s

-- The flush of a row that was changed.
unfoldable pub save_payout : Payout → Action Payout
save_payout p s =
    flushed (satisfies_checks p && not (clashes p s.payouts)) p
      (record s { payouts = replace_payout p s.payouts }) s

unfoldable pub mark_in_transit : ℕ → Option BankReference → Action Payout
mark_in_transit id reference = do
  payout ← get_payout id
  save_payout (record payout {
    status = in_transit;
    bank_reference = elim reference [ some r ↦ some r | none ↦ payout.bank_reference ];
  })

unfoldable pub record_paid : ℕ → BankReference → Action Payout
record_paid id reference = do
  payout ← get_payout id
  save_payout (record payout { status = paid; bank_reference = some reference })

unfoldable pub record_failed : ℕ → String → String → ℕ → Action Payout
record_failed id failure_code failure_message reversal = do
  payout ← get_payout id
  save_payout (record payout {
    status = failed;
    failure_code = some failure_code;
    failure_message = some failure_message;
    reversal_transaction_id = some reversal;
  })

unfoldable pub mark_returned : ℕ → String → String → ℕ → Action Payout
mark_returned id failure_code failure_message reversal = do
  payout ← get_payout id
  save_payout (record payout {
    status = returned;
    failure_code = some failure_code;
    failure_message = some failure_message;
    reversal_transaction_id = some reversal;
  })

unfoldable pub mark_canceled : ℕ → Action Payout
mark_canceled id = do payout ← get_payout id; save_payout (record payout { status = canceled })
