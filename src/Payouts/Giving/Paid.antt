-- ===== src/Payouts/Giving/Paid.antt =====
-- `mark_paid` of app/services/payouts.py, from every status.
use payzeno_ledger.Prelude.{ℕ, ◌≡◌, refl, Bool, true, false, not, ◌&&◌, ◌||◌, some, List, [], ◌∷◌}
use payzeno_ledger.Errors.{ok}
use payzeno_ledger.Payout.{
  Payout, PayoutStatus, scheduled, in_transit, paid, failed, returned, canceled, BankReference,
  in_flight_status, reversed_status, satisfies_checks, is_some,
}
use payzeno_ledger.Ledger.{Tables, ◌>>=◌}
use payzeno_ledger.Payouts.{PayoutSettings}
use payzeno_ledger.Payouts.Repository.{
  conflicts, clashes, flushed, payout_by_id, get_payout, save_payout,
}
use payzeno_ledger.Payouts.Settling.{publish_payout, pay, paid_from, mark_paid}

abbrev pub paid_row : BankReference → Payout → Payout
paid_row reference p = record p { status = paid; bank_reference = some reference }

no_clash :
    (reference : BankReference) (p : Payout) (ps : List Payout)
    → clashes (paid_row reference p) ps ≡ false
unfolding clashes conflicts in_flight_status
no_clash reference p [] = refl
no_clash reference p (q ∷ qs) = no_clash reference p qs

pub drop_last : (a b c : Bool) → (a && (b && c)) ≡ true → (a && (b && true)) ≡ true
drop_last true true c h = refl
drop_last true false c h = cc
drop_last false b c h = cc

still_checked :
    (reference : BankReference) (p : Payout)
    → satisfies_checks p ≡ true
    → satisfies_checks (paid_row reference p) ≡ true
unfolding satisfies_checks reversed_status
still_checked reference p h =
    drop_last _ _ (not (reversed_status p.status) || is_some p.reversal_transaction_id) h

pay_lem :
    (svc : PayoutSettings) (reference : BankReference) (p : Payout) (s : Tables)
    → satisfies_checks p ≡ true
    → (pay svc reference p s).0 ≡ ok (paid_row reference p)
unfolding pay ◌>>=◌ save_payout flushed publish_payout
pay_lem svc reference p s checked =
    rw (still_checked reference p checked, no_clash reference p s.payouts) refl

paid_from_lem :
    (svc : PayoutSettings) (status : PayoutStatus) (reference : BankReference) (p : Payout)
    (s : Tables)
    → reversed_status status ≡ true
    → satisfies_checks p ≡ true
    → (paid_from svc status reference p s).0 ≡ ok (paid_row reference p)
unfolding paid_from reversed_status
paid_from_lem svc failed reference p s h checked = pay_lem svc reference p s checked
paid_from_lem svc returned reference p s h checked = pay_lem svc reference p s checked
paid_from_lem svc scheduled reference p s h checked = cc
paid_from_lem svc in_transit reference p s h checked = cc
paid_from_lem svc paid reference p s h checked = cc
paid_from_lem svc canceled reference p s h checked = cc

-- A stored payout that has failed or was returned, and so gave its amount back, is accepted by
-- `mark_paid`, which returns it as paid.
pub mark_paid_after_failure :
    (svc : PayoutSettings) (id : ℕ) (reference : BankReference) (p : Payout) (s : Tables)
    → payout_by_id id s.payouts ≡ some p
    → satisfies_checks p ≡ true
    → reversed_status p.status ≡ true
    → (mark_paid svc id reference s).0 ≡ ok (paid_row reference p)
unfolding mark_paid get_payout ◌>>=◌
mark_paid_after_failure svc id reference p s stored checked ended =
    rw (stored) (paid_from_lem svc p.status reference p s ended checked)
