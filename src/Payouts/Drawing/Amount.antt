-- ===== src/Payouts/Drawing/Amount.antt =====
-- The amount that `create_payout` of app/services/payouts.py decides on.
use payzeno_ledger.Prelude.{
  ℕ, ◌≡◌, refl, subst, String, Bool, true, false, Option, some, none, arith, if◌then◌else◌,
}
use payzeno_ledger.Prelude.Int.{ℤ, pos, ◌≤ℤ◌, ltb_ℤ, leb_ℤ}
use payzeno_ledger.Errors.{ok, err, insufficient_balance, validation, amount_minor_not_positive}
use payzeno_ledger.Payout.{Payout}
use payzeno_ledger.Ledger.{Tables, lift, ◌>>=◌, ◌>>◌}
use payzeno_ledger.Ledger.Actions.{lift->>=-Reads}
use payzeno_ledger.Payouts.{PayoutRequest}
use payzeno_ledger.Payouts.Repository.{find_in_flight}
use payzeno_ledger.Payouts.Creation.{
  refuse_in_flight, check_amount, compute_available, amount_of_payout, requested_minor,
}

check_amount-within :
    (requested funds amount : ℤ)
    → check_amount requested funds ≡ ok amount
    → (pos 1 ≤ℤ amount) × (amount ≤ℤ funds)
unfolding check_amount
check_amount-within requested funds amount h =
    by_tests _ _ (λ few many. (ground arith, ground arith)) h
  where
    by_tests :
        (short low : Bool)
        → (short ≡ false → low ≡ false → (pos 1 ≤ℤ requested) × (requested ≤ℤ funds))
        → (if short
            then err insufficient_balance
            else if low
            then err (validation amount_minor_not_positive)
            else ok requested)
          ≡ ok amount
        → (pos 1 ≤ℤ amount) × (amount ≤ℤ funds)
    by_tests true low k e = cc
    by_tests false true k e = cc
    by_tests false false k e =
        let same : requested ≡ amount = cc in
        subst (λ a. (pos 1 ≤ℤ a) × (a ≤ℤ funds)) same (k refl refl)

-- What the decision on the amount returns: no payout of this balance is in flight, and the amount is
-- positive and within the funds.
pub record IsAmount (merchant_id : ℕ) (currency : String) (livemode : Bool) (s : Tables)
    (amount : ℤ) : Type 0 where
  pub none_in_flight : find_in_flight merchant_id currency livemode s.payouts ≡ none
  pub positive : pos 1 ≤ℤ amount
  pub within : amount ≤ℤ compute_available merchant_id currency livemode s

module _ (merchant_id : ℕ) (req : PayoutRequest) (livemode : Bool) (s : Tables) where
  pub amount_of_payout-reads : (amount_of_payout merchant_id req livemode s).1 ≡ s
  unfolding amount_of_payout
  amount_of_payout-reads = lift->>=-Reads _ _ (λ u s'. refl) s

  pub amount_of_payout-IsAmount :
      (amount : ℤ)
      → (amount_of_payout merchant_id req livemode s).0 ≡ ok amount
      → IsAmount merchant_id req.currency livemode s amount
  unfolding amount_of_payout ◌>>=◌
  amount_of_payout-IsAmount amount h =
      by_payout (find_in_flight merchant_id req.currency livemode s.payouts) refl h
    where
      funds : ℤ
      funds = compute_available merchant_id req.currency livemode s

      by_payout :
          (found : Option Payout)
          → find_in_flight merchant_id req.currency livemode s.payouts ≡ found
          → ((lift (refuse_in_flight found)
                >> lift (check_amount (requested_minor req.amount_minor funds) funds))
              s).0
            ≡ ok amount
          → IsAmount merchant_id req.currency livemode s amount
      by_payout none e k =
          let (low, high) = check_amount-within _ funds amount k in
          record { none_in_flight = e; positive = low; within = high }
      by_payout (some p) e k = cc

module _ (merchant_id : ℕ) (req : PayoutRequest) (s : Tables) (livemode : Bool) (amount : ℤ) where
  pub amount_of_payout-accepts :
      find_in_flight merchant_id req.currency livemode s.payouts ≡ none
      → requested_minor req.amount_minor (compute_available merchant_id req.currency livemode s)
        ≡ amount
      → pos 1 ≤ℤ amount
      → amount ≤ℤ compute_available merchant_id req.currency livemode s
      → (amount_of_payout merchant_id req livemode s).0 ≡ ok amount
  unfolding amount_of_payout check_amount ◌>>=◌
  amount_of_payout-accepts idle asked positive within =
      let funds = compute_available merchant_id req.currency livemode s in
      let empty : leb_ℤ funds (pos 0) ≡ false = ground arith in
      let over : ltb_ℤ funds amount ≡ false = ground arith in
      let test : leb_ℤ amount (pos 0) ≡ false = ground arith in
      rw (idle, asked, empty, over, test) refl
