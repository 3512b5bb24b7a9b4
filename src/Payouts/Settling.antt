-- ===== src/Payouts/Settling.antt =====
-- How a payout ends, in app/services/payouts.py: cancelled, paid, failed, or returned by the bank.
-- A change of the row is flushed before the next query; `acquire_item_lock` is left out, as a
-- session runs alone.
use payzeno_ledger.Prelude.{ℕ, String, Option, some, ◌∷◌}
use payzeno_ledger.Errors.{ok, payout_blocked}
use payzeno_ledger.Payout.{
  Payout, PayoutStatus, scheduled, in_transit, paid, failed, returned, canceled, BankReference,
}
use payzeno_ledger.Ledger.{
  PayoutEvent, PayoutEventType, payout_paid, payout_failed, payout_returned, Action, pure, raise,
  ◌>>=◌, ◌>>◌,
}
use payzeno_ledger.Payouts.{PayoutSettings}
use payzeno_ledger.Payouts.Repository.{get_payout, save_payout, mark_returned}
use payzeno_ledger.Payouts.Postings.{reverse_payout_posting}

-- The row that `publish` adds to the outbox; its transaction is the reversal, if there is one.
unfoldable pub publish_payout : PayoutEventType → Payout → Option ℕ → Action (Unit {0})
publish_payout event_type payout transaction_id s =
    let event : PayoutEvent = record {
      event_type = event_type;
      payout_id = payout.id;
      merchant_id = payout.merchant_id;
      amount_minor = payout.amount_minor;
      currency = payout.currency;
      transaction_id = transaction_id;
    } in
    (ok tt, record s { payout_events = event ∷ s.payout_events })

module _ (svc : PayoutSettings) where
  -- The rest of `cancel_payout` for a payout of a status
  unfoldable pub cancel_from : PayoutStatus → Payout → Action Payout
  cancel_from scheduled payout = do
    flushed ← save_payout (record payout { status = canceled })
    reversal ← reverse_payout_posting svc flushed "canceled"
    save_payout (record flushed { reversal_transaction_id = some reversal })
  cancel_from in_transit payout = raise payout_blocked
  cancel_from paid payout = raise payout_blocked
  cancel_from failed payout = raise payout_blocked
  cancel_from returned payout = raise payout_blocked
  cancel_from canceled payout = raise payout_blocked

  unfoldable pub cancel_payout : ℕ → Action Payout
  cancel_payout id = do payout ← get_payout id; cancel_from payout.status payout

  -- What `mark_paid` does with a payout that is not paid yet
  unfoldable pub pay : BankReference → Payout → Action Payout
  pay reference payout = do
    flushed ← save_payout (record payout { status = paid; bank_reference = some reference })
    publish_payout payout_paid flushed flushed.ledger_transaction_id
    pure flushed

  unfoldable pub paid_from : PayoutStatus → BankReference → Payout → Action Payout
  paid_from paid reference payout = pure payout
  paid_from scheduled reference payout = pay reference payout
  paid_from in_transit reference payout = pay reference payout
  paid_from failed reference payout = pay reference payout
  paid_from returned reference payout = pay reference payout
  paid_from canceled reference payout = pay reference payout

  unfoldable pub mark_paid : ℕ → BankReference → Action Payout
  mark_paid id reference = do payout ← get_payout id; paid_from payout.status reference payout

  -- `_mark_returned`
  unfoldable pub return_payout : String → String → Payout → Action Payout
  return_payout failure_code failure_message payout = do
    reversal ← reverse_payout_posting svc payout failure_code
    returned_ ← mark_returned payout.id failure_code failure_message reversal
    publish_payout payout_returned returned_ (some reversal)
    pure returned_

  -- The branch of `mark_failed` for a payout that the rail rejected
  unfoldable pub fail_payout : String → String → Payout → Action Payout
  fail_payout failure_code failure_message payout = do
    reversal ← reverse_payout_posting svc payout failure_code
    flushed ← save_payout (record payout {
      status = failed;
      failure_code = some failure_code;
      failure_message = some failure_message;
      reversal_transaction_id = some reversal;
    })
    publish_payout payout_failed flushed (some reversal)
    pure flushed

  unfoldable pub failed_from : PayoutStatus → String → String → Payout → Action Payout
  failed_from failed failure_code failure_message payout = pure payout
  failed_from returned failure_code failure_message payout = pure payout
  failed_from paid failure_code failure_message payout =
      return_payout failure_code failure_message payout
  failed_from in_transit failure_code failure_message payout =
      return_payout failure_code failure_message payout
  failed_from scheduled failure_code failure_message payout =
      fail_payout failure_code failure_message payout
  failed_from canceled failure_code failure_message payout =
      fail_payout failure_code failure_message payout

  unfoldable pub mark_failed : ℕ → String → String → Action Payout
  mark_failed id failure_code failure_message = do
    payout ← get_payout id
    failed_from payout.status failure_code failure_message payout
