-- ===== src/Ledger/Transactions.antt =====
-- `LedgerTransactionRepository.claim_idempotency_key` (app/repositories/ledger_transaction.py):
-- the claim of a key is the insert of the transaction, and a taken key inserts nothing.
use payzeno_ledger.Prelude.{ℕ, ◌+◌, Bool, true, false, Option, some, none, List, ◌∷◌, find, ◌==◌}
use payzeno_ledger.Errors.{ok, err, transaction_not_found}
use payzeno_ledger.Keys.{LedgerKey, same_key}
use payzeno_ledger.Ledger.{LedgerTransaction, Action}

pub record IdempotencyClaim : Type 0 where
  pub transaction_id : ℕ
  pub created : Bool
  pub fingerprint_matches : Bool

unfoldable pub find_by_idempotency_key :
    LedgerKey → List LedgerTransaction → Option LedgerTransaction
find_by_idempotency_key key transactions =
    find (λ (t : LedgerTransaction). same_key t.idempotency_key key) transactions

abbrev pub found_or_raise : Option LedgerTransaction → Action LedgerTransaction
found_or_raise (some t) s = (ok t, s)
found_or_raise none s = (err transaction_not_found, s)

-- `get_or_raise`
unfoldable pub get_or_raise : ℕ → Action LedgerTransaction
get_or_raise id s = found_or_raise (find (λ (t : LedgerTransaction). t.id == id) s.transactions) s

-- `ON CONFLICT DO NOTHING` inserts the row unless the unique index finds its key.
abbrev pub claim_from : LedgerTransaction → Option LedgerTransaction → Action IdempotencyClaim
claim_from new none s = (
  ok (record { transaction_id = new.id; created = true; fingerprint_matches = true }),
  record s { transactions = new ∷ s.transactions; next_id = s.next_id + 1 },
)
claim_from new (some existing) s = (
  ok (record {
    transaction_id = existing.id;
    created = false;
    fingerprint_matches = existing.request_fingerprint == new.request_fingerprint;
  }),
  record s { next_id = s.next_id + 1 },
)

-- The row to insert carries the id that was drawn for it.
unfoldable pub claim_idempotency_key : (ℕ → LedgerTransaction) → Action IdempotencyClaim
claim_idempotency_key row s =
    let new = row s.next_id in
    claim_from new (find_by_idempotency_key new.idempotency_key s.transactions) s
