-- ===== src/Ledger/Poster/Retry.antt =====
-- A retried posting (app/services/transactions.py).
use payzeno_ledger.Prelude.{◌+◌, false, ◌==◌}
use payzeno_ledger.Errors.{Result, ok, err, duplicate_settlement}
use payzeno_ledger.Ledger.{Tables, LedgerTransaction}
use payzeno_ledger.Ledger.Poster.{Request, PostResult, OnConflict, raise_error, return_existing}

-- What the retry answers: the owner of the key, or the error that names it.
unfoldable pub retried :
    OnConflict → Request → LedgerTransaction → Tables → Result PostResult × Tables
retried return_existing req t s =
    (ok (record { transaction = t; created = false }), record s { next_id = s.next_id + 1 })
retried raise_error req t s = (
  err (duplicate_settlement t.id (t.request_fingerprint == req.request_fingerprint)),
  record s { next_id = s.next_id + 1 },
)
