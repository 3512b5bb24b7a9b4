-- ===== src/Ledger/Poster/Reversal.antt =====
-- `LedgerPoster.reverse` (app/services/transactions.py): the mirror image of a posted transaction.
use payzeno_ledger.Prelude.{ℕ, String, ◌==◌, Option, some, none, List, [], ◌∷◌, keep, if◌then◌else◌}
use payzeno_ledger.Errors.{ok, err, account_not_found}
use payzeno_ledger.Posting.{PostingLine}
use payzeno_ledger.Posting.Mirror.{flip}
use payzeno_ledger.Rules.{LedgerPurpose}
use payzeno_ledger.Keys.{LedgerKey}
use payzeno_ledger.Ledger.{Account, LedgerTransaction, LedgerEntry, Action, pure, ◌>>=◌, ◌>>◌}
use payzeno_ledger.Ledger.Accounts.{account_by_id}
use payzeno_ledger.Ledger.Poster.{Request, PostResult, raise_error, post}

-- `entries.list_for_transaction`: the rows of a transaction were added in sequence order.
unfoldable pub list_for_transaction : ℕ → List LedgerEntry → List LedgerEntry
list_for_transaction txn entries = keep (λ (e : LedgerEntry). e.transaction_id == txn) entries

abbrev pub entries_of : ℕ → Action (List LedgerEntry)
entries_of txn s = (ok (list_for_transaction txn s.entries), s)

abbrev pub found_account : Option Account → Action Account
found_account (some a) s = (ok a, s)
found_account none s = (err account_not_found, s)

-- `accounts.get_or_raise`
unfoldable pub get_account : ℕ → Action Account
get_account id s = found_account (account_by_id id s.accounts) s

unfoldable pub flipped_lines : List LedgerEntry → Action (List PostingLine)
flipped_lines [] = pure []
flipped_lines (e ∷ es) = do
  account ← get_account e.account_id
  rest ← flipped_lines es
  pure (
      record {
        account_type = account.type;
        direction = flip e.direction;
        amount_minor = e.amount_minor;
      }
      ∷ rest)

-- `result.transaction.reverses_transaction_id = original.id`, on the row
unfoldable pub mark_reversal : ℕ → ℕ → List LedgerTransaction → List LedgerTransaction
mark_reversal id original [] = []
mark_reversal id original (t ∷ ts) =
    if t.id == id
    then record t { reverses_transaction_id = some original } ∷ ts
    else t ∷ mark_reversal id original ts

unfoldable pub reversal_request :
    LedgerTransaction → LedgerKey → String → List PostingLine → Request
reversal_request original idempotency_key created_by lines = record {
  idempotency_key = idempotency_key;
  purpose = LedgerPurpose.reversal;
  merchant_id = original.merchant_id;
  currency = original.currency;
  livemode = original.livemode;
  reference_type = "ledger_transaction";
  reference_id = original.id;
  lines = lines;
  created_by = created_by;
  request_fingerprint = original.request_fingerprint;
  on_conflict = raise_error;
}

abbrev pub with_reversed : PostResult → ℕ → PostResult
with_reversed result original = record result {
  transaction = record result.transaction { reverses_transaction_id = some original };
}

abbrev pub set_reverses : ℕ → ℕ → Action (Unit {0})
set_reverses id original s =
    (ok tt, record s { transactions = mark_reversal id original s.transactions })

unfoldable pub reverse : LedgerTransaction → LedgerKey → String → Action PostResult
reverse original idempotency_key created_by = do
  entries ← entries_of original.id
  flipped ← flipped_lines entries
  result ← post (reversal_request original idempotency_key created_by flipped)
  set_reverses result.transaction.id original.id
  pure (with_reversed result original.id)
