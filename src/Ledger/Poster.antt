-- ===== src/Ledger/Poster.antt =====
-- `LedgerPoster` (app/services/transactions.py): the one writer of transactions and entries.
pub mod Checks
pub mod Movement
pub mod Reversal
pub mod Entries
pub mod Booking
pub mod Outcome
pub mod Retry
pub mod Fresh
pub mod Acceptance
use payzeno_ledger.Prelude.{
  ℕ, suc, ◌+◌, String, Bool, true, false, not, ◌&&◌, ◌||◌, ◌==◌, Option, some, none, List, [], ◌∷◌,
  ◌++◌, map, keep, length, ltb, if◌then◌else◌,
}
use payzeno_ledger.Prelude.Int.{ℤ, pos, ◌+ℤ◌, neg_ℤ, leb_ℤ, eqb_ℤ, sum_ℤ}
use payzeno_ledger.Errors.{
  Result, Error, ok, err, raise_if, unbalanced_transaction, negative_amount, account_frozen,
  account_not_found, duplicate_settlement,
}
use payzeno_ledger.Chart.{
  AccountType, Bucket, Direction, debit, credit, same_direction, same_type, normal_balance_by_type,
  is_platform_account, bucket_type, available, pending, reserved, disputed,
}
use payzeno_ledger.Posting.{PostingLine}
use payzeno_ledger.Posting.Balance.{side_total}
use payzeno_ledger.Posting.Mirror.{flip}
use payzeno_ledger.Rules.{LedgerPurpose}
use payzeno_ledger.Keys.{LedgerKey}
use payzeno_ledger.Ledger.{
  Account, AccountStatus, active, LedgerTransaction, LedgerEntry, BalanceRow, PostedEvent, Tables,
  Action, pure, raise, lift, ◌>>=◌, ◌>>◌, new_id,
}
use payzeno_ledger.Ledger.Accounts.{get_or_create, account_by_id}
use payzeno_ledger.Ledger.Transactions.{IdempotencyClaim, claim_idempotency_key, get_or_raise}
use payzeno_ledger.Ledger.Cache.{Deltas, apply_delta}

-- `Literal["raise", "return_existing"]`
pub data OnConflict : Type 0 where
  raise_error return_existing : OnConflict

-- The arguments of `post`.
pub record Request : Type 0 where
  pub idempotency_key : LedgerKey
  pub purpose : LedgerPurpose
  pub merchant_id : Option ℕ
  pub currency : String
  pub livemode : Bool
  pub reference_type : String
  pub reference_id : ℕ
  pub lines : List PostingLine
  pub created_by : String
  pub request_fingerprint : ℕ
  pub on_conflict : OnConflict

pub record PostResult : Type 0 where
  pub transaction : LedgerTransaction
  pub created : Bool

-- The loop over the lines. A `PostingLine` has neither a currency nor a mode of its own, so its
-- two other tests compare the transaction's with itself, and only the amount can fail.
unfoldable pub check_lines : List PostingLine → Result (Unit {0})
check_lines [] = ok tt
check_lines (l ∷ ls) = if leb_ℤ l.amount_minor (pos 0) then err negative_amount else check_lines ls

-- `_assert_invariants`
unfoldable pub assert_invariants : List PostingLine → Result (Unit {0})
assert_invariants lines =
    if ltb (length lines) 2
    then err unbalanced_transaction
    else if not (eqb_ℤ (side_total debit lines) (side_total credit lines))
    then err unbalanced_transaction
    else check_lines lines

-- `account.status in ("frozen", "closed")`
abbrev pub is_shut : AccountStatus → Bool
is_shut AccountStatus.active = false
is_shut AccountStatus.frozen = true
is_shut AccountStatus.closed = true

abbrev pub owner_of : Option ℕ → PostingLine → Option ℕ
owner_of merchant_id l = if is_platform_account l.account_type then none else merchant_id

unfoldable pub refuse_shut : Account → Action (Unit {0})
refuse_shut account s =
    (if is_shut account.status then err (account_frozen account.id) else ok tt, s)

abbrev pub make_entry :
    (id transaction_id account_id : ℕ) → String → Bool → ℕ → PostingLine → LedgerEntry
make_entry id transaction_id account_id currency livemode sequence l = record {
  id = id;
  transaction_id = transaction_id;
  account_id = account_id;
  direction = l.direction;
  amount_minor = l.amount_minor;
  currency = currency;
  livemode = livemode;
  sequence = sequence;
}

-- `_materialise_entries`, from a sequence number on; `post` begins at 1.
unfoldable pub materialise_entries :
    ℕ → Option ℕ → String → Bool → ℕ → List PostingLine → Action (List LedgerEntry)
materialise_entries txn merchant_id currency livemode sequence [] = pure []
materialise_entries txn merchant_id currency livemode sequence (l ∷ ls) = do
  account ← get_or_create (owner_of merchant_id l) l.account_type currency livemode
  refuse_shut account
  id ← new_id
  rest ← materialise_entries txn merchant_id currency livemode (sequence + 1) ls
  pure (make_entry id txn account.id currency livemode sequence l ∷ rest)

-- `_signed_total`: each bucket has one account type.
unfoldable pub signed_total : AccountType → List PostingLine → ℤ
signed_total t [] = pos 0
signed_total t (l ∷ ls) =
    (if same_type l.account_type t
      then if same_direction l.direction (normal_balance_by_type l.account_type)
        then l.amount_minor
        else neg_ℤ l.amount_minor
      else pos 0)
    +ℤ signed_total t ls

unfoldable pub deltas_of : List PostingLine → Deltas
deltas_of lines = record {
  available_delta = signed_total (bucket_type available) lines;
  pending_delta = signed_total (bucket_type pending) lines;
  reserved_delta = signed_total (bucket_type reserved) lines;
  disputed_delta = signed_total (bucket_type disputed) lines;
}

-- `any((available, pending, reserved, disputed))`
abbrev pub any_delta : Deltas → Bool
any_delta d =
    not (eqb_ℤ d.available_delta (pos 0))
    || (not (eqb_ℤ d.pending_delta (pos 0))
        || (not (eqb_ℤ d.reserved_delta (pos 0)) || not (eqb_ℤ d.disputed_delta (pos 0))))

-- `_apply_balance_delta`, on the rows of the cache
unfoldable pub balances_after :
    Option ℕ → String → Bool → List PostingLine → ℕ → List BalanceRow → List BalanceRow
unfolding deltas_of
balances_after none currency livemode lines txn rows = rows
balances_after (some m) currency livemode lines txn rows =
    let d = deltas_of lines in
    if any_delta d then apply_delta m currency livemode d txn rows else rows

abbrev pub apply_balance_delta : Option ℕ → String → Bool → List PostingLine → ℕ → Action (Unit {0})
apply_balance_delta merchant_id currency livemode lines txn s = (
  ok tt,
  record s { balances = balances_after merchant_id currency livemode lines txn s.balances },
)

-- `sum(entry.amount_minor for entry in entries if entry.direction == "debit")`
unfoldable pub debited : List LedgerEntry → ℤ
debited [] = pos 0
debited (e ∷ es) =
    (if same_direction e.direction debit then e.amount_minor else pos 0) +ℤ debited es

-- `_publish_posted`
unfoldable pub publish_posted : LedgerTransaction → List LedgerEntry → Action (Unit {0})
unfolding debited
publish_posted t entries s =
    let event : PostedEvent = record {
      transaction_id = t.id;
      idempotency_key = t.idempotency_key;
      merchant_id = t.merchant_id;
      currency = t.currency;
      entry_count = length entries;
      amount_minor = debited entries;
      livemode = t.livemode;
    } in
    (ok tt, record s { outbox = event ∷ s.outbox })

-- `entries.add_all`
abbrev pub add_all : List LedgerEntry → Action (Unit {0})
add_all entries s = (ok tt, record s { entries = entries ++ s.entries })

-- The row that the claim inserts.
abbrev pub row_of : Request → ℕ → LedgerTransaction
row_of req id = record {
  id = id;
  idempotency_key = req.idempotency_key;
  request_fingerprint = req.request_fingerprint;
  purpose = req.purpose;
  merchant_id = req.merchant_id;
  currency = req.currency;
  livemode = req.livemode;
  reference_type = req.reference_type;
  reference_id = req.reference_id;
  created_by = req.created_by;
  reverses_transaction_id = none;
}

-- What `post` does when the key is taken.
unfoldable pub post_conflict : OnConflict → IdempotencyClaim → Action PostResult
post_conflict return_existing claim = do
  existing ← get_or_raise claim.transaction_id
  pure (record { transaction = existing; created = false })
post_conflict raise_error claim = do
  existing ← get_or_raise claim.transaction_id
  raise (duplicate_settlement claim.transaction_id claim.fingerprint_matches)

-- What `post` does with a key of its own.
unfoldable pub post_claimed : Request → IdempotencyClaim → Action PostResult
post_claimed req claim = do
  transaction ← get_or_raise claim.transaction_id
  entries ← materialise_entries transaction.id req.merchant_id req.currency req.livemode 1 req.lines
  add_all entries
  apply_balance_delta req.merchant_id req.currency req.livemode req.lines transaction.id
  publish_posted transaction entries
  pure (record { transaction = transaction; created = true })

unfoldable pub post : Request → Action PostResult
post req = do
  lift (assert_invariants req.lines)
  claim ← claim_idempotency_key (row_of req)
  if claim.created then post_claimed req claim else post_conflict req.on_conflict claim
