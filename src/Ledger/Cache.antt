-- ===== src/Ledger/Cache.antt =====
-- `MerchantBalanceCacheRepository.apply_delta` (app/repositories/balance_cache.py): an upsert that
-- adds one posting's deltas to the row of a merchant, a currency and a mode.
pub mod Delta
use payzeno_ledger.Prelude.{
  ℕ, String, Bool, ◌&&◌, Option, List, [], ◌∷◌, find, ◌==◌, bool_eq, str_eq, if◌then◌else◌,
}
use payzeno_ledger.Prelude.Int.{ℤ, pos, ◌+ℤ◌, neg_ℤ, max_ℤ}
use payzeno_ledger.Chart.{Bucket, available, pending, reserved, disputed}
use payzeno_ledger.Ledger.{BalanceRow}

pub record Deltas : Type 0 where
  pub available_delta : ℤ
  pub pending_delta : ℤ
  pub reserved_delta : ℤ
  pub disputed_delta : ℤ

abbrev pub is_row_of : ℕ → String → Bool → BalanceRow → Bool
is_row_of merchant_id currency livemode row =
    row.merchant_id == merchant_id
    && (str_eq row.currency currency && bool_eq row.livemode livemode)

-- `MerchantBalanceCacheRepository.get`
unfoldable pub get_balance : ℕ → String → Bool → List BalanceRow → Option BalanceRow
get_balance merchant_id currency livemode rows = find (is_row_of merchant_id currency livemode) rows

-- `VALUES (...)`
abbrev pub inserted : ℕ → String → Bool → Deltas → ℕ → BalanceRow
inserted merchant_id currency livemode d transaction_id = record {
  merchant_id = merchant_id;
  currency = currency;
  livemode = livemode;
  available_minor = d.available_delta;
  pending_minor = d.pending_delta;
  reserved_minor = d.reserved_delta;
  disputed_minor = d.disputed_delta;
  negative_balance_minor = max_ℤ (pos 0) (neg_ℤ d.available_delta);
  last_transaction_id = transaction_id;
}

-- `ON CONFLICT (merchant_id, currency, livemode) DO UPDATE SET ...`
abbrev pub updated : BalanceRow → Deltas → ℕ → BalanceRow
updated row d transaction_id = record row {
  available_minor = row.available_minor +ℤ d.available_delta;
  pending_minor = row.pending_minor +ℤ d.pending_delta;
  reserved_minor = row.reserved_minor +ℤ d.reserved_delta;
  disputed_minor = row.disputed_minor +ℤ d.disputed_delta;
  negative_balance_minor = max_ℤ (pos 0) (neg_ℤ (row.available_minor +ℤ d.available_delta));
  last_transaction_id = transaction_id;
}

unfoldable pub apply_delta : ℕ → String → Bool → Deltas → ℕ → List BalanceRow → List BalanceRow
apply_delta m c l d txn [] = inserted m c l d txn ∷ []
apply_delta m c l d txn (row ∷ rows) =
    if is_row_of m c l row then updated row d txn ∷ rows else row ∷ apply_delta m c l d txn rows

abbrev pub minor_of : Bucket → BalanceRow → ℤ
minor_of available row = row.available_minor
minor_of pending row = row.pending_minor
minor_of reserved row = row.reserved_minor
minor_of disputed row = row.disputed_minor

abbrev pub delta_of : Bucket → Deltas → ℤ
delta_of available d = d.available_delta
delta_of pending d = d.pending_delta
delta_of reserved d = d.reserved_delta
delta_of disputed d = d.disputed_delta
