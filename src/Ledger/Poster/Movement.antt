-- ===== src/Ledger/Poster/Movement.antt =====
-- `_apply_balance_delta` and `_signed_total` of app/services/transactions.py: what a posting adds to
-- the cached balances.
use payzeno_ledger.Prelude.{
  ℕ, ◌≡◌, refl, inl, inr, String, Bool, true, false, ◌&&◌, Bool-cases, Option, some, none, List,
  str_eq, bool_eq, not, ◌||◌, arith, if◌then◌else◌,
}
use payzeno_ledger.Prelude.Int.{ℤ, pos, ◌+ℤ◌, int_laws, eqb_ℤ, eqb_ℤ_iff}
use payzeno_ledger.Chart.{Bucket, bucket_type, available, pending, reserved, disputed}
use payzeno_ledger.Posting.{PostingLine}
use payzeno_ledger.Ledger.{BalanceRow}
use payzeno_ledger.Ledger.Cache.{Deltas, get_balance, delta_of}
use payzeno_ledger.Ledger.Cache.Delta.{cached, get_balance-apply_delta}
use payzeno_ledger.Ledger.Reports.Buckets.{owns}
use payzeno_ledger.Ledger.Poster.{signed_total, deltas_of, any_delta, balances_after}

zero_delta : (x : ℤ) (t : Bool) → (not (eqb_ℤ x (pos 0)) || t) ≡ false → (x ≡ pos 0) × (t ≡ false)
zero_delta x t h = ground (arith, eqb_ℤ_iff x (pos 0))

no_delta : (d : Deltas) (b : Bucket) → any_delta d ≡ false → delta_of b d ≡ pos 0
no_delta d b h =
    let (a, rest) = zero_delta d.available_delta _ h in
    let (p, rest') = zero_delta d.pending_delta _ rest in
    let (r, rest'') = zero_delta d.reserved_delta _ rest' in
    let last : d.disputed_delta ≡ pos 0 = ground (arith, eqb_ℤ_iff d.disputed_delta (pos 0)) in
    by_bucket b a p r last
  where
    by_bucket :
        (b : Bucket)
        → d.available_delta ≡ pos 0
        → d.pending_delta ≡ pos 0
        → d.reserved_delta ≡ pos 0
        → d.disputed_delta ≡ pos 0
        → delta_of b d ≡ pos 0
    by_bucket available a p r l = a
    by_bucket pending a p r l = p
    by_bucket reserved a p r l = r
    by_bucket disputed a p r l = l

plus_nothing : (x y : ℤ) (key : Bool) → y ≡ pos 0 → x ≡ x +ℤ (if key then y else pos 0)
plus_nothing x y true h = rw (h) (omega int_laws)
plus_nothing x y false h = omega int_laws

abbrev pub is_posting_of : Option ℕ → String → Bool → ℕ → String → Bool → Bool
is_posting_of o c m merchant cur mode = owns o merchant && (str_eq c cur && bool_eq m mode)

-- The cached balances after a posting: the deltas are added for its merchant, currency and mode.
pub balances_after_lem :
    (b : Bucket) (o : Option ℕ) (c : String) (m : Bool) (ls : List PostingLine) (txn : ℕ)
    (rows : List BalanceRow) (merchant : ℕ) (cur : String) (mode : Bool)
    → cached b (get_balance merchant cur mode (balances_after o c m ls txn rows))
      ≡ cached b (get_balance merchant cur mode rows)
        +ℤ (if is_posting_of o c m merchant cur mode then delta_of b (deltas_of ls) else pos 0)
unfolding balances_after
balances_after_lem b none c m ls txn rows merchant cur mode = omega int_laws
balances_after_lem b (some n) c m ls txn rows merchant cur mode =
    elim (Bool-cases (any_delta (deltas_of ls))) [
      | inl some_ ↦
          rw (some_) (get_balance-apply_delta (deltas_of ls) txn b n c m merchant cur mode rows)
      | inr none_ ↦ rw (none_) (
          plus_nothing _ _ (is_posting_of (some n) c m merchant cur mode)
            (no_delta (deltas_of ls) b none_))
    ]

pub delta_of-deltas_of :
    (b : Bucket) (ls : List PostingLine)
    → delta_of b (deltas_of ls) ≡ signed_total (bucket_type b) ls
unfolding deltas_of
delta_of-deltas_of available ls = refl
delta_of-deltas_of pending ls = refl
delta_of-deltas_of reserved ls = refl
delta_of-deltas_of disputed ls = refl
