-- ===== src/Ledger/Cache/Delta.antt =====
-- The balances before and after `apply_delta` of app/repositories/balance_cache.py.
use payzeno_ledger.Prelude.{
  ℕ, ◌≡◌, refl, ◌↔◌, inl, inr, String, Bool, true, false, ◌&&◌, Bool-cases, Option, some, none,
  List, [], ◌∷◌, find, ◌==◌, ==_iff, bool_eq, str_eq, eq_iff, arith, if◌then◌else◌,
}
use payzeno_ledger.Prelude.Int.{ℤ, pos, ◌+ℤ◌, int_laws}
use payzeno_ledger.Chart.{Bucket, available, pending, reserved, disputed}
use payzeno_ledger.Ledger.{BalanceRow}
use payzeno_ledger.Ledger.Cache.{
  Deltas, is_row_of, get_balance, inserted, updated, apply_delta, minor_of, delta_of,
}

-- The balance that the cache gives: zero when there is no row.
abbrev pub cached : Bucket → Option BalanceRow → ℤ
cached b none = pos 0
cached b (some row) = minor_of b row

-- Whether two keys of rows are the same.
abbrev pub same_key : ℕ → String → Bool → ℕ → String → Bool → Bool
same_key m c l m' c' l' = m == m' && (str_eq c c' && bool_eq l l')

pub same_key_iff :
    (m : ℕ) (c : String) (l : Bool) (m' : ℕ) (c' : String) (l' : Bool)
    → (same_key m c l m' c' l' ≡ true) ↔ ((m ≡ m') × (c ≡ c') × (l ≡ l'))
same_key_iff m c true m' c' true = ground (arith, ==_iff m m', eq_iff c c')
same_key_iff m c true m' c' false = ground (arith, ==_iff m m', eq_iff c c')
same_key_iff m c false m' c' true = ground (arith, ==_iff m m', eq_iff c c')
same_key_iff m c false m' c' false = ground (arith, ==_iff m m', eq_iff c c')

-- A row with one key has another just when the keys are the same.
is_row_of-same_key :
    (row : BalanceRow) (m : ℕ) (c : String) (l : Bool) (m' : ℕ) (c' : String) (l' : Bool)
    → is_row_of m c l row ≡ true
    → is_row_of m' c' l' row ≡ same_key m c l m' c' l'
is_row_of-same_key row m c l m' c' l' h =
    let (em, ec, el) = (same_key_iff row.merchant_id row.currency row.livemode m c l).0 h in
    rw (em, ec, el) refl

-- A row with one key and not with another tells the keys apart.
same_key-false :
    (row : BalanceRow) (m : ℕ) (c : String) (l : Bool) (m' : ℕ) (c' : String) (l' : Bool)
    → is_row_of m c l row ≡ false
    → is_row_of m' c' l' row ≡ true
    → same_key m c l m' c' l' ≡ false
same_key-false row m c l m' c' l' h k = elim (Bool-cases (same_key m c l m' c' l')) [
  | inl same ↦
      let (em, ec, el) = (same_key_iff m c l m' c' l').0 same in
      let found : is_row_of m c l row ≡ true = rw (em, ec, el) k in cc
  | inr other ↦ other
]

module _ (d : Deltas) (txn : ℕ) where
  minor_of-inserted :
      (b : Bucket) (m : ℕ) (c : String) (l : Bool)
      → minor_of b (inserted m c l d txn) ≡ delta_of b d
  minor_of-inserted available m c l = refl
  minor_of-inserted pending m c l = refl
  minor_of-inserted reserved m c l = refl
  minor_of-inserted disputed m c l = refl

  minor_of-updated :
      (b : Bucket) (row : BalanceRow)
      → minor_of b (updated row d txn) ≡ minor_of b row +ℤ delta_of b d
  minor_of-updated available row = refl
  minor_of-updated pending row = refl
  minor_of-updated reserved row = refl
  minor_of-updated disputed row = refl

  cached-inserted :
      (b : Bucket) (m : ℕ) (c : String) (l : Bool) (t : Bool)
      → cached b (if t then some (inserted m c l d txn) else none)
        ≡ pos 0 +ℤ (if t then delta_of b d else pos 0)
  cached-inserted b m c l true = rw (minor_of-inserted b m c l) (omega int_laws)
  cached-inserted b m c l false = omega int_laws

  cached-updated :
      (b : Bucket) (row : BalanceRow) (o : Option BalanceRow) (t : Bool)
      → cached b (if t then some (updated row d txn) else o)
        ≡ cached b (if t then some row else o) +ℤ (if t then delta_of b d else pos 0)
  cached-updated b row o true = minor_of-updated b row
  cached-updated b row o false = omega int_laws

  cached_kept :
      (b : Bucket) (row : BalanceRow) (o o' : Option BalanceRow) (delta : ℤ) (t key : Bool)
      → (t ≡ true → key ≡ false)
      → cached b o' ≡ cached b o +ℤ (if key then delta else pos 0)
      → cached b (if t then some row else o')
        ≡ cached b (if t then some row else o) +ℤ (if key then delta else pos 0)
  cached_kept b row o o' delta true key apart h = rw (apart refl) (omega int_laws)
  cached_kept b row o o' delta false key apart h = h

  -- After the deltas are applied under one key, the balance under any key is the one of before,
  -- and the delta of its bucket where the keys are the same.
  pub get_balance-apply_delta :
      (b : Bucket) (m : ℕ) (c : String) (l : Bool) (m' : ℕ) (c' : String) (l' : Bool)
      (rows : List BalanceRow)
      → cached b (get_balance m' c' l' (apply_delta m c l d txn rows))
        ≡ cached b (get_balance m' c' l' rows)
          +ℤ (if same_key m c l m' c' l' then delta_of b d else pos 0)
  unfolding get_balance find apply_delta
  get_balance-apply_delta b m c l m' c' l' [] = cached-inserted b m c l (same_key m c l m' c' l')
  get_balance-apply_delta b m c l m' c' l' (row ∷ rows) = elim (Bool-cases (is_row_of m c l row)) [
    | inl own ↦
        rw (own, ← (is_row_of-same_key row m c l m' c' l' own))
          (cached-updated b row (get_balance m' c' l' rows) (is_row_of m' c' l' row))
    | inr other ↦ rw (other) (
        cached_kept b row (get_balance m' c' l' rows)
          (get_balance m' c' l' (apply_delta m c l d txn rows)) (delta_of b d)
          (is_row_of m' c' l' row) (same_key m c l m' c' l')
          (same_key-false row m c l m' c' l' other) (get_balance-apply_delta b m c l m' c' l' rows))
  ]
