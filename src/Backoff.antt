-- ===== src/Backoff.antt =====
-- app/domain/backoff.py: the delay before the next attempt. Times are seconds; the jitter that the
-- source draws is in millionths, and the products are exact.
use payzeno_ledger.Prelude.{
  ℕ, suc, ◌+◌, ◌-◌, ◌*◌, ◌/◌, ◌^◌, ◌≤◌, ◌≡◌, refl, Bool, true, false, Option, none, some, ltb, leb,
  arith, if◌then◌else◌,
}
use payzeno_ledger.Prelude.Int.{ℤ, pos, negsuc, pos_part, ltb_ℤ, leb_ℤ}
use payzeno_ledger.Errors.{
  Result, ok, ◌>>=◌, ◌>>◌, raise_if, validation, attempt_count_negative, base_not_positive,
}
use native.Mathlib.Nat.{mul-le-mul_left}

abbrev min_ℕ : ℕ → ℕ → ℕ
min_ℕ a b = if ltb b a then b else a

abbrev pub max_ℕ : ℕ → ℕ → ℕ
max_ℕ a b = if ltb a b then b else a

abbrev max_exponent : ℕ
max_exponent = 12

abbrev pub max_delay_seconds : ℕ
max_delay_seconds = 21_600

-- `min(base_seconds * (2**exponent), MAX_DELAY_SECONDS)`
unfoldable pub raw_seconds : (attempt_count base_seconds : ℕ) → ℕ
raw_seconds attempt_count base_seconds =
    min_ℕ (base_seconds * 2 ^ min_ℕ attempt_count max_exponent) max_delay_seconds

-- `1 + JITTER_FRACTION * _clamp(jitter)`, in units of 1 / 5_000_000
unfoldable pub jitter_factor : ℤ → ℕ
jitter_factor (pos n) = 5_000_000 + min_ℕ n 1_000_000
jitter_factor (negsuc n) = 5_000_000 - min_ℕ (suc n) 1_000_000

-- `delay_seconds` after its tests
unfoldable pub jittered : (attempt_count base_seconds : ℕ) → ℤ → ℕ
jittered attempt_count base_seconds jitter =
    max_ℕ 1 (raw_seconds attempt_count base_seconds * jitter_factor jitter / 5_000_000)

unfoldable pub delay_seconds : (attempt_count base_seconds jitter : ℤ) → Result ℕ
delay_seconds attempt_count base_seconds jitter = do
  raise_if (ltb_ℤ attempt_count (pos 0)) (validation attempt_count_negative)
  raise_if (leb_ℤ base_seconds (pos 0)) (validation base_not_positive)
  ok (jittered (pos_part attempt_count) (pos_part base_seconds) jitter)

unfoldable pub next_attempt_at : ℕ → (attempt_count base_seconds jitter : ℤ) → Result ℕ
next_attempt_at now attempt_count base_seconds jitter = do
  delay ← delay_seconds attempt_count base_seconds jitter
  ok (now + delay)

-- `bounds_seconds`
abbrev pub low_seconds : ℕ → ℕ
low_seconds raw = max_ℕ 1 (raw * 4 / 5)

unfoldable pub bounds_seconds : (attempt_count : ℤ) (base_seconds : ℕ) → ℕ × ℕ
bounds_seconds attempt_count base_seconds =
    let raw = raw_seconds (pos_part attempt_count) base_seconds in
    (low_seconds raw, max_ℕ (low_seconds raw) (raw * 6 / 5))

unfoldable pub is_due : Option ℕ → ℕ → Bool
is_due none now = true
is_due (some next_attempt) now = leb next_attempt now

jitter_factor-bounds : (j : ℤ) → (4_000_000 ≤ jitter_factor j) × (jitter_factor j ≤ 6_000_000)
unfolding jitter_factor
jitter_factor-bounds (pos n) = (ground arith, ground arith)
jitter_factor-bounds (negsuc n) = (ground arith, ground arith)

raw_seconds-bounds : (attempt base : ℕ) → raw_seconds attempt base ≤ max_delay_seconds
unfolding raw_seconds
raw_seconds-bounds attempt base = ground arith

within_bounds :
    (raw x : ℕ)
    → raw * 4_000_000 ≤ x
    → x ≤ raw * 6_000_000
    → (low_seconds raw ≤ max_ℕ 1 (x / 5_000_000))
      × (max_ℕ 1 (x / 5_000_000) ≤ max_ℕ (low_seconds raw) (raw * 6 / 5))
within_bounds raw x low high = (ground arith, ground arith)

-- Whatever jitter is drawn, for an attempt count that is not negative and a positive base, the delay
-- is computed, lies within the bounds that `bounds_seconds` tells, and is at least a second and at
-- most 25920, six hours and a fifth.
pub delay_seconds-bounds_seconds :
    (attempt base : ℕ) (jitter : ℤ)
    → 1 ≤ base
    → (delay : ℕ) × (delay_seconds (pos attempt) (pos base) jitter ≡ ok delay)
      × ((bounds_seconds (pos attempt) base).0 ≤ delay)
      × (delay ≤ (bounds_seconds (pos attempt) base).1)
      × (1 ≤ delay)
      × (delay ≤ 25_920)
unfolding delay_seconds bounds_seconds jittered
delay_seconds-bounds_seconds attempt base jitter positive =
    let raw = raw_seconds attempt base in
    let (factor_low, factor_high) = jitter_factor-bounds jitter in
    let few : raw * 4_000_000 ≤ raw * jitter_factor jitter = mul-le-mul_left raw factor_low in
    let many : raw * jitter_factor jitter ≤ raw * 6_000_000 = mul-le-mul_left raw factor_high in
    let (low, high) = within_bounds raw (raw * jitter_factor jitter) few many in
    let started : ltb_ℤ (pos attempt) (pos 0) ≡ false = ground arith in
    let test : leb_ℤ (pos base) (pos 0) ≡ false = ground arith in
    (
      jittered attempt base jitter,
      rw (started, test) refl,
      low,
      high,
      ground arith,
      ground (arith, raw_seconds-bounds attempt base),
    )
