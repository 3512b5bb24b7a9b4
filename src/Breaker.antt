-- ===== src/Breaker.antt =====
-- `InMemoryCircuitBreaker` of app/clients/breaker.py: a window of outcomes for each circuit, and when
-- it was opened. `time.monotonic()` is a number of seconds, handed to each call.
pub mod Circuit
pub mod Reset
use payzeno_ledger.Prelude.{
  ℕ, ◌-◌, ◌*◌, ◌/◌, String, Bool, true, false, not, Option, none, some, List, [], ◌∷◌, keep, length,
  take_first, ltb, leb, str_eq, if◌then◌else◌,
}

pub record Settings : Type 0 where
  pub threshold_pct : ℕ
  pub window : ℕ
  pub reset_seconds : ℕ

-- `_outcomes` and `_opened_at`, as functions of the circuit's name. The newest outcome is first.
pub record Circuits : Type 0 where
  pub outcomes : String → Option (List Bool)
  pub opened_at : String → Option ℕ

abbrev pub no_circuits : Circuits
no_circuits = record { outcomes = λ name. none; opened_at = λ name. none }

-- `d[name] = value`, or the removal of the key
abbrev pub set_entry : {A : Type 0} → String → Option A → (String → Option A) → String → Option A
set_entry name value d other = if str_eq other name then value else d other

-- What the acquirer's client does.
pub data Response (A : Type 0) : Type 0 where
  returned : A → Response A
  upstream_error other_error : Response A

-- What `call` does.
pub data Outcome (A : Type 0) : Type 0 where
  answered : Response A → Outcome A
  circuit_open : Outcome A

module _ (settings : Settings) where
  -- Once the wait is over, both entries of the circuit are dropped.
  abbrev pub waited : (is_over : Bool) → String → Circuits → Bool × Circuits
  waited true name s = (
    false,
    record {
      outcomes = set_entry name none s.outcomes;
      opened_at = set_entry name none s.opened_at;
    },
  )
  waited false name s = (true, s)

  abbrev pub open_since : String → ℕ → Circuits → Option ℕ → Bool × Circuits
  open_since name now s none = (false, s)
  open_since name now s (some opened) = waited (leb settings.reset_seconds (now - opened)) name s

  unfoldable pub is_open : String → ℕ → Circuits → Bool × Circuits
  is_open name now s = open_since name now s (s.opened_at name)

  abbrev pub bucket_of : Option (List Bool) → List Bool
  bucket_of none = []
  bucket_of (some bucket) = bucket

  -- `bucket.append(ok)` on a deque of `maxlen=window`
  unfoldable pub appended : Bool → Option (List Bool) → List Bool
  appended ok bucket = take_first settings.window (ok ∷ bucket_of bucket)

  unfoldable pub failures : List Bool → ℕ
  failures bucket = length (keep not bucket)

  -- Whether a full window has failed too often
  unfoldable pub trips : List Bool → Bool
  trips bucket =
      if ltb (length bucket) settings.window
      then false
      else leb settings.threshold_pct (failures bucket * 100 / length bucket)

  abbrev pub opened_if : Bool → String → ℕ → (String → Option ℕ) → String → Option ℕ
  opened_if true name now opened_at = set_entry name (some now) opened_at
  opened_if false name now opened_at = opened_at

  unfoldable pub record_outcome : String → ℕ → Bool → Circuits → Circuits
  record_outcome name now ok s =
      let bucket = appended ok (s.outcomes name) in
      record {
        outcomes = set_entry name (some bucket) s.outcomes;
        opened_at = opened_if (trips bucket) name now s.opened_at;
      }

  -- An `UpstreamError` is recorded as a failure; any other exception is not recorded.
  abbrev pub recorded : {A : Type 0} → String → ℕ → Response A → Circuits → Circuits
  recorded name now (returned a) s = record_outcome name now true s
  recorded name now upstream_error s = record_outcome name now false s
  recorded name now other_error s = s

  abbrev pub call_unless :
      {A : Type 0} → String → ℕ → Response A → Bool × Circuits → Outcome A × Circuits
  call_unless name end response (true, s) = (circuit_open, s)
  call_unless name end response (false, s) = (answered response, recorded name end response s)

  -- `call`, begun at one time and ended at another, with what the client would do.
  unfoldable pub call :
      {A : Type 0} → String → (begin end : ℕ) → Response A → Circuits → Outcome A × Circuits
  call name begin end response s = call_unless name end response (is_open name begin s)
