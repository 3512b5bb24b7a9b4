-- ===== src/Tests/Pacing.antt =====
-- Delays of app/domain/backoff.py and circuits of app/clients/breaker.py.
use payzeno_ledger.Prelude.{ℕ, ◌≡◌, ◌≤◌, refl, false, some, arith, keep, str_eq}
use payzeno_ledger.Prelude.Int.{pos, negsuc}
use payzeno_ledger.Errors.{ok}
use payzeno_ledger.Backoff.{delay_seconds, bounds_seconds, delay_seconds-bounds_seconds}
use payzeno_ledger.Breaker.{
  appended, failures, Settings, Circuits, no_circuits, Response, returned, upstream_error, answered,
  record_outcome, trips, call,
}
use payzeno_ledger.Breaker.Reset.{IsAlike, call_after_reset}

delay_seconds-bounds_seconds_example :
    (delay : ℕ) × (delay_seconds (pos 3) (pos 30) (negsuc 499_999) ≡ ok delay)
    × ((bounds_seconds (pos 3) 30).0 ≤ delay)
    × (delay ≤ (bounds_seconds (pos 3) 30).1)
    × (1 ≤ delay)
    × (delay ≤ 25_920)
delay_seconds-bounds_seconds_example =
    delay_seconds-bounds_seconds 3 30 (negsuc 499_999) (omega arith)

-- A window of two outcomes that trips at a half.
abbrev settings : Settings
settings = record { threshold_pct = 50; window = 2; reset_seconds = 30 }

abbrev tripped : Circuits
tripped =
    record_outcome settings "worldflow" 11 false
      (record_outcome settings "worldflow" 10 false no_circuits)

opened : tripped.opened_at "worldflow" ≡ some 11
unfolding record_outcome appended trips failures keep
opened = refl

abbrev an_answer : Response ℕ
an_answer = returned 5

abbrev a_failure : Response ℕ
a_failure = upstream_error

nordpay_apart : str_eq "nordpay" "worldflow" ≡ false
nordpay_apart = refl

call_after_reset_example :
    ((call settings "worldflow" 41 42 a_failure tripped).0 ≡ answered a_failure)
    × IsAlike "worldflow"
        (call settings "worldflow" 41 42 a_failure tripped).1
        (call settings "worldflow" 41 42 a_failure no_circuits).1
    × IsAlike "nordpay" (call settings "worldflow" 41 42 a_failure tripped).1 tripped
    × ((call settings "worldflow" 43 43 an_answer
          (call settings "worldflow" 41 42 an_answer tripped).1).0
        ≡ answered an_answer)
call_after_reset_example =
    call_after_reset settings "worldflow" 11 41 42 tripped opened (omega arith) a_failure 5 43
      an_answer "nordpay" nordpay_apart (omega arith) (omega arith)
