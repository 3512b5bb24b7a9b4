-- ===== src/Breaker/Reset.antt =====
-- An open circuit of app/clients/breaker.py, and its reset.
use payzeno_ledger.Prelude.{
  ℕ, suc, zero, ◌+◌, ◌-◌, ◌≤◌, ◌<◌, ◌≡◌, ◌∙◌, refl, ap, sym, subst, String, Bool, true, false, none,
  some, [], ◌∷◌, take_first, leb, str_eq, eq_iff, arith,
}
use payzeno_ledger.Prelude.{keep}
use payzeno_ledger.Breaker.{
  failures, Settings, Circuits, Outcome, no_circuits, set_entry, Response, returned, answered,
  circuit_open, opened_if, recorded, upstream_error, other_error, is_open, appended, trips,
  record_outcome, call,
}

self : (name : String) → str_eq name name ≡ true
self name = (eq_iff name name).1 refl

module _ {A : Type 0} (settings : Settings) where
  -- A circuit that opened less than `reset_seconds` ago refuses the call, whatever the client would do,
  -- and nothing is written.
  pub call_refused :
      (name : String) (opened begin end : ℕ) (response : Response A) (s : Circuits)
      → s.opened_at name ≡ some opened
      → opened ≤ begin
      → begin < opened + settings.reset_seconds
      → call settings name begin end response s ≡ (circuit_open, s)
  unfolding call is_open
  call_refused name opened begin end response s since after early =
      let fresh : leb settings.reset_seconds (begin - opened) ≡ false = ground arith in
      rw (since, fresh) refl

-- One circuit's two entries are the same in both states.
pub record IsAlike (name : String) (s t : Circuits) : Type 0 where
  pub outcomes : s.outcomes name ≡ t.outcomes name
  pub opened_at : s.opened_at name ≡ t.opened_at name

IsAlike-trans :
    {name : String} (s t u : Circuits) → IsAlike name s t → IsAlike name t u → IsAlike name s u
IsAlike-trans s t u h k = record {
  outcomes = h.outcomes ∙ k.outcomes;
  opened_at = h.opened_at ∙ k.opened_at;
}

module _ (settings : Settings) (name : String) where
  -- A record reads nothing of a circuit but its own window, and its opening stays if it does not trip.
  record_outcome-IsAlike :
      (now : ℕ) (ok : Bool) (s t : Circuits)
      → IsAlike name s t
      → IsAlike name (record_outcome settings name now ok s) (record_outcome settings name now ok t)
  unfolding record_outcome
  record_outcome-IsAlike now ok s t alike = record {
    outcomes = rw (self name, alike.outcomes) refl;
    opened_at =
        rw (alike.outcomes) (by_trip (trips settings (appended settings ok (t.outcomes name))));
  }
    where
      by_trip :
          (trip : Bool)
          → opened_if settings trip name now s.opened_at name
            ≡ opened_if settings trip name now t.opened_at name
      by_trip true = rw (self name) refl
      by_trip false = alike.opened_at

  recorded-IsAlike :
      {A : Type 0} (now : ℕ) (response : Response A) (s t : Circuits)
      → IsAlike name s t
      → IsAlike name (recorded settings name now response s) (recorded settings name now response t)
  recorded-IsAlike now (returned a) s t alike = record_outcome-IsAlike now true s t alike
  recorded-IsAlike now upstream_error s t alike = record_outcome-IsAlike now false s t alike
  recorded-IsAlike now other_error s t alike = alike

  -- A record of one circuit leaves the others alone.
  record_outcome-IsAlike_others :
      (now : ℕ) (ok : Bool) (s : Circuits) (other : String)
      → str_eq other name ≡ false
      → IsAlike other (record_outcome settings name now ok s) s
  unfolding record_outcome
  record_outcome-IsAlike_others now ok s other apart = record {
    outcomes = rw (apart) refl;
    opened_at = by_trip (trips settings (appended settings ok (s.outcomes name)));
  }
    where
      by_trip :
          (trip : Bool) → opened_if settings trip name now s.opened_at other ≡ s.opened_at other
      by_trip true = rw (apart) refl
      by_trip false = refl

  -- The circuit without its two entries
  abbrev pub forgotten : Circuits → Circuits
  forgotten s = record {
    outcomes = set_entry name none s.outcomes;
    opened_at = set_entry name none s.opened_at;
  }

  forgotten-IsAlike : (s : Circuits) → IsAlike name (forgotten s) no_circuits
  forgotten-IsAlike s = record { outcomes = rw (self name) refl; opened_at = rw (self name) refl }

  recorded-IsAlike_others :
      {A : Type 0} (now : ℕ) (response : Response A) (s : Circuits) (other : String)
      → str_eq other name ≡ false
      → IsAlike other (recorded settings name now response (forgotten s)) s
  recorded-IsAlike_others now (returned a) s other apart =
      IsAlike-trans _ (forgotten s) s
        (record_outcome-IsAlike_others now true (forgotten s) other apart)
        (record { outcomes = rw (apart) refl; opened_at = rw (apart) refl })
  recorded-IsAlike_others now upstream_error s other apart =
      IsAlike-trans _ (forgotten s) s
        (record_outcome-IsAlike_others now false (forgotten s) other apart)
        (record { outcomes = rw (apart) refl; opened_at = rw (apart) refl })
  recorded-IsAlike_others now other_error s other apart = record {
    outcomes = rw (apart) refl;
    opened_at = rw (apart) refl;
  }

  -- One success does not trip a circuit whose settings are not zero.
  quiet_window :
      (window threshold : ℕ)
      → 1 ≤ window
      → 1 ≤ threshold
      → trips
          (record settings { window = window; threshold_pct = threshold })
          (take_first window (true ∷ []))
        ≡ false
  unfolding trips failures keep
  quiet_window zero threshold h k = absurd (omega arith)
  quiet_window (suc zero) threshold h k = ground arith
  quiet_window (suc (suc w)) threshold h k = ground arith

  success_closes :
      (now : ℕ)
      → 1 ≤ settings.window
      → 1 ≤ settings.threshold_pct
      → (record_outcome settings name now true no_circuits).opened_at name ≡ none
  unfolding record_outcome appended
  success_closes now h k = rw (quiet_window settings.window settings.threshold_pct h k) refl

  module _ {A : Type 0} (opened begin end : ℕ) (s : Circuits)
      (since : s.opened_at name ≡ some opened)
      (late : opened + settings.reset_seconds ≤ begin) where
    resets :
        (response : Response A)
        → call settings name begin end response s
          ≡ (answered response, recorded settings name end response (forgotten s))
    unfolding call is_open
    resets response =
        let over : leb settings.reset_seconds (begin - opened) ≡ true = ground arith in
        rw (since, over) refl

    lets_through :
        (now : ℕ) (response : Response A) (t : Circuits)
        → t.opened_at name ≡ none
        → (call settings name now now response t).0 ≡ answered response
    unfolding call is_open
    lets_through now response t closed = rw (closed) refl

    -- Where the window and the threshold are not zero, a circuit that opened `reset_seconds` ago or
    -- more lets the call through, and then stands as if it had been called for the first time,
    -- whatever the client did; no other circuit changes; and a call that succeeds closes it: the
    -- next call is let through at any time.
    pub call_after_reset :
        (response : Response A) (a : A) (again : ℕ) (later : Response A) (other : String)
        → str_eq other name ≡ false
        → 1 ≤ settings.window
        → 1 ≤ settings.threshold_pct
        → ((call settings name begin end response s).0 ≡ answered response)
          × IsAlike name
              (call settings name begin end response s).1
              (call settings name begin end response no_circuits).1
          × IsAlike other (call settings name begin end response s).1 s
          × ((call settings name again again later
                (call settings name begin end (returned a) s).1).0
              ≡ answered later)
    unfolding call is_open
    call_after_reset response a again later other apart h k =
        let reset = resets response in
        let won = record_outcome-IsAlike end true (forgotten s) no_circuits (forgotten-IsAlike s) in
        (
          ap (λ (r : Outcome A × Circuits). r.0) reset,
          subst
              (λ (r : Outcome A × Circuits).
                IsAlike name r.1 (call settings name begin end response no_circuits).1)
              (sym reset)
              (recorded-IsAlike end response (forgotten s) no_circuits (forgotten-IsAlike s)),
          subst (λ (r : Outcome A × Circuits). IsAlike other r.1 s) (sym reset)
              (recorded-IsAlike_others end response s other apart),
          lets_through again later (call settings name begin end (returned a) s).1 (
              ap (λ (r : Outcome A × Circuits). r.1.opened_at name) (resets (returned a))
              ∙ won.opened_at
              ∙ success_closes end h k),
        )
