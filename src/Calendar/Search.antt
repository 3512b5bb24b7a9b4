-- ===== src/Calendar/Search.antt =====
-- `BankingCalendar.next_business_day` of app/domain/calendar.py.
use payzeno_ledger.Prelude.{
  ℕ, zero, suc, ◌+◌, ◌≤◌, ◌<◌, ◌≡◌, refl, ap, subst, not, ◌⊎◌, inl, inr, String, Bool, true, false,
  [], find, arith, if◌then◌else◌,
}
use payzeno_ledger.Errors.{Result, ok, err, validation, no_business_day}
use payzeno_ledger.Calendar.{
  BankingCalendar, make_calendar, is_weekend, max_lookahead_days, known_day, is_business_day,
  search_open, next_business_day,
}

module _ (cal : BankingCalendar) (currency rail : String) where
  abbrev pub IsOpen : ℕ → Type 0
  IsOpen day = is_business_day cal currency rail day ≡ true

  abbrev pub IsClosed : ℕ → Type 0
  IsClosed day = is_business_day cal currency rail day ≡ false

  -- All of so many days are closed.
  unfoldable pub AreClosed : ℕ → ℕ → Type 0
  AreClosed day zero = Unit
  AreClosed day (suc n) = IsClosed day × AreClosed (day + 1) n

  -- The first business day on or after `day`, so many days later.
  pub record IsNext (day next : ℕ) : Type 0 where
    pub wait : ℕ
    pub in_window : wait ≤ max_lookahead_days
    pub reached : next ≡ day + wait
    pub open_ : IsOpen next
    pub closed : AreClosed day wait

  abbrev IsFound : ℕ → ℕ → Result ℕ → Type 0
  IsFound rounds day r =
      ((wait : ℕ) × (wait < rounds)
        × (r ≡ ok (day + wait))
        × IsOpen (day + wait)
        × AreClosed day wait)
      ⊎ ((r ≡ err (validation no_business_day)) × AreClosed day rounds)

  later :
      (rounds day : ℕ) (r : Result ℕ)
      → IsClosed day
      → IsFound rounds (day + 1) r
      → IsFound (suc rounds) day r
  unfolding AreClosed
  later rounds day r h (inl (wait, below, e, open_, closed)) =
      let shift : day + 1 + wait ≡ day + suc wait = omega arith in
      inl (suc wait, omega (arith, below), rw (← shift) e, rw (← shift) open_, (h, closed))
  later rounds day r h (inr (e, closed)) = inr (e, (h, closed))

  choose :
      (rounds day : ℕ) (r : Result ℕ) (t : Bool)
      → is_business_day cal currency rail day ≡ t
      → IsFound rounds (day + 1) r
      → IsFound (suc rounds) day (if t then ok day else r)
  unfolding AreClosed
  choose rounds day r true open_ found =
      let here : day ≡ day + 0 = omega arith in
      inl (0, omega arith, ap ok here, subst IsOpen here open_, tt)
  choose rounds day r false closed found = later rounds day r closed found

  search_open-IsFound :
      (rounds day : ℕ) → IsFound rounds day (search_open cal currency rail rounds day)
  unfolding search_open AreClosed
  search_open-IsFound zero day = inr (refl, tt)
  search_open-IsFound (suc rounds) day =
      choose rounds day _ (is_business_day cal currency rail day) refl
        (search_open-IsFound rounds (day + 1))

  -- The next business day is the first one on or after the day, at most thirty days later; it is
  -- refused just when all of these thirty-one days are closed.
  pub next_business_day-IsNext :
      (day : ℕ)
      → ((next : ℕ) × (next_business_day cal currency rail day ≡ ok next) × IsNext day next)
        ⊎ ((next_business_day cal currency rail day ≡ err (validation no_business_day))
            × AreClosed day 31)
  unfolding next_business_day
  next_business_day-IsNext day = by_found (search_open-IsFound 31 day)
    where
      by_found :
          IsFound 31 day (search_open cal currency rail 31 day)
          → ((next : ℕ) × (search_open cal currency rail 31 day ≡ ok next) × IsNext day next)
            ⊎ ((search_open cal currency rail 31 day ≡ err (validation no_business_day))
                × AreClosed day 31)
      by_found (inl (wait, below, e, open_, closed)) = inl (
        day + wait,
        e,
        record {
          wait = wait;
          in_window = omega (arith, below);
          reached = refl;
          open_ = open_;
          closed = closed;
        },
      )
      by_found (inr refused) = inr refused

default_open :
    (currency rail : String) (day : ℕ)
    → is_business_day (make_calendar [] []) currency rail day ≡ not (is_weekend day)
unfolding is_business_day known_day find
default_open currency rail day = refl

first_of_three :
    (day : ℕ) (rest : Result ℕ) (t u v : Bool)
    → ¬ ((t ≡ true) × (u ≡ true) × (v ≡ true))
    → (wait : ℕ) × (wait ≤ 2)
      × ((if not t
            then ok day
            else if not u
            then ok (day + 1)
            else if not v
            then ok (day + 1 + 1)
            else rest)
          ≡ ok (day + wait))
first_of_three day rest false u v h =
    let e : day ≡ day + 0 = omega arith in (0, omega arith, ap ok e)
first_of_three day rest true false v h = (1, omega arith, refl)
first_of_three day rest true true false h =
    let e : day + 1 + 1 ≡ day + 2 = omega arith in (2, omega arith, ap ok e)
first_of_three day rest true true true h = absurd (h (refl, refl, refl))

no_long_weekend :
    (day : ℕ)
    → ¬ (
        (is_weekend day ≡ true) × (is_weekend (day + 1) ≡ true) × (is_weekend (day + 1 + 1) ≡ true))
no_long_weekend day h = ground arith

-- With no rows loaded the weekday rule decides, and a business day is at most two days away.
pub next_business_day_default :
    (currency rail : String) (day : ℕ)
    → (wait : ℕ) × (wait ≤ 2)
      × (next_business_day (make_calendar [] []) currency rail day ≡ ok (day + wait))
unfolding next_business_day search_open
next_business_day_default currency rail day =
    rw
      (
        default_open currency rail day,
        default_open currency rail (day + 1),
        default_open currency rail (day + 1 + 1),
      )
      (first_of_three day _ (is_weekend day) (is_weekend (day + 1)) (is_weekend (day + 1 + 1))
        (no_long_weekend day))
