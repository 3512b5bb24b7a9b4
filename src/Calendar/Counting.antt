-- ===== src/Calendar/Counting.antt =====
-- `add_business_days` of app/domain/calendar.py against `business_days_between`.
use payzeno_ledger.Prelude.{
  ℕ, zero, suc, ◌+◌, ◌-◌, ◌≡◌, refl, subst, ◌⊎◌, inl, inr, String, false, ltb, arith,
}
use payzeno_ledger.Prelude.Int.{pos}
use payzeno_ledger.Errors.{ok, err, >>=-eq-ok, validation, no_business_day}
use payzeno_ledger.Calendar.{
  BankingCalendar, next_business_day, advance, add_business_days, count_open, business_days_between,
}
use payzeno_ledger.Calendar.Search.{IsOpen, AreClosed, IsNext, next_business_day-IsNext}

module _ (cal : BankingCalendar) (currency rail : String) where
  count_append :
      (n m day : ℕ)
      → count_open cal currency rail (n + m) day
        ≡ count_open cal currency rail n day + count_open cal currency rail m (day + n)
  unfolding count_open
  count_append zero m day =
      let no_days : 0 + m ≡ m = omega arith in
      let same_day : day + 0 ≡ day = omega arith in rw (no_days, same_day) (omega arith)
  count_append (suc n) m day =
      let one_more : suc n + m ≡ suc (n + m) = omega arith in
      let one_on : day + suc n ≡ day + 1 + n = omega arith in
      rw (one_more, one_on, count_append n m (day + 1)) (omega arith)

  count_closed :
      (n day : ℕ) → AreClosed cal currency rail day n → count_open cal currency rail n day ≡ 0
  unfolding count_open AreClosed
  count_closed zero day h = refl
  count_closed (suc n) day h = rw (h.0, count_closed n (day + 1) h.1) refl

  -- From one open day to the next there is one business day.
  count_to_next :
      (cursor wait : ℕ)
      → IsOpen cal currency rail cursor
      → AreClosed cal currency rail (cursor + 1) wait
      → count_open cal currency rail (1 + wait) cursor ≡ 1
  unfolding count_open
  count_to_next cursor wait open_ closed =
      rw (count_append 1 wait cursor, open_, count_closed wait (cursor + 1) closed) refl

  IsNext-ok :
      (day next : ℕ)
      → next_business_day cal currency rail day ≡ ok next
      → IsNext cal currency rail day next
  IsNext-ok day next e = by_outcome (next_business_day-IsNext cal currency rail day)
    where
      by_outcome :
          ((found : ℕ) × (next_business_day cal currency rail day ≡ ok found)
              × IsNext cal currency rail day found)
            ⊎ ((next_business_day cal currency rail day ≡ err (validation no_business_day))
                × AreClosed cal currency rail day 31)
          → IsNext cal currency rail day next
      by_outcome (inl (found, e', is_next)) =
          let same : found ≡ next = cc in subst (IsNext cal currency rail day) same is_next
      by_outcome (inr (refused, _)) = cc

  -- So many business days on from an open day: the day reached is open, and there are as many
  -- business days from the one up to the other.
  abbrev IsAfter : ℕ → ℕ → ℕ → Type 0
  IsAfter count cursor reached =
      IsOpen cal currency rail reached
      × (days : ℕ) × (reached ≡ cursor + days)
      × (count_open cal currency rail days cursor ≡ count)

  further :
      (cursor wait days count next reached : ℕ)
      → next ≡ cursor + 1 + wait
      → IsOpen cal currency rail cursor
      → AreClosed cal currency rail (cursor + 1) wait
      → reached ≡ next + days
      → count_open cal currency rail days next ≡ count
      → (reached ≡ cursor + (1 + wait + days))
        × (count_open cal currency rail (1 + wait + days) cursor ≡ suc count)
  further cursor wait days count next reached e open_ closed e' counted = (
    omega (arith, e, e'),
    omega (
      arith,
      count_append (1 + wait) days cursor,
      count_to_next cursor wait open_ closed,
      subst (λ d. count_open cal currency rail days d ≡ count) there counted,
    ),
  )
    where
      there : next ≡ cursor + (1 + wait)
      there = omega (arith, e)

  advance-IsAfter :
      (count cursor reached : ℕ)
      → IsOpen cal currency rail cursor
      → advance cal currency rail count cursor ≡ ok reached
      → IsAfter count cursor reached
  unfolding advance count_open
  advance-IsAfter zero cursor reached open_ e =
      let same : cursor ≡ reached = cc in
      (subst (IsOpen cal currency rail) same open_, 0, omega (arith, same), refl)
  advance-IsAfter (suc count) cursor reached open_ e =
      let (next, found, rest) =
        >>=-eq-ok (next_business_day cal currency rail (cursor + 1))
          (advance cal currency rail count) e in
      let is_next = IsNext-ok (cursor + 1) next found in
      let (open_there, days, arrived, counted) =
        advance-IsAfter count next reached is_next.open_ rest in
      let (there, more) =
        further cursor is_next.wait days count next reached is_next.reached open_ is_next.closed
          arrived counted in
      (open_there, 1 + is_next.wait + days, there, more)

  between :
      (days start end count : ℕ)
      → end ≡ start + days
      → count_open cal currency rail days start ≡ count
      → business_days_between cal currency rail start end ≡ ok count
  unfolding business_days_between
  between days start end count e counted =
      let in_order : ltb end start ≡ false = ground (arith, e) in
      let length_ : end - start ≡ days = omega (arith, e) in rw (in_order, length_, counted) refl

  -- The day that is reached by adding business days is a business day, and as many business days
  -- lie between the first day and it.
  pub add_business_days-business_days_between :
      (day count reached : ℕ)
      → add_business_days cal currency rail day (pos count) ≡ ok reached
      → IsOpen cal currency rail reached
        × (business_days_between cal currency rail day reached ≡ ok count)
  unfolding add_business_days
  add_business_days-business_days_between day count reached e =
      let (first, found, rest) =
        >>=-eq-ok (next_business_day cal currency rail day) (advance cal currency rail count) e in
      let is_first = IsNext-ok day first found in
      let (open_there, days, arrived, counted) =
        advance-IsAfter count first reached is_first.open_ rest in
      let same : first ≡ day + is_first.wait = is_first.reached in
      (
        open_there,
        between (is_first.wait + days) day reached count (omega (arith, arrived, same)) (
            omega (
              arith,
              count_append is_first.wait days day,
              count_closed is_first.wait day is_first.closed,
              subst (λ d. count_open cal currency rail days d ≡ count) same counted,
            )),
      )
