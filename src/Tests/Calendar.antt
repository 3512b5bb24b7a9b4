-- ===== src/Tests/Calendar.antt =====
-- Runs of app/domain/calendar.py on a week with a holiday.
use payzeno_ledger.Prelude.{ℕ, ◌+◌, ◌≤◌, ◌≡◌, refl, ◌⊎◌, false, some, [], ◌∷◌, find}
use payzeno_ledger.Prelude.Int.{pos}
use payzeno_ledger.Errors.{ok, err, validation, no_business_day}
use payzeno_ledger.Calendar.{
  BankingCalendar, make_calendar, known_day, is_business_day, search_open, next_business_day,
  advance, add_business_days, business_days_between,
}
use payzeno_ledger.Calendar.Search.{
  AreClosed, IsNext, IsOpen, next_business_day-IsNext, next_business_day_default,
}
use payzeno_ledger.Calendar.Counting.{add_business_days-business_days_between}

-- Monday 1 January 2024 is closed for SEPA; its ordinal is 738886.
abbrev new_year : BankingCalendar
new_year =
    make_calendar
      (record {
        currency = "EUR";
        rail = "sepa";
        calendar_date = 738_886;
        is_open = false;
        holiday_name = some "New Year's Day";
      }
        ∷ [])
      []

-- Saturday 30 December 2023 leads to Tuesday 2 January 2024.
next_run : next_business_day new_year "EUR" "sepa" 738_884 ≡ ok 738_887
unfolding next_business_day search_open is_business_day known_day find
next_run = refl

-- Three business days on is Friday 5 January 2024.
three_on : add_business_days new_year "EUR" "sepa" 738_884 (pos 3) ≡ ok 738_890
unfolding add_business_days advance next_business_day search_open is_business_day known_day find
three_on = refl

next_business_day-IsNext_example :
    ((next : ℕ) × (next_business_day new_year "EUR" "sepa" 738_884 ≡ ok next)
      × IsNext new_year "EUR" "sepa" 738_884 next)
    ⊎ ((next_business_day new_year "EUR" "sepa" 738_884 ≡ err (validation no_business_day))
        × AreClosed new_year "EUR" "sepa" 738_884 31)
next_business_day-IsNext_example = next_business_day-IsNext new_year "EUR" "sepa" 738_884

next_business_day_default_example :
    (wait : ℕ) × (wait ≤ 2)
    × (next_business_day (make_calendar [] []) "USD" "standard_ach" 738_884 ≡ ok (738_884 + wait))
next_business_day_default_example = next_business_day_default "USD" "standard_ach" 738_884

add_business_days-business_days_between_example :
    IsOpen new_year "EUR" "sepa" 738_890
    × (business_days_between new_year "EUR" "sepa" 738_884 738_890 ≡ ok 3)
add_business_days-business_days_between_example =
    add_business_days-business_days_between new_year "EUR" "sepa" 738_884 3 738_890 three_on
