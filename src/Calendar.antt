-- ===== src/Calendar.antt =====
-- app/domain/calendar.py: which days a rail settles a currency on. A date is its proleptic ordinal
-- (`date.toordinal`), and the end of the calendar in the year 9999 is not modelled; a time of day is
-- in minutes.
pub mod Search
pub mod Counting
use payzeno_ledger.Prelude.{
  ℕ, zero, suc, ◌+◌, ◌-◌, ◌%◌, String, Bool, true, false, not, ◌&&◌, ◌||◌, Option, some, none, List,
  [], ◌∷◌, ◌++◌, find, ltb, ◌==◌, str_eq, if◌then◌else◌,
}
use payzeno_ledger.Prelude.Int.{ℤ, pos, negsuc}
use payzeno_ledger.Errors.{
  Result, ok, err, ◌>>=◌, validation, no_business_day, count_negative, unknown_rail,
  end_precedes_start,
}

pub record BankingCalendarDayView : Type 0 where
  pub currency : String
  pub rail : String
  pub calendar_date : ℕ
  pub is_open : Bool
  pub holiday_name : Option String

-- `_days`, the row that was stored last first, and `_cutoffs`, the overrides before the defaults.
pub record BankingCalendar : Type 0 where
  pub days : List BankingCalendarDayView
  pub cutoffs : List (String × ℕ)

abbrev pub default_cutoffs : List (String × ℕ)
default_cutoffs =
    ("standard_ach", 1260)
    ∷ ("same_day_ach", 945)
    ∷ ("sepa", 900)
    ∷ ("faster_payments", 1050)
    ∷ ("debit_ach", 1260)
    ∷ []

abbrev pub stored :
    List BankingCalendarDayView → List BankingCalendarDayView → List BankingCalendarDayView
stored dict [] = dict
stored dict (day ∷ days) = stored (day ∷ dict) days

-- `__init__`
abbrev pub make_calendar : List BankingCalendarDayView → List (String × ℕ) → BankingCalendar
make_calendar days cutoffs = record { days = stored [] days; cutoffs = cutoffs ++ default_cutoffs }

-- `day.weekday()`: Monday is 0, and 1 January of the year 1, of ordinal 1, was one.
abbrev pub weekday : ℕ → ℕ
weekday day = (day + 6) % 7

abbrev pub is_weekend : ℕ → Bool
is_weekend day = weekday day == 5 || weekday day == 6

abbrev pub max_lookahead_days : ℕ
max_lookahead_days = 30

module _ (cal : BankingCalendar) (currency rail : String) where
  -- `self._days.get((currency, rail, day))`
  unfoldable pub known_day : ℕ → Option BankingCalendarDayView
  known_day day =
      find
        (λ (v : BankingCalendarDayView).
          str_eq v.currency currency && (str_eq v.rail rail && v.calendar_date == day))
        cal.days

  unfoldable pub is_business_day : ℕ → Bool
  unfolding known_day
  is_business_day day = elim (known_day day) [
    | some known ↦ known.is_open
    | none ↦ not (is_weekend day)
  ]

  unfoldable pub holiday_name_on : ℕ → Option String
  holiday_name_on day = elim (known_day day) [ some known ↦ known.holiday_name | none ↦ none ]

  -- The loop of `next_business_day`, with so many rounds left.
  unfoldable pub search_open : ℕ → ℕ → Result ℕ
  search_open zero candidate = err (validation no_business_day)
  search_open (suc rounds) candidate =
      let rest = search_open rounds (candidate + 1) in
      if is_business_day candidate then ok candidate else rest

  unfoldable pub next_business_day : ℕ → Result ℕ
  next_business_day day = search_open (max_lookahead_days + 1) day

  -- The loop of `add_business_days`
  unfoldable pub advance : ℕ → ℕ → Result ℕ
  advance zero cursor = ok cursor
  advance (suc count) cursor = do cursor' ← next_business_day (cursor + 1); advance count cursor'

  unfoldable pub add_business_days : ℕ → ℤ → Result ℕ
  add_business_days day (negsuc n) = err (validation count_negative)
  add_business_days day (pos count) = do cursor ← next_business_day day; advance count cursor

  -- The loop of `business_days_between` over so many days
  unfoldable pub count_open : ℕ → ℕ → ℕ
  count_open zero cursor = 0
  count_open (suc days) cursor =
      (if is_business_day cursor then 1 else 0) + count_open days (cursor + 1)

  unfoldable pub business_days_between : ℕ → ℕ → Result ℕ
  business_days_between start end =
      if ltb end start
      then err (validation end_precedes_start)
      else ok (count_open (end - start) start)

unfoldable pub cutoff_utc : BankingCalendar → String → Result ℕ
cutoff_utc cal rail = elim (find (λ (c : String × ℕ). str_eq c.0 rail) cal.cutoffs) [
  | some cutoff ↦ ok cutoff.1
  | none ↦ err (validation unknown_rail)
]
