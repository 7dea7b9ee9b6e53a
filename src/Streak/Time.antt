-- ===== src/Streak/Time.antt =====
-- packages/uc08/uc08/domain/time_utils.py over Python's `datetime`.
-- A moment is a timezone-aware datetime as its instant: the microseconds since 0001-01-01T00:00Z,
-- which is how `datetime` orders and subtracts aware values. `ensure_utc` keeps the instant, and the
-- records refuse a naive value before any function here is reached.
-- The calendar is the proleptic Gregorian one of `datetime`, in the year that begins on 1 March.
use ai_coaching_agent.Common.{
  ℕ, ◌+◌, ◌-◌, ◌*◌, ◌/◌, ◌%◌, ◌≤◌, ◌<◌, ◌≡◌, refl, Bool, true, ◌&&◌, arith, ltb, leb, ◌==◌,
  if◌then◌else◌,
}

abbrev pub Moment : Type 0
Moment = ℕ

abbrev pub hour : ℕ
hour = 3600000000

abbrev pub day : ℕ
day = 86400000000

-- `timedelta(hours=n)`
abbrev pub hours : ℕ → ℕ
hours n = n * hour

-- `utc_day`, as the number of whole days since 0001-01-01.
abbrev pub utc_day : Moment → ℕ
utc_day value = value / day

abbrev pub same_utc_day : Moment → Moment → Bool
same_utc_day left right = utc_day left == utc_day right

-- The year that starts on 1 March, and the day in it, of a day number.
abbrev era_day : ℕ → ℕ
era_day d = (d + 306) % 146097

abbrev era_year : ℕ → ℕ
era_year d = (era_day d - era_day d / 1460 + era_day d / 36524 - era_day d / 146096) / 365

march_day : ℕ → ℕ
march_day d = era_day d - (365 * era_year d + era_year d / 4 - era_year d / 100)

march_month : ℕ → ℕ
unfolding march_day
march_month d = (5 * march_day d + 2) / 153

month : ℕ → ℕ
unfolding march_month
month d = if ltb (march_month d) 10 then march_month d + 3 else march_month d - 9

year : ℕ → ℕ
unfolding month
year d = era_year d + (d + 306) / 146097 * 400 + (if leb (month d) 2 then 1 else 0)

-- `utc_month_key`: the text YYYY-MM as its two numbers.
pub utc_month_key : Moment → ℕ × ℕ
unfolding year
utc_month_key value = (year (utc_day value), month (utc_day value))

pub same_utc_month : Moment → Moment → Bool
same_utc_month left right =
    let (y, m) = utc_month_key left in let (y', m') = utc_month_key right in y == y' && m == m'

pub same_utc_month_refl : (m : Moment) → same_utc_month m m ≡ true
unfolding same_utc_month
same_utc_month_refl m = ground arith

-- Day 0 is a Monday, which `isoweekday` counts as 1.
abbrev pub isoweekday : Moment → ℕ
isoweekday value = utc_day value % 7 + 1

abbrev pub start_of_utc_day : Moment → Moment
start_of_utc_day value = utc_day value * day

abbrev pub start_of_iso_week : Moment → Moment
start_of_iso_week value = start_of_utc_day value - (isoweekday value - 1) * day

abbrev pub previous_iso_week_bounds : Moment → Moment × Moment
previous_iso_week_bounds value = (start_of_iso_week value - 7 * day, start_of_iso_week value)

-- The ISO year is the calendar year of the week's Thursday.
abbrev thursday : Moment → ℕ
thursday value = utc_day value - utc_day value % 7 + 3

-- Days of the year before this one: from 1 January.
year_day : ℕ → ℕ
unfolding year march_day
year_day d = d - (365 * (year d - 1) + (year d - 1) / 4 - (year d - 1) / 100 + (year d - 1) / 400)

-- `iso_week_key`: the text GGGG-Www as its two numbers.
pub iso_week_key : Moment → ℕ × ℕ
unfolding year_day
iso_week_key value = (year (thursday value), year_day (thursday value) / 7 + 1)

-- The week's start is a Monday at midnight, at most six days back.
pub start_of_iso_week_bounds :
    (m : Moment)
    → (start_of_iso_week m ≤ m)
      × (m < start_of_iso_week m + 7 * day)
      × (start_of_iso_week m % (7 * day) ≡ 0)
start_of_iso_week_bounds m = omega arith

-- 2024-02-29 is day 738944, a Thursday in the week 2024-W09; 2024-12-30 is in 2025-W01.
leap_day : utc_month_key (738944 * day) ≡ (2024, 2)
unfolding utc_month_key
leap_day = refl

leap_day_week : iso_week_key (738944 * day) ≡ (2024, 9)
unfolding iso_week_key
leap_day_week = refl

year_end_week : iso_week_key (739249 * day) ≡ (2025, 1)
unfolding iso_week_key
year_end_week = refl

first_day : utc_month_key 0 ≡ (1, 1)
unfolding utc_month_key
first_day = refl
