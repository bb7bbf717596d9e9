-- ===== src/Rewards/Periods.antt =====
-- The calendar period that an award counts towards, src/modules/rewards/period-key.util.ts. The date in
-- a time zone is an argument; a day is its number from the first day of the year 0.
pub mod Weeks
use wh_api_unified_service.Prelude.{
  ◌%◌, ◌&&◌, ◌*◌, ◌+◌, ◌-◌, ◌/◌, ◌<>◌, ◌==◌, Bool, Option, String, decimal, if◌then◌else◌, leb, ltb,
  none, not, some, suc, zero, ◌||◌, ℕ,
}
use wh_api_unified_service.Rewards.{
  RewardCapScope, per_day, per_lifetime, per_month, per_week, per_year, uncapped,
}

pub record LocalYmd : Type 0 where
  pub year : ℕ
  pub month : ℕ
  pub day : ℕ

-- The days before the first of January of a year.
unfoldable pub days_before_year : ℕ → ℕ
days_before_year y = 365 * y + (y + 3) / 4 + (y + 399) / 400 - (y + 99) / 100

unfoldable pub is_leap : ℕ → Bool
is_leap y = (y % 4 == 0) && (not (y % 100 == 0) || y % 400 == 0)

unfoldable pub days_before_month : Bool → ℕ → ℕ
days_before_month leap m =
    let extra : ℕ = if leap && ltb 2 m then 1 else 0 in
    extra
    + (if m == 1
        then 0
        else if m == 2
        then 31
        else if m == 3
        then 59
        else if m == 4
        then 90
        else if m == 5
        then 120
        else if m == 6
        then 151
        else if m == 7
        then 181
        else if m == 8
        then 212
        else if m == 9
        then 243
        else if m == 10
        then 273
        else if m == 11
        then 304
        else 334)

-- `Date.UTC(year, month - 1, day)`
unfoldable pub day_number : ℕ → ℕ → ℕ → ℕ
day_number y m d = days_before_year y + days_before_month (is_leap y) m + d - 1

-- `getUTCDay() || 7`: Monday 1, Sunday 7.
unfoldable pub day_of_week : ℕ → ℕ
day_of_week n = let d = (n + 6) % 7 in if d == 0 then 7 else d

-- Moved to the Thursday of its week.
unfoldable pub to_thursday : ℕ → ℕ
to_thursday n = n + 4 - day_of_week n

-- The last year up to `y` that has begun by a day.
unfoldable pub year_down : ℕ → ℕ → ℕ
year_down zero n = 0
year_down (suc y) n =
    let earlier = year_down y n in if leb (days_before_year (suc y)) n then suc y else earlier

-- `getUTCFullYear()`
unfoldable pub year_of : ℕ → ℕ
year_of n = year_down (n / 365) n

-- The first week's Thursday.
unfoldable pub first_thursday : ℕ → ℕ
first_thursday y = to_thursday (day_number y 1 4)

-- The week's year and its number, as `isoWeekKey` counts them.
unfoldable pub iso_week : ℕ → ℕ × ℕ
iso_week n =
    let thursday = to_thursday n in
    let week_year = year_of thursday in
    (week_year, 1 + (2 * (thursday - first_thursday week_year) + 7) / 14)

-- `padStart(2, '0')`
unfoldable pub pad : ℕ → String
pad n = if ltb n 10 then "0" <> decimal n else decimal n

unfoldable pub iso_week_key : ℕ → ℕ → ℕ → String
iso_week_key y m d =
    let (week_year, week) = iso_week (day_number y m d) in decimal week_year <> "-W" <> pad week

unfoldable pub derive_period_key : LocalYmd → RewardCapScope → Option String
derive_period_key at uncapped = none
derive_period_key at per_lifetime = some "LIFETIME"
derive_period_key at per_day = some (decimal at.year <> "-" <> pad at.month <> "-" <> pad at.day)
derive_period_key at per_week = some (iso_week_key at.year at.month at.day)
derive_period_key at per_month = some (decimal at.year <> "-" <> pad at.month)
derive_period_key at per_year = some (decimal at.year)
