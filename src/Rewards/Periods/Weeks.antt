-- ===== src/Rewards/Periods/Weeks.antt =====
-- A week has one key, src/modules/rewards/period-key.util.ts.
use wh_api_unified_service.Prelude.{◌%◌, ◌*◌, ◌+◌, ◌-◌, ◌/◌, ap, arith, suc, zero, ℕ, ◌↔◌, ◌≡◌, ◌≤◌}
use wh_api_unified_service.Rewards.Periods.{
  day_number, day_of_week, days_before_month, days_before_year, first_thursday, iso_week,
  to_thursday, year_down, year_of,
}

year_down-le : (y n : ℕ) → days_before_year (year_down y n) ≤ n
unfolding year_down days_before_year
year_down-le zero n = omega arith
year_down-le (suc y) n = ground (arith, year_down-le y n)

thursday_mod : (n : ℕ) → 3 ≤ n → to_thursday n % 7 ≡ 5
unfolding to_thursday day_of_week
thursday_mod n h = ground arith

thursday_week : (n : ℕ) → 3 ≤ n → (to_thursday n + 5) / 7 ≡ (n + 5) / 7
unfolding to_thursday day_of_week
thursday_week n h = ground arith

first_thursday_bounds :
    (y : ℕ)
    → (days_before_year y ≤ first_thursday y)
      × (first_thursday y ≤ days_before_year y + 6)
      × (first_thursday y % 7 ≡ 5)
unfolding first_thursday to_thursday day_of_week day_number days_before_month
first_thursday_bounds y = ground arith

year_of-le : (n : ℕ) → days_before_year (year_of n) ≤ n
unfolding year_of
year_of-le n = year_down-le (n / 365) n

-- The Thursday is the first one of its year, so many weeks later.
thursday_from_key :
    (n : ℕ) → 3 ≤ n → to_thursday n + 7 ≡ first_thursday (iso_week n).0 + 7 * (iso_week n).1
unfolding iso_week
thursday_from_key n h =
    let t = to_thursday n in
    let (le, near, rest) = first_thursday_bounds (year_of t) in
    omega (arith, year_of-le t, thursday_mod n h)

week_of_thursday : (n m : ℕ) → to_thursday n ≡ to_thursday m → iso_week n ≡ iso_week m
unfolding iso_week
week_of_thursday n m e =
    ap (λ t. (year_of t, 1 + (2 * (t - first_thursday (year_of t)) + 7) / 14)) e

-- Two days have the same ISO year and week exactly when they lie in the same week from Monday to
-- Sunday, over the turn of a year too. (Day 2 is the first Monday of the count.)
pub iso_week_iff :
    (n m : ℕ) → 3 ≤ n → 3 ≤ m → (iso_week n ≡ iso_week m) ↔ ((n + 5) / 7 ≡ (m + 5) / 7)
iso_week_iff n m hn hm = (
  λ same.
      let year : (iso_week n).0 ≡ (iso_week m).0 = ap (λ w. w.0) same in
      let week : (iso_week n).1 ≡ (iso_week m).1 = ap (λ w. w.1) same in
      let first = ap first_thursday year in
      omega (
        arith,
        thursday_from_key n hn,
        thursday_from_key m hm,
        thursday_week n hn,
        thursday_week m hm,
      ),
  λ same.
      let thursday : to_thursday n ≡ to_thursday m =
        omega
          (arith, thursday_mod n hn, thursday_mod m hm, thursday_week n hn, thursday_week m hm) in
      week_of_thursday n m thursday,
)
