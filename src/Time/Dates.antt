-- ===== src/Time/Dates.antt =====
-- `civil_from_days` and `days_from_civil` of obsj/src/obs.rs against the calendar, and
-- `Civil::is_valid`.
use native.Mathlib.Omega.{arith}
use mathlib.Core.Path.{subst}
use convobs_rs.Base.{ℕ, ◌≤◌, ◌<◌, ◌≡◌, ◌↔◌, ap, ◌∙◌, true}
use convobs_rs.Base.Int.{ℤ, pos, ◌+ℤ◌, ◌-ℤ◌, int_beq_iff}
use convobs_rs.Base.Word.{ediv, emod}
use convobs_rs.Time.{Civil, civil_from_days, days_from_civil, is_valid}
use convobs_rs.Time.Days.{early, day_of_era, civil_from_days_lem, days_of_era_lem, march_days}
use convobs_rs.Time.Calendar.{IsDate, IsNear, IsNearDay}
use convobs_rs.Time.Era.{
  days_from_civil-era, days-civil_of_era, civil-days_of_era, split_year, split_day, near_day,
  near_sum,
}

-- The code's counts of days and the calendar, for every date of the calendar.

-- Each date of the calendar comes back from its day number, for years less than 10 ^ 10 away from
-- year 0.
pub civil_from_days-days_from_civil :
    (y : ℤ) (m d : ℕ)
    → IsNear y
    → IsDate y m d
    → civil_from_days (days_from_civil y m d) ≡ (y, m, d)
civil_from_days-days_from_civil y m d near v =
    let y' = y -ℤ pos (early m) in
    let era = ediv y' 400 in
    let k = emod y' 400 in
    let (above, under, below, split) = split_year y (early m) (ground arith) near in
    subst (λ t. civil_from_days (days_from_civil t m d) ≡ (t, m, d)) split
      (rw (days_from_civil-era era k m d (omega arith) below)
        (civil-days_of_era era k m d (omega arith) below (rw split v)))

-- Each day number, less than 8 * 10 ^ 12 away from 1970, has a date of the calendar and comes
-- back from it.
pub days_from_civil-civil_from_days :
    (z : ℤ)
    → IsNearDay z
    → let t = civil_from_days z in IsDate t.0 t.1 t.2 × (days_from_civil t.0 t.1 t.2 ≡ z)
days_from_civil-civil_from_days z near =
    let z' = z +ℤ pos 719468 in
    let (small, below, split) = split_day z near in
    let (v, back) = days-civil_of_era (ediv z' 146097) (emod z' 146097) small below in
    rw (civil_from_days_lem z (near_day z near)) (v, back ∙ split)

-- The day number that `is_valid` computes from fields that are not checked yet.
near-days_from_civil :
    (y : ℤ) (m d : ℕ)
    → IsNear y
    → m ≤ 12
    → 1 ≤ d
    → d < 0x100000000
    → IsNearDay (days_from_civil y m d)
near-days_from_civil y m d near hm h1 hd =
    let y' = y -ℤ pos (early m) in
    let era = ediv y' 400 in
    let k = emod y' 400 in
    let (above, under, below, split) = split_year y (early m) (ground arith) near in
    subst (λ t. IsNearDay (days_from_civil t m d)) split
      (rw
        (
          days_from_civil-era era k m d (omega arith) below,
          days_of_era_lem era k m d below hm h1 hd (omega arith),
        )
        (near_sum era (day_of_era k m d) (above, under) (omega (arith, march_days m d hm h1 hd))))

-- What the tests of `is_valid` say.
is_valid_tests :
    (c : Civil)
    → let t = civil_from_days (days_from_civil c.year c.month c.day) in
      (is_valid c ≡ true) ↔ (
        (1 ≤ c.month)
        × (c.month ≤ 12)
        × (1 ≤ c.day)
        × (c.hour ≤ 23)
        × (c.minute ≤ 59)
        × (c.second ≤ 60)
        × (c.nanos < 1000000000)
        × (t.0 ≡ c.year)
        × (t.1 ≡ c.month)
        × (t.2 ≡ c.day))
unfolding is_valid
is_valid_tests c =
    let t = civil_from_days (days_from_civil c.year c.month c.day) in
    ground (arith, int_beq_iff t.0 c.year)

-- `is_valid` accepts exactly the dates of the calendar with a time of day, a leap second
-- included. (For years less than 10 ^ 10 away from year 0, and a day that is a `u32`.)
pub is_valid_iff :
    (c : Civil)
    → IsNear c.year
    → c.day < 0x100000000
    → (is_valid c ≡ true) ↔ (
        IsDate c.year c.month c.day
        × (c.hour ≤ 23)
        × (c.minute ≤ 59)
        × (c.second ≤ 60)
        × (c.nanos < 1000000000))
is_valid_iff c near hd = (
  λ ok.
      let h = (is_valid_tests c).0 ok in
      let days = days_from_civil c.year c.month c.day in
      let far = near-days_from_civil c.year c.month c.day near h.1 h.2 hd in
      let date = rw (h.7, h.8, h.9) at ((days_from_civil-civil_from_days days far).0) in
      (date, h.3, h.4, h.5, h.6),
  λ v.
      let back = civil_from_days-days_from_civil c.year c.month c.day near v.0 in
      (is_valid_tests c).1 (
        v.0.0,
        v.0.1,
        v.0.2,
        v.1,
        v.2,
        v.3,
        v.4,
        ap (λ t. t.0) back,
        ap (λ t. t.1) back,
        ap (λ t. t.2) back,
      ),
)
