-- ===== src/Time/Era.antt =====
-- Dates and day numbers of obsj/src/obs.rs within one 400-year era, where all is arithmetic of ℕ.
use native.Mathlib.Omega.{arith}
use convobs_rs.Base.{
  ℕ, ◌+◌, ◌-◌, ◌*◌, ◌/◌, ◌%◌, ◌≤◌, ◌<◌, ◌≡◌, refl, ◌∙◌, Bool, not, ◌&&◌, ◌||◌, nat_beq,
  if◌then◌else◌,
}
use convobs_rs.Base.Int.{ℤ, pos, negsuc, pos_part, neg_part, ◌+ℤ◌, ◌-ℤ◌, ◌*ℤ◌, int_laws}
use convobs_rs.Base.Word.{ediv, emod}
use convobs_rs.Time.{civil_of_era, civil_from_days, days_of_era, days_from_civil}
use convobs_rs.Time.Days.{
  IsSmall, yoe_of, year_start, month_of, month_start, early, day_of_era, civil_of_era_lem,
  civil_from_days_lem, days_of_era_lem, days_from_civil_lem,
}
use convobs_rs.Time.Calendar.{is_leap, days_in_month, IsDate, IsNear, IsNearDay}

-- An era has 400 years: what division finds.
ediv_era : (era : ℤ) (k : ℕ) → k ≤ 399 → ediv (era *ℤ 400 +ℤ pos k) 400 ≡ era
unfolding ediv ◌+ℤ◌ ◌*ℤ◌
ediv_era (pos n) k h = ground arith
ediv_era (negsuc n) k h = ground arith

emod_era : (era : ℤ) (k : ℕ) → k ≤ 399 → emod (era *ℤ 400 +ℤ pos k) 400 ≡ k
unfolding emod ◌+ℤ◌ ◌*ℤ◌
emod_era (pos n) k h = ground arith
emod_era (negsuc n) k h = ground arith

ediv_days : (era : ℤ) (x : ℕ) → x < 146097 → ediv (era *ℤ 146097 +ℤ pos x) 146097 ≡ era
unfolding ediv ◌+ℤ◌ ◌*ℤ◌
ediv_days (pos n) x h = ground arith
ediv_days (negsuc n) x h = ground arith

emod_days : (era : ℤ) (x : ℕ) → x < 146097 → emod (era *ℤ 146097 +ℤ pos x) 146097 ≡ x
unfolding emod ◌+ℤ◌ ◌*ℤ◌
emod_days (pos n) x h = ground arith
emod_days (negsuc n) x h = ground arith

abbrev pub leap_in_era : ℕ → Bool
leap_in_era k = (nat_beq (k % 4) 0 && not (nat_beq (k % 100) 0)) || nat_beq (k % 400) 0

is_leap-era : (era : ℤ) (k : ℕ) → k ≤ 400 → is_leap (era *ℤ 400 +ℤ pos k) ≡ leap_in_era k
unfolding is_leap ◌+ℤ◌ ◌*ℤ◌
is_leap-era (pos n) k h = ground arith
is_leap-era (negsuc n) k h = ground arith

abbrev pub era_month : ℕ → ℕ → ℕ
era_month k m =
    if nat_beq m 2
    then (if leap_in_era k then 29 else 28)
    else if nat_beq m 4 || nat_beq m 6 || nat_beq m 9 || nat_beq m 11
    then 30
    else 31

-- The day of the year of a date is below the number of days in the March year.
day_in_year :
    (k m d : ℕ)
    → k ≤ 399
    → (1 ≤ m) × (m ≤ 12) × (1 ≤ d) × (d ≤ era_month (k + early m) m)
    → month_start m + (d - 1) < 365 + (if leap_in_era (k + 1) then 1 else 0)
day_in_year k m d h v = ground arith

yoe_of-year_start :
    (k y : ℕ)
    → k ≤ 399
    → y < 365 + (if leap_in_era (k + 1) then 1 else 0)
    → (yoe_of (year_start k + y) ≡ k) × (year_start k + y < 146097)
yoe_of-year_start k y h lt = ground arith

month_of-month_start :
    (k m d : ℕ)
    → k ≤ 399
    → (1 ≤ m) × (m ≤ 12) × (1 ≤ d) × (d ≤ era_month (k + early m) m)
    → let p = (5 * (month_start m + (d - 1)) + 2) / 153 in
      (month_of p ≡ m) × ((153 * p + 2) / 5 ≡ month_start m)
month_of-month_start k m d h v = ground arith

year_of_day :
    (x : ℕ)
    → x < 146097
    → (yoe_of x ≤ 399)
      × (year_start (yoe_of x) ≤ x)
      × (x - year_start (yoe_of x) < 365 + (if leap_in_era (yoe_of x + 1) then 1 else 0))
year_of_day x h = ground arith

date_of_day :
    (k y : ℕ)
    → k ≤ 399
    → y < 365 + (if leap_in_era (k + 1) then 1 else 0)
    → let p = (5 * y + 2) / 153 in
      let m = month_of p in
      let d = y - (153 * p + 2) / 5 + 1 in
      (1 ≤ m) × (m ≤ 12) × (1 ≤ d) × (d ≤ era_month (k + early m) m) × (month_start m + (d - 1) ≡ y)
date_of_day k y h lt = ground arith

pub days_in_month-era :
    (era : ℤ) (k m : ℕ) → k ≤ 400 → days_in_month (era *ℤ 400 +ℤ pos k) m ≡ era_month k m
unfolding days_in_month
days_in_month-era era k m h = rw (is_leap-era era k h)

abbrev pub IsEra : ℤ → Type 0
IsEra era = (pos_part era < 60000000) × (neg_part era < 60000000)

pub days_in_month_le : (y : ℤ) (m : ℕ) → days_in_month y m ≤ 31
unfolding days_in_month
days_in_month_le y m = ground arith

near_days : (era : ℤ) (x : ℕ) → IsEra era → x < 146097 → IsSmall (era *ℤ 146097 +ℤ pos x)
unfolding ◌+ℤ◌ ◌*ℤ◌
near_days (pos n) x small h = ground arith
near_days (negsuc n) x small h = ground arith

near_years : (era : ℤ) (k : ℕ) → IsEra era → k ≤ 399 → IsSmall (era *ℤ 400 +ℤ pos k)
unfolding ◌+ℤ◌ ◌*ℤ◌
near_years (pos n) x small h = ground arith
near_years (negsuc n) x small h = ground arith

-- The date of day `y` of year `k` of an era, and of the date's own day.
civil-year_start :
    (era : ℤ) (k y : ℕ)
    → IsEra era
    → k ≤ 399
    → y < 365 + (if leap_in_era (k + 1) then 1 else 0)
    → let p = (5 * y + 2) / 153 in
      civil_of_era era (pos (year_start k + y))
      ≡ (era *ℤ 400 +ℤ pos (k + early (month_of p)), month_of p, y - (153 * p + 2) / 5 + 1)
civil-year_start era k y small h lt =
    let found = yoe_of-year_start k y h lt in
    let rest : year_start k + y - year_start k ≡ y = omega arith in
    civil_of_era_lem era (year_start k + y) found.1 (omega arith) ∙ rw (found.0, rest) refl

civil-day_of_era :
    (era : ℤ) (k m d : ℕ)
    → IsEra era
    → k ≤ 399
    → IsDate (era *ℤ 400 +ℤ pos (k + early m)) m d
    → civil_of_era era (pos (day_of_era k m d)) ≡ (era *ℤ 400 +ℤ pos (k + early m), m, d)
civil-day_of_era era k m d small h v =
    let y = month_start m + (d - 1) in
    let v' = rw (days_in_month-era era (k + early m) m (ground arith)) at v in
    let (month_is, start_is) = month_of-month_start k m d h v' in
    let day_is : y - month_start m + 1 ≡ d = omega arith in
    let regroup : day_of_era k m d ≡ year_start k + y = omega arith in
    rw regroup (
      civil-year_start era k y small h (day_in_year k m d h v')
      ∙ rw (month_is, start_is, day_is) refl)

pub civil-days_of_era :
    (era : ℤ) (k m d : ℕ)
    → IsEra era
    → k ≤ 399
    → IsDate (era *ℤ 400 +ℤ pos (k + early m)) m d
    → civil_from_days (days_of_era era (pos k) m d) ≡ (era *ℤ 400 +ℤ pos (k + early m), m, d)
civil-days_of_era era k m d small h v =
    let x = day_of_era k m d in
    let days = era *ℤ 146097 +ℤ pos x -ℤ pos 719468 in
    let z : days +ℤ pos 719468 ≡ era *ℤ 146097 +ℤ pos x = omega int_laws in
    let short = days_in_month_le (era *ℤ 400 +ℤ pos (k + early m)) m in
    let v' = rw (days_in_month-era era (k + early m) m (ground arith)) at v in
    let below = yoe_of-year_start k (month_start m + (d - 1)) h (day_in_year k m d h v') in
    rw (days_of_era_lem era k m d h v.1 v.2 (omega arith) (omega arith)) (
      civil_from_days_lem days (rw z (near_days era x small (omega arith)))
      ∙ rw (z, ediv_days era x (omega arith), emod_days era x (omega arith))
          (civil-day_of_era era k m d small h v))

pub days_from_civil-era :
    (era : ℤ) (k m d : ℕ)
    → IsEra era
    → k ≤ 399
    → days_from_civil (era *ℤ 400 +ℤ pos (k + early m)) m d ≡ days_of_era era (pos k) m d
days_from_civil-era era k m d small h =
    let back : era *ℤ 400 +ℤ pos (k + early m) -ℤ pos (early m) ≡ era *ℤ 400 +ℤ pos k =
      omega int_laws in
    days_from_civil_lem (era *ℤ 400 +ℤ pos (k + early m)) m d (rw back (near_years era k small h))
    ∙ rw (back, ediv_era era k h, emod_era era k h) refl

pub days-civil_of_era :
    (era : ℤ) (x : ℕ)
    → IsEra era
    → x < 146097
    → let t = civil_of_era era (pos x) in
      IsDate t.0 t.1 t.2 × (days_from_civil t.0 t.1 t.2 ≡ era *ℤ 146097 +ℤ pos x -ℤ pos 719468)
days-civil_of_era era x small h =
    let k = yoe_of x in
    let y = x - year_start k in
    let (last, first, long) = year_of_day x h in
    let date = date_of_day k y last long in
    let m = month_of ((5 * y + 2) / 153) in
    let d = y - (153 * ((5 * y + 2) / 153) + 2) / 5 + 1 in
    let year = k + early m in
    let back : day_of_era k m d ≡ x = omega arith in
    rw (civil_of_era_lem era x h (omega arith)) (
      (date.0, date.1, date.2, rw (days_in_month-era era year m (ground arith)) date.3),
      days_from_civil-era era k m d small last
          ∙ days_of_era_lem era k m d last date.1 date.2 (omega arith) (omega arith)
          ∙ rw back refl,
    )

-- The era of a year and of a day number.
pub split_year :
    (y : ℤ) (i : ℕ)
    → i ≤ 1
    → IsNear y
    → let era = ediv (y -ℤ pos i) 400 in
      let k = emod (y -ℤ pos i) 400 in
      (pos_part era < 30000000)
      × (neg_part era < 30000000)
      × (k ≤ 399)
      × (era *ℤ 400 +ℤ pos (k + i) ≡ y)
unfolding ediv emod ◌+ℤ◌ ◌-ℤ◌ ◌*ℤ◌
split_year (pos n) i h near = ground arith
split_year (negsuc n) i h near = ground arith

pub split_day :
    (z : ℤ)
    → IsNearDay z
    → let era = ediv (z +ℤ pos 719468) 146097 in
      let x = emod (z +ℤ pos 719468) 146097 in
      IsEra era × (x < 146097) × (era *ℤ 146097 +ℤ pos x -ℤ pos 719468 ≡ z)
unfolding ediv emod ◌+ℤ◌ ◌-ℤ◌ ◌*ℤ◌
split_day (pos n) near = ground arith
split_day (negsuc n) near = ground arith

pub near_sum :
    (era : ℤ) (x : ℕ)
    → (pos_part era < 30000000) × (neg_part era < 30000000)
    → x < 0x200000000
    → IsNearDay (era *ℤ 146097 +ℤ pos x -ℤ pos 719468)
unfolding ◌+ℤ◌ ◌-ℤ◌ ◌*ℤ◌
near_sum (pos n) x small h = ground arith
near_sum (negsuc n) x small h = ground arith

pub near_day : (z : ℤ) → IsNearDay z → IsSmall (z +ℤ pos 719468)
unfolding ◌+ℤ◌
near_day (pos n) near = ground arith
near_day (negsuc n) near = ground arith
