-- ===== src/Time/Tests.antt =====
-- Tests of the models of obsj/src/obs.rs's times.
use convobs_rs.Base.{◌<◌, ◌≤◌, ◌≡◌, ◌↔◌, refl, arith, true}
use convobs_rs.Base.Int.{pos, negsuc, ◌+ℤ◌, ◌-ℤ◌, ◌*ℤ◌, tdiv, tmod}
use convobs_rs.Base.Word.{add_i64, sub_i64, mul_i64, wrap_i64, Is64, ediv, as_u32, emod, signed}
use convobs_rs.Time.{
  days_of_era, Civil, civil_from_days, days_from_civil, is_valid, civil, from_civil,
  from_gps_week_millis, gps_week_millis, from_gps_week_seconds, epoch_nanos, gps_nanos,
  civil_of_unix, civil_of_era, year_of_era, floor_div, div_mod, civil_month, march_month,
  day_of_month, day_of_year,
}
use convobs_rs.Time.Calendar.{IsDate, days_in_month, is_leap}
use convobs_rs.Time.Dates.{
  days_from_civil-civil_from_days, civil_from_days-days_from_civil, is_valid_iff,
}
use convobs_rs.Time.Label.{from_civil-civil}
use convobs_rs.Time.Overflow.{IsLabel, label_nanos, from_civil-exact_iff}
use convobs_rs.Time.Text.{display, label_text, parse_time}
use convobs_rs.Time.Reread.{parse_time-display}
use convobs_rs.Base.Texts.{ascii, digits_from, parse_signed, parse_unsigned}
use convobs_rs.Checked.{good, bad}
use convobs_rs.Time.Week.{gps_week_millis-from_gps_week_millis}
use convobs_rs.Samples.{int_floats}

abbrev leap_day : Civil
leap_day = record {
  year = pos 2024;
  month = 2;
  day = 29;
  hour = 23;
  minute = 59;
  second = 60;
  nanos = 500;
}

abbrev late_day : Civil
late_day = record {
  year = pos 2300;
  month = 1;
  day = 1;
  hour = 0;
  minute = 0;
  second = 0;
  nanos = 0;
}

epoch_nanos_test : epoch_nanos (pos 5) ≡ pos 500
unfolding epoch_nanos mul_i64 wrap_i64 ◌*ℤ◌
epoch_nanos_test = refl

gps_nanos_test : gps_nanos (record { secs = pos 315964801; nanos = 7 }) ≡ pos 1000000007
unfolding gps_nanos add_i64 mul_i64 sub_i64 wrap_i64 ◌*ℤ◌ ◌+ℤ◌ ◌-ℤ◌
gps_nanos_test = refl

seconds_test : from_gps_week_seconds int_floats (pos 1) (pos 0) ≡ pos 6048000000000
unfolding from_gps_week_seconds add_i64 wrap_i64 ◌+ℤ◌ tdiv mul_i64 ◌*ℤ◌
seconds_test = refl

civil_from_days-days_from_civil_example :
    civil_from_days (days_from_civil (pos 2024) 2 29) ≡ (pos 2024, 2, 29)
unfolding days_in_month is_leap
civil_from_days-days_from_civil_example =
    civil_from_days-days_from_civil (pos 2024) 2 29 (ground arith) (ground arith)

days_from_civil-civil_from_days_example :
    let t = civil_from_days (negsuc 24836) in
    IsDate t.0 t.1 t.2 × (days_from_civil t.0 t.1 t.2 ≡ negsuc 24836)
days_from_civil-civil_from_days_example =
    days_from_civil-civil_from_days (negsuc 24836) (ground arith)

is_valid_iff_example :
    (is_valid leap_day ≡ true)
    ↔ (IsDate (pos 2024) 2 29 × (23 ≤ 23) × (59 ≤ 59) × (60 ≤ 60) × (500 < 1000000000))
is_valid_iff_example = is_valid_iff leap_day (ground arith) (ground arith)

from_civil-civil_example : from_civil (civil (pos 13886208123456789)) ≡ pos 13886208123456789
from_civil-civil_example = from_civil-civil (pos 13886208123456789) (ground arith)

late_day-IsLabel : IsLabel late_day
unfolding days_from_civil days_of_era add_i64 sub_i64 mul_i64 wrap_i64 tdiv ◌+ℤ◌ ◌-ℤ◌ ◌*ℤ◌
late_day-IsLabel = record {
  after = omega arith;
  before = omega arith;
  hour = omega arith;
  minute = omega arith;
  second = omega arith;
}

from_civil-exact_iff_example :
    (from_civil late_day ≡ ediv (label_nanos late_day) 100) ↔ Is64 (label_nanos late_day)
from_civil-exact_iff_example = from_civil-exact_iff late_day late_day-IsLabel

gps_week_millis-from_gps_week_millis_example :
    gps_week_millis (from_gps_week_millis (pos 2296) 345600001) ≡ (pos 2296, 345600001)
gps_week_millis-from_gps_week_millis_example =
    gps_week_millis-from_gps_week_millis (pos 2296) 345600001 (ground arith) (ground arith)

-- A label, printed and parsed; six digits behind the point, a thirteenth month or a sign in front of the
-- year are refused.
printed : label_text leap_day ≡ ascii "2024-02-29T23:59:60.0000005"
unfolding label_text
printed = refl

refused :
    (parse_time (ascii "2024-01-07T20:00:12.345678") ≡ bad "invalid time")
    × (parse_time (ascii "2024-13-01T20:00:12.3456789") ≡ bad "invalid time")
    × (parse_time (ascii "-0001-01-01T00:00:00.0000000") ≡ bad "invalid time")
unfolding parse_time is_valid parse_signed parse_unsigned digits_from
refused = (refl, refl, refl)

civil_year : (civil (pos 13886208123456789)).year ≡ pos 2024
unfolding civil civil_of_unix civil_from_days civil_of_era add_i64 wrap_i64 ◌+ℤ◌ year_of_era tdiv
    sub_i64 ◌-ℤ◌ floor_div tmod div_mod mul_i64 ◌*ℤ◌ civil_month march_month as_u32 emod signed
    day_of_month day_of_year
civil_year = refl

parse_time-display_example :
    parse_time (display (pos 13886208123456789)) ≡ good (pos 13886208123456789)
parse_time-display_example =
    parse_time-display (pos 13886208123456789) 2024 (ground arith) civil_year (omega arith)
