-- ===== src/Time.antt =====
-- GPS time and civil dates, after obsj/src/obs.rs. `GpsTime` is a count of 100 ns ticks. The year
-- is an `i64` and may be negative; the other civil fields are `u32`. Integer arithmetic is that of
-- `i64`, wrap-around included, as in a release build.
mod Tests
pub mod Days
pub mod Calendar
pub mod Era
pub mod Dates
pub mod Label
pub mod Overflow
pub mod Week
pub mod Text
pub mod Zoned
pub mod Printed
pub mod Reread
use convobs_rs.Base.{
  ℕ, ◌+◌, ◌-◌, ◌*◌, ◌/◌, Bool, false, ◌&&◌, ◌||◌, ltb, leb, nat_beq, if◌then◌else◌,
}
use convobs_rs.Base.Int.{ℤ, pos, ◌+ℤ◌, ◌-ℤ◌, ltb_ℤ, leb_ℤ, int_beq, tdiv, tmod}
use convobs_rs.Base.Word.{add_i64, sub_i64, mul_i64, as_u32}
use convobs_rs.Float.{Floats}

abbrev pub tick_ns : ℕ
tick_ns = 100

abbrev pub ms_per_week : ℕ
ms_per_week = 7 * 24 * 60 * 60 * 1000

-- Unix seconds at the GPS epoch.
abbrev pub epoch_unix : ℕ
epoch_unix = 315964800

abbrev pub GpsTime : Type 0
GpsTime = ℤ

pub record Civil : Type 0 where
  pub year : ℤ
  pub month : ℕ
  pub day : ℕ
  pub hour : ℕ
  pub minute : ℕ
  pub second : ℕ
  pub nanos : ℕ

unfoldable pub div_mod : ℤ → ℕ → ℤ × ℤ
div_mod n d =
    let q = tdiv n d in
    let r = tmod n d in if ltb_ℤ r (pos 0) then (sub_i64 q (pos 1), r +ℤ pos d) else (q, r)

unfoldable pub floor_div : ℤ → ℕ → ℤ
floor_div n d =
    let q = tdiv n d in let r = tmod n d in if ltb_ℤ r (pos 0) then sub_i64 q (pos 1) else q

-- The steps of `civil_from_days`: the year of the era, the day of that year (from March 1st), the
-- month counted from March, the day of the month, and the month.
unfoldable pub year_of_era : ℤ → ℤ
year_of_era doe =
    tdiv (sub_i64 (add_i64 (sub_i64 doe (tdiv doe 1460)) (tdiv doe 36524)) (tdiv doe 146096)) 365

unfoldable pub day_of_year : ℤ → ℤ → ℤ
day_of_year doe yoe = sub_i64 doe (sub_i64 (add_i64 (mul_i64 yoe 365) (tdiv yoe 4)) (tdiv yoe 100))

unfoldable pub march_month : ℤ → ℤ
march_month doy = tdiv (add_i64 (mul_i64 doy 5) (pos 2)) 153

unfoldable pub day_of_month : ℤ → ℤ → ℤ
day_of_month doy mp = add_i64 (sub_i64 doy (tdiv (add_i64 (mul_i64 mp 153) (pos 2)) 5)) (pos 1)

unfoldable pub civil_month : ℤ → ℤ
civil_month mp = if ltb_ℤ mp (pos 10) then add_i64 mp (pos 3) else sub_i64 mp (pos 9)

unfoldable pub civil_of_era : ℤ → ℤ → ℤ × ℕ × ℕ
civil_of_era era doe =
    let yoe = year_of_era doe in
    let y = add_i64 yoe (mul_i64 era 400) in
    let doy = day_of_year doe yoe in
    let mp = march_month doy in
    let m = civil_month mp in
    (add_i64 y (if leb_ℤ m (pos 2) then pos 1 else pos 0), as_u32 m, as_u32 (day_of_month doy mp))

unfoldable pub civil_from_days : ℤ → ℤ × ℕ × ℕ
civil_from_days days =
    let z = add_i64 days (pos 719468) in
    let era = tdiv (if leb_ℤ (pos 0) z then z else sub_i64 z (pos 146096)) 146097 in
    let doe = sub_i64 z (mul_i64 era 146097) in civil_of_era era doe

-- `days_from_civil` after `era` and `yoe` are known; month and day are at most `u32::MAX`.
unfoldable pub days_of_era : ℤ → ℤ → ℕ → ℕ → ℤ
days_of_era era yoe m d =
    let mp = if ltb 2 m then m - 3 else m + 9 in
    let doy = pos ((153 * mp + 2) / 5 + d) -ℤ pos 1 in
    let doe = add_i64 (sub_i64 (add_i64 (mul_i64 yoe 365) (tdiv yoe 4)) (tdiv yoe 100)) doy in
    sub_i64 (add_i64 (mul_i64 era 146097) doe) (pos 719468)

unfoldable pub days_from_civil : ℤ → ℕ → ℕ → ℤ
days_from_civil year m d =
    let y = sub_i64 year (if leb m 2 then pos 1 else pos 0) in
    let era = tdiv (if leb_ℤ (pos 0) y then y else sub_i64 y (pos 399)) 400 in
    let yoe = sub_i64 y (mul_i64 era 400) in days_of_era era yoe m d

-- `Civil::is_valid`
unfoldable pub is_valid : Civil → Bool
is_valid c =
    if ltb c.month 1
      || ltb 12 c.month
      || ltb c.day 1
      || ltb 23 c.hour
      || ltb 59 c.minute
      || ltb 60 c.second
      || leb 1000000000 c.nanos
    then false
    else (let (year, month, day) = civil_from_days (days_from_civil c.year c.month c.day) in
        int_beq year c.year && nat_beq month c.month && nat_beq day c.day)

-- The civil date and time of day of a Unix time; the nanoseconds are put in as they are.
unfoldable pub civil_of_unix : ℤ → ℕ → Civil
civil_of_unix unix nanos =
    let days = floor_div unix 86400 in
    let sod = sub_i64 unix (mul_i64 days 86400) in
    let (y, m, d) = civil_from_days days in
    record {
      year = y;
      month = m;
      day = d;
      hour = as_u32 (tdiv sod 3600);
      minute = as_u32 (tdiv (tmod sod 3600) 60);
      second = as_u32 (tmod sod 60);
      nanos = nanos;
    }

-- The Unix time of civil fields.
unfoldable pub unix_of_civil : Civil → ℤ
unix_of_civil c =
    let days = days_from_civil c.year c.month c.day in
    add_i64 (add_i64 (add_i64 (mul_i64 days 86400) (pos (c.hour * 3600))) (pos (c.minute * 60)))
      (pos c.second)

-- `GpsTime::civil`
unfoldable pub civil : GpsTime → Civil
civil t =
    let (sec, nsec) = div_mod (mul_i64 t tick_ns) 1000000000 in
    civil_of_unix (add_i64 (pos epoch_unix) sec) (as_u32 nsec)

-- `GpsTime::from_civil`
pub from_civil : Civil → GpsTime
from_civil c =
    let ns =
      add_i64 (mul_i64 (sub_i64 (unix_of_civil c) (pos epoch_unix)) 1000000000) (pos c.nanos) in
    floor_div ns tick_ns

pub from_gps_week_millis : ℤ → ℕ → GpsTime
from_gps_week_millis week tow_ms =
    tdiv (mul_i64 (add_i64 (mul_i64 week ms_per_week) (pos tow_ms)) 1000000) tick_ns

unfoldable pub from_gps_week_seconds : (fl : Floats) → ℤ → fl.F64 → GpsTime
from_gps_week_seconds fl week tow =
    add_i64 (tdiv (mul_i64 (mul_i64 week ms_per_week) 1000000) tick_ns) (
      fl.to_i64
        (fl.add (fl.div (fl.mul tow (fl.lit 1000000000 0)) (fl.of_int (pos tick_ns))) (fl.lit 5 1)))

pub gps_week_millis : GpsTime → ℤ × ℕ
gps_week_millis t =
    let (ms, _) = div_mod (mul_i64 t tick_ns) 1000000 in
    let (week, tow) = div_mod ms ms_per_week in (week, as_u32 tow)

-- Nanoseconds since the GPS epoch.
unfoldable pub epoch_nanos : GpsTime → ℤ
epoch_nanos t = mul_i64 t tick_ns

-- `Instant`: a time on the Unix scale.
pub record Instant : Type 0 where
  pub secs : ℤ
  pub nanos : ℕ

-- `Instant::civil`
unfoldable pub civil_of_instant : Instant → Civil
civil_of_instant i = civil_of_unix i.secs i.nanos

-- `Instant::from_civil`
unfoldable pub instant_from_civil : Civil → Instant
instant_from_civil c = record { secs = unix_of_civil c; nanos = c.nanos }

unfoldable pub gps_nanos : Instant → ℤ
gps_nanos i = add_i64 (mul_i64 (sub_i64 i.secs (pos epoch_unix)) 1000000000) (pos i.nanos)
