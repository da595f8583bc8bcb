-- ===== src/Time/Week.antt =====
-- GPS week and time of week in obsj/src/obs.rs: `from_gps_week_millis` and `gps_week_millis`.
use convobs_rs.Base.{ℕ, ◌≤◌, ◌<◌, ◌≡◌, arith}
use convobs_rs.Base.Int.{ℤ, pos, negsuc, pos_part, neg_part, ◌+ℤ◌, ◌*ℤ◌, tdiv, int_bounds}
use convobs_rs.Base.Word.{ediv, emod, add_i64_fits, mul_i64_fits, as_u32}
use convobs_rs.Time.{ms_per_week, from_gps_week_millis, gps_week_millis}
use convobs_rs.Time.Days.{div_mod-ediv}

tdiv_exact : (z : ℤ) → tdiv (z *ℤ 1000000) 100 ≡ z *ℤ 10000
unfolding tdiv ◌*ℤ◌
tdiv_exact (pos n) = ground arith
tdiv_exact (negsuc n) = ground arith

ediv_exact : (z : ℤ) → ediv (z *ℤ 10000 *ℤ 100) 1000000 ≡ z
unfolding ediv ◌*ℤ◌
ediv_exact (pos n) = ground arith
ediv_exact (negsuc n) = ground arith

ediv_week :
    (w : ℤ) (tow : ℕ) → tow < ms_per_week → ediv (w *ℤ ms_per_week +ℤ pos tow) ms_per_week ≡ w
unfolding ediv ◌+ℤ◌ ◌*ℤ◌
ediv_week (pos n) tow h = ground arith
ediv_week (negsuc n) tow h = ground arith

emod_week :
    (w : ℤ) (tow : ℕ) → tow < ms_per_week → emod (w *ℤ ms_per_week +ℤ pos tow) ms_per_week ≡ tow
unfolding emod ◌+ℤ◌ ◌*ℤ◌
emod_week (pos n) tow h = ground arith
emod_week (negsuc n) tow h = ground arith

as_u32-week : (n : ℕ) → n < ms_per_week → as_u32 (pos n) ≡ n
unfolding as_u32
as_u32-week n h = omega arith

-- A week and a time of week in milliseconds, less than a week, come back from the tick that they
-- name, for weeks up to 15000 (the year 2267) on either side of 1980.
pub gps_week_millis-from_gps_week_millis :
    (week : ℤ) (tow : ℕ)
    → (pos_part week ≤ 15000) × (neg_part week ≤ 15000)
    → tow < ms_per_week
    → gps_week_millis (from_gps_week_millis week tow) ≡ (week, tow)
unfolding gps_week_millis from_gps_week_millis
gps_week_millis-from_gps_week_millis week tow near h =
    let ms = week *ℤ ms_per_week +ℤ pos tow in
    rw (
      mul_i64_fits week ms_per_week (omega int_bounds),
      add_i64_fits (week *ℤ ms_per_week) (pos tow) (omega int_bounds),
      mul_i64_fits ms 1000000 (omega int_bounds),
      tdiv_exact ms,
      mul_i64_fits (ms *ℤ 10000) 100 (omega int_bounds),
      div_mod-ediv (ms *ℤ 10000 *ℤ 100) 1000000 (omega arith) (omega int_bounds),
      ediv_exact ms,
      div_mod-ediv ms ms_per_week (omega arith) (omega int_bounds),
      ediv_week week tow h,
      emod_week week tow h,
      as_u32-week tow h,
    )
