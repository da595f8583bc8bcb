-- ===== src/Time/Label.antt =====
-- Labels of obsj/src/obs.rs: `GpsTime::civil` with `from_civil`, and the same pair of `Instant`,
-- where no step of the `i64` arithmetic wraps around.
use convobs_rs.Base.{ℕ, ◌+◌, ◌*◌, ◌/◌, ◌%◌, ◌<◌, ◌≡◌, ◌∙◌, arith}
use convobs_rs.Base.Int.{
  ℤ, pos, negsuc, pos_part, neg_part, ◌+ℤ◌, ◌-ℤ◌, ◌*ℤ◌, tdiv, tmod, int_laws, int_bounds,
}
use convobs_rs.Base.Word.{
  ediv, emod, div_with_rest, emod-lt, Is64, wrap_i64-Is64, add_i64, mul_i64, as_u32, add_i64_fits,
  sub_i64_fits, mul_i64_fits,
}
use convobs_rs.Time.{
  GpsTime, Civil, epoch_unix, civil_from_days, civil_of_unix, unix_of_civil, civil, from_civil,
  Instant, civil_of_instant, instant_from_civil,
}
use convobs_rs.Time.Days.{div_mod-ediv, floor_div-ediv, era_rest, IsSmall}
use convobs_rs.Time.Dates.{days_from_civil-civil_from_days}

as_u32-small : (n : ℕ) → n < 0x100000000 → as_u32 (pos n) ≡ n
unfolding as_u32
as_u32-small n h = omega arith

-- The fields of a Unix time below 10 ^ 13 seconds.
abbrev pub label : ℤ → ℕ → Civil
label unix nanos =
    let t = civil_from_days (ediv unix 86400) in
    let sod = emod unix 86400 in
    record {
      year = t.0;
      month = t.1;
      day = t.2;
      hour = sod / 3600;
      minute = sod % 3600 / 60;
      second = sod % 60;
      nanos = nanos;
    }

pub civil_of_unix-label :
    (unix : ℤ) (nanos : ℕ) → IsSmall unix → civil_of_unix unix nanos ≡ label unix nanos
unfolding civil_of_unix tdiv tmod
civil_of_unix-label unix nanos small =
    let sod = emod unix 86400 in
    let below = emod-lt unix 86400 (omega arith) in
    rw (
      floor_div-ediv unix 86400 (omega arith) (omega arith),
      era_rest unix 86400 (omega arith) (omega arith) small,
      as_u32-small (sod / 3600) (omega arith),
      as_u32-small (sod % 3600 / 60) (omega arith),
      as_u32-small (sod % 60) (omega arith),
    )

pub near_unix :
    (unix : ℤ)
    → IsSmall unix
    → (pos_part (ediv unix 86400) < 1000000000000) × (neg_part (ediv unix 86400) < 1000000000000)
unfolding ediv
near_unix (pos n) small = ground arith
near_unix (negsuc n) small = ground arith

pub unix_sum :
    (days : ℤ) (h m s : ℕ)
    → (pos_part days < 1000000000000) × (neg_part days < 1000000000000)
    → h * 3600 + m * 60 + s < 0x100000000
    → add_i64 (add_i64 (add_i64 (mul_i64 days 86400) (pos (h * 3600))) (pos (m * 60))) (pos s)
      ≡ days *ℤ 86400 +ℤ pos (h * 3600 + m * 60 + s)
unix_sum days h m s near lt =
    rw
      (
        mul_i64_fits days 86400 (omega int_bounds),
        add_i64_fits (days *ℤ 86400) (pos (h * 3600)) (omega int_bounds),
        add_i64_fits (days *ℤ 86400 +ℤ pos (h * 3600)) (pos (m * 60)) (omega int_bounds),
        add_i64_fits (days *ℤ 86400 +ℤ pos (h * 3600) +ℤ pos (m * 60)) (pos s) (omega int_bounds),
      )
      (omega int_laws)

pub unix_of_civil-label :
    (unix : ℤ) (nanos : ℕ) → IsSmall unix → unix_of_civil (label unix nanos) ≡ unix
unfolding unix_of_civil
unix_of_civil-label unix nanos small =
    let sod = emod unix 86400 in
    let below = emod-lt unix 86400 (omega arith) in
    let near = near_unix unix small in
    let same : sod / 3600 * 3600 + sod % 3600 / 60 * 60 + sod % 60 ≡ sod = omega arith in
    rw ((days_from_civil-civil_from_days (ediv unix 86400) (omega arith)).1) (
      unix_sum (ediv unix 86400) (sod / 3600) (sod % 3600 / 60) (sod % 60) near (omega arith)
      ∙ rw same (div_with_rest unix 86400 (omega arith)))

-- An instant less than 10 ^ 13 seconds away from 1970 comes back from its civil label.
pub instant_from_civil-civil_of_instant :
    (i : Instant) → IsSmall i.secs → instant_from_civil (civil_of_instant i) ≡ i
unfolding instant_from_civil civil_of_instant
instant_from_civil-civil_of_instant i small =
    rw (civil_of_unix-label i.secs i.nanos small, unix_of_civil-label i.secs i.nanos small)

-- Ticks within 291 years of 1980.
abbrev pub IsTick : GpsTime → Type 0
IsTick t = (pos_part t < 92000000000000000) × (neg_part t < 92000000000000000)

abbrev pub unix_of_tick : GpsTime → ℤ
unix_of_tick t = pos epoch_unix +ℤ ediv t 10000000

tick_second : (t : ℤ) → ediv (t *ℤ 100) 1000000000 ≡ ediv t 10000000
unfolding ediv ◌*ℤ◌
tick_second (pos n) = ground arith
tick_second (negsuc n) = ground arith

tick_nanos : (t : ℤ) → emod (t *ℤ 100) 1000000000 ≡ emod t 10000000 * 100
unfolding emod ◌*ℤ◌
tick_nanos (pos n) = ground arith
tick_nanos (negsuc n) = ground arith

near_nanos :
    (z : ℤ)
    → Is64 z
    → (pos_part (ediv z 1000000000) < 9223372037) × (neg_part (ediv z 1000000000) < 9223372038)
unfolding ediv
near_nanos (pos n) h = ground arith
near_nanos (negsuc n) h = ground arith

pub near_day :
    (z : ℤ)
    → (pos_part z < 9223372037) × (neg_part z < 9223372038)
    → (pos_part (ediv (pos epoch_unix +ℤ z) 86400) < 8000000000000)
      × (neg_part (ediv (pos epoch_unix +ℤ z) 86400) < 8000000000000)
unfolding ediv ◌+ℤ◌
near_day (pos n) h = ground arith
near_day (negsuc n) h = ground arith

pub near_second :
    (t : ℤ)
    → IsTick t
    → (pos_part (ediv t 10000000) < 9210000000) × (neg_part (ediv t 10000000) < 9210000000)
unfolding ediv
near_second (pos n) h = ground arith
near_second (negsuc n) h = ground arith

pub civil-label :
    (t : GpsTime) → IsTick t → civil t ≡ label (unix_of_tick t) (emod t 10000000 * 100)
unfolding civil
civil-label t h =
    let near = near_second t h in
    let below = emod-lt t 10000000 (omega arith) in
    rw
      (
        mul_i64_fits t 100 (omega int_bounds),
        div_mod-ediv (t *ℤ 100) 1000000000 (omega arith) (omega int_bounds),
        tick_second t,
        tick_nanos t,
        as_u32-small (emod t 10000000 * 100) (omega arith),
        add_i64_fits (pos epoch_unix) (ediv t 10000000) (omega int_bounds),
      )
      (civil_of_unix-label (unix_of_tick t) (emod t 10000000 * 100) (omega int_bounds))

-- What `civil` shows of a tick that may wrap around.
pub civil-label_any :
    (t : GpsTime)
    → let ns = mul_i64 t 100 in
      (civil t ≡ label (pos epoch_unix +ℤ ediv ns 1000000000) (emod ns 1000000000))
      × (pos_part (ediv ns 1000000000) < 9223372037)
      × (neg_part (ediv ns 1000000000) < 9223372038)
unfolding civil mul_i64
civil-label_any t =
    let ns = mul_i64 t 100 in
    let fits = wrap_i64-Is64 (t *ℤ 100) in
    let near = near_nanos ns fits in
    let below = emod-lt ns 1000000000 (omega arith) in
    (
      rw
          (
            div_mod-ediv ns 1000000000 (omega arith) fits,
            as_u32-small (emod ns 1000000000) (omega arith),
            add_i64_fits (pos epoch_unix) (ediv ns 1000000000) (omega int_bounds),
          )
          (civil_of_unix-label (pos epoch_unix +ℤ ediv ns 1000000000) (emod ns 1000000000)
            (omega int_bounds)),
      near.0,
      near.1,
    )

tick_join :
    (q : ℤ) (r : ℕ)
    → r < 10000000
    → ediv (q *ℤ 1000000000 +ℤ pos (r * 100)) 100 ≡ q *ℤ 10000000 +ℤ pos r
unfolding ediv ◌+ℤ◌ ◌*ℤ◌
tick_join (pos n) r h = ground arith
tick_join (negsuc n) r h = ground arith

-- A tick within 291 years of 1980 comes back from its civil label.
pub from_civil-civil : (t : GpsTime) → IsTick t → from_civil (civil t) ≡ t
unfolding from_civil
from_civil-civil t h =
    let near = near_second t h in
    let below = emod-lt t 10000000 (omega arith) in
    let q = ediv t 10000000 in
    let r = emod t 10000000 in
    let split = div_with_rest t 10000000 (omega arith) in
    let back : unix_of_tick t -ℤ pos epoch_unix ≡ q = omega int_laws in
    rw
      (
        civil-label t h,
        unix_of_civil-label (unix_of_tick t) (r * 100) (omega int_bounds),
        sub_i64_fits (unix_of_tick t) (pos epoch_unix) (omega int_bounds),
        back,
        mul_i64_fits q 1000000000 (omega int_bounds),
        add_i64_fits (q *ℤ 1000000000) (pos (r * 100)) (omega int_bounds),
        floor_div-ediv (q *ℤ 1000000000 +ℤ pos (r * 100)) 100 (omega arith) (omega int_bounds),
        tick_join q r below,
      )
      split
