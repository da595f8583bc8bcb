-- ===== src/Time/Overflow.antt =====
-- Where `GpsTime::from_civil` of obsj/src/obs.rs overflows: it counts nanoseconds in an `i64`.
use convobs_rs.Base.{◌+◌, ◌*◌, ◌≤◌, ◌<◌, ◌≡◌, ◌↔◌, ◌∙◌, ap, sym, arith}
use convobs_rs.Base.Int.{ℤ, pos, negsuc, pos_part, neg_part, ◌+ℤ◌, ◌-ℤ◌, ◌*ℤ◌, int_bounds}
use convobs_rs.Base.Word.{
  ediv, Is64, wrap_i64, wrap_i64-Is64, wrap_i64_fits, add_i64, mul_i64, sub_i64_fits,
}
use convobs_rs.Time.{Civil, epoch_unix, days_from_civil, unix_of_civil, from_civil}
use convobs_rs.Time.Days.{floor_div-ediv}
use convobs_rs.Time.Label.{unix_sum}

-- The nanoseconds from the GPS epoch to a label, counted without any bound.
abbrev pub label_seconds : Civil → ℤ
label_seconds c =
    days_from_civil c.year c.month c.day *ℤ 86400
    +ℤ pos (c.hour * 3600 + c.minute * 60 + c.second)
    -ℤ pos epoch_unix

abbrev pub label_nanos : Civil → ℤ
label_nanos c = label_seconds c *ℤ 1000000000 +ℤ pos c.nanos

-- A wrap-around on the way to a wrap-around is not seen.
wrap_twice : (a b : ℤ) → wrap_i64 (wrap_i64 a +ℤ b) ≡ wrap_i64 (a +ℤ b)
unfolding wrap_i64 ◌+ℤ◌
wrap_twice (pos n) (pos m) = ground arith
wrap_twice (pos n) (negsuc m) = ground arith
wrap_twice (negsuc n) (pos m) = ground arith
wrap_twice (negsuc n) (negsuc m) = ground arith

one_wrap : (s n : ℤ) → add_i64 (mul_i64 s 1000000000) n ≡ wrap_i64 (s *ℤ 1000000000 +ℤ n)
unfolding add_i64 mul_i64
one_wrap s n = wrap_twice (s *ℤ 1000000000) n

-- A wrap-around that changes a number changes its tick.
wrap_apart : (z : ℤ) → ediv (wrap_i64 z) 100 ≡ ediv z 100 → Is64 z
unfolding wrap_i64 ediv
wrap_apart (pos n) h = ground arith
wrap_apart (negsuc n) h = ground arith

-- A date less than 10 ^ 12 days away from 1970, with a time of day.
pub record IsLabel (c : Civil) : Type 0 where
  pub after : pos_part (days_from_civil c.year c.month c.day) < 1000000000000
  pub before : neg_part (days_from_civil c.year c.month c.day) < 1000000000000
  pub hour : c.hour ≤ 23
  pub minute : c.minute ≤ 59
  pub second : c.second ≤ 60

from_civil-wrapped : (c : Civil) → IsLabel c → from_civil c ≡ ediv (wrap_i64 (label_nanos c)) 100
unfolding from_civil unix_of_civil
from_civil-wrapped c h =
    let days = days_from_civil c.year c.month c.day in
    let unix = days *ℤ 86400 +ℤ pos (c.hour * 3600 + c.minute * 60 + c.second) in
    let short : c.hour * 3600 + c.minute * 60 + c.second < 0x100000000 =
      omega (arith, h.hour, h.minute, h.second) in
    rw
      (
        unix_sum days c.hour c.minute c.second (h.after, h.before) short,
        sub_i64_fits unix (pos epoch_unix) (omega (int_bounds, h.after, h.before)),
        one_wrap (unix -ℤ pos epoch_unix) (pos c.nanos),
      )
      (floor_div-ediv (wrap_i64 (label_nanos c)) 100 (omega arith) (wrap_i64-Is64 (label_nanos c)))

-- `from_civil` gives the tick in which a label lies exactly when the nanoseconds from the GPS epoch to
-- the label fit an `i64`. (For dates less than 10 ^ 12 days away from 1970, and a time of day.)
pub from_civil-exact_iff :
    (c : Civil) → IsLabel c → (from_civil c ≡ ediv (label_nanos c) 100) ↔ Is64 (label_nanos c)
from_civil-exact_iff c h = (
  λ same. wrap_apart (label_nanos c) (sym (from_civil-wrapped c h) ∙ same),
  λ fits. from_civil-wrapped c h ∙ ap (λ z. ediv z 100) (wrap_i64_fits (label_nanos c) fits),
)
