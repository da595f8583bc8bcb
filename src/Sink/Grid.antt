-- ===== src/Sink/Grid.antt =====
-- The decimation grid of obsj/src/sink.rs: `round_time` rounds to the nearest multiple of 100 ms,
-- halves away from zero, and `on_grid` asks whether that is on the interval grid.
use native.Mathlib.Nat.{div-add-mod', mul-mod_left}
use convobs_rs.Base.{
  ℕ, zero, suc, ◌+◌, ◌*◌, ◌/◌, ◌%◌, ◌≤◌, ◌<◌, ◌≡◌, ◌↔◌, refl, ap, ◌∙◌, ◌⊎◌, nat_beq, none, some,
  true, false, arith,
}
use convobs_rs.Base.Int.{ℤ, pos, negsuc, pos_part, neg_part, neg_ℤ, ◌-ℤ◌, ◌*ℤ◌, tdiv}
use convobs_rs.Base.Word.{emod, wrap_i64, sub_i64, add_pos, mul_pos}
use convobs_rs.Sink.{round_time, on_grid, decimation_round_ticks}

-- The multiple of 100 ms nearest to a tick, in magnitude and sign.
abbrev pub nearest : ℤ → ℤ
nearest (pos n) = pos ((n + 500000) / 1000000 * 1000000)
nearest (negsuc n) = neg_ℤ (pos ((suc n + 500000) / 1000000 * 1000000))

abbrev pub IsRoundable : ℤ → Type 0
IsRoundable t = (pos_part t < 9223372036854000000) × (neg_part t < 9223372036854000000)

round_time_pos :
    (fuel n : ℕ)
    → n < 9223372036854000000
    → round_time (suc fuel) (pos n) 1000000 ≡ some (nearest (pos n))
unfolding round_time tdiv
round_time_pos fuel n h =
    rw (add_pos n 500000 (omega arith), mul_pos ((n + 500000) / 1000000) 1000000 (omega arith))
      (ground arith)

neg_negsuc : (n : ℕ) → n < 9223372036854000000 → sub_i64 (pos 0) (negsuc n) ≡ pos (suc n)
unfolding sub_i64 wrap_i64 ◌-ℤ◌
neg_negsuc n h = ground arith

neg_pos : (n : ℕ) → n < 9223372036854775808 → sub_i64 (pos 0) (pos n) ≡ neg_ℤ (pos n)
unfolding sub_i64 wrap_i64 ◌-ℤ◌
neg_pos n h = ground arith

round_time_negsuc :
    (fuel n : ℕ) {r : ℤ}
    → n < 9223372036854000000
    → round_time fuel (pos (suc n)) 1000000 ≡ some r
    → round_time (suc fuel) (negsuc n) 1000000 ≡ some (sub_i64 (pos 0) r)
unfolding round_time
round_time_negsuc fuel n h e = rw (neg_negsuc n h, e) (ground arith)

-- Where no sum overflows.
pub round_time-nearest :
    (t : ℤ) → IsRoundable t → round_time 2 t decimation_round_ticks ≡ some (nearest t)
round_time-nearest (pos n) h = round_time_pos 1 n h.0
round_time-nearest (negsuc n) h =
    round_time_negsuc 1 n (omega arith) (round_time_pos 0 (suc n) (omega arith))
    ∙ ap some (neg_pos ((suc n + 500000) / 1000000 * 1000000) (omega arith))

abbrev pub magnitude : ℤ → ℕ
magnitude z = pos_part z + neg_part z

-- A multiple of 100 ms that is at most 50 ms away from a tick; at exactly 50 ms it is the one that is
-- further from 1980.
abbrev pub IsNearest : ℤ → ℤ → Type 0
IsNearest t r =
    ((k : ℤ) × (r ≡ k *ℤ 1000000))
    × ((2 * magnitude (t -ℤ r) < 1000000)
        ⊎ ((2 * magnitude (t -ℤ r) ≡ 1000000) × (magnitude t < magnitude r)))

nearest-IsNearest : (t : ℤ) → IsNearest t (nearest t)
unfolding ◌*ℤ◌ ◌-ℤ◌
nearest-IsNearest (pos n) = ((pos ((n + 500000) / 1000000), ground arith), ground arith)
nearest-IsNearest (negsuc n) =
    ((neg_ℤ (pos ((suc n + 500000) / 1000000)), ground arith), ground arith)

-- `round_time` to 100 ms ends after at most two calls, with a multiple of 100 ms that is less than
-- 50 ms away from the tick, or just 50 ms away and further from 1980 than the tick. (For ticks below
-- 9223372036854000000 in magnitude, where no sum overflows.)
pub round_time-IsNearest :
    (t : ℤ)
    → IsRoundable t
    → (r : ℤ) × (round_time 2 t decimation_round_ticks ≡ some r) × IsNearest t r
round_time-IsNearest t h = (nearest t, round_time-nearest t h, nearest-IsNearest t)

-- On the smallest `i64` the calls of `round_time` never end: no fuel is enough.
pub round_time_min : (fuel unit : ℕ) → round_time fuel (negsuc 0x7fffffffffffffff) unit ≡ none
unfolding round_time sub_i64 wrap_i64 ◌-ℤ◌
round_time_min zero unit = refl
round_time_min (suc fuel) unit = rw (round_time_min fuel unit)

grid_lem : (m j : ℕ) → (m * 1000000 % (1000000 * j) ≡ 0) ↔ ((k : ℕ) × (m ≡ k * j))
grid_lem m j = (
  λ h.
      let x = m * 1000000 / (1000000 * j) in
      (x, omega (arith, div-add-mod' (m * 1000000) (1000000 * j))),
  λ h.
      let (k, e) = h in
      let same : m * 1000000 ≡ k * (1000000 * j) = grind arith in
      rw same (mul-mod_left k (1000000 * j)),
)

-- An epoch after 1980 is kept exactly when it lies on the interval grid up to 50 ms: from 50 ms
-- before a grid point up to, but without, 50 ms after it. (For intervals that are a whole number
-- of 100 ms and not 0, and ticks below 9223372036854000000.)
pub on_grid_iff :
    (n j : ℕ)
    → n < 9223372036854000000
    → 0 < j
    → (on_grid (1000000 * j) (pos n) ≡ some true)
      ↔ ((k : ℕ) × (k * (1000000 * j) ≤ n + 500000) × (n + 500000 < k * (1000000 * j) + 1000000))
unfolding on_grid emod
on_grid_iff n j h some_interval =
    let m = (n + 500000) / 1000000 in
    let positive : nat_beq (1000000 * j) 0 ≡ false = ground arith in
    rw (round_time_pos 1 n h, positive, on_grid)
      (
        λ e. let (k, f) = (grid_lem m j).0 (ground arith) in (k, grind arith, grind arith),
        λ e.
            let (k, below, above) = e in
            let on : m ≡ k * j = omega arith in ground (arith, (grid_lem m j).1 (k, on)),
      )
