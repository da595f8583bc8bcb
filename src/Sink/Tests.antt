-- ===== src/Sink/Tests.antt =====
-- Tests of the models of obsj/src/sink.rs.
use convobs_rs.Base.{ℕ, ◌+◌, ◌*◌, ◌%◌, ◌≤◌, ◌<◌, ◌≡◌, ◌↔◌, refl, some, none, true, [], ◌∷◌, arith}
use convobs_rs.Base.Int.{ℤ, pos, negsuc, tdiv, tmod, ◌+ℤ◌, ◌*ℤ◌}
use convobs_rs.Base.Word.{emod, add_i64, mul_i64, wrap_i64}
use convobs_rs.Error.{ok}
use convobs_rs.Sink.{
  decimation_interval_ticks, validate_decimation_interval, day_ns, round_time, on_grid, decimated,
  with_cp, decimation_round_ticks,
}
use convobs_rs.Sink.Interval.{decimation_interval_ticks_iff}
use convobs_rs.Sink.Grid.{IsNearest, round_time-IsNearest, round_time_min, on_grid_iff}
use convobs_rs.Samples.{slipped_observation, blank_observation}

with_cp_test : with_cp (slipped_observation ∷ blank_observation ∷ []) ≡ slipped_observation ∷ []
unfolding with_cp
with_cp_test = refl

validate_test : validate_decimation_interval (pos 30000000000) ≡ ok tt
unfolding validate_decimation_interval decimation_interval_ticks tmod
validate_test = refl

decimated_test :
    decimated 20000000 (slipped_observation ∷ blank_observation ∷ [])
    ≡ some (blank_observation ∷ [])
unfolding decimated on_grid round_time emod add_i64 mul_i64 wrap_i64 tdiv ◌+ℤ◌ ◌*ℤ◌
decimated_test = refl

decimation_interval_ticks_iff_example :
    (decimation_interval_ticks (pos 30000000000) ≡ ok (pos 300000000)) ↔ (
      (k : ℕ) × (pos 30000000000 ≡ pos (k * 100))
      × (pos 300000000 ≡ pos k)
      × (10000000 ≤ k)
      × (day_ns % (k * 100) ≡ 0))
decimation_interval_ticks_iff_example =
    decimation_interval_ticks_iff (pos 30000000000) (pos 300000000)

round_time-IsNearest_example :
    (r : ℤ) × (round_time 2 (negsuc 1499999) decimation_round_ticks ≡ some r)
    × IsNearest (negsuc 1499999) r
round_time-IsNearest_example = round_time-IsNearest (negsuc 1499999) (ground arith)

round_time_min_example : round_time 100 (negsuc 0x7fffffffffffffff) 1000000 ≡ none
round_time_min_example = round_time_min 100 1000000

on_grid_iff_example : (on_grid (1000000 * 300) (pos 600400000) ≡ some true) ↔ (
    (k : ℕ) × (k * (1000000 * 300) ≤ 600400000 + 500000)
    × (600400000 + 500000 < k * (1000000 * 300) + 1000000))
on_grid_iff_example = on_grid_iff 600400000 300 (omega arith) (omega arith)
