-- ===== src/Sink.antt =====
-- The filters of obsj/src/sink.rs: decimation to an interval grid, and the carrier-phase filter. A
-- sink is modelled by what it passes on to the sink that it wraps. A tick is an `i64`.
mod Tests
pub mod Interval
pub mod Grid
use convobs_rs.Base.{
  ℕ, zero, suc, ◌+◌, ◌*◌, ◌/◌, ◌%◌, Bool, true, false, not, nat_beq, if◌then◌else◌, Option, none,
  some, is_some, List, [], ◌∷◌,
}
use convobs_rs.Base.Int.{ℤ, pos, negsuc, pos_part, ltb_ℤ, tdiv, tmod, int_beq}
use convobs_rs.Base.Word.{emod, add_i64, sub_i64, mul_i64}
use convobs_rs.Error.{Error, interval, Result, ok, err}
use convobs_rs.Float.{Floats}
use convobs_rs.Time.{GpsTime, tick_ns}
use convobs_rs.Values.{SignalValues, SignalObservation}

-- 100 ms in ticks.
abbrev pub decimation_round_ticks : ℕ
decimation_round_ticks = 100 * 1000000 / tick_ns

abbrev pub day_ns : ℕ
day_ns = 24 * 3600 * 1000000000

-- Past the first test the interval is positive, so that `pos_part interval_ns` is its value.
unfoldable pub decimation_interval_ticks : ℤ → Result ℤ
decimation_interval_ticks interval_ns =
    if ltb_ℤ interval_ns (pos 1000000000)
    then err (interval "decimation interval must be at least 1 second")
    else if not (int_beq (tmod interval_ns tick_ns) (pos 0))
    then err (interval "decimation interval must be a multiple of 100ns")
    else if not (nat_beq (day_ns % pos_part interval_ns) 0)
    then err (interval "decimation interval must divide one GPS day exactly")
    else ok (tdiv interval_ns tick_ns)

unfoldable pub validate_decimation_interval : ℤ → Result (Unit {0})
validate_decimation_interval interval_ns = elim (decimation_interval_ticks interval_ns) [
  | ok t ↦ ok tt
  | err e ↦ err e
]

-- The function calls itself on `-t` while `t` is negative. `none`: the calls are more than the
-- fuel, as they are at any fuel for `i64::MIN`, which is its own negation.
pub round_time : ℕ → ℤ → ℕ → Option ℤ
round_time zero t unit = none
round_time (suc fuel) t unit =
    let other : Option ℤ = elim (round_time fuel (sub_i64 (pos 0) t) unit) [
      | none ↦ none
      | some r ↦ some (sub_i64 (pos 0) r)
    ] in
    if ltb_ℤ t (pos 0) then other else some (mul_i64 (tdiv (add_i64 t (pos (unit / 2))) unit) unit)

-- `DecimationSink::on_grid`, for an interval in ticks that is not negative. `none` where it gives no
-- answer: the calls of `round_time` do not end, of which two are enough elsewhere, or `rem_euclid`
-- panics at the interval 0.
unfoldable pub on_grid : ℕ → GpsTime → Option Bool
on_grid interval_ticks t = elim (round_time 2 t decimation_round_ticks) [
  | none ↦ none
  | some r ↦ if nat_beq interval_ticks 0 then none else some (nat_beq (emod r interval_ticks) 0)
]

module _ {fl : Floats} where
  -- `DecimationSink::observation` over a list: the observations that the wrapped sink gets.
  unfoldable pub decimated : ℕ → List (SignalObservation fl) → Option (List (SignalObservation fl))
  decimated interval_ticks [] = some []
  decimated interval_ticks (o ∷ os) =
      let rest = decimated interval_ticks os in
      elim (on_grid interval_ticks o.t) [
        | none ↦ none
        | some keep ↦ elim rest [ none ↦ none | some kept ↦ some (if keep then o ∷ kept else kept) ]
      ]

  -- `RequireCpFilter::observation` over a list.
  unfoldable pub with_cp : List (SignalObservation fl) → List (SignalObservation fl)
  with_cp [] = []
  with_cp (o ∷ os) = if not (is_some o.v.cp) then with_cp os else o ∷ with_cp os
