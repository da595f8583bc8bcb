-- ===== src/Cli/Pipeline.antt =====
-- The chain of sinks in cli/src/lib.rs: `build_sink`, and the counter of slips that
-- `convert_packet_inputs` puts in front of it. A chain is modelled by what the writer gets of a list
-- of observations; `none` stands for the call of `round_time` that does not end.
pub mod Surface
use convobs_rs.Base.{
  ℕ, Bool, true, false, not, if◌then◌else◌, Option, none, some, ◌>>=?◌, unwrap_or, List, [],
}
use convobs_rs.Base.Int.{ℤ, pos, pos_part, int_beq}
use convobs_rs.Arc.{lol_run}
use convobs_rs.Error.{Result, ok, err, ◌>>=◌}
use convobs_rs.Float.{Floats}
use convobs_rs.Sink.{decimation_interval_ticks, decimated, with_cp}
use convobs_rs.Values.{SignalObservation}
use convobs_rs.Cli.{OutputFormat, to_rinex, to_obs_json, RinexBackend, internal, Config}
use convobs_rs.Cli.Backend.{rinex_sink}

-- What the writer gets.
abbrev pub Chain : Floats → Type 0
Chain fl = List (SignalObservation fl) → Option (List (SignalObservation fl))

abbrev pub open_writer : Bool → OutputFormat → Option RinexBackend → Result (Unit {0})
open_writer available to_rinex backend = rinex_sink available (unwrap_or backend internal)
open_writer available to_obs_json backend = ok tt

-- The interval of the decimation stage, if there is one.
unfoldable pub stage_ticks : ℤ → Result (Option ℤ)
unfolding decimation_interval_ticks
stage_ticks interval_ns =
    if not (int_beq interval_ns (pos 0))
    then (decimation_interval_ticks interval_ns >>= λ ticks. ok (some ticks))
    else ok none

module _ {fl : Floats} where
  -- The decimation stage, for the ticks of the interval.
  abbrev pub decimation : Option ℤ → Chain fl
  decimation none os = some os
  decimation (some ticks) os = decimated (pos_part ticks) os

  abbrev pub chain : Bool → Option ℤ → Chain fl
  chain require_cp ticks os = decimation ticks (if require_cp then with_cp os else os)

  -- `build_sink`
  unfoldable pub build_sink : Bool → Config fl → Result (Chain fl)
  unfolding stage_ticks rinex_sink with_cp decimated
  build_sink available cfg = do
    _ ← open_writer available cfg.to cfg.rinex_backend
    ticks ← stage_ticks cfg.interval_ns
    ok (chain cfg.require_cp ticks)

  -- The chain of `convert_packet_inputs`.
  unfoldable pub packet_chain : Bool → Config fl → Result (Chain fl)
  unfolding build_sink lol_run
  packet_chain available cfg =
      build_sink available cfg >>= λ behind. ok (λ os. behind (lol_run [] os))
