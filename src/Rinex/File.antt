-- ===== src/Rinex/File.antt =====
-- The reader of a whole file in obsj/src/rinexobs.rs: `read_observation_file_impl`.
use convobs_rs.Base.{Option, none, some, List}
use convobs_rs.Checked.{Checked, good, ◌>>=◌}
use convobs_rs.Float.{Floats}
use convobs_rs.Metadata.{Text, Metadata}
use convobs_rs.Values.{SignalObservation}
use convobs_rs.Rinex.Epochs.{read_observations, then_read}
use convobs_rs.Rinex.Head.{read_header}
use convobs_rs.Rinex.Times.{gps_utc_seconds}

module _ (fl : Floats) (parse_float : Text → Option fl.F64) where
  abbrev pub with_meta :
      Metadata fl
      → Option (Checked (List (SignalObservation fl)))
      → Option (Checked (Metadata fl × List (SignalObservation fl)))
  with_meta meta none = none
  with_meta meta (some r) = some (r >>= λ os. good (meta, os))

  -- `none` if the fuel of `read_epochs` ran out, which it never does.
  unfoldable pub read_observation_file :
      List Text → Option (Checked (Metadata fl × List (SignalObservation fl)))
  unfolding read_header read_observations
  read_observation_file lines = then_read (read_header fl parse_float lines) (λ (h, rest).
      with_meta h.meta (
        read_observations fl parse_float h.types.codes h.frq h.time_system
          (gps_utc_seconds h.meta.leap_seconds) rest))
