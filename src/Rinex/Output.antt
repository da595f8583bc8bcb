-- ===== src/Rinex/Output.antt =====
-- The writer of a whole file in obsj/src/rinexobs.rs: `write_epochs`, `write_observation_file` and the
-- sink `RinexSink`. Printing a number with decimals is the standard library's, a parameter.
use convobs_rs.Base.{ℕ, nat_eq, if◌then◌else◌, List, [], ◌∷◌, ◌++◌, length}
use convobs_rs.Base.Texts.{ascii}
use convobs_rs.Checked.{Checked, good, ◌>>=◌}
use convobs_rs.Float.{Floats}
use convobs_rs.Ids.{sat_eq}
use convobs_rs.Metadata.{Text, Metadata, is_empty, merge, default_metadata}
use convobs_rs.Time.{civil}
use convobs_rs.Time.Text.{zero_padded, signed_padded}
use convobs_rs.Values.{SignalObservation}
use convobs_rs.Rinex.{Epoch, ObsFile}
use convobs_rs.Rinex.Build.{build_obs_file}
use convobs_rs.Rinex.Columns.{pad_left, pad_right, satellite_lines}
use convobs_rs.Rinex.Write.{second_field, write_header}

abbrev pub default_rinex_version : Text
default_rinex_version = ascii "3.04"

module _ (fl : Floats) (print_fixed : ℕ → fl.F64 → Text) where
  -- The line of an epoch, filled up to 56 columns.
  unfoldable pub epoch_line : Epoch fl → Text
  unfolding second_field signed_padded zero_padded
  epoch_line e =
      let c = civil e.t in
      pad_right 56 (
        ascii "> "
        ++ (signed_padded 4 c.year
            ++ (b' '
                ∷ (zero_padded 2 c.month
                    ++ (b' '
                        ∷ (zero_padded 2 c.day
                            ++ (b' '
                                ∷ (zero_padded 2 c.hour
                                    ++ (b' '
                                        ∷ (zero_padded 2 c.minute
                                            ++ (b' '
                                                ∷ (second_field fl print_fixed c
                                                    ++ (ascii "  0"
                                                        ++ pad_left 3 (
                                                            zero_padded 0
                                                            (length e.sats)))))))))))))))

  abbrev pub joined : List Text → Text
  joined [] = []
  joined (line ∷ lines) = line ++ (10 ∷ joined lines)

  -- `write_epochs`
  unfoldable pub write_epochs : ObsFile fl → List (Epoch fl) → Text
  unfolding epoch_line satellite_lines
  write_epochs f [] = []
  write_epochs f (e ∷ es) =
      (epoch_line e ++ (10 ∷ joined (satellite_lines fl (print_fixed 3) f e e.sats)))
      ++ write_epochs f es

  abbrev pub with_version : Metadata fl → Metadata fl
  with_version m = if is_empty m.version then record m { version = default_rinex_version } else m

  -- `write_observation_file`: the text, and the metadata with their version.
  unfoldable pub write_observation_file :
      Metadata fl → List (SignalObservation fl) → Checked (Text × Metadata fl)
  unfolding build_obs_file write_header write_epochs
  write_observation_file m obs = build_obs_file obs >>= λ f.
      good
        (write_header fl print_fixed (with_version m) f ++ write_epochs f f.epochs, with_version m)

  -- `RinexSink`: what it holds, its operations, and the text of `flush`.
  pub record RinexSink : Type 0 where
    pub meta : Metadata fl
    pub obs : List (SignalObservation fl)

  abbrev pub new_sink : RinexSink
  new_sink = record { meta = default_metadata; obs = [] }

  unfoldable pub sink_metadata : RinexSink → Metadata fl → RinexSink
  unfolding merge
  sink_metadata s m = record s { meta = merge s.meta m }

  abbrev pub sink_observation : RinexSink → SignalObservation fl → RinexSink
  sink_observation s o = record s { obs = s.obs ++ (o ∷ []) }

  unfoldable pub sink_flush : RinexSink → Checked Text
  unfolding write_observation_file
  sink_flush s = write_observation_file s.meta s.obs >>= λ r. good r.0
