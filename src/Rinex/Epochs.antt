-- ===== src/Rinex/Epochs.antt =====
-- The reader's loop over epochs in obsj/src/rinexobs.rs: `read_epochs` and `skip_records`, over the
-- lines of the file behind its header, and `accumulate_arc` after it.
use convobs_rs.Base.{
  ℕ, zero, suc, not, ◌||◌, nat_beq, if◌then◌else◌, Option, none, some, List, [], ◌∷◌, ◌++◌, get_or,
  length,
}
use convobs_rs.Base.Int.{ℤ, pos, negsuc, pos_part}
use convobs_rs.Base.Map.{Map}
use convobs_rs.Base.Texts.{trim, trim_start, trim_end}
use convobs_rs.Arc.{lol_run}
use convobs_rs.Checked.{Checked, good, bad, ◌>>=◌}
use convobs_rs.Float.{Floats}
use convobs_rs.Ids.{SatId, ObsCode}
use convobs_rs.Metadata.{Text, is_empty}
use convobs_rs.Time.{GpsTime}
use convobs_rs.Values.{SignalObservation}
use convobs_rs.Rinex.Satellite.{parse_satellite_observation_line}
use convobs_rs.Rinex.Times.{EpochLine, parse_epoch_line, file_to_gps_time}

-- `skip_records`: the lines that are left.
unfoldable pub skip_records : ℕ → List Text → Checked (List Text)
skip_records zero lines = good lines
skip_records (suc n) [] = bad "rinex: unexpected EOF in records"
skip_records (suc n) (line ∷ lines) = skip_records n lines

-- What an epoch's flag asks for.
pub data EpochKind : Type 0 where
  observed skipped header_update unsupported : EpochKind

unfoldable pub epoch_kind : ℤ → EpochKind
epoch_kind (negsuc n) = unsupported
epoch_kind (pos n) =
    if nat_beq n 0 || nat_beq n 1
    then observed
    else if nat_beq n 2 || nat_beq n 3 || nat_beq n 5 || nat_beq n 6
    then skipped
    else if nat_beq n 4
    then header_update
    else unsupported

-- A step that may fail, and a loop that goes on behind it.
abbrev pub then_read {ℓ κ} :
    {X : Type ℓ} {Y : Type κ} → Checked X → (X → Option (Checked Y)) → Option (Checked Y)
then_read (good x) next = next x
then_read (bad message) next = some (bad message)
then_read Checked.panic next = some Checked.panic

abbrev pub with_front {ℓ} :
    {A : Type ℓ} → List A → Option (Checked (List A)) → Option (Checked (List A))
with_front os none = none
with_front os (some r) = some (r >>= λ others. good (os ++ others))

abbrev pub then_count :
    {fl : Floats}
    → Option (Checked (List (SignalObservation fl)))
    → Option (Checked (List (SignalObservation fl)))
then_count none = none
then_count (some r) = some (r >>= λ os. good (lol_run [] os))

module _ (fl : Floats) (parse_float : Text → Option fl.F64) (codes : Map ℕ (List ObsCode))
    (frq : Map SatId ℤ) (time_system : Text) (leap_seconds : ℤ) where
  -- The satellites of an epoch: their observations, and the lines that are left.
  unfoldable pub read_satellites :
      ℕ → GpsTime → List Text → Checked (List (SignalObservation fl) × List Text)
  unfolding parse_satellite_observation_line
  read_satellites zero t lines = good ([], lines)
  read_satellites (suc n) t [] = bad "rinex: unexpected EOF in epoch"
  read_satellites (suc n) t (line ∷ lines) = do
    os ← parse_satellite_observation_line fl parse_float codes frq t line
    (others, rest) ← read_satellites n t lines
    good (os ++ others, rest)

  -- What an epoch takes of the lines behind its own.
  unfoldable pub read_kind :
      EpochKind → EpochLine → List Text → Checked (List (SignalObservation fl) × List Text)
  unfolding skip_records read_satellites file_to_gps_time
  read_kind observed e lines =
      read_satellites (pos_part e.count) (file_to_gps_time e.t time_system leap_seconds) lines
  read_kind skipped e lines = skip_records (pos_part e.count) lines >>= λ rest. good ([], rest)
  read_kind header_update e lines = bad "rinex: unsupported mid-file header update"
  read_kind unsupported e lines = bad "rinex: unsupported epoch flag"

  unfoldable pub read_epoch :
      EpochLine → List Text → Checked (List (SignalObservation fl) × List Text)
  unfolding epoch_kind read_kind
  read_epoch e lines = read_kind (epoch_kind e.flag) e lines

  -- `read_epochs`, on fuel; `none` when it runs out. The lines are in ASCII, on which the step
  -- `from_utf8_lossy` of `next_line` changes nothing; in an epoch line `parse_epoch_line` also has
  -- the panics of other lines.
  unfoldable pub read_epochs : ℕ → List Text → Option (Checked (List (SignalObservation fl)))
  unfolding read_epoch parse_epoch_line trim_start trim_end
  read_epochs zero lines = none
  read_epochs (suc fuel) [] = some (good [])
  read_epochs (suc fuel) (line ∷ lines) =
      let later = read_epochs fuel lines in
      let epoch : Option (Checked (List (SignalObservation fl))) =
        then_read (parse_epoch_line line >>= λ e. read_epoch e lines)
          (λ taken. with_front (taken.0) (read_epochs fuel (taken.1))) in
      if is_empty (trim line)
      then later
      else if not (nat_beq (get_or line 0 0) b'>')
      then some (bad "rinex: expected epoch line")
      else epoch

  -- The observations of the lines behind the header, with `accumulate_arc`.
  unfoldable pub read_observations : List Text → Option (Checked (List (SignalObservation fl)))
  unfolding read_epochs lol_run
  read_observations lines = then_count (read_epochs (suc (length lines)) lines)
