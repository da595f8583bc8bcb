-- ===== src/Rinex/Head.antt =====
-- The header in the reader of obsj/src/rinexobs.rs: `read_header`, over the lines of the file.
mod Tests
pub mod End
use convobs_rs.Base.{
  ℕ, Bool, nat_beq, if◌then◌else◌, Option, none, some, List, [], ◌∷◌, ◌++◌, take, drop, ◌==◌,
}
use convobs_rs.Base.Int.{ℤ}
use convobs_rs.Base.Map.{Map}
use convobs_rs.Base.Texts.{ascii, text_eq, trim, trim_start, trim_end, parse_signed}
use convobs_rs.Base.Word.{i64_half, signed, emod}
use convobs_rs.Checked.{Checked, good, bad, ◌>>=◌, or_bad}
use convobs_rs.Float.{Floats}
use convobs_rs.Ids.{SatId, ObsCode}
use convobs_rs.Metadata.{Text, Metadata, default_metadata, is_empty}
use convobs_rs.Rinex.Columns.{pad_line}
use convobs_rs.Rinex.Times.{columns, file_time_system}
use convobs_rs.Rinex.Records.{
  ObsTypes, split_whitespace, first_of, read_obs_types_header, read_signal_strength_unit,
  read_glonass_freq_header, read_time_system,
}
use convobs_rs.Rinex.RunDate.{parse_run_date, parse_float_triple}

-- `trim_end_matches(' ')`
unfoldable pub trim_end_spaces : Text → Text
trim_end_spaces [] = []
trim_end_spaces (c ∷ cs) =
    let rest = trim_end_spaces cs in
    elim rest [ [] ↦ if nat_beq c b' ' then [] else c ∷ [] | d ∷ ds ↦ c ∷ d ∷ ds ]

-- `as i16`
abbrev pub as_i16 : ℤ → ℤ
as_i16 z = signed 32768 (emod z 65536)

pub record ObsHeader (fl : Floats) : Type 0 where
  pub meta : Metadata fl
  pub types : ObsTypes
  pub frq : Map SatId ℤ
  pub sys : ℕ
  pub time_system : Text

abbrev pub new_header : {fl : Floats} → ObsHeader fl
new_header = record {
  meta = default_metadata;
  types = record { codes = []; counts = [] };
  frq = [];
  sys = 0;
  time_system = [];
}

-- The content and the label of a line in ASCII. (In other lines a column may stand inside of a
-- character, where the slices of `read_header` panic; lines of a header are modelled in ASCII.)
abbrev pub content_of : Text → Text
content_of raw = take 60 (pad_line raw 80)

unfoldable pub label_of : Text → Text
unfolding trim_start trim_end
label_of raw = columns (pad_line raw 80) 60 20

abbrev pub is_end : Text → Bool
is_end raw = label_of raw == ascii "END OF HEADER"

module _ (fl : Floats) (parse_float : Text → Option fl.F64) where
  -- The old value where there is no new one.
  abbrev pub or_kept {ℓ} : {A : Type ℓ} → Option A → Option A → Option A
  or_kept none old = old
  or_kept (some x) old = some x

  -- The records that are facts and never fail.
  unfoldable pub read_fact : Text → Text → Metadata fl → Metadata fl
  unfolding split_whitespace parse_run_date parse_float_triple trim_end_spaces trim_start trim_end
  read_fact label content m =
      if label == ascii "RINEX VERSION / TYPE"
      then elim (first_of (split_whitespace (take 20 content))) [
        | none ↦ m
        | some field ↦ record m { version = field }
      ]
      else if label == ascii "PGM / RUN BY / DATE"
      then record m {
        run = record {
          program = columns content 0 20;
          by = columns content 20 20;
          date = parse_run_date (drop 40 content);
        };
      }
      else if label == ascii "COMMENT"
      then record m { comment = m.comment ++ (trim_end_spaces content ∷ []) }
      else if label == ascii "MARKER NAME"
      then record m { marker = record m.marker { name = trim content } }
      else if label == ascii "MARKER NUMBER"
      then record m { marker = record m.marker { number = trim content } }
      else if label == ascii "MARKER TYPE"
      then record m { marker = record m.marker { type_ = trim content } }
      else if label == ascii "OBSERVER / AGENCY"
      then record m { observer = columns content 0 20; agency = columns content 20 40 }
      else if label == ascii "REC # / TYPE / VERS"
      then record m {
        receiver = record {
          number = columns content 0 20;
          type_ = columns content 20 20;
          version = columns content 40 20;
        };
      }
      else if label == ascii "ANT # / TYPE"
      then record m {
        antenna = record { number = columns content 0 20; type_ = columns content 20 20 };
      }
      else if label == ascii "APPROX POSITION XYZ"
      then record m {
        approx_position = or_kept (parse_float_triple fl parse_float content) m.approx_position;
      }
      else if label == ascii "ANTENNA: DELTA H/E/N"
      then record m {
        antenna_delta = or_kept (parse_float_triple fl parse_float content) m.antenna_delta;
      }
      else m

  unfoldable pub read_interval : Text → ObsHeader fl → Checked (ObsHeader fl)
  unfolding split_whitespace
  read_interval content h = elim (first_of (split_whitespace content)) [
    | none ↦ good h
    | some field ↦ or_bad (parse_float field) "rinex: invalid interval" >>= λ v.
        good (record h { meta = record h.meta { interval = some v } })
  ]

  unfoldable pub read_leap_seconds : Text → ObsHeader fl → Checked (ObsHeader fl)
  unfolding split_whitespace parse_signed
  read_leap_seconds content h = elim (first_of (split_whitespace content)) [
    | none ↦ good h
    | some field ↦ or_bad (parse_signed i64_half field) "rinex: invalid leap seconds" >>= λ n.
        good (record h { meta = record h.meta { leap_seconds = some (as_i16 n) } })
  ]

  abbrev pub with_time_system : Option Text → ObsHeader fl → ObsHeader fl
  with_time_system none h = h
  with_time_system (some sys) h = record h { time_system = sys }

  -- A record of the header that is not its last.
  unfoldable pub read_record : Text → Text → ObsHeader fl → Checked (ObsHeader fl)
  unfolding read_fact read_interval read_leap_seconds read_obs_types_header
      read_signal_strength_unit read_glonass_freq_header read_time_system
  read_record label content h =
      if label == ascii "SYS / # / OBS TYPES"
      then read_obs_types_header content h.sys h.types
        >>= (λ r. good (record h { sys = r.0; types = r.1 }))
      else if label == ascii "SYS / SCALE FACTOR"
      then bad "rinex: unsupported SYS / SCALE FACTOR header"
      else if label == ascii "SIGNAL STRENGTH UNIT"
      then read_signal_strength_unit content >>= (λ u. good h)
      else if label == ascii "INTERVAL"
      then read_interval content h
      else if label == ascii "GLONASS SLOT / FRQ #"
      then read_glonass_freq_header content h.frq >>= (λ frq. good (record h { frq = frq }))
      else if label == ascii "TIME OF FIRST OBS"
      then good (with_time_system (read_time_system content) h)
      else if label == ascii "TIME OF LAST OBS"
      then good
          (if is_empty h.time_system then with_time_system (read_time_system content) h else h)
      else if label == ascii "LEAP SECONDS"
      then read_leap_seconds content h
      else good (record h { meta = read_fact label content h.meta })

  -- The header at its last record.
  unfoldable pub finished : ObsHeader fl → ObsHeader fl
  unfolding file_time_system
  finished h =
      if is_empty h.time_system
      then record h { time_system = file_time_system h.types.codes }
      else h

  -- `read_header`, of lines in ASCII: the header, and the lines that are left.
  unfoldable pub read_header_from : ObsHeader fl → List Text → Checked (ObsHeader fl × List Text)
  unfolding read_record finished label_of
  read_header_from h [] = bad "rinex: missing END OF HEADER"
  read_header_from h (raw ∷ lines) =
      let later =
        read_record (label_of raw) (content_of raw) h >>= λ next. read_header_from next lines in
      if is_end raw then good (finished h, lines) else later

  unfoldable pub read_header : List Text → Checked (ObsHeader fl × List Text)
  unfolding read_header_from
  read_header lines = read_header_from new_header lines
