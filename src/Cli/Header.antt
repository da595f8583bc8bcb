-- ===== src/Cli/Header.antt =====
-- The header's metadata, of cli/src/lib.rs: the header file, the defaults and the options. Parsing of
-- TOML and of decimal numbers is a parameter: the `toml` crate's and the standard library's.
use convobs_rs.Base.{
  ℕ, not, ◌&&◌, ltb, if◌then◌else◌, Option, none, some, is_some, unwrap_or, List, [], ◌∷◌, length,
  take, ◌>>=?◌,
}
use convobs_rs.Base.Int.{ℤ, pos, int_beq}
use convobs_rs.Base.Texts.{ascii, is_char_boundary, split, trim, lines}
use convobs_rs.Float.{Floats}
use convobs_rs.Metadata.{Text, is_empty, Metadata, default_metadata}
use convobs_rs.Time.{Instant, instant_from_civil}
use convobs_rs.Cli.{Checked, good, bad, ◌>>=◌, ◌>>◌, panic_if, or_bad}
use convobs_rs.Cli.Weeks.{second_ns}

-- `unwrap_or_default`
abbrev pub or_empty {ℓ} : {A : Type ℓ} → Option (List A) → List A
or_empty o = unwrap_or o []

-- A date and time of TOML: each part may be missing.
pub record TomlDate : Type 0 where
  pub year : ℕ
  pub month : ℕ
  pub day : ℕ

pub record TomlTime : Type 0 where
  pub hour : ℕ
  pub minute : ℕ
  pub second : ℕ
  pub nanosecond : ℕ

pub record Datetime : Type 0 where
  pub date : Option TomlDate
  pub time : Option TomlTime

abbrev pub toml_midnight : TomlTime
toml_midnight = record { hour = 0; minute = 0; second = 0; nanosecond = 0 }

unfoldable pub toml_datetime_to_instant : Datetime → Option Instant
toml_datetime_to_instant dt = dt.date >>=? λ day.
    let t = unwrap_or dt.time toml_midnight in
    some (
      instant_from_civil (record {
        year = pos day.year;
        month = day.month;
        day = day.day;
        hour = t.hour;
        minute = t.minute;
        second = t.second;
        nanos = t.nanosecond;
      }))

pub record TomlRun : Type 0 where
  pub program : Option Text
  pub by : Option Text
  pub date : Option Datetime

pub data TomlComment : Type 0 where
  one : Text → TomlComment
  many : List Text → TomlComment

pub record TomlMarker : Type 0 where
  pub name : Option Text
  pub number : Option Text
  pub type_ : Option Text

pub record TomlReceiver : Type 0 where
  pub number : Option Text
  pub type_ : Option Text
  pub version : Option Text

pub record TomlAntenna : Type 0 where
  pub number : Option Text
  pub type_ : Option Text

pub record TomlMeta (fl : Floats) : Type 0 where
  pub version : Option Text
  pub run : Option TomlRun
  pub comment : Option TomlComment
  pub marker : Option TomlMarker
  pub observer : Option Text
  pub agency : Option Text
  pub receiver : Option TomlReceiver
  pub antenna : Option TomlAntenna
  pub approx_position : Option (fl.F64 × fl.F64 × fl.F64)
  pub antenna_delta : Option (fl.F64 × fl.F64 × fl.F64)
  pub interval : Option fl.F64
  pub leap_seconds : Option ℤ

abbrev pub comment_lines : Option TomlComment → List Text
comment_lines none = []
comment_lines (some (one s)) = lines s
comment_lines (some (many v)) = v

-- `RUN BY` from the environment: at most 20 bytes, cut by `truncate`, which panics inside a
-- character.
unfoldable pub user_name : Option Text → Checked Text
user_name user =
    let by = or_empty user in
    if ltb 20 (length by)
    then (panic_if (not (is_char_boundary by 20)) >> good (take 20 by))
    else good by

module _ {fl : Floats} where
  -- `if let Some(run) = tm.run { … }` and the three that follow it.
  abbrev pub with_run : Option TomlRun → Metadata fl → Metadata fl
  with_run none meta = meta
  with_run (some r) meta = record meta {
    run = record {
      program = or_empty r.program;
      by = or_empty r.by;
      date = r.date >>=? toml_datetime_to_instant;
    };
  }

  abbrev pub with_marker : Option TomlMarker → Metadata fl → Metadata fl
  with_marker none meta = meta
  with_marker (some r) meta = record meta {
    marker = record {
      name = or_empty r.name;
      number = or_empty r.number;
      type_ = or_empty r.type_;
    };
  }

  abbrev pub with_receiver : Option TomlReceiver → Metadata fl → Metadata fl
  with_receiver none meta = meta
  with_receiver (some r) meta = record meta {
    receiver = record {
      number = or_empty r.number;
      type_ = or_empty r.type_;
      version = or_empty r.version;
    };
  }

  abbrev pub with_antenna : Option TomlAntenna → Metadata fl → Metadata fl
  with_antenna none meta = meta
  with_antenna (some r) meta = record meta {
    antenna = record { number = or_empty r.number; type_ = or_empty r.type_ };
  }

  -- `read_header_file` behind `toml::from_str`.
  unfoldable pub metadata_of_toml : TomlMeta fl → Metadata fl
  unfolding toml_datetime_to_instant
  metadata_of_toml tm = with_antenna tm.antenna (
      with_receiver tm.receiver (
        with_marker tm.marker (
          with_run tm.run (record default_metadata {
            version = or_empty tm.version;
            comment = comment_lines tm.comment;
            observer = or_empty tm.observer;
            agency = or_empty tm.agency;
            approx_position = tm.approx_position;
            antenna_delta = tm.antenna_delta;
            interval = tm.interval;
            leap_seconds = tm.leap_seconds;
          }))))

  unfoldable pub read_header_file : (Text → Checked (TomlMeta fl)) → Text → Checked (Metadata fl)
  unfolding metadata_of_toml
  read_header_file from_str text = from_str text >>= λ tm. good (metadata_of_toml tm)

  -- The last defaults: the time of the run and the interval.
  abbrev pub with_times : Instant → ℤ → Metadata fl → Metadata fl
  with_times now interval_ns meta = record meta {
    run = record (meta.run) { date = if is_some meta.run.date then meta.run.date else some now };
    interval =
        if not (is_some meta.interval) && not (int_beq interval_ns (pos 0))
        then some (fl.div (fl.of_int interval_ns) (fl.of_int (pos second_ns)))
        else meta.interval;
  }

  abbrev pub with_texts : Text → Metadata fl → Metadata fl
  with_texts by meta = record meta {
    version = if is_empty meta.version then ascii "3.04" else meta.version;
    run = record (meta.run) {
      program = if is_empty meta.run.program then ascii "convobs" else meta.run.program;
      by = by;
    };
  }

  -- `user` is the value of the environment variable `USER`.
  unfoldable pub set_metadata_defaults :
      Option Text → Instant → ℤ → Metadata fl → Checked (Metadata fl)
  unfolding user_name
  set_metadata_defaults user now interval_ns meta = do
    by ← if is_empty meta.run.by then user_name user else good meta.run.by
    good (with_times now interval_ns (with_texts by meta))

-- The values of the options for the header that stand on the command line.
pub record HeaderFlags : Type 0 where
  pub rinex_version : Option Text
  pub program : Option Text
  pub run_by : Option Text
  pub antenna : Option Text
  pub approx_pos : Option Text
  pub comment : Option (List Text)

module _ (fl : Floats) (parse_float : Text → Option fl.F64) where
  -- `parse_xyz`; `parse_float` is the standard library's `parse` for an `f64`.
  unfoldable pub parse_xyz : Text → Checked (fl.F64 × fl.F64 × fl.F64)
  parse_xyz s = elim (split b',' s) [
    | x ∷ y ∷ z ∷ [] ↦ do
      x' ← or_bad (parse_float (trim x)) "--approx-pos contains an invalid number"
      y' ← or_bad (parse_float (trim y)) "--approx-pos contains an invalid number"
      z' ← or_bad (parse_float (trim z)) "--approx-pos contains an invalid number"
      good (x', y', z')
    | _ ↦ bad "--approx-pos must contain three comma-separated numbers"
  ]

  abbrev pub flagged_position :
      Option Text → Option (fl.F64 × fl.F64 × fl.F64) → Checked (Option (fl.F64 × fl.F64 × fl.F64))
  flagged_position none old = good old
  flagged_position (some []) old = good none
  flagged_position (some (c ∷ s)) old = parse_xyz (c ∷ s) >>= λ xyz. good (some xyz)

  unfoldable pub apply_metadata_flags : HeaderFlags → Metadata fl → Checked (Metadata fl)
  unfolding parse_xyz split
  apply_metadata_flags flags meta = do
    position ← flagged_position flags.approx_pos meta.approx_position
    good (record meta {
      version = unwrap_or flags.rinex_version meta.version;
      run = record (meta.run) {
        program = unwrap_or flags.program meta.run.program;
        by = unwrap_or flags.run_by meta.run.by;
      };
      antenna = record (meta.antenna) { type_ = unwrap_or flags.antenna meta.antenna.type_ };
      approx_position = position;
      comment = unwrap_or flags.comment meta.comment;
    })
