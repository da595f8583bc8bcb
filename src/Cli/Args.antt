-- ===== src/Cli/Args.antt =====
-- The arguments of cli/src/lib.rs: `parse_args` behind the matching of options, which is the `clap`
-- crate's. The values that it matched are a record; a text that the system or another crate gives
-- (environment, header file, TOML) and the parsing of decimal numbers are parameters.
pub mod Rules
use Prim.Native.String.{String}
use convobs_rs.Base.{
  ℕ, ◌+◌, ◌^◌, Bool, true, false, not, ◌&&◌, ◌||◌, ltb, if◌then◌else◌, Option, none, some, is_some,
  unwrap_or, List, [], ◌∷◌, ◌==◌,
}
use convobs_rs.Base.Int.{ℤ, pos}
use convobs_rs.Base.Texts.{ascii, text_beq, text_eq, to_lowercase, parse_unsigned}
use convobs_rs.Float.{Floats}
use convobs_rs.Metadata.{Text, Metadata, default_metadata, is_empty}
use convobs_rs.Sink.{validate_decimation_interval}
use convobs_rs.Time.{Instant}
use convobs_rs.Cli.{
  Checked, good, bad, ◌>>=◌, ◌>>◌, refuse_if, or_bad, checked, InputFormat, raw, ubx, rtcm, rinex,
  obs_json, OutputFormat, to_rinex, to_obs_json, WeekMode, auto, recent, date, filename,
  RinexBackend, packet_input, may_use_rtcm, may_use_ubx, is_auto, is_filename, is_rinex,
  is_to_rinex, Config,
}
use convobs_rs.Cli.Backend.{parse_backend}
use convobs_rs.Cli.Filename.{parse_yyyymmdd}
use convobs_rs.Cli.Header.{
  TomlMeta, HeaderFlags, read_header_file, set_metadata_defaults, apply_metadata_flags,
}
use convobs_rs.Cli.Weeks.{second_ns}

-- The matched options; `…_changed` says that the value stands on the command line.
pub record ArgMatches : Type 0 where
  pub help : Bool
  pub from : Text
  pub to : Text
  pub packet_log : Bool
  pub date : Option Text
  pub recent : Bool
  pub date_from_filename : Bool
  pub interval : Text
  pub ppp_ar : Bool
  pub header_file : Option Text
  pub rinex_backend : Text
  pub output : Option Text
  pub strict_prr : Bool
  pub omit_zero_do : Bool
  pub slip_threshold : Text
  pub slip_threshold_changed : Bool
  pub bds_geo_half_cycle : Bool
  pub bds_geo_half_cycle_changed : Bool
  pub inputs : List Text
  pub header : HeaderFlags

unfoldable pub input_format : Text → Checked InputFormat
unfolding to_lowercase
input_format s =
    let low = to_lowercase s in
    if low == ascii "raw"
    then good raw
    else if low == ascii "ubx"
    then good ubx
    else if low == ascii "rtcm"
    then good rtcm
    else if low == ascii "rinex"
    then good rinex
    else if low == ascii "obsj"
    then good obs_json
    else bad "unsupported input format"

unfoldable pub output_format : Text → Checked OutputFormat
unfolding to_lowercase
output_format s =
    let low = to_lowercase s in
    if low == ascii "rinex"
    then good to_rinex
    else if low == ascii "obsj"
    then good to_obs_json
    else bad "unsupported output format"

abbrev pub count : Bool → ℕ
count true = 1
count false = 0

abbrev pub epoch : Instant
epoch = record { secs = pos 0; nanos = 0 }

-- The mode and its date, from `--date`, `--recent` and `--date-from-filename`.
unfoldable pub week_choice : ArgMatches → Checked (WeekMode × Instant)
unfolding parse_yyyymmdd
week_choice m =
    let day = unwrap_or m.date [] in
    let by_date : Checked (WeekMode × Instant) = parse_yyyymmdd day >>= λ t. good (date, t) in
    refuse_if (ltb 1 (count (not (is_empty day)) + count m.recent + count m.date_from_filename))
      "--date, --recent, and --date-from-filename are mutually exclusive"
    >> (if not (is_empty day)
        then by_date
        else if m.recent
        then good (recent, epoch)
        else if m.date_from_filename
        then good (filename, epoch)
        else good (auto, epoch))

unfoldable pub log_guard : ArgMatches → InputFormat → Checked (Unit {0})
log_guard m from =
    refuse_if (m.packet_log && not (packet_input from))
      "--packet-log is valid only with packet input formats"

unfoldable pub threshold_choice : Text → Checked ℕ
unfolding parse_unsigned
threshold_choice s = or_bad (parse_unsigned 256 s) "--ubx-slip-threshold must be a number 0-255"

-- The guards on options that only some inputs have.
unfoldable pub week_guards : ArgMatches → InputFormat → WeekMode → Checked (Unit {0})
week_guards m from mode = do
  refuse_if (m.packet_log && not (is_auto mode))
      "--date, --recent, and --date-from-filename are not valid with --packet-log"
  refuse_if (not (is_auto mode) && not (may_use_rtcm from))
      "--date, --recent, and --date-from-filename are valid only with raw or RTCM input"

unfoldable pub option_guards : ArgMatches → InputFormat → Checked (Unit {0})
option_guards m from = do
  refuse_if (m.strict_prr && not (may_use_rtcm from))
      "--rtcm-strict-prr is valid only with raw or RTCM input"
  refuse_if (m.omit_zero_do && not (may_use_rtcm from))
      "--rtcm-omit-zero-do is valid only with raw or RTCM input"
  refuse_if (m.slip_threshold_changed && not (may_use_ubx from))
      "--ubx-slip-threshold is valid only with raw or UBX input"
  refuse_if (m.bds_geo_half_cycle_changed && not (may_use_ubx from))
      "--ubx-bds-geo-half-cycle is valid only with raw or UBX input"

abbrev pub any_stdin : List Text → Bool
any_stdin [] = false
any_stdin (p ∷ ps) = p == ascii "-" || any_stdin ps

unfoldable pub input_guards : List Text → WeekMode → Checked (Unit {0})
input_guards inputs mode = do
  refuse_if (is_empty inputs) "expected at least one input file"
  refuse_if (is_filename mode && any_stdin inputs) "--date-from-filename is not valid with stdin"

unfoldable pub backend_choice : Text → InputFormat → OutputFormat → Checked (Option RinexBackend)
unfolding parse_backend
backend_choice s from to = do
  backend ← parse_backend s
  refuse_if (is_some backend && not (is_rinex from || is_to_rinex to))
      "--rinex-backend is valid only with RINEX input or output"
  good backend

-- `--help` is answered before anything else is looked at.
abbrev pub unless_help : {fl : Floats} → Bool → Checked (Config fl) → Checked (Option (Config fl))
unless_help true answer = good none
unless_help false answer = answer >>= λ cfg. good (some cfg)

abbrev pub lt_f : (fl : Floats) → fl.F64 → fl.F64 → Bool
lt_f fl a b = fl.le a b && not (fl.eq a b)

abbrev pub interval_message : String
interval_message = "--interval must be a finite non-negative number of seconds"

-- A positive interval has to be one that decimation takes.
unfoldable pub checked_interval : (fl : Floats) → fl.F64 → Checked ℤ
unfolding validate_decimation_interval
checked_interval fl seconds =
    let ns = fl.to_i64 (fl.round (fl.mul seconds (fl.of_int (pos second_ns)))) in
    do
      refuse_if (not (fl.is_finite seconds) || lt_f fl seconds (fl.lit 0 0)) interval_message
      (if lt_f fl (fl.lit 0 0) seconds then checked (validate_decimation_interval ns) else good tt)
      good ns

module _ (fl : Floats) (parse_float : Text → Option fl.F64) where
  -- `--interval`, in nanoseconds.
  unfoldable pub interval_choice : Text → Checked ℤ
  unfolding checked_interval
  interval_choice s = or_bad (parse_float s) interval_message >>= checked_interval fl

  module _ (read_to_string : Text → Checked Text) (from_str : Text → Checked (TomlMeta fl))
      (user : Option Text) where
    -- The metadata of the header file, the defaults and the options, in that order.
    unfoldable pub header_metadata : Option Text → Instant → ℤ → HeaderFlags → Checked (Metadata fl)
    unfolding read_header_file set_metadata_defaults apply_metadata_flags
    header_metadata path now interval_ns flags =
        let file : Checked (Metadata fl) = elim path [
          | none ↦ good default_metadata
          | some p ↦ read_to_string p >>= read_header_file from_str
        ] in
        do
          meta ← file
          meta' ← set_metadata_defaults user now interval_ns meta
          apply_metadata_flags fl parse_float flags meta'

    -- `parse_args`; `none` is the answer to `--help`.
    unfoldable pub accept : ArgMatches → Instant → Checked (Config fl)
    unfolding log_guard threshold_choice input_format output_format week_choice week_guards
        option_guards interval_choice input_guards backend_choice header_metadata
    accept m now = do
      from ← input_format m.from
      to ← output_format m.to
      log_guard m from
      (mode, day) ← week_choice m
      week_guards m from mode
      option_guards m from
      interval_ns ← interval_choice m.interval
      input_guards m.inputs mode
      threshold ← threshold_choice m.slip_threshold
      backend ← backend_choice m.rinex_backend from to
      meta ← header_metadata m.header_file now interval_ns m.header
      good (record {
        from = from;
        to = to;
        packet_log = m.packet_log;
        require_cp = m.ppp_ar;
        interval_ns = interval_ns;
        week_mode = mode;
        week_date = day;
        inputs = m.inputs;
        output_path = m.output;
        rinex_backend = backend;
        rtcm_opts = record {
          use_spec_phase_range_rate_sign = m.strict_prr;
          omit_zero_do = m.omit_zero_do;
        };
        ubx_opts = record { slip_threshold = threshold; bds_geo_half_cycle = m.bds_geo_half_cycle };
        meta = meta;
      })

    unfoldable pub parse_args : ArgMatches → Instant → Checked (Option (Config fl))
    unfolding accept
    parse_args m now = unless_help m.help (accept m now)
