-- ===== src/Cli/Tests.antt =====
-- Tests of the models of cli/src.
use convobs_rs.Base.{
  ℕ, suc, ◌==◌, ◌≡◌, refl, ◌↔◌, true, false, Option, none, some, List, [], ◌∷◌, ◌++◌, if◌then◌else◌,
  length, arith,
}
use convobs_rs.Base.Int.{ℤ, pos, tdiv, tmod, ◌+ℤ◌, ◌-ℤ◌, ◌*ℤ◌}
use convobs_rs.Base.Word.{add_i64, sub_i64, mul_i64, wrap_i64, emod, signed, as_u32}
use convobs_rs.Base.Texts.{ascii, text_eq, parse_unsigned, parse_signed, digits_from}
use convobs_rs.Error.{Result, ok}
use convobs_rs.Metadata.{Text, Metadata, default_metadata}
use convobs_rs.Samples.{sixes, sixes_documented, int_floats, slipped_observation, blank_observation}
use convobs_rs.Time.{
  Instant, year_of_era, day_of_year, march_month, day_of_month, civil_month, civil_of_era,
  civil_from_days, days_of_era, days_from_civil, is_valid, unix_of_civil, instant_from_civil,
}
use convobs_rs.Values.{SignalObservation}
use convobs_rs.Arc.{lol_run}
use convobs_rs.Arc.Roundtrip.{kept, surfaced}
use convobs_rs.Sink.{decimation_interval_ticks}
use convobs_rs.Cli.Args.{ArgMatches, parse_args}
use convobs_rs.Cli.Args.Rules.{Consistent, parse_args-Consistent}
use convobs_rs.Cli.Header.{HeaderFlags, with_times, with_texts}
use convobs_rs.Cli.Pipeline.{packet_chain, stage_ticks, open_writer}
use convobs_rs.Cli.Pipeline.Surface.{passes, flags_of, packet_chain-surfaced}
use convobs_rs.Rinex.Build.{sort_by_time}
use convobs_rs.Rinex.Kept.{flagged}
use convobs_rs.Rtcm
use convobs_rs.Rtcm.{TimeInterval}
use convobs_rs.Rtcm.Frame.{Message, glonass_biases}
use convobs_rs.Rtcm.Stream.{Frame, frames}
use convobs_rs.Rtcm.Frames.{Chain, first_of}
use convobs_rs.Ubx
use convobs_rs.Ubx.{Rawx}
use convobs_rs.Ubx.Scan.{is_rawx_frame}
use convobs_rs.Ubx.Frames.{Answers}
use convobs_rs.Cli.Detect.{ubx_kind, detect_raw_family}
use convobs_rs.Cli.Detect.First.{Earliest, detect_raw_family-Earliest}
use convobs_rs.Cli.Driver.{Driver, pending, ubx_family, no_interval}
use convobs_rs.Cli.Driver.Locked.{Keeps, payloads, tagged, payloads-tagged}
use convobs_rs.Cli.Log.{Entry, convert_packet_log}
use convobs_rs.Cli.Log.Family.{convert_packet_log-Keeps}
use convobs_rs.Cli.{
  Checked, good, bad, panic, external, raw, rtcm, to_rinex, to_obs_json, recent, Config,
}
use convobs_rs.Cli.Backend.{
  rinex_sink, open_rinex_input, is_crinex, Wanted, CanRead, open_rinex_input-ok_iff,
}
use convobs_rs.Cli.Filename.{digit_runs, runs_from, parse_yyyymmdd, date_from_filename}

digit_runs_test : digit_runs (ascii "a12b345") ≡ ascii "12" ∷ ascii "345" ∷ []
unfolding runs_from
digit_runs_test = refl

parse_yyyymmdd_test :
    parse_yyyymmdd (ascii "20250301") ≡ good (record { secs = pos 1740787200; nanos = 0 })
unfolding parse_yyyymmdd parse_signed parse_unsigned digits_from is_valid days_from_civil
    days_of_era civil_from_days civil_of_era year_of_era day_of_year march_month day_of_month
    civil_month instant_from_civil unix_of_civil tdiv add_i64 sub_i64 mul_i64 wrap_i64 emod ◌+ℤ◌
    ◌-ℤ◌ ◌*ℤ◌ as_u32 signed
parse_yyyymmdd_test = refl

-- The bytes of "202é0101": the text is cut inside a character.
parse_yyyymmdd_panic : parse_yyyymmdd (ascii "202" ++ (0xC3 ∷ 0xA9 ∷ ascii "101")) ≡ panic
unfolding parse_yyyymmdd parse_signed digits_from
parse_yyyymmdd_panic = refl

filename_test :
    date_from_filename (λ p. some p) (ascii "base_20250301_20250301.rtcm3")
    ≡ good (record { secs = pos 1740787200; nanos = 0 })
unfolding date_from_filename parse_signed parse_unsigned digits_from is_valid days_from_civil
    days_of_era civil_from_days civil_of_era year_of_era day_of_year march_month day_of_month
    civil_month instant_from_civil unix_of_civil tdiv add_i64 sub_i64 mul_i64 wrap_i64 emod ◌+ℤ◌
    ◌-ℤ◌ ◌*ℤ◌ as_u32 signed
filename_test = refl

open_rinex_input-ok_iff_example :
    (open_rinex_input true none (ascii "CRINEX VERS") ≡ ok external) ↔ (
      (external ≡ Wanted true none (is_crinex (ascii "CRINEX VERS")))
      × CanRead true external (is_crinex (ascii "CRINEX VERS")))
open_rinex_input-ok_iff_example = open_rinex_input-ok_iff true none (ascii "CRINEX VERS") external

abbrev no_flags : HeaderFlags
no_flags = record {
  rinex_version = none;
  program = none;
  run_by = none;
  antenna = none;
  approx_pos = none;
  comment = none;
}

-- `convobs --from rtcm --to obsj --recent --interval 30 base.rtcm3`
abbrev sample_args : ArgMatches
sample_args = record {
  help = false;
  from = ascii "RTCM";
  to = ascii "obsj";
  packet_log = false;
  date = none;
  recent = true;
  date_from_filename = false;
  interval = ascii "30";
  ppp_ar = false;
  header_file = none;
  rinex_backend = ascii "auto";
  output = none;
  strict_prr = true;
  omit_zero_do = false;
  slip_threshold = ascii "15";
  slip_threshold_changed = false;
  bds_geo_half_cycle = false;
  bds_geo_half_cycle_changed = false;
  inputs = ascii "base.rtcm3" ∷ [];
  header = no_flags;
}

abbrev start : Instant
start = record { secs = pos 1740787200; nanos = 0 }

-- Every number is read as 30.
abbrev thirty : Text → Option ℤ
thirty s = some (pos 30)

abbrev sample_config : Config int_floats
sample_config = record {
  from = rtcm;
  to = to_obs_json;
  packet_log = false;
  require_cp = false;
  interval_ns = pos 30000000000;
  week_mode = recent;
  week_date = record { secs = pos 0; nanos = 0 };
  inputs = ascii "base.rtcm3" ∷ [];
  output_path = none;
  rinex_backend = none;
  rtcm_opts = record { use_spec_phase_range_rate_sign = true; omit_zero_do = false };
  ubx_opts = record { slip_threshold = 15; bds_geo_half_cycle = false };
  meta = with_times start (pos 30000000000) (with_texts [] default_metadata);
}

abbrev no_file : {A : Type 0} → Text → Checked A
no_file s = bad "no file"

sample_accepted :
    parse_args int_floats thirty no_file no_file none sample_args start ≡ good (some sample_config)
unfolding parse_args decimation_interval_ticks ◌*ℤ◌ tmod digits_from
sample_accepted = refl

parse_args-Consistent_example : Consistent int_floats thirty sample_args sample_config
parse_args-Consistent_example =
    parse_args-Consistent int_floats thirty no_file no_file none sample_args start sample_config
      sample_accepted

sample_ticks : stage_ticks (pos 30000000000) ≡ ok (some (pos 300000000))
unfolding stage_ticks tmod tdiv
sample_ticks = refl

writer_opens : open_writer false to_rinex none ≡ ok tt
unfolding rinex_sink
writer_opens = refl

abbrev rinex_config : Config int_floats
rinex_config = record sample_config { to = to_rinex; rinex_backend = none }

packet_chain-surfaced_example :
    (gets : List (SignalObservation int_floats) → Option (List (SignalObservation int_floats)))
    × (got : List (SignalObservation int_floats)) × (packet_chain false rinex_config ≡ ok gets)
    × (gets (slipped_observation ∷ blank_observation ∷ []) ≡ some got)
    × (got
        ≡ kept
            (passes false (some (pos 300000000)))
            (lol_run [] (slipped_observation ∷ blank_observation ∷ [])))
    × (flags_of (flagged [] (sort_by_time got))
        ≡ surfaced
            (passes false (some (pos 300000000)))
            []
            (slipped_observation ∷ blank_observation ∷ []))
packet_chain-surfaced_example =
    packet_chain-surfaced false rinex_config (some (pos 300000000)) writer_opens sample_ticks
      (slipped_observation ∷ blank_observation ∷ [])
      ((omega arith, omega arith), ((omega arith, omega arith), tt)) ((refl, tt), (tt, tt))
      (omega arith)

-- The observations are kept in a list, a parser counts its chunks and finds one message without
-- measurements in each, and every RTCM frame is a bias message.
abbrev keep_all :
    List (SignalObservation int_floats)
    → SignalObservation int_floats
    → Result (List (SignalObservation int_floats))
keep_all os o = ok (o ∷ os)

abbrev ignore_metadata :
    List (SignalObservation int_floats)
    → Metadata int_floats
    → Result (List (SignalObservation int_floats))
ignore_metadata os m = ok os

abbrev biases : List ℕ → Option (Message int_floats)
biases frame = some (glonass_biases 7)

abbrev one_message : ℕ → List ℕ → ℕ × List (Rawx int_floats)
one_message chunks bytes = (suc chunks, record { rcv_tow = pos 0; week = 2300; meas = [] } ∷ [])

abbrev rtcm_options : Rtcm.Options
rtcm_options = record { use_spec_phase_range_rate_sign = false; omit_zero_do = false }

abbrev ubx_options : Ubx.Options
ubx_options = record { slip_threshold = 15; bds_geo_half_cycle = false }

abbrev raw_driver : Driver (List (SignalObservation int_floats)) ℕ
raw_driver = record {
  from = raw;
  family = pending (some []);
  rtcm_opts = rtcm_options;
  ubx_opts = ubx_options;
}

abbrev locked : ℕ → Driver (List (SignalObservation int_floats)) ℕ
locked chunks = record raw_driver { family = ubx_family ubx_options chunks [] [] }

abbrev rawx : List ℕ
rawx = 0xB5 ∷ 0x62 ∷ 2 ∷ 0x15 ∷ 0 ∷ 0 ∷ 0x17 ∷ 0x4B ∷ []

abbrev mixed : List (Text × List ℕ × TimeInterval)
mixed =
    (ascii "RTCM", 0xD3 ∷ 0 ∷ [], no_interval)
    ∷ (ascii "UBX", rawx, no_interval)
    ∷ (ascii "RTCM", 0xD3 ∷ 1 ∷ [], no_interval)
    ∷ []

payloads-tagged_example :
    payloads 0 keep_all ignore_metadata biases one_message sixes mixed (locked 3)
    ≡ payloads 0 keep_all ignore_metadata biases one_message sixes
        (tagged 0 keep_all ignore_metadata biases one_message sixes ubx_kind mixed)
        (locked 3)
payloads-tagged_example =
    payloads-tagged 0 keep_all ignore_metadata biases one_message sixes ubx_kind mixed (locked 3)
      refl

-- A line "u" is a UBX entry, every other one an RTCM entry.
abbrev entry_of : Text → Checked Entry
entry_of s = good (
    if s == ascii "u"
    then record {
      t = none;
      tag = some (ascii "UBX");
      bin = some (ascii "B56202150000");
      ascii_text = none;
      out = false;
    }
    else record {
      t = some (ascii "2025-03-01T00:00:00Z");
      tag = some (ascii "RTCM");
      bin = some (ascii "d300");
      ascii_text = none;
      out = false;
    })

abbrev log_lines : List Text
log_lines = ascii "u" ∷ ascii " " ∷ ascii "r" ∷ ascii "u" ∷ []

log_converted :
    convert_packet_log 0 keep_all ignore_metadata biases one_message sixes entry_of
      (λ s. some rawx)
      log_lines
      raw_driver
    ≡ good (locked 2, 2)
unfolding convert_packet_log Ubx.new_options digits_from is_valid days_from_civil days_of_era
    civil_from_days civil_of_era year_of_era day_of_year march_month day_of_month civil_month tdiv
    add_i64 sub_i64 mul_i64 wrap_i64 emod ◌+ℤ◌ ◌-ℤ◌ ◌*ℤ◌ as_u32 signed
log_converted = refl

convert_packet_log-Keeps_example : Keeps raw_driver (locked 2)
convert_packet_log-Keeps_example =
    convert_packet_log-Keeps 0 keep_all ignore_metadata biases one_message sixes entry_of
      (λ s. some rawx) log_lines raw_driver (locked 2) 2 log_converted

detect_raw_family-Earliest_example :
    (fs : List Frame) × (frames sixes (suc (length rawx)) rawx 0 ≡ some fs)
    × Chain rawx 0 fs
    × ((u : Option ℕ) × Answers rawx is_rawx_frame 0 u
        × Earliest (first_of rawx fs) u (detect_raw_family sixes rawx))
detect_raw_family-Earliest_example = detect_raw_family-Earliest sixes sixes_documented rawx
