-- ===== src/Cli/Args/Rules.antt =====
-- What `parse_args` of cli/src/lib.rs lets through: the rules between the options.
use convobs_rs.Base.{
  ◌≡◌, ◌≢◌, Bool, true, false, ◌||◌, Option, some, List, [], arith, inl, inr, is_some,
}
use convobs_rs.Base.Int.{ℤ}
use mathlib.Core.Path.{subst}
use convobs_rs.Error.{ok, Result-cases}
use convobs_rs.Float.{Floats}
use convobs_rs.Metadata.{Text}
use convobs_rs.Sink.{decimation_interval_ticks, validate_decimation_interval}
use convobs_rs.Time.{Instant}
use convobs_rs.Cli.{
  Checked, good, bad, panic, or_bad, bind-eq-good, InputFormat, OutputFormat, WeekMode,
  RinexBackend, packet_input, may_use_rtcm, may_use_ubx, is_auto, is_filename, is_rinex,
  is_to_rinex, Config,
}
use convobs_rs.Cli.Args.{
  ArgMatches, checked_interval, interval_message, input_format, output_format, week_choice,
  any_stdin, lt_f, accept, week_guards, option_guards, input_guards, backend_choice,
  interval_choice, unless_help, parse_args, log_guard, threshold_choice, header_metadata,
}
use convobs_rs.Cli.Header.{TomlMeta}

week_guards_lem :
    (m : ArgMatches) (from : InputFormat) (mode : WeekMode)
    → week_guards m from mode ≡ good tt
    → (m.packet_log ≡ true → is_auto mode ≡ true)
      × (is_auto mode ≡ false → may_use_rtcm from ≡ true)
unfolding week_guards
week_guards_lem m from mode h = ground arith

log_guard_lem :
    (m : ArgMatches) (from : InputFormat)
    → log_guard m from ≡ good tt
    → m.packet_log ≡ true
    → packet_input from ≡ true
unfolding log_guard
log_guard_lem m from h log = ground arith

option_guards_lem :
    (m : ArgMatches) (from : InputFormat)
    → option_guards m from ≡ good tt
    → (m.strict_prr ≡ true → may_use_rtcm from ≡ true)
      × (m.omit_zero_do ≡ true → may_use_rtcm from ≡ true)
      × (m.slip_threshold_changed ≡ true → may_use_ubx from ≡ true)
      × (m.bds_geo_half_cycle_changed ≡ true → may_use_ubx from ≡ true)
unfolding option_guards
option_guards_lem m from h = ground arith

input_guards_lem :
    (inputs : List Text) (mode : WeekMode)
    → input_guards inputs mode ≡ good tt
    → (inputs ≢ []) × (is_filename mode ≡ true → any_stdin inputs ≡ false)
unfolding input_guards
input_guards_lem inputs mode h = ground arith

backend_choice_lem :
    (s : Text) (from : InputFormat) (to : OutputFormat) (b : Option RinexBackend)
    → backend_choice s from to ≡ good b
    → is_some b ≡ true
    → (is_rinex from || is_to_rinex to) ≡ true
unfolding backend_choice
backend_choice_lem s from to b h used = ground arith

unless_help_lem :
    {fl : Floats} (help : Bool) (answer : Checked (Config fl)) (cfg : Config fl)
    → unless_help help answer ≡ good (some cfg)
    → answer ≡ good cfg
unless_help_lem true answer cfg h = absurd (ground arith)
unless_help_lem false (good c) cfg h = ground arith
unless_help_lem false (bad message) cfg h = absurd (ground arith)
unless_help_lem false panic cfg h = absurd (ground arith)

good_injective {ℓ} : {X : Type ℓ} {a b : X} → good a ≡ good b → a ≡ b
good_injective h = cc

checked_interval_lem :
    (fl : Floats) (seconds : fl.F64) (ns : ℤ)
    → checked_interval fl seconds ≡ good ns
    → lt_f fl (fl.lit 0 0) seconds ≡ true
    → (ticks : ℤ) × (decimation_interval_ticks ns ≡ ok ticks)
unfolding checked_interval validate_decimation_interval
checked_interval_lem fl seconds ns h positive = elim (Result-cases (decimation_interval_ticks ns)) [
  | inl found ↦ found
  | inr (problem, e) ↦ ground arith
]

module _ (fl : Floats) (parse_float : Text → Option fl.F64) where
  -- The rules between the options, of the settings that they end up in.
  pub record Consistent (m : ArgMatches) (cfg : Config fl) : Type 0 where
    pub log_input : cfg.packet_log ≡ true → packet_input cfg.from ≡ true
    pub log_week : cfg.packet_log ≡ true → is_auto cfg.week_mode ≡ true
    pub week_input : is_auto cfg.week_mode ≡ false → may_use_rtcm cfg.from ≡ true
    pub strict_input :
        cfg.rtcm_opts.use_spec_phase_range_rate_sign ≡ true → may_use_rtcm cfg.from ≡ true
    pub omit_input : cfg.rtcm_opts.omit_zero_do ≡ true → may_use_rtcm cfg.from ≡ true
    pub slip_input : m.slip_threshold_changed ≡ true → may_use_ubx cfg.from ≡ true
    pub geo_input : m.bds_geo_half_cycle_changed ≡ true → may_use_ubx cfg.from ≡ true
    pub some_input : cfg.inputs ≢ []
    pub no_stdin : is_filename cfg.week_mode ≡ true → any_stdin cfg.inputs ≡ false
    pub backend_use :
        is_some cfg.rinex_backend ≡ true → (is_rinex cfg.from || is_to_rinex cfg.to) ≡ true
    pub interval_fits :
        (seconds : fl.F64)
        → parse_float m.interval ≡ some seconds
        → lt_f fl (fl.lit 0 0) seconds ≡ true
        → (ticks : ℤ) × (decimation_interval_ticks cfg.interval_ns ≡ ok ticks)

  interval_choice_lem :
      (s : Text) (ns : ℤ) (seconds : fl.F64)
      → interval_choice fl parse_float s ≡ good ns
      → parse_float s ≡ some seconds
      → lt_f fl (fl.lit 0 0) seconds ≡ true
      → (ticks : ℤ) × (decimation_interval_ticks ns ≡ ok ticks)
  unfolding interval_choice
  interval_choice_lem s ns seconds h e positive =
      let (x, h0, h1) =
        bind-eq-good (or_bad (parse_float s) interval_message) (checked_interval fl) h in
      checked_interval_lem fl seconds ns (ground arith) positive

  module _ (read_to_string : Text → Checked Text) (from_str : Text → Checked (TomlMeta fl))
      (user : Option Text) where
    accept-Consistent :
        (m : ArgMatches) (now : Instant) (cfg : Config fl)
        → accept fl parse_float read_to_string from_str user m now ≡ good cfg
        → Consistent m cfg
    unfolding accept
    accept-Consistent m now cfg h =
        let (from, h0, h1) = bind-eq-good (input_format m.from) _ h in
        let (to, h2, h3) = bind-eq-good (output_format m.to) _ h1 in
        let (_, h4, h5) = bind-eq-good (log_guard m from) _ h3 in
        let (choice, h6, h7) = bind-eq-good (week_choice m) _ h5 in
        let (_, h8, h9) = bind-eq-good (week_guards m from choice.0) _ h7 in
        let (_, h10, h11) = bind-eq-good (option_guards m from) _ h9 in
        let (ns, h12, h13) = bind-eq-good (interval_choice fl parse_float m.interval) _ h11 in
        let (_, h14, h15) = bind-eq-good (input_guards m.inputs choice.0) _ h13 in
        let (threshold, h16, h17) = bind-eq-good (threshold_choice m.slip_threshold) _ h15 in
        let (backend, h18, h19) = bind-eq-good (backend_choice m.rinex_backend from to) _ h17 in
        let (meta, h20, h21) =
          bind-eq-good
            (header_metadata fl parse_float read_to_string from_str user m.header_file now ns
              m.header)
            _ h19 in
        subst (Consistent m) (good_injective h21) (record {
          log_input = log_guard_lem m from h4;
          log_week = (week_guards_lem m from choice.0 h8).0;
          week_input = (week_guards_lem m from choice.0 h8).1;
          strict_input = (option_guards_lem m from h10).0;
          omit_input = (option_guards_lem m from h10).1;
          slip_input = (option_guards_lem m from h10).2;
          geo_input = (option_guards_lem m from h10).3;
          some_input = (input_guards_lem m.inputs choice.0 h14).0;
          no_stdin = (input_guards_lem m.inputs choice.0 h14).1;
          backend_use = backend_choice_lem m.rinex_backend from to backend h18;
          interval_fits = λ seconds. interval_choice_lem m.interval ns seconds h12;
        })

    -- Whatever arguments are accepted, the settings keep the rules between the options: a packet log
    -- only of packet input and with no week option; a week option and the RTCM options only where
    -- the input may be RTCM, the UBX options only where it may be UBX; at least one input, and no
    -- stdin where the date comes from the file name; a RINEX backend only where RINEX is read or
    -- written; and a positive interval is one for which the decimation stage can be built.
    pub parse_args-Consistent :
        (m : ArgMatches) (now : Instant) (cfg : Config fl)
        → parse_args fl parse_float read_to_string from_str user m now ≡ good (some cfg)
        → Consistent m cfg
    unfolding parse_args
    parse_args-Consistent m now cfg h = accept-Consistent m now cfg (unless_help_lem m.help _ cfg h)
