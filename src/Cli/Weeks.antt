-- ===== src/Cli/Weeks.antt =====
-- The week constraints of cli/src/lib.rs, for RTCM epochs, whose messages carry no date.
use convobs_rs.Base.{ℕ, ◌*◌, Option, none, some, if◌then◌else◌}
use convobs_rs.Base.Int.{pos, ltb_ℤ}
use convobs_rs.Base.Word.{sub_i64}
use convobs_rs.Float.{Floats}
use convobs_rs.Metadata.{Text}
use convobs_rs.Time.{Instant, gps_nanos}
use convobs_rs.Rtcm.{TimeInterval}
use Prim.Native.String.{String}
use convobs_rs.Cli.{
  Checked, good, bad, ◌>>=◌, Config, WeekMode, auto, recent, date, filename, is_rtcm,
}
use convobs_rs.Cli.Filename.{date_from_filename}

abbrev pub second_ns : ℕ
second_ns = 1000000000

abbrev pub week_secs : ℕ
week_secs = 7 * 24 * 3600

-- `err` is set when the inference is refused for plain RTCM input.
pub record WeekConstraint : Type 0 where
  pub interval : TimeInterval
  pub errf : String
  pub problem : Option String

-- An instant moved back by some seconds.
abbrev pub earlier : Instant → ℕ → Instant
earlier t secs = record t { secs = sub_i64 t.secs (pos secs) }

unfoldable pub recent_week_constraint : Instant → WeekConstraint
recent_week_constraint now = record {
  interval = record {
    start_ns = gps_nanos (earlier now week_secs);
    dur_ns = pos (week_secs * second_ns);
  };
  errf = "RTCM epoch does not match recent week inference: ";
  problem = none;
}

-- `errf` is chosen by the option's name.
unfoldable pub date_week_constraint : Instant → String → WeekConstraint
date_week_constraint day errf = record {
  interval = record {
    start_ns = gps_nanos (earlier day (14 * 3600));
    dur_ns = pos (50 * 3600 * second_ns);
  };
  errf = errf;
  problem = none;
}

abbrev pub too_old : Option String
too_old =
    some "RTCM input is older than one week; provide --date, --recent, or --date-from-filename"

unfoldable pub automatic_week_constraint : Instant → Option Instant → WeekConstraint
unfolding recent_week_constraint
automatic_week_constraint now none = recent_week_constraint now
automatic_week_constraint now (some modified) =
    if ltb_ℤ modified.secs (sub_i64 now.secs (pos week_secs))
    then record (recent_week_constraint now) { problem = too_old }
    else recent_week_constraint now

unfoldable pub packet_log_week_constraint : Instant → TimeInterval
packet_log_week_constraint t = record {
  start_ns = gps_nanos (earlier t 60);
  dur_ns = pos (2 * 60 * second_ns);
}

-- `file_name` gives the last component of a path; `modtime` is the file's time, if it is known.
module _ {fl : Floats} (file_name : Text → Option Text) (cfg : Config fl) (path : Text)
    (modtime : Option Instant) (now : Instant) where
  unfoldable pub mode_constraint : WeekMode → Checked WeekConstraint
  unfolding recent_week_constraint date_week_constraint automatic_week_constraint date_from_filename
  mode_constraint recent = good (recent_week_constraint now)
  mode_constraint date =
      good (date_week_constraint cfg.week_date "RTCM epoch does not match --date: ")
  mode_constraint filename = do
    t ← date_from_filename file_name path
    good (date_week_constraint t "RTCM epoch does not match --date-from-filename: ")
  mode_constraint auto = good (automatic_week_constraint now modtime)

  -- A refusal counts for plain RTCM input only.
  abbrev pub strict_for_rtcm : WeekConstraint → Checked WeekConstraint
  strict_for_rtcm wc =
      if is_rtcm cfg.from
      then elim wc.problem [ some message ↦ bad message | none ↦ good wc ]
      else good wc

  unfoldable pub file_week_constraint : Checked WeekConstraint
  unfolding mode_constraint
  file_week_constraint = mode_constraint cfg.week_mode >>= strict_for_rtcm
