-- ===== src/Cli.antt =====
-- The command line, after cli/src/lib.rs and cli/src/error.rs: formats, errors and the settings of a
-- run. The children model the arguments (`Args`), the header's metadata (`Header`), dates in file
-- names (`Filename`), week constraints (`Weeks`), the driver of the converters (`Driver`) and the
-- chain of sinks (`Pipeline`). An operation that can panic says so in its result.
mod Tests
pub mod Filename
pub mod Weeks
pub mod Header
pub mod Args
pub mod Backend
pub mod Driver
pub mod Detect
pub mod Log
pub mod Pipeline
use Prim.Native.String.{String}
pub use convobs_rs.Checked.{
  Checked, good, bad, panic, ◌>>=◌, ◌>>◌, refuse_if, panic_if, or_bad, text_of, checked,
  bind-eq-good,
}
use convobs_rs.Base.{◌≡◌, refl, ℕ, Bool, true, false, Option, List}
use convobs_rs.Base.Int.{ℤ}
use convobs_rs.Error
use convobs_rs.Float.{Floats}
use convobs_rs.Metadata.{Text, Metadata}
use convobs_rs.Time.{Instant}
use convobs_rs.Rtcm
use convobs_rs.Ubx

-- `Error` of cli/src/error.rs, and its exit code.
pub data Failure : Type 0 where
  usage : String → Failure
  io : Text → String → Failure
  conversion : String → Failure

unfoldable pub exit_code : Failure → ℕ
exit_code (usage m) = 2
exit_code (io p m) = 1
exit_code (conversion m) = 1

pub data InputFormat : Type 0 where
  raw ubx rtcm rinex obs_json : InputFormat

pub data OutputFormat : Type 0 where
  to_rinex to_obs_json : OutputFormat

pub data WeekMode : Type 0 where
  auto recent date filename : WeekMode

pub data RinexBackend : Type 0 where
  internal external : RinexBackend

abbrev pub packet_input : InputFormat → Bool
packet_input raw = true
packet_input ubx = true
packet_input rtcm = true
packet_input rinex = false
packet_input obs_json = false

abbrev pub may_use_rtcm : InputFormat → Bool
may_use_rtcm raw = true
may_use_rtcm rtcm = true
may_use_rtcm _ = false

abbrev pub may_use_ubx : InputFormat → Bool
may_use_ubx raw = true
may_use_ubx ubx = true
may_use_ubx _ = false

abbrev pub is_auto : WeekMode → Bool
is_auto auto = true
is_auto _ = false

abbrev pub is_filename : WeekMode → Bool
is_filename filename = true
is_filename _ = false

abbrev pub is_rinex : InputFormat → Bool
is_rinex rinex = true
is_rinex _ = false

abbrev pub is_to_rinex : OutputFormat → Bool
is_to_rinex to_rinex = true
is_to_rinex to_obs_json = false

abbrev pub is_rtcm : InputFormat → Bool
is_rtcm rtcm = true
is_rtcm _ = false

pub record Config (fl : Floats) : Type 0 where
  pub from : InputFormat
  pub to : OutputFormat
  pub packet_log : Bool
  pub require_cp : Bool
  pub interval_ns : ℤ
  pub week_mode : WeekMode
  pub week_date : Instant
  pub inputs : List Text
  pub output_path : Option Text
  pub rinex_backend : Option RinexBackend
  pub rtcm_opts : Rtcm.Options
  pub ubx_opts : Ubx.Options
  pub meta : Metadata fl
