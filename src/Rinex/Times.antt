-- ===== src/Rinex/Times.antt =====
-- The times of the reader in obsj/src/rinexobs.rs: the time of an epoch line, the time system of a
-- file and the way to GPS time.
use convobs_rs.Base.{
  ℕ, ◌+◌, ◌&&◌, ◌*◌, ◌/◌, ◌^◌, Bool, false, not, ◌||◌, nat_beq, nat_eq, if◌then◌else◌, Option,
  unwrap_or, List, [], ◌∷◌, ◌++◌, take, drop, ◌==◌,
}
use convobs_rs.Base.Int.{ℤ, pos, ltb_ℤ, tdiv}
use convobs_rs.Base.Map.{Map, get}
use convobs_rs.Base.Texts.{
  ascii, text_eq, trim, trim_start, trim_end, is_char_boundary, split_once, parse_unsigned,
  parse_signed,
}
use convobs_rs.Base.Word.{i64_half, add_i64, mul_i64}
use convobs_rs.Checked.{Checked, good, bad, panic, ◌>>=◌, ◌>>◌, refuse_if, or_bad}
use convobs_rs.Ids.{ObsCode}
use convobs_rs.Metadata.{Text, is_empty}
use convobs_rs.Time.{GpsTime, Civil, from_civil, is_valid, tick_ns}
use convobs_rs.Rinex.Codes.{ordered_systems}
use convobs_rs.Rinex.Columns.{pad_line}

-- The columns from `i` up to `j`, trimmed.
abbrev pub columns : Text → ℕ → ℕ → Text
columns line i n = trim (take n (drop i line))

-- The seconds and the digits of the fraction.
abbrev pub second_parts : Text → Text × Text
second_parts s = unwrap_or (split_once b'.' s) (s, [])

-- `parse_rinex_time`
unfoldable pub parse_rinex_time : Text → Text → Text → Text → Text → Text → Checked GpsTime
unfolding split_once parse_unsigned parse_signed
parse_rinex_time year month day hour minute second = do
  y ← or_bad (parse_signed i64_half year) "rinex: invalid year"
  mo ← or_bad (parse_unsigned (2 ^ 32) month) "rinex: invalid month"
  d ← or_bad (parse_unsigned (2 ^ 32) day) "rinex: invalid day"
  h ← or_bad (parse_unsigned (2 ^ 32) hour) "rinex: invalid hour"
  m ← or_bad (parse_unsigned (2 ^ 32) minute) "rinex: invalid minute"
  s ← or_bad (parse_unsigned (2 ^ 32) (second_parts second).0) "rinex: invalid second"
  tick ←
      or_bad (parse_signed i64_half (take 7 ((second_parts second).1 ++ ascii "0000000")))
        "rinex: invalid fractional second"
  let c : Civil = record {
    year = y;
    month = mo;
    day = d;
    hour = h;
    minute = m;
    second = s;
    nanos = 0;
  }
  refuse_if (not (is_valid c)) "rinex: invalid epoch date"
  good (add_i64 (from_civil c) tick)

-- `parse_epoch_int`; an `i32` is below 2 ^ 31.
unfoldable pub parse_epoch_int : Text → Checked ℤ
unfolding parse_signed
parse_epoch_int s =
    if is_empty s
    then bad "rinex: missing epoch number"
    else or_bad (parse_signed (2 ^ 31) s) "rinex: invalid epoch number"

-- What an epoch line says: its flag, the number of its records, and its time.
pub record EpochLine : Type 0 where
  pub flag : ℤ
  pub count : ℤ
  pub t : GpsTime

abbrev pub has_time : ℤ → Bool
has_time (pos n) = nat_beq n 0 || nat_beq n 1
has_time _ = false

-- The columns from `i` on, `n` of them, of a line in UTF-8: a slice of a text panics where one of its
-- ends is inside of a character.
unfoldable pub cut : Text → ℕ → ℕ → Checked Text
unfolding trim_start trim_end
cut line i n =
    if is_char_boundary line i && is_char_boundary line (i + n)
    then good (columns line i n)
    else panic

abbrev pub epoch_time : Text → Checked GpsTime
epoch_time line = do
  year ← cut line 2 4
  month ← cut line 7 2
  day ← cut line 10 2
  hour ← cut line 13 2
  minute ← cut line 16 2
  second ← cut line 19 10
  parse_rinex_time year month day hour minute second

-- `parse_epoch_line`, of a line that is padded to 35 bytes.
unfoldable pub epoch_fields : Text → Checked EpochLine
unfolding parse_epoch_int parse_rinex_time cut
epoch_fields line = do
  flag_text ← cut line 31 1
  flag ← parse_epoch_int flag_text
  count_text ← cut line 32 3
  n ← parse_epoch_int count_text
  refuse_if (ltb_ℤ n (pos 0)) "rinex: invalid epoch record count"
  t ← if has_time flag then epoch_time line else good (pos 0)
  good (record { flag = flag; count = n; t = t })

unfoldable pub parse_epoch_line : Text → Checked EpochLine
unfolding epoch_fields
parse_epoch_line raw_line = epoch_fields (pad_line raw_line 35)

-- `system_time_system` and `file_time_system`
unfoldable pub system_time_system : ℕ → Text
unfolding get
system_time_system sys =
    unwrap_or
      (get sys (
        (b'R', ascii "GLO")
        ∷ (b'E', ascii "GAL")
        ∷ (b'J', ascii "QZS")
        ∷ (b'C', ascii "BDT")
        ∷ (b'I', ascii "IRN")
        ∷ []))
      (ascii "GPS")

abbrev pub only_system : List ℕ → Text
only_system [] = ascii "GPS"
only_system (s ∷ []) = system_time_system s
only_system (s ∷ r ∷ rs) = ascii "GPS"

unfoldable pub file_time_system : Map ℕ (List ObsCode) → Text
unfolding ordered_systems
file_time_system codes = only_system (ordered_systems codes)

-- `gps_utc_seconds`
abbrev pub gps_utc_seconds : Option ℤ → ℤ
gps_utc_seconds leap = unwrap_or leap (pos 18)

-- `file_to_gps_time`
unfoldable pub file_to_gps_time : GpsTime → Text → ℤ → GpsTime
file_to_gps_time t time_system leap_seconds =
    if time_system == ascii "GLO" || time_system == ascii "UTC"
    then add_i64 t (tdiv (mul_i64 leap_seconds 1000000000) tick_ns)
    else if time_system == ascii "BDT"
    then add_i64 t (pos (14 * 1000000000 / tick_ns))
    else t
