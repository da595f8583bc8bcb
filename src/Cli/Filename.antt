-- ===== src/Cli/Filename.antt =====
-- Dates on the command line and in file names, of cli/src/lib.rs: `parse_yyyymmdd`, `digit_runs` and
-- `date_from_filename`.
use Prim.Native.String.{String}
use convobs_rs.Base.{
  ℕ, ◌^◌, Bool, false, not, ◌&&◌, ◌||◌, leb, nat_beq, if◌then◌else◌, Option, List, [], ◌∷◌, ◌++◌,
  length, take, drop, unwrap_or,
}
use convobs_rs.Base.Int.{ℤ, negsuc, int_beq}
use convobs_rs.Base.Texts.{digit, is_char_boundary, parse_unsigned, parse_signed}
use convobs_rs.Base.Word.{i64_half}
use convobs_rs.Metadata.{Text}
use convobs_rs.Time.{Civil, Instant, instant_from_civil, is_valid}
use convobs_rs.Cli.{Checked, good, bad, ◌>>=◌, ◌>>◌, refuse_if, panic_if, or_bad}

abbrev pub midnight : ℤ → ℕ → ℕ → Civil
midnight year month day = record {
  year = year;
  month = month;
  day = day;
  hour = 0;
  minute = 0;
  second = 0;
  nanos = 0;
}

unfoldable pub date_instant : ℤ → ℕ → ℕ → Instant
date_instant year month day = instant_from_civil (midnight year month day)

unfoldable pub valid_date : ℤ → ℕ → ℕ → Bool
valid_date year month day = is_valid (midnight year month day)

abbrev pub part : Text → ℕ → ℕ → Text
part s i n = take n (drop i s)

-- The text is cut at the bytes 4 and 6, which panics inside a character.
unfoldable pub parse_yyyymmdd : Text → Checked Instant
unfolding valid_date date_instant
parse_yyyymmdd s =
    let message : String = "--date must be a valid YYYYMMDD date" in
    do
      refuse_if (not (nat_beq (length s) 8)) "--date must be in YYYYMMDD format"
      panic_if (not (is_char_boundary s 4))
      year ← or_bad (parse_signed i64_half (part s 0 4)) message
      panic_if (not (is_char_boundary s 6))
      month ← or_bad (parse_unsigned (2 ^ 32) (part s 4 2)) message
      day ← or_bad (parse_unsigned (2 ^ 32) (part s 6 2)) message
      refuse_if (not (valid_date year month day)) message
      good (date_instant year month day)

-- A run of digits is pushed where it ends.
abbrev pub pushed : Text → List Text → List Text
pushed [] runs = runs
pushed (c ∷ cs) runs = (c ∷ cs) ∷ runs

-- The loop of `digit_runs` behind the digits of a run that it has begun.
unfoldable pub runs_from : Text → Text → List Text
runs_from run [] = pushed run []
runs_from run (c ∷ s) =
    let longer = runs_from (run ++ (c ∷ [])) s in
    let others = runs_from [] s in if digit c then longer else pushed run others

abbrev pub digit_runs : Text → List Text
digit_runs s = runs_from [] s

-- An entry of `dates`: year, month and day, and the instant.
abbrev pub DateEntry : Type 0
DateEntry = ℤ × ℕ × ℕ × Instant

abbrev pub known : ℤ → ℕ → ℕ → List DateEntry → Bool
known y mo d [] = false
known y mo d ((y', mo', d', i) ∷ es) =
    (int_beq y' y && nat_beq mo' mo && nat_beq d' d) || known y mo d es

-- The body of the loop of `date_from_filename`, for one run of digits.
unfoldable pub add_date : Text → List DateEntry → List DateEntry
unfolding valid_date date_instant
add_date run dates =
    let y = unwrap_or (parse_signed i64_half (part run 0 4)) (negsuc 0) in
    let mo = unwrap_or (parse_unsigned (2 ^ 32) (part run 4 2)) 0 in
    let d = unwrap_or (parse_unsigned (2 ^ 32) (part run 6 2)) 0 in
    if leb 8 (length run) && valid_date y mo d && not (known y mo d dates)
    then dates ++ ((y, mo, d, date_instant y mo d) ∷ [])
    else dates

unfoldable pub add_dates : List Text → List DateEntry → List DateEntry
unfolding add_date
add_dates [] dates = dates
add_dates (run ∷ runs) dates = add_dates runs (add_date run dates)

-- The final `match dates.len()`.
abbrev pub only_date : List DateEntry → Checked Instant
only_date [] = bad "no date found in filename"
only_date ((y, mo, d, i) ∷ []) = good i
only_date (e ∷ f ∷ es) = bad "multiple conflicting dates found in filename"

-- `file_name` gives the last component of a path, as the standard library does, if it has one.
unfoldable pub date_from_filename : (Text → Option Text) → Text → Checked Instant
unfolding add_dates runs_from
date_from_filename file_name path =
    only_date (add_dates (digit_runs (unwrap_or (file_name path) path)) [])
