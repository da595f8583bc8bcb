-- ===== src/Rinex/RunDate.antt =====
-- The date and the triples of numbers in a header, in the reader of obsj/src/rinexobs.rs:
-- `parse_run_date` and `parse_float_triple`. Parsing a decimal number is the standard library's, a
-- parameter.
use convobs_rs.Base.{
  ◌^◌, not, ◌||◌, nat_beq, if◌then◌else◌, Option, none, some, List, [], ◌∷◌, length, take, drop,
}
use convobs_rs.Base.Texts.{parse_unsigned, parse_signed}
use convobs_rs.Base.Word.{i64_half}
use convobs_rs.Float.{Floats}
use convobs_rs.Metadata.{Text}
use convobs_rs.Time.{Civil, Instant, is_valid, instant_from_civil}
use convobs_rs.Rinex.Records.{split_whitespace}

-- `?` on an option.
infixl 5 ◌>>=◌
abbrev ◌>>=◌ {ℓ κ} : {X : Type ℓ} {Y : Type κ} → Option X → (X → Option Y) → Option Y
some x >>= next = next x
none >>= next = none

-- `parse_run_date`, of `YYYYMMDD` and `HHMMSS`.
unfoldable pub run_date_of : Text → Text → Option Instant
unfolding parse_signed parse_unsigned
run_date_of d tm = if not (nat_beq (length d) 8) || not (nat_beq (length tm) 6) then none else do
  year ← parse_signed i64_half (take 4 d)
  month ← parse_unsigned (2 ^ 32) (take 2 (drop 4 d))
  day ← parse_unsigned (2 ^ 32) (drop 6 d)
  hour ← parse_unsigned (2 ^ 32) (take 2 tm)
  minute ← parse_unsigned (2 ^ 32) (take 2 (drop 2 tm))
  second ← parse_unsigned (2 ^ 32) (drop 4 tm)
  let c : Civil = record {
    year = year;
    month = month;
    day = day;
    hour = hour;
    minute = minute;
    second = second;
    nanos = 0;
  }
  if is_valid c then some (instant_from_civil c) else none

unfoldable pub parse_run_date : Text → Option Instant
unfolding split_whitespace run_date_of
parse_run_date s = elim (split_whitespace s) [
  | [] ↦ none
  | d ∷ fields ↦ elim fields [ [] ↦ none | tm ∷ others ↦ run_date_of d tm ]
]

module _ (fl : Floats) (parse_float : Text → Option fl.F64) where
  abbrev pub triple_of : List Text → Option (fl.F64 × fl.F64 × fl.F64)
  triple_of (a ∷ b ∷ c ∷ others) = do
    x ← parse_float a
    y ← parse_float b
    z ← parse_float c
    some (x, y, z)
  triple_of _ = none

  -- `parse_float_triple`
  unfoldable pub parse_float_triple : Text → Option (fl.F64 × fl.F64 × fl.F64)
  unfolding split_whitespace
  parse_float_triple s = triple_of (split_whitespace s)
