-- ===== src/Json/Tests.antt =====
-- Tests of the models of obsj/src/json.rs.
use convobs_rs.Base.{
  ◌+◌, ◌-◌, ◌≡◌, refl, none, some, Option, List, [], ◌∷◌, ◌==◌, if◌then◌else◌, arith,
}
use convobs_rs.Base.Int.{ℤ, pos, negsuc, ◌+ℤ◌, ◌-ℤ◌, ◌*ℤ◌, tdiv, tmod}
use convobs_rs.Base.Texts.{ascii, text_eq, trim_start, trim_end}
use convobs_rs.Checked.{good, bad}
use convobs_rs.Ids.{parse_sat, parse_sig}
use convobs_rs.Metadata.{Text, Metadata, default_metadata}
use convobs_rs.Samples.{int_floats, slipped_observation}
use convobs_rs.Base.Word.{add_i64, sub_i64, mul_i64, wrap_i64, as_u32, emod, signed}
use convobs_rs.Time.{
  Instant, civil, civil_of_instant, div_mod, civil_of_unix, civil_from_days, civil_of_era,
  year_of_era, floor_div, civil_month, march_month, day_of_month, day_of_year,
}
use convobs_rs.Time.Reread.{parse_time-display}
use convobs_rs.Time.Zoned.{zoned}
use convobs_rs.Values.{SignalObservation}
use convobs_rs.Json.Instants.{parse_rfc3339}
use convobs_rs.Json.Reread.{parse_rfc3339-zoned}
use convobs_rs.Json.Values.{Json, Fields, present}
use convobs_rs.Json.Decode.{Serde}
use convobs_rs.Json.Records.{Record, observation, metadata, RawRecord, record_of}
use convobs_rs.Json.Written.{observation_entries, metadata_entries}
use convobs_rs.Json.Stream.{read_obsj, written}
use convobs_rs.Json.Back.{IsWritable}
use convobs_rs.Json.Facts.{IsWritableHeader}
use convobs_rs.Json.Lines.{IsLine, headers, observations, read_obsj-written}

-- 2026-05-28T05:21:37.09694Z
abbrev start : Instant
start = record { secs = pos 1779945697; nanos = 96940000 }

start_year : (civil_of_instant start).year ≡ pos 2026
unfolding civil_of_instant civil_of_unix civil_from_days civil_of_era add_i64 wrap_i64 ◌+ℤ◌
    year_of_era tdiv sub_i64 ◌-ℤ◌ floor_div tmod mul_i64 ◌*ℤ◌ civil_month march_month as_u32 emod
    signed day_of_month day_of_year
start_year = refl

parse_rfc3339-zoned_example : parse_rfc3339 (zoned start) ≡ good (some start)
parse_rfc3339-zoned_example =
    parse_rfc3339-zoned start 2026 (omega arith) (omega arith) start_year (omega arith)

-- Numbers of one digit in their tokens, and the objects of two records as texts.
abbrev observed : SignalObservation int_floats
observed = slipped_observation

abbrev facts : Metadata int_floats
facts = record default_metadata {
  observer = ascii "A";
  interval = some (pos 3);
  leap_seconds = some (pos 18);
}

abbrev print : ℤ → Text
print (pos n) = (b'0' + n) ∷ []
print (negsuc n) = b'-' ∷ (b'0' + n) ∷ []

abbrev read : Text → Option ℤ
read (c ∷ []) = some (pos (c - b'0'))
read (sign ∷ c ∷ []) = some (negsuc (c - b'0'))
read _ = none

abbrev serde_with : (Text → Option Fields) → (Fields → Text) → Serde int_floats
serde_with from_str to_string = record {
  parse_f64 = read;
  parse_f32 = read;
  json_f64 = read;
  json_int = read;
  print_f64 = λ z. Json.number (print z);
  print_f32 = λ z. Json.number (print z);
  print_int = print;
  from_str = from_str;
  to_string = to_string;
}

abbrev printer : Serde int_floats
printer = serde_with (λ s. none) (λ fields. [])

abbrev first_key : Fields → Text
first_key Fields.end = []
first_key (Fields.field k v fields) = k

abbrev serde : Serde int_floats
serde =
    serde_with
      (λ s.
        if s == ascii "{t}"
        then some (present (observation_entries printer observed))
        else some (present (metadata_entries printer facts)))
      (λ fields. if first_key fields == ascii "t" then ascii "{t}" else ascii "{m}")

print_back : (z : ℤ) → serde.json_int (serde.print_int z) ≡ some z
print_back (pos n) = ground arith
print_back (negsuc n) = ground arith

abbrev empty : RawRecord int_floats
empty = record {
  t = none;
  sat = none;
  sig = none;
  frq = none;
  pr = none;
  cp = none;
  dop = none;
  cn0 = none;
  arc = none;
  hc = none;
  bt = none;
  version = none;
  run = none;
  comment = none;
  marker = none;
  observer = none;
  agency = none;
  receiver = none;
  antenna = none;
  approx_position = none;
  antenna_delta = none;
  interval = none;
  leap_seconds = none;
  ssi = none;
  lli = none;
  ll = none;
}

-- An observation needs its satellite, and the old keys are refused.
refused :
    (record_of serde (record empty { t = some (pos 0) })
      ≡ bad "obsj observation record missing sat")
    × (record_of serde (record empty { t = some (pos 0); ll = some Json.null })
        ≡ bad "obsj field ll is not supported; use arc")
    × (record_of serde (record empty { ll = some Json.null }) ≡ good (metadata default_metadata))
unfolding record_of
refused = (refl, refl, refl)

observed_year : (civil observed.t).year ≡ pos 1980
unfolding civil civil_of_unix civil_from_days civil_of_era add_i64 wrap_i64 ◌+ℤ◌ year_of_era tdiv
    sub_i64 ◌-ℤ◌ floor_div tmod div_mod mul_i64 ◌*ℤ◌ civil_month march_month as_u32 emod signed
    day_of_month day_of_year
observed_year = refl

observed-IsWritable : IsWritable serde observed
unfolding parse_sat parse_sig
observed-IsWritable = record {
  time = parse_time-display (pos 10000000) 1980 (omega arith) observed_year (omega arith);
  sat = refl;
  sig = refl;
  frq = tt;
  pr = (print (pos 20000000), refl, refl);
  cp = (print (pos 100000000), refl, refl);
  dop = tt;
  cn0 = tt;
  arc = omega arith;
}

-- A header and an observation, written and read.
abbrev records : List (Record int_floats)
records = metadata facts ∷ observation observed ∷ []

facts-IsWritableHeader : IsWritableHeader serde facts
facts-IsWritableHeader = record {
  date = tt;
  approx_position = tt;
  antenna_delta = tt;
  interval = (print (pos 3), refl, refl);
  leap_seconds = (omega arith, omega arith);
}

braces-IsLine : IsLine (ascii "{m}") × IsLine (ascii "{t}")
unfolding trim_start trim_end
braces-IsLine =
    (((refl, (refl, (refl, tt))), refl, refl, refl), ((refl, (refl, (refl, tt))), refl, refl, refl))

read_obsj-written_example :
    read_obsj serde (written serde records)
    ≡ good (headers serde default_metadata records, observations serde records)
read_obsj-written_example = read_obsj-written serde records print_back (
  (braces-IsLine.0, refl, facts-IsWritableHeader),
  ((braces-IsLine.1, refl, observed-IsWritable), tt),
)
