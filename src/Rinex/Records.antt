-- ===== src/Rinex/Records.antt =====
-- The records of a header in the reader of obsj/src/rinexobs.rs: `read_obs_types_header`,
-- `read_signal_strength_unit`, `read_glonass_freq_header` and
-- `read_time_system`.
use convobs_rs.Base.{
  ℕ, ◌-◌, ◌^◌, Bool, true, false, not, ◌&&◌, ◌||◌, leb, nat_beq, nat_eq, if◌then◌else◌, Option,
  none, some, is_some, unwrap_or, List, [], ◌∷◌, ◌++◌, drop, ◌==◌,
}
use convobs_rs.Base.Int.{ℤ}
use convobs_rs.Base.Map.{Map, get, insert}
use convobs_rs.Base.Texts.{ascii, text_eq, white, parse_unsigned, parse_signed}
use convobs_rs.Base.Word.{i64_half, as_i8}
use convobs_rs.Checked.{Checked, good, bad, ◌>>=◌, or_bad}
use convobs_rs.Ids.{SatId, ObsCode, sat_eq, parse_sat}
use convobs_rs.Metadata.{Text}

-- `split_whitespace`, of the ASCII white space: whether a word goes on, and the words.
unfoldable pub words_from : Text → Bool × List Text
words_from [] = (false, [])
words_from (c ∷ cs) =
    let (inside, words) = words_from cs in
    if white c
    then (false, words)
    else if not inside
    then (true, (c ∷ []) ∷ words)
    else elim words [ [] ↦ (true, (c ∷ []) ∷ []) | word ∷ others ↦ (true, (c ∷ word) ∷ others) ]

unfoldable pub split_whitespace : Text → List Text
unfolding words_from
split_whitespace s = (words_from s).1

-- What the lines `SYS / # / OBS TYPES` have said so far: the codes of each system and how many were
-- announced.
pub record ObsTypes : Type 0 where
  pub codes : Map ℕ (List ObsCode)
  pub counts : Map ℕ ℕ

abbrev pub push_code : ℕ → ObsCode → ObsTypes → ObsTypes
push_code sys c types = record types {
  codes = insert sys (unwrap_or (get sys types.codes) [] ++ (c ∷ [])) types.codes;
}

unfoldable pub push_fields : ℕ → List Text → ObsTypes → Checked ObsTypes
push_fields sys [] types = good types
push_fields sys ((a ∷ b ∷ c ∷ []) ∷ fields) types =
    push_fields sys fields (push_code sys (record { obs_type = a; band = b; attribute = c }) types)
push_fields sys (_ ∷ fields) types = bad "rinex: invalid observation code"

-- The fields behind the system.
unfoldable pub read_types : ℕ → List Text → ObsTypes → Checked (ℕ × ObsTypes)
unfolding push_fields parse_unsigned
read_types sys [] types = good (sys, types)
read_types sys (field ∷ fields) types =
    if nat_beq sys 0
    then bad "rinex: observation type continuation without system"
    else elim (parse_unsigned (2 ^ 64) field) [
      | none ↦ push_fields sys (field ∷ fields) types >>= λ after. good (sys, after)
      | some n ↦
          push_fields sys fields (record types { counts = insert sys n types.counts }) >>= λ after.
          good (sys, after)
    ]

abbrev pub is_header_system : ℕ → Bool
is_header_system c =
    nat_beq c b'G'
    || nat_beq c b'R'
    || nat_beq c b'E'
    || nat_beq c b'S'
    || nat_beq c b'J'
    || nat_beq c b'C'
    || nat_beq c b'I'

unfoldable pub read_fields_of : List Text → ℕ → ObsTypes → Checked (ℕ × ObsTypes)
unfolding read_types
read_fields_of [] prev types = good (prev, types)
read_fields_of ((c ∷ []) ∷ fields) prev types =
    if is_header_system c
    then read_types c fields types
    else read_types prev ((c ∷ []) ∷ fields) types
read_fields_of (field ∷ fields) prev types = read_types prev (field ∷ fields) types

-- `read_obs_types_header`: the system that a continuation line belongs to, and what was said.
unfoldable pub read_obs_types_header : Text → ℕ → ObsTypes → Checked (ℕ × ObsTypes)
unfolding split_whitespace read_fields_of
read_obs_types_header content prev types = read_fields_of (split_whitespace content) prev types

-- `to_uppercase`, as far as ASCII letters go.
abbrev pub to_uppercase : Text → Text
to_uppercase [] = []
to_uppercase (c ∷ cs) = (if leb b'a' c && leb c b'z' then c - 32 else c) ∷ to_uppercase cs

-- The first field of a record.
abbrev pub first_of : List Text → Option Text
first_of [] = none
first_of (field ∷ fields) = some field

-- `read_signal_strength_unit`
unfoldable pub read_signal_strength_unit : Text → Checked (Unit {0})
unfolding split_whitespace
read_signal_strength_unit content = elim (first_of (split_whitespace content)) [
  | none ↦ bad "rinex: missing signal strength unit"
  | some field ↦
      if to_uppercase field == ascii "DBHZ" || to_uppercase field == ascii "DB-HZ"
      then good tt
      else bad "rinex: unsupported signal strength unit"
]

-- `frq.insert` for a satellite that can be parsed, and the pairs of a record.
abbrev pub put_channel : Text → ℤ → Map SatId ℤ → Map SatId ℤ
put_channel field n frq = elim (parse_sat field) [
  | none ↦ frq
  | some sat ↦ insert sat (as_i8 n) frq
]

unfoldable pub read_channels : List Text → Map SatId ℤ → Checked (Map SatId ℤ)
unfolding parse_signed parse_sat as_i8
read_channels (sat ∷ channel ∷ fields) frq = do
  n ← or_bad (parse_signed i64_half channel) "rinex: invalid GLONASS frequency"
  read_channels fields (put_channel sat n frq)
read_channels _ frq = good frq

-- `read_glonass_freq_header`
unfoldable pub read_glonass_freq_header : Text → Map SatId ℤ → Checked (Map SatId ℤ)
unfolding split_whitespace read_channels parse_signed
read_glonass_freq_header content frq = elim (split_whitespace content) [
  | [] ↦ good frq
  | field ∷ fields ↦
      if is_some (parse_signed i64_half field)
      then read_channels fields frq
      else read_channels (field ∷ fields) frq
]

-- `read_time_system`
unfoldable pub read_time_system : Text → Option Text
unfolding split_whitespace
read_time_system content = first_of (drop 6 (split_whitespace content))
