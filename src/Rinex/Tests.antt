-- ===== src/Rinex/Tests.antt =====
-- Tests of the models of obsj/src/rinexobs.rs.
use mathlib.Core.List.{Permᴰ}
use convobs_rs.Base.{
  ℕ, nat_eq, All, ◌≡◌, refl, ◌<◌, none, some, Option, List, ◌≤◌, length, [], ◌∷◌, take, get_or,
  arith,
}
use convobs_rs.Base.Int.{ℤ, pos}
use convobs_rs.Base.Map.{Map, get}
use convobs_rs.Base.Texts.{ascii, trim, parse_unsigned, digits_from}
use convobs_rs.Ids.{
  sat_is_valid, is_valid_sat, sig_is_valid, code_eq, ObsCode, code, type_code, type_phase,
  type_doppler,
}
use convobs_rs.Metadata.{Text, default_metadata}
use convobs_rs.Samples.{int_floats, g01, l1c, slipped_observation, blank_observation}
use convobs_rs.Rinex.{ObsField, ObsFile}
use convobs_rs.Rinex.Build.{field, start_file, build_step, build_obs_file, sort_by_time}
use convobs_rs.Rinex.Listed.{or_else}
use convobs_rs.Rinex.Kept.{field_at, first_told, flagged, build_obs_file-first_told}
use convobs_rs.Rinex.Shown.{IsShown, build_obs_file-IsShown}
use convobs_rs.Rinex.Codes.{sort_observation_codes, ordered_systems, other_systems}
use convobs_rs.Rinex.Columns.{satellite_line, value_text}
use convobs_rs.Rinex.Satellite.{rinex_field, parse_indicator}
use convobs_rs.Rinex.Sorted.{Ascending, sort_observation_codes-Ascending}
use convobs_rs.Rinex.Cells.{NoBlank, Fits, rinex_field-satellite_line}
use convobs_rs.Rinex.Head.{ObsHeader, new_header}
use convobs_rs.Rinex.Head.End.{read_records}
use convobs_rs.Rinex.Lines.{read_lines}
use convobs_rs.Rinex.Systems.{IsWritable, get-All, read_records-type_lines}
use convobs_rs.Rinex.Systems
use convobs_rs.Rinex.Words.{IsPlain}
use convobs_rs.Rinex.Write.{type_lines}
use convobs_rs.Checked.{Checked, good}
use convobs_rs.Values.{SignalObservation}
use convobs_rs.Rinex.Epochs.{read_epochs}
use convobs_rs.Rinex.Answers.{IsAnswer}
use convobs_rs.Rinex.Ends.{read_epochs-ends}

abbrev c1c : ObsCode
c1c = code l1c type_code

abbrev phase1c : ObsCode
phase1c = code l1c type_phase

abbrev d1c : ObsCode
d1c = code l1c type_doppler

sort_test : sort_observation_codes (d1c ∷ phase1c ∷ c1c ∷ []) ≡ c1c ∷ phase1c ∷ d1c ∷ []
unfolding sort_observation_codes
sort_test = refl

sort_observation_codes-Ascending_example :
    Ascending (sort_observation_codes (d1c ∷ c1c ∷ phase1c ∷ []))
    × Permᴰ (sort_observation_codes (d1c ∷ c1c ∷ phase1c ∷ [])) (d1c ∷ c1c ∷ phase1c ∷ [])
sort_observation_codes-Ascending_example =
    sort_observation_codes-Ascending (d1c ∷ c1c ∷ phase1c ∷ [])

-- A phase with a slip, and a blank range.
abbrev shown : Map ObsCode (ObsField int_floats)
shown = (c1c, field (some (pos 20)) 0) ∷ (phase1c, field (some (pos 105)) 3) ∷ []

abbrev print : ℤ → Text
print z = ascii "105.000"

text_short : (v : Option ℤ) → length (value_text int_floats print v) ≤ 14
text_short none = omega arith
text_short (some v) = omega arith

text_solid : (v : Option ℤ) → NoBlank (value_text int_floats print v)
text_solid none = tt
text_solid (some v) = (refl, (refl, (refl, (refl, (refl, (refl, (refl, tt)))))))

shown_small : (c : ObsCode) (f : ObsField int_floats) → get c shown ≡ some f → f.lli < 8
unfolding get
shown_small c f e = ground arith

shown-Fits : (c : ObsCode) → Fits int_floats print shown c
shown-Fits c = record {
  narrow = λ f e. text_short f.val;
  solid = λ f e. text_solid f.val;
  small = shown_small c;
}

phase_field : get phase1c shown ≡ some (field (some (pos 105)) 3)
unfolding get
phase_field = refl

rinex_field-satellite_line_example :
    (trim (take 14 (rinex_field (satellite_line int_floats print g01 shown (c1c ∷ phase1c ∷ [])) 1))
      ≡ ascii "105.000")
    × (parse_indicator (
          get_or
            (rinex_field (satellite_line int_floats print g01 shown (c1c ∷ phase1c ∷ [])) 1)
            14
            0)
        ≡ some 3)
    × (parse_indicator (
          get_or
            (rinex_field (satellite_line int_floats print g01 shown (c1c ∷ phase1c ∷ [])) 1)
            15
            0)
        ≡ none)
rinex_field-satellite_line_example =
    rinex_field-satellite_line int_floats print shown g01 (c1c ∷ phase1c ∷ []) 1 phase1c
      (field (some (pos 105)) 3) (shown-Fits c1c, (shown-Fits phase1c, tt)) (shown-Fits phase1c)
      refl phase_field

abbrev file_lines : List Text
file_lines =
    ascii "> 2026 05 19 00 00  0.0000000  0  1" ∷ ascii "G01  20000000.000" ∷ ascii " " ∷ []

read_epochs-ends_example :
    (r : Checked (List (SignalObservation int_floats))) × (read_epochs int_floats
        (λ s. some (pos 5))
        ((b'G', c1c ∷ []) ∷ [])
        []
        (ascii "GPS")
        (pos 18)
        4
        file_lines
      ≡ some r)
    × IsAnswer r
read_epochs-ends_example =
    read_epochs-ends int_floats (λ s. some (pos 5)) ((b'G', c1c ∷ []) ∷ []) [] (ascii "GPS")
      (pos 18) 4 file_lines (ground arith) (omega arith)

-- More codes of one system than a line holds, and one of another.
abbrev announced : Map ℕ (List ObsCode)
announced =
    (
      b'G',
      c1c ∷ phase1c ∷ d1c ∷ c1c ∷ phase1c ∷ d1c ∷ c1c ∷ phase1c ∷ d1c ∷ c1c ∷ phase1c ∷ d1c ∷ c1c
          ∷ phase1c ∷ [],
    )
    ∷ (b'R', c1c ∷ [])
    ∷ []

c1c-IsPlain : IsPlain c1c
unfolding parse_unsigned digits_from
c1c-IsPlain = record { solid = (refl, (refl, (refl, tt))); worded = refl }

phase1c-IsPlain : IsPlain phase1c
unfolding parse_unsigned digits_from
phase1c-IsPlain = record { solid = (refl, (refl, (refl, tt))); worded = refl }

d1c-IsPlain : IsPlain d1c
unfolding parse_unsigned digits_from
d1c-IsPlain = record { solid = (refl, (refl, (refl, tt))); worded = refl }

announced-IsWritable : IsWritable announced
announced-IsWritable = record {
  few =
      λ s cs e. get-All (λ cs. length cs < 10000) announced s cs (omega arith, (omega arith, tt)) e;
  plain = λ s cs e.
      get-All (All IsPlain) announced s cs
        (
          (
            c1c-IsPlain,
            (
              phase1c-IsPlain,
              (
                d1c-IsPlain,
                (
                  c1c-IsPlain,
                  (
                    phase1c-IsPlain,
                    (
                      d1c-IsPlain,
                      (
                        c1c-IsPlain,
                        (
                          phase1c-IsPlain,
                          (
                            d1c-IsPlain,
                            (
                              c1c-IsPlain,
                              (
                                phase1c-IsPlain,
                                (d1c-IsPlain, (c1c-IsPlain, (phase1c-IsPlain, tt))),
                              ),
                            ),
                          ),
                        ),
                      ),
                    ),
                  ),
                ),
              ),
            ),
          ),
          ((c1c-IsPlain, tt), tt),
        )
        e;
}

no_others : other_systems announced ≡ []
unfolding other_systems
no_others = refl

read_records-type_lines_example :
    (after : ObsHeader int_floats) × (read_records int_floats
        (λ s. none)
        new_header
        (read_lines (type_lines int_floats (λ n. print) announced (ordered_systems announced)))
      ≡ good after)
    × ((s : ℕ) → get s after.types.codes ≡ Systems.shown (get s announced))
    × (after.meta ≡ default_metadata)
read_records-type_lines_example =
    read_records-type_lines int_floats (λ s. none) (λ n. print) announced no_others
      announced-IsWritable

-- Two observations of a signal, the first with a slip.
abbrev given : List (SignalObservation int_floats)
given = slipped_observation ∷ blank_observation ∷ []

abbrev file : ObsFile int_floats
file = or_else (start_file (pos 0)) (build_obs_file given)

file_built : build_obs_file given ≡ good file
unfolding build_obs_file build_step sat_is_valid is_valid_sat sig_is_valid
file_built = refl

build_obs_file-IsShown_example : All (IsShown file.codes) file.epochs
build_obs_file-IsShown_example = build_obs_file-IsShown given file file_built

build_obs_file-first_told_example :
    field_at file.epochs (pos 10000000) g01 phase1c
    ≡ first_told (flagged [] (sort_by_time given)) (pos 10000000) g01 phase1c
build_obs_file-first_told_example =
    build_obs_file-first_told given file (pos 10000000) g01 phase1c file_built
