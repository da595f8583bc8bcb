-- ===== src/Rinex/Columns.antt =====
-- The lines of an epoch and of the header in obsj/src/rinexobs.rs: fixed columns. Printing a number
-- with decimals is the standard library's, a parameter.
use convobs_rs.Base.{
  ℕ, zero, suc, ◌+◌, ◌-◌, not, nat_beq, nat_eq, if◌then◌else◌, Option, none, some, unwrap_or, List,
  [], ◌∷◌, ◌++◌, length, take, drop,
}
use convobs_rs.Base.Map.{Map, get}
use convobs_rs.Base.Texts.{ascii}
use convobs_rs.Float.{Floats}
use convobs_rs.Ids.{SatId, ObsCode, code_eq, sat_eq, sat_as_str, system}
use convobs_rs.Metadata.{Text}
use convobs_rs.Time.Text.{decimal_digits}
use convobs_rs.Rinex.{obs_value_width, ObsField, Epoch, ObsFile}

abbrev pub spaces : ℕ → Text
spaces zero = []
spaces (suc n) = b' ' ∷ spaces n

-- A text with spaces behind it, and in front of it, up to a width.
abbrev pub pad_right : ℕ → Text → Text
pad_right n s = s ++ spaces (n - length s)

abbrev pub pad_left : ℕ → Text → Text
pad_left n s = spaces (n - length s) ++ s

-- `pad_line`
abbrev pub pad_line : Text → ℕ → Text
pad_line s n = pad_right n s

-- `header_line`, with its line feed: at most 60 columns of content, and the label.
unfoldable pub header_line : Text → Text → Text
header_line content label = pad_right 60 (take 60 content) ++ pad_right 20 label ++ (10 ∷ [])

-- The codes of a line of `SYS / # / OBS TYPES`: a space and three columns each.
abbrev pub code_columns : List ObsCode → Text
code_columns [] = []
code_columns (c ∷ cs) = b' ' ∷ c.obs_type ∷ c.band ∷ c.attribute ∷ code_columns cs

-- The lines behind the first, of up to 13 codes each; the fuel is at least their number.
unfoldable pub more_types : ℕ → List ObsCode → Text
unfolding header_line
more_types zero codes = []
more_types (suc fuel) [] = []
more_types (suc fuel) (c ∷ codes) =
    let rest = more_types fuel (drop 13 (c ∷ codes)) in
    header_line (spaces 6 ++ code_columns (take 13 (c ∷ codes))) (ascii "SYS / # / OBS TYPES")
    ++ rest

-- `write_obs_types`
unfoldable pub write_obs_types : ℕ → List ObsCode → Text
unfolding header_line more_types decimal_digits
write_obs_types sys [] = []
write_obs_types sys (c ∷ codes) =
    let count = pad_left 5 (decimal_digits 20 (length (c ∷ codes))) in
    header_line (sys ∷ (count ++ code_columns (take 13 (c ∷ codes)))) (ascii "SYS / # / OBS TYPES")
    ++ more_types (length codes) (drop 13 (c ∷ codes))

module _ (fl : Floats) (print_fixed : fl.F64 → Text) where
  abbrev pub value_text : Option fl.F64 → Text
  value_text none = []
  value_text (some v) = print_fixed v

  -- `append_obs_field`: `print_fixed` prints three decimals. An indicator is below 256.
  unfoldable pub append_obs_field : ObsField fl → Text
  append_obs_field field =
      pad_left obs_value_width (value_text field.val)
      ++ ((if not (nat_beq field.lli 0) then b'0' + field.lli else b' ') ∷ b' ' ∷ [])

  -- The columns of one code.
  unfoldable pub cell : Map ObsCode (ObsField fl) → ObsCode → Text
  unfolding append_obs_field
  cell fields c = elim (get c fields) [ none ↦ spaces 16 | some f ↦ append_obs_field f ]

  unfoldable pub cells : Map ObsCode (ObsField fl) → List ObsCode → Text
  unfolding cell
  cells fields [] = []
  cells fields (c ∷ cs) = cell fields c ++ cells fields cs

  -- The line of a satellite in `write_epochs`, without its line feed.
  unfoldable pub satellite_line : SatId → Map ObsCode (ObsField fl) → List ObsCode → Text
  unfolding cells
  satellite_line sat fields codes = sat_as_str sat ++ cells fields codes

  -- The lines of the satellites of an epoch.
  unfoldable pub satellite_lines : ObsFile fl → Epoch fl → List SatId → List Text
  unfolding satellite_line
  satellite_lines f e [] = []
  satellite_lines f e (sat ∷ sats) =
      satellite_line sat (unwrap_or (get sat e.obs) []) (unwrap_or (get (system sat) f.codes) [])
      ∷ satellite_lines f e sats
