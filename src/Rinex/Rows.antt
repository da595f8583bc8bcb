-- ===== src/Rinex/Rows.antt =====
-- The lines `SYS / # / OBS TYPES` of obsj/src/rinexobs.rs in a text: what reading the lines of
-- `write_obs_types` does to the header.
use mathlib.Core.List.{append_assoc}
use convobs_rs.Base.{
  ℕ, zero, suc, ◌-◌, ◌≡◌, ◌≤◌, ◌<◌, refl, ◌∙◌, ap, true, nat_eq, Option, List, [], ◌∷◌, ◌++◌,
  length, length-append, length-drop, length-take, take, drop, All, All-append, All-take, All-drop,
  arith,
}
use convobs_rs.Base.Texts.{trim_start, trim_end}
use convobs_rs.Checked.{good}
use convobs_rs.Ids.{ObsCode}
use convobs_rs.Metadata.{Text}
use convobs_rs.Float.{Floats}
use convobs_rs.Time.Printed.{decimal_digits-digits, length-decimal_digits}
use convobs_rs.Rinex.Cells.{length-pad_left}
use convobs_rs.Rinex.Head.{ObsHeader, read_record}
use convobs_rs.Rinex.Head.End.{read_records}
use convobs_rs.Rinex.Lines.{
  IsPrinted, spaces-IsPrinted, header_row, read_lines, read_lines-line, header_line_lem,
  content_of-row, label_of-row,
}
use convobs_rs.Rinex.Columns.{
  spaces, pad_right, pad_left, code_columns, header_line, more_types, write_obs_types,
}
use convobs_rs.Rinex.Records.{ObsTypes, read_obs_types_header, is_header_system}
use convobs_rs.Rinex.Words.{
  IsPlain, label, digits-NoBlank, NoBlank-IsPrinted, code_columns-IsPrinted, row-IsPrinted,
  length-code_columns,
}
use convobs_rs.Rinex.Types.{
  push_codes, push_codes-take, counted, count_text, read_obs_types_header-more,
  read_obs_types_header-first,
}

length-types : (cs : List ObsCode) → length (code_columns (take 13 cs)) ≤ 52
length-types cs = omega (arith, length-code_columns (take 13 cs), length-take 13 cs)

module _ (fl : Floats) (parse_float : Text → Option fl.F64) where
  abbrev pub typed : ObsHeader fl → ℕ → ObsTypes → ObsHeader fl
  typed h sys types = record h { sys = sys; types = types }

  -- A written line, and the lines behind it.
  read_records-row :
      (h : ObsHeader fl) (content rest : Text) (sys : ℕ) (types : ObsTypes)
      → length content ≤ 60
      → All IsPrinted content
      → read_obs_types_header (pad_right 60 content) h.sys h.types ≡ good (sys, types)
      → read_records fl parse_float h (read_lines (header_line content label ++ rest))
        ≡ read_records fl parse_float (typed h sys types) (read_lines rest)
  unfolding read_records read_record trim_start trim_end
  read_records-row h content rest sys types short printed read =
      rw
        (
          header_line_lem content label rest short,
          read_lines-line (header_row content label) rest (row-IsPrinted content printed),
          label_of-row content label short (omega arith),
          content_of-row content label short (omega arith),
          read,
        )
        refl

  read_records-more_types :
      (fuel : ℕ) (cs : List ObsCode) (h : ObsHeader fl) (sys : ℕ) (types : ObsTypes) (rest : Text)
      → is_header_system sys ≡ true
      → All IsPlain cs
      → length cs ≤ fuel
      → read_records fl parse_float (typed h sys types) (read_lines (more_types fuel cs ++ rest))
        ≡ read_records fl parse_float (typed h sys (push_codes sys cs types)) (read_lines rest)
  unfolding read_records read_lines more_types
  read_records-more_types zero [] h sys types rest known plain enough = refl
  read_records-more_types zero (c ∷ cs) h sys types rest known plain enough = absurd (ground arith)
  read_records-more_types (suc fuel) [] h sys types rest known plain enough = refl
  read_records-more_types (suc fuel) (c ∷ cs) h sys types rest known plain enough =
      let front = take 13 (c ∷ cs) in
      let content = spaces 6 ++ code_columns front in
      let plain_front = All-take IsPlain 13 (c ∷ cs) plain in
      let short : length content ≤ 60 = omega (arith, length-types (c ∷ cs)) in
      let printed =
        All-append IsPrinted (spaces 6) (code_columns front) (spaces-IsPrinted 6)
          (code_columns-IsPrinted front plain_front) in
      let read : read_obs_types_header (pad_right 60 content) sys types
          ≡ good (sys, push_codes sys front types) =
        read_obs_types_header-more sys (60 - length content) c (take 12 cs) types known
          plain_front in
      let left : length (drop 13 (c ∷ cs)) ≤ fuel = omega (arith, length-drop 13 (c ∷ cs)) in
      let later = more_types fuel (drop 13 (c ∷ cs)) in
      ap (λ t. read_records fl parse_float (typed h sys types) (read_lines t))
        (append_assoc (header_line content label) later rest)
      ∙ read_records-row (typed h sys types) content (later ++ rest) sys
          (push_codes sys front types) short printed read
      ∙ read_records-more_types fuel (drop 13 (c ∷ cs)) h sys (push_codes sys front types) rest
          known (All-drop IsPlain 13 (c ∷ cs) plain) left
      ∙ ap (λ t. read_records fl parse_float (typed h sys t) (read_lines rest))
          (push_codes-take sys 13 (c ∷ cs) types)

  -- The records of one system, and what stands behind them.
  pub read_records-write_obs_types :
      (h : ObsHeader fl) (sys : ℕ) (c : ObsCode) (cs : List ObsCode) (rest : Text)
      → is_header_system sys ≡ true
      → length (c ∷ cs) < 10000
      → All IsPlain (c ∷ cs)
      → read_records fl parse_float h (read_lines (write_obs_types sys (c ∷ cs) ++ rest))
        ≡ read_records fl parse_float
            (typed h sys (push_codes sys (c ∷ cs) (counted sys (length (c ∷ cs)) h.types)))
            (read_lines rest)
  unfolding write_obs_types
  read_records-write_obs_types h sys c cs rest known few plain =
      let codes = c ∷ cs in
      let front = take 13 codes in
      let n = length codes in
      let content = sys ∷ (pad_left 5 (count_text n) ++ code_columns front) in
      let start = counted sys n h.types in
      let plain_front = All-take IsPlain 13 codes plain in
      let d_short = length-decimal_digits 20 3 n few in
      let short : length content ≤ 60 = omega (
        arith,
        length-append (pad_left 5 (count_text n)) (code_columns front),
        length-pad_left 5 (count_text n) (omega arith),
        length-types codes,
      ) in
      let printed : All IsPrinted content = (
        (ground arith, ground arith),
        All-append IsPrinted (pad_left 5 (count_text n)) (code_columns front)
            (All-append IsPrinted (spaces (5 - length (count_text n))) (count_text n)
              (spaces-IsPrinted (5 - length (count_text n)))
              (NoBlank-IsPrinted (count_text n)
                (digits-NoBlank (count_text n) (decimal_digits-digits 20 n))))
            (code_columns-IsPrinted front plain_front),
      ) in
      let read =
        read_obs_types_header-first sys h.sys n (60 - length content) front h.types known few
          plain_front in
      let left : length (drop 13 codes) ≤ length cs = omega (arith, length-drop 13 codes) in
      let later = more_types (length cs) (drop 13 codes) in
      ap (λ t. read_records fl parse_float h (read_lines t))
        (append_assoc (header_line content label) later rest)
      ∙ read_records-row h content (later ++ rest) sys (push_codes sys front start) short printed
          read
      ∙ read_records-more_types (length cs) (drop 13 codes) h sys (push_codes sys front start) rest
          known (All-drop IsPlain 13 codes plain) left
      ∙ ap (λ t. read_records fl parse_float (typed h sys t) (read_lines rest))
          (push_codes-take sys 13 codes start)
