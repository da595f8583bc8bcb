-- ===== src/Rinex/Cells.antt =====
-- The columns of a satellite's line, written and read back: obsj/src/rinexobs.rs, `append_obs_field`
-- and `rinex_field`.
use mathlib.Core.List.{append_assoc, append-nil}
use convobs_rs.Base.{
  ℕ, zero, suc, ◌+◌, ◌-◌, ◌*◌, ◌≤◌, ◌<◌, ◌≡◌, refl, ◌∙◌, sym, ap, false, not, leb, nat_beq,
  if◌then◌else◌, none, some, List, [], ◌∷◌, ◌++◌, length, take, drop, get_or, get_elem?,
  length-append, length-drop, Option-cases, inl, inr, take-append, drop-append, get_or-append, All,
  arith,
}
use convobs_rs.Base.Map.{Map, get}
use convobs_rs.Base.Texts.{white, trim, trim_start, trim_end}
use convobs_rs.Float.{Floats}
use convobs_rs.Ids.{SatId, ObsCode, code_eq, sat_as_str}
use convobs_rs.Metadata.{Text}
use convobs_rs.Rinex.{ObsField}
use convobs_rs.Rinex.Columns.{
  spaces, pad_left, value_text, append_obs_field, cell, cells, satellite_line,
}
use convobs_rs.Rinex.Satellite.{rinex_field, parse_indicator}

pub length-spaces : (n : ℕ) → length (spaces n) ≡ n
length-spaces zero = refl
length-spaces (suc n) = ap suc (length-spaces n)

pub length-pad_left : (n : ℕ) (s : Text) → length s ≤ n → length (pad_left n s) ≡ n
length-pad_left n s h =
    omega (arith, length-append (spaces (n - length s)) s, length-spaces (n - length s))

-- A text without blanks is what `trim` finds behind spaces.
abbrev pub NoBlank : Text → Type 0
NoBlank s = All (λ c. white c ≡ false) s

trim_end_kept : (c : ℕ) (s : Text) → white c ≡ false → NoBlank s → trim_end (c ∷ s) ≡ c ∷ s
unfolding trim_end
trim_end_kept c [] h t = rw h refl
trim_end_kept c (d ∷ s) h t = rw (trim_end_kept d s t.0 t.1) refl

trim_end-cons : (c d : ℕ) (s : Text) → trim_end (d ∷ s) ≡ d ∷ s → trim_end (c ∷ d ∷ s) ≡ c ∷ d ∷ s
unfolding trim_end
trim_end-cons c d s h = rw h refl

trim_end-spaces :
    (n c : ℕ) (s : Text)
    → white c ≡ false
    → NoBlank s
    → trim_end (spaces n ++ (c ∷ s)) ≡ spaces n ++ (c ∷ s)
trim_end-spaces zero c s h t = trim_end_kept c s h t
trim_end-spaces (suc zero) c s h t = trim_end-cons b' ' c s (trim_end_kept c s h t)
trim_end-spaces (suc (suc n)) c s h t =
    trim_end-cons b' ' b' ' (spaces n ++ (c ∷ s)) (trim_end-spaces (suc n) c s h t)

trim_start-spaces : (n : ℕ) (s : Text) → trim_start (spaces n ++ s) ≡ trim_start s
unfolding trim_start
trim_start-spaces zero s = refl
trim_start-spaces (suc n) s = trim_start-spaces n s

trim_blank : (n : ℕ) → trim_end (spaces n) ≡ []
unfolding trim_end
trim_blank zero = refl
trim_blank (suc n) = rw (trim_blank n) refl

trim-pad_left : (n : ℕ) (s : Text) → NoBlank s → trim (spaces n ++ s) ≡ s
unfolding trim_start
trim-pad_left n [] h = rw (append-nil (spaces n), trim_blank n) refl
trim-pad_left n (c ∷ s) h =
    rw (trim_end-spaces n c s h.0 h.1, trim_start-spaces n (c ∷ s), h.0) refl

module _ (fl : Floats) (print_fixed : fl.F64 → Text) (fields : Map ObsCode (ObsField fl)) where
  -- The values of the codes are printed in 14 columns without blanks, as numbers below 10 ^ 9 are,
  -- and their indicators are of three bits.
  pub record Fits (c : ObsCode) : Type 0 where
    pub narrow :
        (f : ObsField fl) → get c fields ≡ some f → length (value_text fl print_fixed f.val) ≤ 14
    pub solid :
        (f : ObsField fl) → get c fields ≡ some f → NoBlank (value_text fl print_fixed f.val)
    pub small : (f : ObsField fl) → get c fields ≡ some f → f.lli < 8

  -- The columns of a field: the 14 of the value, the indicator and a space.
  abbrev mark : ℕ → ℕ
  mark l = if not (nat_beq l 0) then b'0' + l else b' '

  abbrev value_columns : ObsField fl → Text
  value_columns f = pad_left 14 (value_text fl print_fixed f.val)

  length-append_obs_field :
      (f : ObsField fl)
      → length (value_text fl print_fixed f.val) ≤ 14
      → length (append_obs_field fl print_fixed f) ≡ 16
  unfolding append_obs_field
  length-append_obs_field f h =
      length-append (value_columns f) (mark f.lli ∷ b' ' ∷ [])
      ∙ omega (arith, length-pad_left 14 (value_text fl print_fixed f.val) h)

  length-cell : (c : ObsCode) → Fits c → length (cell fl print_fixed fields c) ≡ 16
  unfolding cell
  length-cell c fits = elim (Option-cases (get c fields)) [
    | inl e ↦ rw (e, cell) refl
    | inr (f, e) ↦ rw (e, cell) (length-append_obs_field f (fits.narrow f e))
  ]

  -- The columns of the code at a position, and what follows them.
  drop-cells :
      (codes : List ObsCode) (i : ℕ) (c : ObsCode)
      → All Fits codes
      → get_elem? codes i ≡ some c
      → (rest : Text) × (drop (i * 16) (cells fl print_fixed fields codes)
          ≡ cell fl print_fixed fields c ++ rest)
  unfolding cells
  drop-cells [] i c fit e = cc
  drop-cells (d ∷ codes) zero c fit e =
      let same : d ≡ c = ground arith in
      let rest = cells fl print_fixed fields codes in
      (rest, ap (λ x. cell fl print_fixed fields x ++ rest) same)
  drop-cells (d ∷ codes) (suc i) c fit e =
      let (rest, ih) = drop-cells codes i c fit.1 e in
      let first = cell fl print_fixed fields d in
      let others = cells fl print_fixed fields codes in
      let wide : suc i * 16 ≡ length first + i * 16 = omega (arith, length-cell d fit.0) in
      (rest, ap (λ n. drop n (first ++ others)) wide ∙ drop-append (i * 16) first others ∙ ih)

  -- The reader's columns of the code at a position are those that the writer made for it.
  rinex_field-cell :
      (sat : SatId) (codes : List ObsCode) (i : ℕ) (c : ObsCode)
      → All Fits codes
      → Fits c
      → get_elem? codes i ≡ some c
      → rinex_field (satellite_line fl print_fixed sat fields codes) i
        ≡ cell fl print_fixed fields c
  unfolding rinex_field satellite_line
  rinex_field-cell sat codes i c fit fits e =
      let line = satellite_line fl print_fixed sat fields codes in
      let column = cell fl print_fixed fields c in
      let (rest, from) = drop-cells codes i c fit e in
      let tail : drop (3 + i * 16) line ≡ column ++ rest =
        drop-append (i * 16) (sat_as_str sat) (cells fl print_fixed fields codes) ∙ from in
      let size = length-cell c fits in
      let far : length line - (3 + i * 16) ≡ length (column ++ rest) =
        sym (length-drop (3 + i * 16) line) ∙ ap length tail in
      let inside : leb (length line) (3 + i * 16) ≡ false =
        ground (arith, far, length-append column rest) in
      let more = spaces (16 - length (column ++ rest)) in
      rw (inside, tail)
        (ap (take 16) (append_assoc column rest more)
          ∙ ap (λ n. take n (column ++ (rest ++ more))) (sym size)
          ∙ take-append column (rest ++ more))

  append_obs_field-read :
      (f : ObsField fl)
      → length (value_text fl print_fixed f.val) ≤ 14
      → NoBlank (value_text fl print_fixed f.val)
      → f.lli < 8
      → (trim (take 14 (append_obs_field fl print_fixed f)) ≡ value_text fl print_fixed f.val)
        × (parse_indicator (get_or (append_obs_field fl print_fixed f) 14 0)
            ≡ (if nat_beq f.lli 0 then none else some f.lli))
        × (parse_indicator (get_or (append_obs_field fl print_fixed f) 15 0) ≡ none)
  unfolding append_obs_field parse_indicator
  append_obs_field-read f short solid small =
      let text = value_text fl print_fixed f.val in
      let size = length-pad_left 14 text short in
      let tail = mark f.lli ∷ b' ' ∷ [] in
      let front : take 14 (value_columns f ++ tail) ≡ value_columns f =
        ap (λ n. take n (value_columns f ++ tail)) (sym size)
        ∙ take-append (value_columns f) tail in
      let at14 : get_or (value_columns f ++ tail) 14 0 ≡ mark f.lli =
        ap (λ n. get_or (value_columns f ++ tail) n 0) (omega (arith, size))
        ∙ get_or-append (value_columns f) tail 0 0 in
      let at15 : get_or (value_columns f ++ tail) 15 0 ≡ b' ' =
        ap (λ n. get_or (value_columns f ++ tail) n 0) (omega (arith, size))
        ∙ get_or-append (value_columns f) tail 1 0 in
      (rw front (trim-pad_left (14 - length text) text solid), rw at14 (ground arith), rw at15 refl)

  -- A satellite's line, written and read back: for each code whose field the line shows, the reader
  -- finds in the code's columns the printed value, the loss-of-lock indicator where it is not zero,
  -- and no signal strength. (When every value is printed in at most 14 columns without blanks, and
  -- the indicators are below 8.)
  pub rinex_field-satellite_line :
      (sat : SatId) (codes : List ObsCode) (i : ℕ) (c : ObsCode) (f : ObsField fl)
      → All Fits codes
      → Fits c
      → get_elem? codes i ≡ some c
      → get c fields ≡ some f
      → (trim (take 14 (rinex_field (satellite_line fl print_fixed sat fields codes) i))
          ≡ value_text fl print_fixed f.val)
        × (parse_indicator
              (get_or (rinex_field (satellite_line fl print_fixed sat fields codes) i) 14 0)
            ≡ (if nat_beq f.lli 0 then none else some f.lli))
        × (parse_indicator
              (get_or (rinex_field (satellite_line fl print_fixed sat fields codes) i) 15 0)
            ≡ none)
  unfolding cell
  rinex_field-satellite_line sat codes i c f fit fits e shown =
      let same : cell fl print_fixed fields c ≡ append_obs_field fl print_fixed f =
        rw (shown, cell) refl in
      rw (rinex_field-cell sat codes i c fit fits e, same)
        (append_obs_field-read f (fits.narrow f shown) (fits.solid f shown) (fits.small f shown))
