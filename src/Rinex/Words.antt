-- ===== src/Rinex/Words.antt =====
-- The words of a record of a header in obsj/src/rinexobs.rs: what `split_whitespace` makes of the
-- columns that `write_obs_types` writes.
use mathlib.Core.List.{append_assoc}
use convobs_rs.Base.{
  ℕ, zero, suc, ◌-◌, ◌*◌, ◌^◌, ◌≡◌, refl, ap, Bool, true, false, none, List, [], ◌∷◌, ◌++◌, length,
  All, All-append, ◌<◌, ◌≤◌, ◌∙◌, arith,
}
use convobs_rs.Time.Printed.{IsDigit}
use convobs_rs.Base.Texts.{ascii, white, parse_unsigned}
use convobs_rs.Ids.{ObsCode}
use convobs_rs.Metadata.{Text}
use convobs_rs.Rinex.Cells.{NoBlank}
use convobs_rs.Rinex.Columns.{spaces, pad_left, pad_right, code_columns}
use convobs_rs.Rinex.Lines.{IsPrinted, spaces-IsPrinted, header_row}
use convobs_rs.Rinex.Records.{words_from, split_whitespace}

-- A text that does not go on with the word in front of it.
abbrev pub IsGap : Text → Type 0
IsGap s = (words_from s).0 ≡ false

pub blank-IsGap : (s : Text) → IsGap (b' ' ∷ s)
unfolding words_from
blank-IsGap s = refl

pub split_whitespace-blank : (s : Text) → split_whitespace (b' ' ∷ s) ≡ split_whitespace s
unfolding split_whitespace words_from
split_whitespace-blank s = refl

pub spaces-IsGap : (n : ℕ) → IsGap (spaces n)
unfolding words_from
spaces-IsGap zero = refl
spaces-IsGap (suc n) = refl

pub split_whitespace-spaces :
    (n : ℕ) (s : Text) → split_whitespace (spaces n ++ s) ≡ split_whitespace s
unfolding split_whitespace words_from
split_whitespace-spaces zero s = refl
split_whitespace-spaces (suc n) s = split_whitespace-spaces n s

words_from-word :
    (c : ℕ) (w rest : Text)
    → NoBlank (c ∷ w)
    → IsGap rest
    → words_from ((c ∷ w) ++ rest) ≡ (true, (c ∷ w) ∷ split_whitespace rest)
unfolding words_from split_whitespace
words_from-word c [] rest h gap = rw (h.0, gap) refl
words_from-word c (d ∷ w) rest h gap = rw (h.0, words_from-word d w rest h.1 gap) refl

pub split_whitespace-word :
    (c : ℕ) (w rest : Text)
    → NoBlank (c ∷ w)
    → IsGap rest
    → split_whitespace ((c ∷ w) ++ rest) ≡ (c ∷ w) ∷ split_whitespace rest
unfolding split_whitespace
split_whitespace-word c w rest h gap =
    ap (λ (r : Bool × List Text). r.1) (words_from-word c w rest h gap)

abbrev pub code_text : ObsCode → Text
code_text c = c.obs_type ∷ c.band ∷ c.attribute ∷ []

abbrev pub code_texts : List ObsCode → List Text
code_texts [] = []
code_texts (c ∷ cs) = code_text c ∷ code_texts cs

-- A code that the reader takes for one: without white space, and not a number.
pub record IsPlain (c : ObsCode) : Type 0 where
  pub solid : NoBlank (code_text c)
  pub worded : parse_unsigned (2 ^ 64) (code_text c) ≡ none

pub code_columns-IsGap : (cs : List ObsCode) (n : ℕ) → IsGap (code_columns cs ++ spaces n)
code_columns-IsGap [] n = spaces-IsGap n
code_columns-IsGap (c ∷ cs) n = blank-IsGap (code_text c ++ (code_columns cs ++ spaces n))

pub split_whitespace-code_columns :
    (cs : List ObsCode) (n : ℕ)
    → All IsPlain cs
    → split_whitespace (code_columns cs ++ spaces n) ≡ code_texts cs
unfolding split_whitespace words_from
split_whitespace-code_columns [] zero h = refl
split_whitespace-code_columns [] (suc n) h = split_whitespace-code_columns [] n h
split_whitespace-code_columns (c ∷ cs) n h =
    rw
      (
        split_whitespace-word c.obs_type (c.band ∷ c.attribute ∷ []) (code_columns cs ++ spaces n)
            h.0.solid (code_columns-IsGap cs n),
        split_whitespace-code_columns cs n h.1,
      )
      refl

pub length-code_columns : (cs : List ObsCode) → length (code_columns cs) ≡ length cs * 4
length-code_columns [] = refl
length-code_columns (c ∷ cs) = omega (arith, length-code_columns cs)

abbrev pub label : Text
label = ascii "SYS / # / OBS TYPES"

-- The words of the first line, and of a line behind it.
split_whitespace-field :
    (w rest : Text)
    → NoBlank w
    → 0 < length w
    → IsGap rest
    → split_whitespace (w ++ rest) ≡ w ∷ split_whitespace rest
split_whitespace-field [] rest h long gap = absurd (ground arith)
split_whitespace-field (c ∷ w) rest h long gap = split_whitespace-word c w rest h gap

pub split_whitespace-first :
    (sys : ℕ) (d : Text) (cs : List ObsCode) (m : ℕ)
    → white sys ≡ false
    → NoBlank d
    → 0 < length d
    → length d ≤ 4
    → All IsPlain cs
    → split_whitespace ((sys ∷ (pad_left 5 d ++ code_columns cs)) ++ spaces m)
      ≡ (sys ∷ []) ∷ d ∷ code_texts cs
split_whitespace-first sys d cs m known solid long short plain =
    let tail = code_columns cs ++ spaces m in
    let shape : (pad_left 5 d ++ code_columns cs) ++ spaces m
        ≡ spaces (5 - length d) ++ (d ++ tail) =
      append_assoc (pad_left 5 d) (code_columns cs) (spaces m)
      ∙ append_assoc (spaces (5 - length d)) d tail in
    let gap : 5 - length d ≡ suc (4 - length d) = omega arith in
    let after = spaces (5 - length d) ++ (d ++ tail) in
    let apart : IsGap after = rw gap (blank-IsGap (spaces (4 - length d) ++ (d ++ tail))) in
    rw
      (
        shape,
        split_whitespace-word sys [] after (known, tt) apart,
        split_whitespace-spaces (5 - length d) (d ++ tail),
        split_whitespace-field d tail solid long (code_columns-IsGap cs m),
        split_whitespace-code_columns cs m plain,
      )
      refl

pub split_whitespace-more :
    (cs : List ObsCode) (m : ℕ)
    → All IsPlain cs
    → split_whitespace ((spaces 6 ++ code_columns cs) ++ spaces m) ≡ code_texts cs
split_whitespace-more cs m plain =
    split_whitespace-spaces 6 (code_columns cs ++ spaces m)
    ∙ split_whitespace-code_columns cs m plain

-- Digits, and what the header's lines are made of.
pub digits-NoBlank : (s : Text) → All IsDigit s → NoBlank s
digits-NoBlank [] h = tt
digits-NoBlank (c ∷ cs) h = (ground arith, digits-NoBlank cs h.1)

pub NoBlank-IsPrinted : (s : Text) → NoBlank s → All IsPrinted s
NoBlank-IsPrinted [] h = tt
NoBlank-IsPrinted (c ∷ cs) h = ((ground arith, ground arith), NoBlank-IsPrinted cs h.1)

pub code_columns-IsPrinted : (cs : List ObsCode) → All IsPlain cs → All IsPrinted (code_columns cs)
code_columns-IsPrinted [] h = tt
code_columns-IsPrinted (c ∷ cs) h = (
  (refl, refl),
  All-append IsPrinted (code_text c) (code_columns cs) (NoBlank-IsPrinted (code_text c) h.0.solid)
      (code_columns-IsPrinted cs h.1),
)

pub row-IsPrinted :
    (content : Text) → All IsPrinted content → All IsPrinted (header_row content label)
row-IsPrinted content h =
    let blank = spaces-IsPrinted (60 - length content) in
    All-append IsPrinted (pad_right 60 content) (pad_right 20 label)
      (All-append IsPrinted content (spaces (60 - length content)) h blank) (ground arith)
