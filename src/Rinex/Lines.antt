-- ===== src/Rinex/Lines.antt =====
-- The line reader of obsj/src/rinexobs.rs, `LineReader`, over the bytes of a whole file, and the lines
-- that `header_line` writes. A read that fails is not modelled; the bytes are ASCII.
use mathlib.Core.List.{append_assoc, append-nil}
use convobs_rs.Base.{
  ℕ, zero, suc, ◌+◌, ◌-◌, ◌≡◌, ◌≤◌, refl, ap, true, false, ◌&&◌, ◌||◌, nat_beq, if◌then◌else◌, List,
  [], ◌∷◌, ◌++◌, length, length-append, take, take-append, drop, drop-append, All, arith,
}
use convobs_rs.Base.Texts.{split, trim}
use convobs_rs.Metadata.{Text, is_empty}
use convobs_rs.Time.Printed.{split-join}
use convobs_rs.Rinex.Cells.{length-spaces}
use convobs_rs.Rinex.Columns.{spaces, pad_right, header_line}
use convobs_rs.Rinex.Head.{content_of, label_of}

-- What `next_line` takes from the end of a line.
unfoldable pub pop_ends : Text → Text
pop_ends [] = []
pop_ends (c ∷ cs) =
    let rest = pop_ends cs in
    if is_empty rest && (nat_beq c 10 || nat_beq c 13) then [] else c ∷ rest

abbrev pub line_parts : List Text → List Text
line_parts [] = []
line_parts ([] ∷ []) = []
line_parts ((c ∷ cs) ∷ []) = pop_ends (c ∷ cs) ∷ []
line_parts (part ∷ q ∷ parts) = pop_ends part ∷ line_parts (q ∷ parts)

-- The lines that `next_line` returns, one call after the other.
unfoldable pub read_lines : Text → List Text
unfolding split pop_ends
read_lines s = line_parts (split 10 s)

-- A byte that does not end a line.
abbrev pub IsPrinted : ℕ → Type 0
IsPrinted c = (nat_beq c 10 ≡ false) × (nat_beq c 13 ≡ false)

pop_ends-IsPrinted : (s : Text) → All IsPrinted s → pop_ends s ≡ s
unfolding pop_ends
pop_ends-IsPrinted [] h = refl
pop_ends-IsPrinted (c ∷ cs) h = rw (pop_ends-IsPrinted cs h.1) (ground arith)

pub All-lacks : (s : Text) → All IsPrinted s → All (λ c. nat_beq c 10 ≡ false) s
All-lacks [] h = tt
All-lacks (c ∷ cs) h = (h.0.0, All-lacks cs h.1)

line_parts-cons :
    (s : Text) (parts : List Text)
    → All IsPrinted s
    → (q : Text) × (rest : List Text) × (parts ≡ q ∷ rest)
    → line_parts (s ∷ parts) ≡ s ∷ line_parts parts
unfolding pop_ends
line_parts-cons [] parts h (q, rest, e) = rw e refl
line_parts-cons (c ∷ cs) parts h (q, rest, e) = rw (e, pop_ends-IsPrinted (c ∷ cs) h) refl

split-cons : (sep : ℕ) (s : Text) → (q : Text) × (rest : List Text) × (split sep s ≡ q ∷ rest)
unfolding split
split-cons sep [] = ([], [], refl)
split-cons sep (c ∷ cs) =
    let (q, rest, e) = split-cons sep cs in
    elim (nat_beq c sep)
      as (λ b.
        (q : Text) × (rest : List Text) × ((if b
            then [] ∷ split sep cs
            else elim (split sep cs) [ [] ↦ (c ∷ []) ∷ [] | p ∷ o ↦ (c ∷ p) ∷ o ])
          ≡ q ∷ rest)) [ true ↦ ([], split sep cs, refl) | false ↦ (c ∷ q, rest, rw e refl) ]

pub read_lines-line : (s t : Text) → All IsPrinted s → read_lines (s ++ (10 ∷ t)) ≡ s ∷ read_lines t
unfolding read_lines
read_lines-line s t h =
    rw (split-join 10 s t (All-lacks s h)) (line_parts-cons s (split 10 t) h (split-cons 10 t))

pub spaces-IsPrinted : (n : ℕ) → All IsPrinted (spaces n)
spaces-IsPrinted zero = tt
spaces-IsPrinted (suc n) = ((refl, refl), spaces-IsPrinted n)

-- A content that `header_line` does not cut.
length-pad_right : (n : ℕ) (s : Text) → length s ≤ n → length (pad_right n s) ≡ n
length-pad_right n s h =
    omega (arith, length-append s (spaces (n - length s)), length-spaces (n - length s))

take_all : (n : ℕ) (s : Text) → length s ≤ n → take n s ≡ s
take_all zero [] h = refl
take_all zero (c ∷ cs) h = absurd (ground arith)
take_all (suc n) [] h = refl
take_all (suc n) (c ∷ cs) h = ap (λ l. c ∷ l) (take_all n cs (omega arith))

take_front : (n : ℕ) (s t : Text) → length s ≡ n → take n (s ++ t) ≡ s
take_front n s t e = rw (← e) (take-append s t)

drop_front : (n : ℕ) (s t : Text) → length s ≡ n → drop n (s ++ t) ≡ t
drop_front n s t e =
    let same : drop (length s + 0) (s ++ t) ≡ t = drop-append 0 s t in
    let at : length s + 0 ≡ n = omega (arith, e) in rw at at same

-- The columns of a line.
abbrev pub header_row : Text → Text → Text
header_row content label = pad_right 60 content ++ pad_right 20 label

pub header_line_lem :
    (content label t : Text)
    → length content ≤ 60
    → header_line content label ++ t ≡ header_row content label ++ (10 ∷ t)
unfolding header_line
header_line_lem content label t h =
    rw (take_all 60 content h) (append_assoc (header_row content label) (10 ∷ []) t)

pad_line-row :
    (content label : Text)
    → length content ≤ 60
    → length label ≤ 20
    → pad_right 80 (header_row content label) ≡ header_row content label
pad_line-row content label h k =
    let row = header_row content label in
    let whole : length row ≡ 80 = omega (
      arith,
      length-append (pad_right 60 content) (pad_right 20 label),
      length-pad_right 60 content h,
      length-pad_right 20 label k,
    ) in
    rw whole (append-nil row)

pub content_of-row :
    (content label : Text)
    → length content ≤ 60
    → length label ≤ 20
    → content_of (header_row content label) ≡ pad_right 60 content
content_of-row content label h k =
    rw (pad_line-row content label h k)
      (take_front 60 (pad_right 60 content) (pad_right 20 label) (length-pad_right 60 content h))

pub label_of-row :
    (content label : Text)
    → length content ≤ 60
    → length label ≤ 20
    → label_of (header_row content label) ≡ trim (pad_right 20 label)
unfolding label_of
label_of-row content label h k =
    rw
      (
        pad_line-row content label h k,
        drop_front 60 (pad_right 60 content) (pad_right 20 label) (length-pad_right 60 content h),
        take_all 20 (pad_right 20 label) (omega (arith, length-pad_right 20 label k)),
      )
      refl
