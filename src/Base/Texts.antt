-- ===== src/Base/Texts.antt =====
-- What the program uses of Rust's texts, over the list of their bytes: literals, comparison, the
-- bounds of a character, `to_lowercase`, `split`, `lines`, `trim` and the parsing of integers.
use Prim.Native.Char.{code}
use Prim.Native.String.{String}
use convobs_rs.Base.{
  ℕ, ◌+◌, ◌-◌, ◌*◌, ◌≡◌, ◌↔◌, Bool, true, false, ◌&&◌, ◌||◌, ltb, leb, nat_beq, if◌then◌else◌,
  Option, none, some, List, [], ◌∷◌, Eq, length, get_or, arith,
}
use convobs_rs.Base.Int.{ℤ, pos, neg_ℤ}

-- The bytes of an ASCII literal.
abbrev pub ascii : String → List ℕ
ascii String.[] = []
ascii (String.◌∷◌ c rest) = code c ∷ ascii rest

abbrev pub text_beq : List ℕ → List ℕ → Bool
text_beq [] [] = true
text_beq [] (y ∷ ys) = false
text_beq (x ∷ xs) [] = false
text_beq (x ∷ xs) (y ∷ ys) = nat_beq x y && text_beq xs ys

pub text_beq_iff : (a b : List ℕ) → (text_beq a b ≡ true) ↔ (a ≡ b)
text_beq_iff [] [] = ground arith
text_beq_iff [] (y ∷ ys) = ground arith
text_beq_iff (x ∷ xs) [] = ground arith
text_beq_iff (x ∷ xs) (y ∷ ys) = ground (arith, text_beq_iff xs ys)

instance abbrev pub text_eq : Eq (List ℕ)
text_eq = record { beq = text_beq; beq_iff = text_beq_iff }

abbrev pub digit : ℕ → Bool
digit c = leb b'0' c && leb c b'9'

-- `str::is_char_boundary` at a byte inside a UTF-8 text: not a continuation byte.
abbrev pub is_char_boundary : List ℕ → ℕ → Bool
is_char_boundary s i =
    let c = get_or s i 0 in nat_beq i (length s) || (ltb i (length s) && (ltb c 128 || leb 192 c))

-- `to_lowercase`, as far as ASCII letters go. (No other character has a lowercase form that is one
-- of the letters of the words which the program compares with.)
unfoldable pub to_lowercase : List ℕ → List ℕ
to_lowercase [] = []
to_lowercase (c ∷ cs) = (if leb b'A' c && leb c b'Z' then c + 32 else c) ∷ to_lowercase cs

-- `split` at a byte: there is always a first part.
unfoldable pub split : ℕ → List ℕ → List (List ℕ)
split sep [] = [] ∷ []
split sep (c ∷ cs) =
    let parts = split sep cs in
    if nat_beq c sep
    then [] ∷ parts
    else elim parts [ [] ↦ (c ∷ []) ∷ [] | part ∷ others ↦ (c ∷ part) ∷ others ]

-- `trim`, of the ASCII white space.
abbrev pub white : ℕ → Bool
white c = nat_beq c b' ' || (leb 9 c && leb c 13)

unfoldable pub trim_start : List ℕ → List ℕ
trim_start [] = []
trim_start (c ∷ cs) = let rest = trim_start cs in if white c then rest else c ∷ cs

unfoldable pub trim_end : List ℕ → List ℕ
trim_end [] = []
trim_end (c ∷ cs) =
    let rest = trim_end cs in
    elim rest [ [] ↦ if white c then [] else c ∷ [] | d ∷ ds ↦ c ∷ d ∷ ds ]

abbrev pub trim : List ℕ → List ℕ
trim s = trim_start (trim_end s)

-- `lines`: the parts between line feeds, each without a carriage return at its end; nothing
-- follows the last line feed.
abbrev pub without_cr : List ℕ → List ℕ
without_cr [] = []
without_cr (c ∷ []) = if nat_beq c 13 then [] else c ∷ []
without_cr (c ∷ d ∷ cs) = c ∷ without_cr (d ∷ cs)

abbrev pub line_parts : List (List ℕ) → List (List ℕ)
line_parts [] = []
line_parts ([] ∷ []) = []
line_parts ((c ∷ cs) ∷ []) = (c ∷ cs) ∷ []
line_parts (part ∷ q ∷ parts) = without_cr part ∷ line_parts (q ∷ parts)

unfoldable pub lines : List ℕ → List (List ℕ)
unfolding split
lines s = line_parts (split 10 s)

-- The value of decimal digits behind an accumulator; `none` at any other byte.
unfoldable pub digits_from : ℕ → List ℕ → Option ℕ
digits_from acc [] = some acc
digits_from acc (c ∷ cs) =
    let rest = digits_from (acc * 10 + (c - b'0')) cs in if digit c then rest else none

abbrev pub digits : List ℕ → Option ℕ
digits [] = none
digits (c ∷ cs) = digits_from 0 (c ∷ cs)

-- A value that has to be below a bound.
abbrev pub below : ℕ → Option ℕ → Option ℕ
below limit none = none
below limit (some n) = if ltb n limit then some n else none

-- `parse` for an unsigned integer below `limit`: a plus sign may stand in front of the digits.
unfoldable pub parse_unsigned : ℕ → List ℕ → Option ℕ
parse_unsigned limit [] = none
parse_unsigned limit (c ∷ cs) =
    if nat_beq c b'+' then below limit (digits cs) else below limit (digits (c ∷ cs))

abbrev pub signed_by : (ℕ → ℤ) → Option ℕ → Option ℤ
signed_by sign none = none
signed_by sign (some n) = some (sign n)

-- `parse` for a signed integer of the range `-half` up to `half - 1`.
unfoldable pub parse_signed : ℕ → List ℕ → Option ℤ
parse_signed half [] = none
parse_signed half (c ∷ cs) =
    if nat_beq c b'+'
    then signed_by pos (below half (digits cs))
    else if nat_beq c b'-'
    then signed_by (λ n. neg_ℤ (pos n)) (below (half + 1) (digits cs))
    else signed_by pos (below half (digits (c ∷ cs)))

-- `split_once`, and `splitn(3, …)` as far as its three parts are there.
unfoldable pub split_once : ℕ → List ℕ → Option (List ℕ × List ℕ)
split_once sep [] = none
split_once sep (c ∷ cs) =
    let rest = split_once sep cs in
    if nat_beq c sep
    then some ([], cs)
    else elim rest [ none ↦ none | some (a, b) ↦ some (c ∷ a, b) ]

unfoldable pub split_three : ℕ → List ℕ → Option (List ℕ × List ℕ × List ℕ)
unfolding split_once
split_three sep s = elim (split_once sep s) [
  | none ↦ none
  | some (a, rest) ↦ elim (split_once sep rest) [ none ↦ none | some (b, c) ↦ some (a, b, c) ]
]
