-- ===== src/Rinex/Types.antt =====
-- The records `SYS / # / OBS TYPES` of obsj/src/rinexobs.rs, from `write_obs_types` through
-- `read_obs_types_header`.
use mathlib.Core.List.{append_assoc, append-nil}
use convobs_rs.Base.{
  ℕ, zero, suc, ◌-◌, ◌^◌, ◌≡◌, ◌<◌, refl, ◌∙◌, ap, sym, true, false, nat_beq, nat_eq, some, none,
  unwrap_or, List, [], ◌∷◌, ◌++◌, length, take, drop, All, arith,
}
use convobs_rs.Base.Map.{get, insert, get-insert}
use convobs_rs.Base.Texts.{parse_unsigned}
use convobs_rs.Checked.{good}
use convobs_rs.Ids.{ObsCode}
use convobs_rs.Metadata.{Text}
use convobs_rs.Time.Text.{decimal_digits}
use convobs_rs.Time.Printed.{
  parse_unsigned-IsField, decimal_digits-long, decimal_digits-value, decimal_digits-digits,
  length-decimal_digits,
}
use convobs_rs.Rinex.Columns.{spaces, pad_left, code_columns}
use convobs_rs.Rinex.Records.{
  ObsTypes, push_code, push_fields, read_types, read_fields_of, read_obs_types_header,
  is_header_system,
}
use convobs_rs.Rinex.Words.{
  IsPlain, code_texts, split_whitespace-first, split_whitespace-more, digits-NoBlank,
}

-- What a reader of these codes has in the end.
abbrev pub push_codes : ℕ → List ObsCode → ObsTypes → ObsTypes
push_codes sys [] types = types
push_codes sys (c ∷ cs) types = push_codes sys cs (push_code sys c types)

push_fields-code_texts :
    (sys : ℕ) (cs : List ObsCode) (types : ObsTypes)
    → push_fields sys (code_texts cs) types ≡ good (push_codes sys cs types)
unfolding push_fields
push_fields-code_texts sys [] types = refl
push_fields-code_texts sys (c ∷ cs) types = push_fields-code_texts sys cs (push_code sys c types)

pub push_codes-take :
    (sys n : ℕ) (cs : List ObsCode) (types : ObsTypes)
    → push_codes sys (drop n cs) (push_codes sys (take n cs) types) ≡ push_codes sys cs types
push_codes-take sys zero cs types = refl
push_codes-take sys (suc n) [] types = refl
push_codes-take sys (suc n) (c ∷ cs) types = push_codes-take sys n cs (push_code sys c types)

pub push_codes-counts :
    (sys : ℕ) (cs : List ObsCode) (types : ObsTypes)
    → (push_codes sys cs types).counts ≡ types.counts
push_codes-counts sys [] types = refl
push_codes-counts sys (c ∷ cs) types = push_codes-counts sys cs (push_code sys c types)

-- The codes stand behind those of the system that were there, and other systems keep theirs.
push_codes-codes :
    (sys : ℕ) (cs : List ObsCode) (old : List ObsCode) (types : ObsTypes)
    → get sys types.codes ≡ some old
    → get sys (push_codes sys cs types).codes ≡ some (old ++ cs)
push_codes-codes sys [] old types h = h ∙ ap some (sym (append-nil old))
push_codes-codes sys (c ∷ cs) old types h =
    let put : get sys (push_code sys c types).codes ≡ some (old ++ (c ∷ [])) =
      get-insert sys sys (unwrap_or (get sys types.codes) [] ++ (c ∷ [])) types.codes
      ∙ rw h (ground arith) in
    push_codes-codes sys cs (old ++ (c ∷ [])) (push_code sys c types) put
    ∙ ap some (append_assoc old (c ∷ []) cs)

pub push_codes-new :
    (sys : ℕ) (c : ObsCode) (cs : List ObsCode) (types : ObsTypes)
    → get sys types.codes ≡ none
    → get sys (push_codes sys (c ∷ cs) types).codes ≡ some (c ∷ cs)
push_codes-new sys c cs types h =
    let put : get sys (push_code sys c types).codes ≡ some (c ∷ []) =
      get-insert sys sys (unwrap_or (get sys types.codes) [] ++ (c ∷ [])) types.codes
      ∙ rw h (ground arith) in
    push_codes-codes sys cs (c ∷ []) (push_code sys c types) put

pub push_codes-others :
    (sys other : ℕ) (cs : List ObsCode) (types : ObsTypes)
    → nat_beq sys other ≡ false
    → get other (push_codes sys cs types).codes ≡ get other types.codes
push_codes-others sys other [] types h = refl
push_codes-others sys other (c ∷ cs) types h =
    push_codes-others sys other cs (push_code sys c types) h
    ∙ (get-insert sys other (unwrap_or (get sys types.codes) [] ++ (c ∷ [])) types.codes
        ∙ rw h refl)

-- The fields of a line that goes on with the codes of a system, and of the first line.
read_fields_of-more :
    (sys : ℕ) (c : ObsCode) (cs : List ObsCode) (types : ObsTypes)
    → is_header_system sys ≡ true
    → IsPlain c
    → read_fields_of (code_texts (c ∷ cs)) sys types ≡ good (sys, push_codes sys (c ∷ cs) types)
unfolding read_fields_of read_types
read_fields_of-more sys c cs types known plain =
    let some_system : nat_beq sys 0 ≡ false = ground arith in
    rw (some_system, plain.worded, push_fields-code_texts sys (c ∷ cs) types) refl

abbrev pub counted : ℕ → ℕ → ObsTypes → ObsTypes
counted sys n types = record types { counts = insert sys n types.counts }

read_fields_of-first :
    (sys prev n : ℕ) (field : Text) (cs : List ObsCode) (types : ObsTypes)
    → is_header_system sys ≡ true
    → parse_unsigned (2 ^ 64) field ≡ some n
    → read_fields_of ((sys ∷ []) ∷ field ∷ code_texts cs) prev types
      ≡ good (sys, push_codes sys cs (counted sys n types))
unfolding read_fields_of read_types
read_fields_of-first sys prev n field cs types known count =
    let some_system : nat_beq sys 0 ≡ false = ground arith in
    rw (known, some_system, count, push_fields-code_texts sys cs (counted sys n types)) refl

pub read_obs_types_header-more :
    (sys m : ℕ) (c : ObsCode) (cs : List ObsCode) (types : ObsTypes)
    → is_header_system sys ≡ true
    → All IsPlain (c ∷ cs)
    → read_obs_types_header ((spaces 6 ++ code_columns (c ∷ cs)) ++ spaces m) sys types
      ≡ good (sys, push_codes sys (c ∷ cs) types)
unfolding read_obs_types_header
read_obs_types_header-more sys m c cs types known plain =
    ap (λ words. read_fields_of words sys types) (split_whitespace-more (c ∷ cs) m plain)
    ∙ read_fields_of-more sys c cs types known plain.0

abbrev pub count_text : ℕ → Text
count_text n = decimal_digits 20 n

parse_unsigned-count_text : (n : ℕ) → n < 10000 → parse_unsigned (2 ^ 64) (count_text n) ≡ some n
parse_unsigned-count_text n h =
    let s = count_text n in
    let long : length s ≡ suc (length s - 1) = omega (arith, decimal_digits-long 19 n) in
    parse_unsigned-IsField (2 ^ 64) (length s - 1) n s
      (long, decimal_digits-digits 20 n, decimal_digits-value 20 n (omega arith)) (omega arith)

pub read_obs_types_header-first :
    (sys prev n m : ℕ) (cs : List ObsCode) (types : ObsTypes)
    → is_header_system sys ≡ true
    → n < 10000
    → All IsPlain cs
    → read_obs_types_header
        ((sys ∷ (pad_left 5 (count_text n) ++ code_columns cs)) ++ spaces m)
        prev
        types
      ≡ good (sys, push_codes sys cs (counted sys n types))
unfolding read_obs_types_header
read_obs_types_header-first sys prev n m cs types known few plain =
    ap (λ words. read_fields_of words prev types)
      (split_whitespace-first sys (count_text n) cs m (ground arith)
        (digits-NoBlank (count_text n) (decimal_digits-digits 20 n)) (decimal_digits-long 19 n)
        (length-decimal_digits 20 3 n few) plain)
    ∙ read_fields_of-first sys prev n (count_text n) cs types known
        (parse_unsigned-count_text n few)
