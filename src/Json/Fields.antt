-- ===== src/Json/Fields.antt =====
-- The fields that are written are found again: `find` after `present`.
use convobs_rs.Base.{
  ◌≡◌, refl, Bool, true, false, not, ◌&&◌, Option, none, some, List, [], ◌∷◌, contains, Bool-cases,
  inl, inr, arith,
}
use convobs_rs.Base.Texts.{text_eq, text_beq, text_beq_iff}
use convobs_rs.Checked.{good}
use convobs_rs.Metadata.{Text}
use convobs_rs.Json.Values.{Json, find, present, entry, keys}

-- No key comes twice.
abbrev pub distinct : List Text → Bool
distinct [] = true
distinct (k ∷ ks) = not (contains ks k) && distinct ks

text_beq_comm : (a b : Text) → text_beq a b ≡ text_beq b a
text_beq_comm [] [] = refl
text_beq_comm [] (y ∷ ys) = refl
text_beq_comm (x ∷ xs) [] = refl
text_beq_comm (x ∷ xs) (y ∷ ys) = ground (arith, text_beq_comm xs ys)

contains-keys :
    (j k : Text) (v : Option Json) (es : List (Text × Option Json))
    → contains (keys ((j, v) ∷ es)) k ≡ false
    → (text_beq j k ≡ false) × (contains (keys es) k ≡ false)
contains-keys j k v es h = ground (arith, text_beq_comm j k)

find-absent :
    (k : Text) (es : List (Text × Option Json))
    → contains (keys es) k ≡ false
    → find k (present es) ≡ good none
unfolding find
find-absent k [] h = refl
find-absent k ((j, none) ∷ es) h = find-absent k es (contains-keys j k none es h).1
find-absent k ((j, some v) ∷ es) h =
    let (other, later) = contains-keys j k (some v) es h in rw other (find-absent k es later)

-- The head's key comes no second time.
distinct-keys :
    (j k : Text) (v : Option Json) (es : List (Text × Option Json))
    → distinct (keys ((j, v) ∷ es)) ≡ true
    → text_beq j k ≡ true
    → contains (keys es) k ≡ false
distinct-keys j k v es h same =
    let e : j ≡ k = (text_beq_iff j k).0 same in
    let alone : contains (keys es) j ≡ false = ground arith in rw e at alone

pub find-present :
    (k : Text) (es : List (Text × Option Json))
    → distinct (keys es) ≡ true
    → find k (present es) ≡ good (entry k es)
unfolding find
find-present k [] h = refl
find-present k ((j, none) ∷ es) h = elim (Bool-cases (text_beq j k)) [
  | inl same ↦ rw same (find-absent k es (distinct-keys j k none es h same))
  | inr other ↦ rw other (find-present k es (ground arith))
]
find-present k ((j, some v) ∷ es) h = elim (Bool-cases (text_beq j k)) [
  | inl same ↦ rw (same, find-absent k es (distinct-keys j k (some v) es h same))
  | inr other ↦ rw other (find-present k es (ground arith))
]
