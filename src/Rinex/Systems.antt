-- ===== src/Rinex/Systems.antt =====
-- The observation types of a whole header in obsj/src/rinexobs.rs: what `read_header` makes of the
-- records that `write_header` writes for the systems of a file.
use convobs_rs.Base.{
  ℕ, ◌≡◌, ◌<◌, refl, ◌∙◌, ap, sym, true, false, nat_beq, nat_eq, Option, none, some, List, [], ◌∷◌,
  ◌++◌, length, contains, All, Bool-cases, inl, inr, arith,
}
use mathlib.Core.List.{append-nil}
use convobs_rs.Base.Map.{Map, get}
use convobs_rs.Checked.{good}
use convobs_rs.Float.{Floats}
use convobs_rs.Ids.{ObsCode}
use convobs_rs.Metadata.{Text, default_metadata}
use convobs_rs.Rinex.{system_order}
use convobs_rs.Rinex.Codes.{known_systems, other_systems, ordered_systems, insert_system}
use convobs_rs.Rinex.Head.{ObsHeader, new_header}
use convobs_rs.Rinex.Head.End.{read_records}
use convobs_rs.Rinex.Lines.{read_lines}
use convobs_rs.Rinex.Records.{is_header_system}
use convobs_rs.Rinex.Rows.{typed, read_records-write_obs_types}
use convobs_rs.Rinex.Types.{push_codes, counted, push_codes-new, push_codes-others}
use convobs_rs.Rinex.Words.{IsPlain}
use convobs_rs.Rinex.Write.{type_lines}

-- The codes that a header can show of a system: some, or none at all.
abbrev pub shown : Option (List ObsCode) → Option (List ObsCode)
shown none = none
shown (some []) = none
shown (some (c ∷ cs)) = some (c ∷ cs)

abbrev Distinct : List ℕ → Type 0
Distinct [] = Unit {0}
Distinct (s ∷ ss) = (contains ss s ≡ false) × Distinct ss

-- Codes of which a header can be made.
pub record IsWritable (codes : Map ℕ (List ObsCode)) : Type 0 where
  pub few : (s : ℕ) (cs : List ObsCode) → get s codes ≡ some cs → length cs < 10000
  pub plain : (s : ℕ) (cs : List ObsCode) → get s codes ≡ some cs → All IsPlain cs

-- What every entry of a map has, so has what `get` finds.
pub get-All :
    (P : List ObsCode → Type 0) (codes : Map ℕ (List ObsCode)) (s : ℕ) (cs : List ObsCode)
    → All (λ (entry : ℕ × List ObsCode). P entry.1) codes
    → get s codes ≡ some cs
    → P cs
unfolding get
get-All P [] s cs h e = absurd (cc)
get-All P ((k, ds) ∷ codes) s cs h e = elim (Bool-cases (nat_beq k s)) [
  | inl same ↦ let found : ds ≡ cs = ground arith in rw found at h.0
  | inr other ↦ get-All P codes s cs h.1 (rw other at e)
]

apart : (s t : ℕ) (ts : List ℕ) → contains (t ∷ ts) s ≡ false → nat_beq t s ≡ false
apart s t ts h = ground arith

further : (s t : ℕ) (ts : List ℕ) → contains (t ∷ ts) s ≡ false → contains ts s ≡ false
further s t ts h = ground arith

swapped : (s t : ℕ) → nat_beq t s ≡ false → nat_beq s t ≡ false
swapped s t h = ground arith

-- Systems that have no codes keep none where only another system gets some.
still_fresh :
    (s : ℕ) (order : List ℕ) (old new : Map ℕ (List ObsCode))
    → ((other : ℕ) → nat_beq s other ≡ false → get other new ≡ get other old)
    → contains order s ≡ false
    → All (λ t. get t old ≡ none) order
    → All (λ t. get t new ≡ none) order
still_fresh s [] old new others away fresh = tt
still_fresh s (t ∷ ts) old new others away fresh = (
  others t (swapped s t (apart s t ts away)) ∙ fresh.0,
  still_fresh s ts old new others (further s t ts away) fresh.1,
)

All-contains : (P : ℕ → Type 0) (xs : List ℕ) (s : ℕ) → All P xs → contains xs s ≡ true → P s
All-contains P [] s h at = absurd (cc)
All-contains P (x ∷ xs) s h at = elim (Bool-cases (nat_beq x s)) [
  | inl same ↦ let e : x ≡ s = ground arith in rw (← e) h.0
  | inr other ↦ All-contains P xs s h.1 (ground arith)
]

insert_system-some : (s : ℕ) (rs : List ℕ) → ¬ (insert_system s rs ≡ [])
insert_system-some s [] e = cc
insert_system-some s (r ∷ rs) e = ground arith

-- A file whose systems are all named by the format shows no codes of another.
other_systems-shown :
    (codes : Map ℕ (List ObsCode)) (s : ℕ)
    → other_systems codes ≡ []
    → contains system_order s ≡ false
    → shown (get s codes) ≡ none
unfolding other_systems get
other_systems-shown [] s h away = refl
other_systems-shown ((k, []) ∷ codes) s h away = elim (Bool-cases (nat_beq k s)) [
  | inl same ↦ rw same refl
  | inr other ↦ rw other (other_systems-shown codes s h away)
]
other_systems-shown ((k, c ∷ cs) ∷ codes) s h away = elim (Bool-cases (contains system_order k)) [
  | inl named ↦ elim (Bool-cases (nat_beq k s)) [
    | inl same ↦
        let e : k ≡ s = ground arith in
        let odd : contains system_order k ≡ false = rw e away in absurd (cc (odd, named))
    | inr other ↦ rw other (other_systems-shown codes s (rw named at h) away)
  ]
  | inr odd ↦ absurd (insert_system-some k (other_systems codes) (rw odd at h))
]

module _ (fl : Floats) (parse_float : Text → Option fl.F64) (print_fixed : ℕ → fl.F64 → Text)
    (codes : Map ℕ (List ObsCode)) where
  -- The header behind some records.
  abbrev IsBehind : ObsHeader fl → Text → ObsHeader fl → Text → Type 0
  IsBehind h text mid rest =
      read_records fl parse_float h (read_lines text)
      ≡ read_records fl parse_float mid (read_lines rest)

  abbrev lines_of : List ℕ → Text
  lines_of order = type_lines fl print_fixed codes (known_systems order codes)

  read_records-system :
      (h : ObsHeader fl) (s : ℕ) (order : List ℕ) (o : Option (List ObsCode))
      → get s codes ≡ o
      → is_header_system s ≡ true
      → IsWritable codes
      → get s h.types.codes ≡ none
      → (mid : ObsHeader fl) × IsBehind h (lines_of (s ∷ order)) mid (lines_of order)
        × (get s mid.types.codes ≡ shown o)
        × ((other : ℕ)
            → nat_beq s other ≡ false
            → get other mid.types.codes ≡ get other h.types.codes)
        × (mid.meta ≡ h.meta)
  unfolding known_systems
  read_records-system h s order none e known ok fresh =
      (h, rw e refl, fresh, λ other ne. refl, refl)
  read_records-system h s order (some []) e known ok fresh =
      (h, rw e refl, fresh, λ other ne. refl, refl)
  read_records-system h s order (some (c ∷ cs)) e known ok fresh =
      let start = counted s (length (c ∷ cs)) h.types in
      (
        typed fl parse_float h s (push_codes s (c ∷ cs) start),
        rw (e, e)
            (read_records-write_obs_types fl parse_float h s c cs (lines_of order) known
              (ok.few s (c ∷ cs) e) (ok.plain s (c ∷ cs) e)),
        push_codes-new s c cs start fresh,
        λ other ne. push_codes-others s other (c ∷ cs) start ne,
        refl,
      )

  read_records-known_systems :
      (h : ObsHeader fl) (order : List ℕ)
      → All (λ s. is_header_system s ≡ true) order
      → Distinct order
      → IsWritable codes
      → All (λ s. get s h.types.codes ≡ none) order
      → (after : ObsHeader fl) × (read_records fl parse_float h (read_lines (lines_of order))
          ≡ good after)
        × All (λ s. get s after.types.codes ≡ shown (get s codes)) order
        × ((other : ℕ)
            → contains order other ≡ false
            → get other after.types.codes ≡ get other h.types.codes)
        × (after.meta ≡ h.meta)
  unfolding known_systems read_lines read_records
  read_records-known_systems h [] known distinct ok fresh = (h, refl, tt, λ other away. refl, refl)
  read_records-known_systems h (s ∷ order) known distinct ok fresh =
      let (mid, step, here, others, same) =
        read_records-system h s order (get s codes) refl known.0 ok fresh.0 in
      let still = still_fresh s order h.types.codes mid.types.codes others distinct.0 fresh.1 in
      let (after, read, all, away, meta) =
        read_records-known_systems mid order known.1 distinct.1 ok still in
      (
        after,
        step ∙ read,
        (away s distinct.0 ∙ here, all),
        λ other out.
            away other (further other s order out) ∙ others other (apart other s order out),
        meta ∙ same,
      )

  -- For a file whose systems with codes are all of the seven that the format names, with fewer than
  -- ten thousand codes each, none of which has white space in it or reads as a number: the records
  -- that `write_header` writes of the observation types are read from the beginning of a header
  -- without an error; afterwards every system has its codes, in the order of the file, and nothing
  -- where the file has no code of it, and the metadata are still empty.
  pub read_records-type_lines :
      other_systems codes ≡ []
      → IsWritable codes
      → (after : ObsHeader fl) × (read_records fl parse_float new_header
            (read_lines (type_lines fl print_fixed codes (ordered_systems codes)))
          ≡ good after)
        × ((s : ℕ) → get s after.types.codes ≡ shown (get s codes))
        × (after.meta ≡ default_metadata)
  unfolding ordered_systems get
  read_records-type_lines known ok =
      let all : ordered_systems codes ≡ known_systems system_order codes =
        ap (λ more. known_systems system_order codes ++ more) known
        ∙ append-nil (known_systems system_order codes) in
      let (after, read, here, away, meta) =
        read_records-known_systems new_header system_order (ground arith) (ground arith) ok
          (ground arith) in
      (
        after,
        rw all read,
        λ s. elim (Bool-cases (contains system_order s)) [
          | inl named ↦
              All-contains (λ t. get t after.types.codes ≡ shown (get t codes)) system_order s here
                named
          | inr odd ↦ away s odd ∙ sym (other_systems-shown codes s known odd)
        ],
        meta,
      )
