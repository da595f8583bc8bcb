-- ===== src/Rinex/Listed.antt =====
-- The columns of a file in obsj/src/rinexobs.rs: the codes that `add_writer_codes` lists, and that
-- sorting keeps.
use convobs_rs.Base.{
  ℕ, ◌≡◌, refl, ◌∙◌, Bool, true, false, ◌||◌, ◌&&◌, nat_beq, nat_eq, if◌then◌else◌, Option, none,
  some, is_some, unwrap_or, List, [], ◌∷◌, ◌++◌, contains, Eq, ◌==◌, Bool-cases, inl, inr, arith,
}
use convobs_rs.Base.Map.{Map, get}
use convobs_rs.Checked.{Checked, good}
use convobs_rs.Float.{Floats}
use convobs_rs.Ids.{is_valid_sat, sat_is_valid, SatId, ObsCode, code_eq, sat_eq, system}
use convobs_rs.Rinex.Build.{as_f64, sorted_codes}
use convobs_rs.Rinex.Codes.{
  less_observation_code, if_code, push_codes, sink_back, sort_from, backwards,
  sort_observation_codes,
}

-- The code has a column for the satellite's system.
abbrev pub listed : Map ℕ (List ObsCode) → SatId → ObsCode → Bool
listed codes sat c = contains (unwrap_or (get (system sat) codes) []) c

abbrev pub wanted : List (Option ObsCode) → ObsCode → Bool
wanted [] c = false
wanted (none ∷ ws) c = wanted ws c
wanted (some w ∷ ws) c = c == w || wanted ws c

pub contains-append :
    {A : Type 0} ⦃test : Eq A⦄ (xs : List A) (a c : A)
    → contains (xs ++ (a ∷ [])) c ≡ (contains xs c || c == a)
contains-append [] a c = ground arith
contains-append (x ∷ xs) a c = ground (arith, contains-append xs a c)

-- A test that holds at a place says nothing new there.
pub or_same : (test : ObsCode → Bool) (w c : ObsCode) → test w ≡ true → test c ≡ (test c || c == w)
or_same test w c h = elim (Bool-cases (c == w)) [
  | inl same ↦ let e : c ≡ w = (code_eq.beq_iff c w).0 same in rw (e, h) refl
  | inr other ↦ rw other (ground arith)
]

pub merged :
    (seen : List ObsCode) (w c : ObsCode)
    → contains (if contains seen w then seen else seen ++ (w ∷ [])) c ≡ (contains seen c || c == w)
merged seen w c = elim (Bool-cases (contains seen w)) [
  | inl there ↦ rw there (or_same (contains seen) w c there)
  | inr new ↦ rw new (contains-append seen w c)
]

pub push_codes-contains :
    (ws : List (Option ObsCode)) (seen : List ObsCode) (c : ObsCode)
    → contains (push_codes ws seen) c ≡ (contains seen c || wanted ws c)
unfolding push_codes
push_codes-contains [] seen c = ground arith
push_codes-contains (none ∷ ws) seen c = push_codes-contains ws seen c
push_codes-contains (some w ∷ ws) seen c =
    push_codes-contains ws (if contains seen w then seen else seen ++ (w ∷ [])) c
    ∙ rw (merged seen w c) (ground arith)

-- Sorting keeps the codes.
contains-sink_back :
    (a : ObsCode) (front : List ObsCode) (c : ObsCode)
    → contains (sink_back a front) c ≡ (c == a || contains front c)
unfolding sink_back
contains-sink_back a [] c = ground arith
contains-sink_back a (d ∷ front) c = elim (Bool-cases (less_observation_code a d)) [
  | inl less ↦ rw less (ground (arith, contains-sink_back a front c))
  | inr more ↦ rw more (ground arith)
]

contains-sort_from :
    (codes front : List ObsCode) (c : ObsCode)
    → contains (sort_from front codes) c ≡ (contains front c || contains codes c)
unfolding sort_from
contains-sort_from [] front c = ground arith
contains-sort_from (d ∷ codes) front c =
    contains-sort_from codes (sink_back d front) c
    ∙ rw (contains-sink_back d front c) (ground arith)

contains-backwards :
    (codes acc : List ObsCode) (c : ObsCode)
    → contains (backwards acc codes) c ≡ (contains acc c || contains codes c)
contains-backwards [] acc c = ground arith
contains-backwards (d ∷ codes) acc c = contains-backwards codes (d ∷ acc) c ∙ ground arith

contains-sort_observation_codes :
    (codes : List ObsCode) (c : ObsCode)
    → contains (sort_observation_codes codes) c ≡ contains codes c
unfolding sort_observation_codes
contains-sort_observation_codes codes c =
    contains-backwards (sort_from [] codes) [] c ∙ contains-sort_from codes [] c

pub listed-sorted_codes :
    (codes : Map ℕ (List ObsCode)) (sat : SatId) (c : ObsCode)
    → listed (sorted_codes codes) sat c ≡ listed codes sat c
unfolding get
listed-sorted_codes [] sat c = refl
listed-sorted_codes ((s, cs) ∷ codes) sat c = elim (Bool-cases (nat_beq s (system sat))) [
  | inl same ↦ rw same (contains-sort_observation_codes cs c)
  | inr other ↦ rw other (listed-sorted_codes codes sat c)
]

pub wanted-if_code :
    (b : Bool) (k : ObsCode) (ws : List (Option ObsCode)) (c : ObsCode)
    → wanted (if_code b k ∷ ws) c ≡ ((b && c == k) || wanted ws c)
wanted-if_code true k ws c = refl
wanted-if_code false k ws c = refl

pub sat_is_valid-known : (sat : SatId) → sat_is_valid sat ≡ true → nat_beq (system sat) 0 ≡ false
unfolding sat_is_valid is_valid_sat
sat_is_valid-known sat h = ground arith

-- The answer, where there is one.
abbrev pub or_else {ℓ} : {A : Type ℓ} → A → Checked A → A
or_else a (good b) = b
or_else a _ = a

pub is_some-as_f64 : (fl : Floats) (v : Option fl.F32) → is_some (as_f64 fl v) ≡ is_some v
is_some-as_f64 fl none = refl
is_some-as_f64 fl (some v) = refl

-- What is written is listed: a phase is written with a value or an indicator, and listed for more.
pub written_listed :
    (d p q r n l a b c e : Bool)
    → ((((d || (p && a)) || ((q || l) && b)) || (r && c)) || (n && e)) ≡ true
    → (d || ((p && a) || (((p || q || r || n || l) && b) || ((r && c) || ((n && e) || false)))))
      ≡ true
written_listed d p q r n l a b c e h = ground arith
