-- ===== src/Rinex/Codes.antt =====
-- Observation codes of obsj/src/rinexobs.rs: their order in the header, the codes that an observation
-- needs, and the systems of a file.
use convobs_rs.Base.{
  ℕ, Bool, true, false, not, ◌&&◌, ◌||◌, ltb, nat_beq, nat_eq, if◌then◌else◌, Option, none, some,
  is_some, unwrap_or, List, [], ◌∷◌, ◌++◌, contains,
}
use convobs_rs.Base.Map.{Map, get, insert}
use convobs_rs.Float.{Floats}
use convobs_rs.Ids.{
  ObsCode, code, code_eq, type_code, type_phase, type_doppler, type_signal_strength,
}
use convobs_rs.Metadata.{is_empty}
use convobs_rs.Values.{SignalObservation, observed_system, rinex_lli}
use convobs_rs.Rinex.{system_order}

unfoldable pub observation_type_index : ℕ → ℕ
unfolding get
observation_type_index b = unwrap_or (get b ((b'C', 0) ∷ (b'L', 1) ∷ (b'D', 2) ∷ (b'S', 3) ∷ [])) 4

-- By the signal's two bytes, then by the kind of the value.
unfoldable pub less_observation_code : ObsCode → ObsCode → Bool
unfolding observation_type_index
less_observation_code a b =
    if not (nat_beq a.band b.band)
    then ltb a.band b.band
    else if not (nat_beq a.attribute b.attribute)
    then ltb a.attribute b.attribute
    else ltb (observation_type_index a.obs_type) (observation_type_index b.obs_type)

-- The inner loop of `sort_observation_codes` on the sorted front, whose last code is first here: the
-- new code moves past the codes that it is less than.
unfoldable pub sink_back : ObsCode → List ObsCode → List ObsCode
unfolding less_observation_code
sink_back c [] = c ∷ []
sink_back c (d ∷ front) =
    let further = sink_back c front in
    if less_observation_code c d then d ∷ further else c ∷ d ∷ front

-- The outer loop, with the sorted front backwards.
unfoldable pub sort_from : List ObsCode → List ObsCode → List ObsCode
unfolding sink_back
sort_from front [] = front
sort_from front (c ∷ codes) = sort_from (sink_back c front) codes

abbrev pub backwards : List ObsCode → List ObsCode → List ObsCode
backwards acc [] = acc
backwards acc (c ∷ codes) = backwards (c ∷ acc) codes

unfoldable pub sort_observation_codes : List ObsCode → List ObsCode
unfolding sort_from
sort_observation_codes codes = backwards [] (sort_from [] codes)

abbrev pub if_code : Bool → ObsCode → Option ObsCode
if_code true c = some c
if_code false c = none

module _ {fl : Floats} where
  unfoldable pub writer_codes : SignalObservation fl → Bool → List (Option ObsCode)
  unfolding rinex_lli
  writer_codes o arc_changed =
      let pr = is_some o.v.pr in
      let dop = is_some o.v.dop in
      let cn0 = is_some o.v.cn0 in
      let lli = rinex_lli o.v arc_changed in
      let phase = pr || is_some o.v.cp || dop || cn0 || not (nat_beq lli 0) in
      if_code pr (code o.sig type_code)
      ∷ if_code phase (code o.sig type_phase)
      ∷ if_code dop (code o.sig type_doppler)
      ∷ if_code cn0 (code o.sig type_signal_strength)
      ∷ []

-- The loop of `add_writer_codes`. The set that stands beside the list has the list's members.
unfoldable pub push_codes : List (Option ObsCode) → List ObsCode → List ObsCode
push_codes [] seen = seen
push_codes (none ∷ cs) seen = push_codes cs seen
push_codes (some c ∷ cs) seen = push_codes cs (if contains seen c then seen else seen ++ (c ∷ []))

unfoldable pub add_writer_codes :
    {fl : Floats} → SignalObservation fl → Bool → Map ℕ (List ObsCode) → Map ℕ (List ObsCode)
unfolding writer_codes push_codes
add_writer_codes o arc_changed seen =
    let sys = observed_system o in
    if nat_beq sys 0
    then seen
    else insert sys (push_codes (writer_codes o arc_changed) (unwrap_or (get sys seen) [])) seen

abbrev pub has_codes : Option (List ObsCode) → Bool
has_codes none = false
has_codes (some cs) = not (is_empty cs)

-- The systems of the fixed order that have codes.
unfoldable pub known_systems : List ℕ → Map ℕ (List ObsCode) → List ℕ
known_systems [] codes = []
known_systems (s ∷ order) codes =
    let rest = known_systems order codes in if has_codes (get s codes) then s ∷ rest else rest

abbrev pub insert_system : ℕ → List ℕ → List ℕ
insert_system s [] = s ∷ []
insert_system s (r ∷ rs) = if ltb r s then r ∷ insert_system s rs else s ∷ r ∷ rs

-- The other systems that have codes, in ascending order.
unfoldable pub other_systems : Map ℕ (List ObsCode) → List ℕ
other_systems [] = []
other_systems ((s, cs) ∷ codes) =
    let rest = other_systems codes in
    if not (is_empty cs) && not (contains system_order s) then insert_system s rest else rest

unfoldable pub ordered_systems : Map ℕ (List ObsCode) → List ℕ
unfolding known_systems other_systems
ordered_systems codes = known_systems system_order codes ++ other_systems codes
