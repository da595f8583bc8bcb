-- ===== src/Ids.antt =====
-- Identifiers of obsj/src/obs.rs: satellites, signals and observation codes, as ASCII bytes.
mod Tests
pub mod Laws
use convobs_rs.Base.{
  ℕ, ◌+◌, ◌-◌, ◌*◌, ◌/◌, ◌%◌, ◌≡◌, ◌↔◌, refl, Bool, true, false, not, ◌&&◌, ◌||◌, ltb, leb, nat_beq,
  nat_eq, if◌then◌else◌, List, [], ◌∷◌, Option, none, some, contains, Eq, ◌==◌, arith,
}

-- The three bytes of a `SatId`.
pub record SatId : Type 0 where
  pub b0 : ℕ
  pub b1 : ℕ
  pub b2 : ℕ

abbrev pub sat_id : ℕ → ℕ → ℕ → SatId
sat_id a b c = record { b0 = a; b1 = b; b2 = c }

abbrev pub system : SatId → ℕ
system s = s.b0

unfoldable pub is_ascii_digit : ℕ → Bool
is_ascii_digit c = leb b'0' c && leb c b'9'

unfoldable pub is_ascii_uppercase : ℕ → Bool
is_ascii_uppercase c = leb b'A' c && leb c b'Z'

-- The letters of `GRESJCI`.
abbrev pub systems : List ℕ
systems = b'G' ∷ b'R' ∷ b'E' ∷ b'S' ∷ b'J' ∷ b'C' ∷ b'I' ∷ []

unfoldable pub is_valid_sat : List ℕ → Bool
unfolding is_ascii_digit
is_valid_sat (a ∷ b ∷ c ∷ []) =
    if not (contains systems a)
    then false
    else if not (is_ascii_digit b) || not (is_ascii_digit c)
    then false
    else not (nat_beq ((b - b'0') * 10 + (c - b'0')) 0)
is_valid_sat _ = false

-- `SatId::is_valid`
unfoldable pub sat_is_valid : SatId → Bool
unfolding is_valid_sat
sat_is_valid s = is_valid_sat (s.b0 ∷ s.b1 ∷ s.b2 ∷ [])

-- `SatId::format`; `num` is a `u8`.
unfoldable pub format : ℕ → ℕ → SatId
format sys num = sat_id sys (b'0' + num / 10 % 10) (b'0' + num % 10)

-- `SatId::from_str`, over the bytes of the text.
unfoldable pub parse_sat : List ℕ → Option SatId
unfolding sat_is_valid
parse_sat (a ∷ b ∷ c ∷ []) = if sat_is_valid (sat_id a b c) then some (sat_id a b c) else none
parse_sat _ = none

abbrev pub sat_as_str : SatId → List ℕ
sat_as_str s = s.b0 ∷ s.b1 ∷ s.b2 ∷ []

-- The two bytes of a `SigId`.
pub record SigId : Type 0 where
  pub band : ℕ
  pub attribute : ℕ

abbrev pub sig_id : ℕ → ℕ → SigId
sig_id b a = record { band = b; attribute = a }

-- `SigId::is_valid`
unfoldable pub sig_is_valid : SigId → Bool
unfolding is_ascii_uppercase
sig_is_valid s = leb b'1' s.band && leb s.band b'9' && is_ascii_uppercase s.attribute

-- `SigId::from_str`
unfoldable pub parse_sig : List ℕ → Option SigId
unfolding sig_is_valid
parse_sig (b ∷ a ∷ []) = if sig_is_valid (sig_id b a) then some (sig_id b a) else none
parse_sig _ = none

abbrev pub sig_as_str : SigId → List ℕ
sig_as_str s = s.band ∷ s.attribute ∷ []

-- The three bytes of an `ObsCode`.
pub record ObsCode : Type 0 where
  pub obs_type : ℕ
  pub band : ℕ
  pub attribute : ℕ

-- `SigId::code`
abbrev pub code : SigId → ℕ → ObsCode
code s typ = record { obs_type = typ; band = s.band; attribute = s.attribute }

-- `ObsCode::signal`
abbrev pub signal : ObsCode → SigId
signal c = sig_id c.band c.attribute

abbrev pub type_code : ℕ
type_code = b'C'

abbrev pub type_phase : ℕ
type_phase = b'L'

abbrev pub type_doppler : ℕ
type_doppler = b'D'

abbrev pub type_signal_strength : ℕ
type_signal_strength = b'S'

pub record SignalKey : Type 0 where
  pub sat : SatId
  pub sig : SigId

abbrev pub signal_key : SatId → SigId → SignalKey
signal_key s g = record { sat = s; sig = g }

-- The derived equality tests.
abbrev pub sat_beq : SatId → SatId → Bool
sat_beq a b = nat_beq a.b0 b.b0 && nat_beq a.b1 b.b1 && nat_beq a.b2 b.b2

pub sat_beq_iff : (a b : SatId) → (sat_beq a b ≡ true) ↔ (a ≡ b)
sat_beq_iff a b = ground arith

instance abbrev pub sat_eq : Eq SatId
sat_eq = record { beq = sat_beq; beq_iff = sat_beq_iff }

abbrev pub sig_beq : SigId → SigId → Bool
sig_beq a b = nat_beq a.band b.band && nat_beq a.attribute b.attribute

pub sig_beq_iff : (a b : SigId) → (sig_beq a b ≡ true) ↔ (a ≡ b)
sig_beq_iff a b = ground arith

instance abbrev pub sig_eq : Eq SigId
sig_eq = record { beq = sig_beq; beq_iff = sig_beq_iff }

abbrev pub key_beq : SignalKey → SignalKey → Bool
key_beq a b = sat_beq a.sat b.sat && sig_beq a.sig b.sig

pub key_beq_iff : (a b : SignalKey) → (key_beq a b ≡ true) ↔ (a ≡ b)
key_beq_iff a b = ground arith

instance abbrev pub key_eq : Eq SignalKey
key_eq = record { beq = key_beq; beq_iff = key_beq_iff }

abbrev pub code_beq : ObsCode → ObsCode → Bool
code_beq a b =
    nat_beq a.obs_type b.obs_type && nat_beq a.band b.band && nat_beq a.attribute b.attribute

pub code_beq_iff : (a b : ObsCode) → (code_beq a b ≡ true) ↔ (a ≡ b)
code_beq_iff a b = ground arith

instance abbrev pub code_eq : Eq ObsCode
code_eq = record { beq = code_beq; beq_iff = code_beq_iff }
