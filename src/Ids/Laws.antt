-- ===== src/Ids/Laws.antt =====
-- Identifiers of obsj/src/obs.rs: what `format` builds, what the parsers accept.
use convobs_rs.Base.{ℕ, ◌%◌, ◌<◌, ◌≡◌, ◌≢◌, ◌↔◌, true, some, contains, nat_eq, List, [], ◌∷◌, arith}
use convobs_rs.Ids.{
  SatId, sat_is_valid, systems, format, parse_sat, sat_as_str, SigId, sig_is_valid, parse_sig,
  sig_as_str,
}

-- A formatted identifier is valid exactly when the system is known and the number is no multiple
-- of 100 (only two digits are kept).
pub sat_is_valid-format :
    (sys num : ℕ)
    → (sat_is_valid (format sys num) ≡ true) ↔ ((contains systems sys ≡ true) × (num % 100 ≢ 0))
unfolding sat_is_valid format
sat_is_valid-format sys num = ground arith

-- Numbers below 100 are told apart.
pub format_inj : (a b m n : ℕ) → m < 100 → n < 100 → format a m ≡ format b n → (a ≡ b) × (m ≡ n)
unfolding format
format_inj a b m n hm hn e = ground arith

-- The parser of satellites accepts exactly the texts of valid identifiers, and answers the
-- identifier.
parse_sat_iff :
    (b : List ℕ) (s : SatId)
    → (parse_sat b ≡ some s) ↔ ((b ≡ sat_as_str s) × (sat_is_valid s ≡ true))
unfolding parse_sat
parse_sat_iff (x ∷ y ∷ z ∷ []) s = ground arith
parse_sat_iff b s = ground arith

-- The parser of signals accepts exactly the texts of valid identifiers, and answers the
-- identifier.
parse_sig_iff :
    (b : List ℕ) (s : SigId)
    → (parse_sig b ≡ some s) ↔ ((b ≡ sig_as_str s) × (sig_is_valid s ≡ true))
unfolding parse_sig
parse_sig_iff (x ∷ y ∷ []) s = ground arith
parse_sig_iff b s = ground arith
