-- ===== src/Ids/Tests.antt =====
-- Tests of the models of obsj/src/obs.rs's identifiers.
use convobs_rs.Base.{◌≡◌, refl, some, none, ℕ, List, [], ◌∷◌}
use convobs_rs.Ids.{parse_sat, is_valid_sat, sat_is_valid, sat_id}

abbrev r24_text : List ℕ
r24_text = b'R' ∷ b'2' ∷ b'4' ∷ []

parse_sat_test : parse_sat r24_text ≡ some (sat_id b'R' b'2' b'4')
unfolding parse_sat sat_is_valid is_valid_sat
parse_sat_test = refl

number_zero_test : parse_sat (b'G' ∷ b'0' ∷ b'0' ∷ []) ≡ none
unfolding parse_sat sat_is_valid is_valid_sat
number_zero_test = refl
