-- ===== src/Diff/Tests.antt =====
-- Tests of the model of obsj/src/diff.rs.
use convobs_rs.Base.{◌≡◌, refl, true, false, some, [], ◌∷◌}
use convobs_rs.Base.Int.{pos, ◌-ℤ◌}
use convobs_rs.Base.Map.{get, insert}
use convobs_rs.Arc.{transition}
use convobs_rs.Values.{SignalValues, is_zero}
use convobs_rs.Diff.{ObsTolerances, near, near32, side}
use convobs_rs.Diff.Told.{Told, side-Told}
use convobs_rs.Diff.Same.{IsSteady, diff_observations_self}
use convobs_rs.Diff.Observations.{diff_observations}
use convobs_rs.Samples.{int_floats, values, slipped_observation, blank_observation}

abbrev tolerances : ObsTolerances int_floats
tolerances = record { pr = pos 1; cp = pos 1; dop = pos 1; cn0 = pos 1 }

-- A range that is off by more than its tolerance.
abbrev far : SignalValues int_floats
far = record values { pr = some (pos 20000009) }

side-Told_example :
    Told tolerances values far (side tolerances values far values) (side tolerances values far far)
side-Told_example = side-Told tolerances values far

-- A stream has no difference from itself.
self_test :
    diff_observations
      (slipped_observation ∷ blank_observation ∷ [])
      (slipped_observation ∷ blank_observation ∷ [])
      tolerances
      false
    ≡ []
unfolding diff_observations get insert is_zero ◌-ℤ◌ transition
self_test = refl

slipped-IsSteady : IsSteady tolerances slipped_observation
unfolding near near32 ◌-ℤ◌
slipped-IsSteady = (refl, refl, refl, refl)

blank-IsSteady : IsSteady tolerances blank_observation
unfolding near near32 ◌-ℤ◌
blank-IsSteady = (refl, refl, refl, refl)

diff_observations_self_example :
    diff_observations
      (slipped_observation ∷ blank_observation ∷ slipped_observation ∷ [])
      (slipped_observation ∷ blank_observation ∷ slipped_observation ∷ [])
      tolerances
      true
    ≡ []
diff_observations_self_example =
    diff_observations_self tolerances
      (slipped_observation ∷ blank_observation ∷ slipped_observation ∷ []) true
      (slipped-IsSteady, (blank-IsSteady, (slipped-IsSteady, tt)))
