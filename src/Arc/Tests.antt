-- ===== src/Arc/Tests.antt =====
-- Tests of the models of obsj/src/arc.rs.
use convobs_rs.Base.{◌≡◌, refl, Bool, false, is_some, [], ◌∷◌, arith}
use convobs_rs.Base.Map.{get}
use convobs_rs.Values.{SignalObservation}
use convobs_rs.Arc.{lol_run, transition}
use convobs_rs.Arc.Count.{numbered, lol_run-numbered}
use convobs_rs.Arc.Roundtrip.{lli_flags, kept, surfaced, lli_flags-lol_run}
use convobs_rs.Samples.{int_floats, g01_l1c, slipped_observation, blank_observation}

transition_test : (transition [] g01_l1c 3).1 ≡ false
unfolding transition get
transition_test = refl

lol_run-numbered_example :
    lol_run [] (slipped_observation ∷ blank_observation ∷ [])
    ≡ numbered [] (slipped_observation ∷ blank_observation ∷ [])
lol_run-numbered_example = lol_run-numbered (slipped_observation ∷ blank_observation ∷ [])

abbrev has_cp : SignalObservation int_floats → Bool
has_cp o = is_some o.v.cp

lli_flags-lol_run_example :
    lli_flags [] (kept has_cp (lol_run [] (blank_observation ∷ slipped_observation ∷ [])))
    ≡ surfaced has_cp [] (blank_observation ∷ slipped_observation ∷ [])
lli_flags-lol_run_example =
    lli_flags-lol_run has_cp (λ o a. refl) (blank_observation ∷ slipped_observation ∷ [])
      (omega arith)
