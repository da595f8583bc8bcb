-- ===== src/Diff/Observations.antt =====
-- The loops of `diff_observations` in obsj/src/diff.rs.
use convobs_rs.Base.{
  ℕ, Bool, false, not, ◌&&◌, ◌||◌, if◌then◌else◌, Option, none, some, is_some, List, [], ◌∷◌, ◌++◌,
  map, ◌>>=?◌,
}
use convobs_rs.Base.Int.{ltb_ℤ, int_eq}
use convobs_rs.Base.Map.{Map, get}
use convobs_rs.Arc.{transition}
use convobs_rs.Float.{Floats}
use convobs_rs.Ids.{SignalKey, key_eq}
use convobs_rs.Time.{GpsTime}
use convobs_rs.Values.{SignalValues, SignalObservation}
use convobs_rs.Diff.{
  ObsTolerances, SignalDiff, DiffRecord, ObsIndex, key_less, sort, once, diff_is_zero,
  index_observations, lookup, same_flag, diff_signal,
}

module _ {fl : Floats} where
  -- `diff_times` and `diff_keys`
  unfoldable pub diff_times : ObsIndex fl → ObsIndex fl → List GpsTime
  unfolding sort once
  diff_times a b = sort ltb_ℤ (once [] (a.times ++ b.times))

  abbrev pub keys_at : ObsIndex fl → GpsTime → List SignalKey
  keys_at ix t = elim (get t ix.epochs) [ none ↦ [] | some m ↦ map (λ e. e.0) m ]

  unfoldable pub diff_keys : ObsIndex fl → ObsIndex fl → GpsTime → List SignalKey
  unfolding sort once
  diff_keys a b t = sort key_less (once [] (keys_at a t ++ keys_at b t))

  abbrev pub values_at : ObsIndex fl → GpsTime → SignalKey → Option (SignalValues fl)
  values_at ix t k = lookup ix t k >>=? λ o. some o.v

  -- `compare_at`
  unfoldable pub compare_at :
      GpsTime
      → SignalKey
      → ObsIndex fl
      → ObsIndex fl
      → ObsTolerances fl
      → Option (SignalDiff fl) × Option (SignalDiff fl)
  unfolding diff_signal
  compare_at t k ai bi tol = diff_signal tol (values_at ai t k) (values_at bi t k)

  -- `transition_at`: the counters afterwards, and the transition.
  unfoldable pub transition_at :
      Map SignalKey ℕ → ObsIndex fl → GpsTime → SignalKey → Map SignalKey ℕ × Bool
  transition_at prev ix t k = elim (lookup ix t k) [
    | none ↦ (prev, false)
    | some o ↦ transition prev k o.v.arc
  ]

  unfoldable pub cp_blank : ObsIndex fl → ObsIndex fl → GpsTime → SignalKey → Bool
  cp_blank ai bi t k = elim (values_at ai t k) [
    | none ↦ false
    | some a ↦ elim (values_at bi t k) [
      | none ↦ false
      | some b ↦ not (is_some a.cp) || not (is_some b.cp)
    ]
  ]

  -- What the loop of `diff_observations` makes of two present sides: `none` when they agree.
  unfoldable pub both_sides :
      Bool → Bool → Bool → SignalDiff fl → SignalDiff fl → Option (SignalDiff fl × SignalDiff fl)
  unfolding diff_is_zero
  both_sides blank a_ll b_ll a b =
      let a' : SignalDiff fl =
        if blank
        then record a { v = record (a.v) { cp = none } }
        else record a { ll = if same_flag a_ll b_ll then a.ll else a_ll } in
      let b' : SignalDiff fl =
        if blank
        then record b { v = record (b.v) { cp = none } }
        else record b { ll = if same_flag a_ll b_ll then b.ll else b_ll } in
      if diff_is_zero a' && diff_is_zero b' then none else some (a', b')

  -- The body of the inner loop: the differences of a signal at an epoch, if it has any.
  unfoldable pub diff_key :
      ObsTolerances fl
      → Bool
      → ObsIndex fl
      → ObsIndex fl
      → GpsTime
      → SignalKey
      → Bool
      → Bool
      → List (DiffRecord fl)
  unfolding compare_at cp_blank both_sides
  diff_key tol ignore_blank ai bi t k a_ll b_ll =
      let (af, bf) = compare_at t k ai bi tol in
      elim af [
        | none ↦ record { t = t; key = k; a = none; b = bf } ∷ []
        | some a ↦ elim bf [
          | none ↦ record { t = t; key = k; a = some a; b = none } ∷ []
          | some b ↦ elim (both_sides (ignore_blank && cp_blank ai bi t k) a_ll b_ll a b) [
            | none ↦ []
            | some (a', b') ↦ record { t = t; key = k; a = some a'; b = some b' } ∷ []
          ]
        ]
      ]

  module _ (tol : ObsTolerances fl) (ignore_blank : Bool) (ai bi : ObsIndex fl) where
    -- The inner loop, over the keys of an epoch.
    unfoldable pub diff_epoch :
        GpsTime
        → List SignalKey
        → Map SignalKey ℕ × Map SignalKey ℕ
        → (Map SignalKey ℕ × Map SignalKey ℕ) × List (DiffRecord fl)
    unfolding transition_at diff_key
    diff_epoch t [] c = (c, [])
    diff_epoch t (k ∷ ks) (pa, pb) =
        let (pa', a_ll) = transition_at pa ai t k in
        let (pb', b_ll) = transition_at pb bi t k in
        let (c, rest) = diff_epoch t ks (pa', pb') in
        (c, diff_key tol ignore_blank ai bi t k a_ll b_ll ++ rest)

    -- The outer loop, over the epochs.
    unfoldable pub diff_epochs :
        List GpsTime → Map SignalKey ℕ × Map SignalKey ℕ → List (DiffRecord fl)
    unfolding diff_keys diff_epoch
    diff_epochs [] c = []
    diff_epochs (t ∷ ts) c =
        let (c', records) = diff_epoch t (diff_keys ai bi t) c in records ++ diff_epochs ts c'

  unfoldable pub diff_observations :
      List (SignalObservation fl)
      → List (SignalObservation fl)
      → ObsTolerances fl
      → Bool
      → List (DiffRecord fl)
  unfolding index_observations diff_times diff_epochs
  diff_observations a b tol ignore_blank =
      let ai = index_observations a in
      let bi = index_observations b in
      diff_epochs tol ignore_blank ai bi (diff_times ai bi) ([], [])
