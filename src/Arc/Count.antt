-- ===== src/Arc/Count.antt =====
-- `LossOfLockSink` of obsj/src/arc.rs against a description without a map: the counter of an
-- observation is the number of slips of its signal so far.
use convobs_rs.Base.{
  unwrap_or, ℕ, ◌+◌, ◌%◌, ◌≡◌, refl, List, [], ◌∷◌, arith, ◌==◌, if◌then◌else◌, ◌&&◌,
}
use convobs_rs.Base.Map.{Map, get, get-insert}
use convobs_rs.Float.{Floats}
use convobs_rs.Ids.{SignalKey, key_eq, key_beq_iff}
use convobs_rs.Values.{SignalObservation}
use convobs_rs.Arc.{u32_mod, key_of, with_arc, lol_observation, lol_run}

module _ {fl : Floats} where
  -- The slips of signal `k` among the observations.
  abbrev pub slips : SignalKey → List (SignalObservation fl) → ℕ
  slips k [] = 0
  slips k (o ∷ os) = (if key_of o == k && o.v.ll then 1 else 0) + slips k os

  -- Each observation with its counter, after those of `before` (the latest first).
  unfoldable pub numbered :
      List (SignalObservation fl) → List (SignalObservation fl) → List (SignalObservation fl)
  numbered before [] = []
  numbered before (o ∷ os) =
      with_arc o (slips (key_of o) (o ∷ before) % u32_mod) ∷ numbered (o ∷ before) os

  -- What the map holds after some observations.
  abbrev pub Counts : Map SignalKey ℕ → List (SignalObservation fl) → Type 0
  Counts arc before = (k : SignalKey) → unwrap_or (get k arc) 0 ≡ slips k before % u32_mod

  lol_counter :
      (arc : Map SignalKey ℕ) (before : List (SignalObservation fl)) (o : SignalObservation fl)
      → Counts arc before
      → (if o.v.ll
          then (unwrap_or (get (key_of o) arc) 0 + 1) % u32_mod
          else unwrap_or (get (key_of o) arc) 0)
        ≡ slips (key_of o) (o ∷ before) % u32_mod
  lol_counter arc before o h = ground (arith, h (key_of o), key_beq_iff (key_of o) (key_of o))

  lol_Counts :
      (arc : Map SignalKey ℕ) (before : List (SignalObservation fl)) (o : SignalObservation fl)
      → Counts arc before
      → Counts (lol_observation arc o).0 (o ∷ before)
  unfolding lol_observation
  lol_Counts arc before o h k = ground (
    arith,
    h k,
    h (key_of o),
    lol_counter arc before o h,
    key_beq_iff (key_of o) k,
    get-insert (key_of o) k (slips (key_of o) (o ∷ before) % u32_mod) arc,
  )

  lol_step :
      (arc : Map SignalKey ℕ) (before : List (SignalObservation fl)) (o : SignalObservation fl)
      → Counts arc before
      → (lol_observation arc o).1 ≡ with_arc o (slips (key_of o) (o ∷ before) % u32_mod)
  unfolding lol_observation
  lol_step arc before o h = rw (lol_counter arc before o h)

  lol_run_from :
      (arc : Map SignalKey ℕ) (before os : List (SignalObservation fl))
      → Counts arc before
      → lol_run arc os ≡ numbered before os
  unfolding lol_run numbered
  lol_run_from arc before [] h = refl
  lol_run_from arc before (o ∷ os) h = rw (
    lol_step arc before o h,
    lol_run_from (lol_observation arc o).0 (o ∷ before) os (lol_Counts arc before o h),
  )

  -- `LossOfLockSink` passes every observation on, in order, changed in two fields only: `ll` is
  -- cleared, and `arc` is the number of slips of the same signal up to and with that observation,
  -- as a `u32`.
  pub lol_run-numbered : (os : List (SignalObservation fl)) → lol_run [] os ≡ numbered [] os
  unfolding get
  lol_run-numbered os = lol_run_from [] [] os (λ k. refl)
