-- ===== src/Arc/Roundtrip.antt =====
-- Slips that `LossOfLockSink` counted and `ArcToLl::lli` reads back, of obsj/src/arc.rs: directly,
-- and behind a stage that drops observations.
use convobs_rs.Base.{
  unwrap_or, ℕ, ◌+◌, ◌%◌, ◌≤◌, ◌<◌, ◌≡◌, refl, ◌∙◌, Bool, true, false, not, List, [], ◌∷◌, arith,
  ◌==◌, if◌then◌else◌, nat_beq, length, Bool-cases, inl, inr,
}
use convobs_rs.Base.Map.{Map, get, get-insert}
use convobs_rs.Float.{Floats}
use convobs_rs.Ids.{SignalKey, key_eq, key_beq_iff}
use convobs_rs.Values.{SignalObservation}
use convobs_rs.Arc.{u32_mod, key_of, with_arc, lol_run, lli}
use convobs_rs.Arc.Count.{slips, numbered, lol_run-numbered}

lli_lem :
    (prev : Map SignalKey ℕ) (k : SignalKey) (arc : ℕ)
    → (lli prev k arc).1 ≡ not (nat_beq arc (unwrap_or (get k prev) 0))
unfolding lli
lli_lem prev k arc = ground arith

module _ {fl : Floats} where
  -- The flags that `ArcToLl` makes when it is given observations in the order of the list. (The
  -- RINEX writer gives it observations that it has sorted by time; Cli/Pipeline/Surface.antt is
  -- about these.)
  unfoldable pub lli_flags : Map SignalKey ℕ → List (SignalObservation fl) → List Bool
  lli_flags prev [] = []
  lli_flags prev (o ∷ os) =
      let (prev', changed) = lli prev (key_of o) o.v.arc in changed ∷ lli_flags prev' os

  -- A stage behind the counter that passes on only some observations.
  unfoldable pub kept :
      (SignalObservation fl → Bool) → List (SignalObservation fl) → List (SignalObservation fl)
  kept keep [] = []
  kept keep (o ∷ os) = if keep o then o ∷ kept keep os else kept keep os

  -- The slips of signal `k` since its last kept observation; `before` has the latest first.
  abbrev pub since : (SignalObservation fl → Bool) → SignalKey → List (SignalObservation fl) → ℕ
  since keep k [] = 0
  since keep k (o ∷ before) =
      let rest = since keep k before in
      if key_of o == k then (if keep o then 0 else (if o.v.ll then 1 else 0) + rest) else rest

  -- For each kept observation, whether its signal slipped since its last kept observation.
  pub surfaced :
      (SignalObservation fl → Bool)
      → List (SignalObservation fl)
      → List (SignalObservation fl)
      → List Bool
  surfaced keep before [] = []
  surfaced keep before (o ∷ os) =
      let rest = surfaced keep (o ∷ before) os in
      if keep o
      then not (nat_beq ((if o.v.ll then 1 else 0) + since keep (key_of o) before) 0) ∷ rest
      else rest

  slips_le : (k : SignalKey) (os : List (SignalObservation fl)) → slips k os ≤ length os
  slips_le k [] = omega arith
  slips_le k (o ∷ os) = ground (arith, slips_le k os)

  -- The writer's last counter of a signal is behind the count by the slips since then.
  abbrev Lags :
      (SignalObservation fl → Bool) → Map SignalKey ℕ → List (SignalObservation fl) → Type 0
  Lags keep prev before =
      (k : SignalKey) → unwrap_or (get k prev) 0 + since keep k before ≡ slips k before

  module _ (keep : SignalObservation fl → Bool)
      (same : (o : SignalObservation fl) (a : ℕ) → keep (with_arc o a) ≡ keep o) where
    next_Lags :
        (prev : Map SignalKey ℕ) (before : List (SignalObservation fl)) (o : SignalObservation fl)
        → keep o ≡ true
        → Lags keep prev before
        → Lags keep (lli prev (key_of o) (slips (key_of o) (o ∷ before))).0 (o ∷ before)
    unfolding lli
    next_Lags prev before o on lag k = ground (
      arith,
      lag k,
      key_beq_iff (key_of o) k,
      get-insert (key_of o) k (slips (key_of o) (o ∷ before)) prev,
    )

    skip_Lags :
        (prev : Map SignalKey ℕ) (before : List (SignalObservation fl)) (o : SignalObservation fl)
        → keep o ≡ false
        → Lags keep prev before
        → Lags keep prev (o ∷ before)
    skip_Lags prev before o off lag k = ground (arith, lag k)

    flag :
        (prev : Map SignalKey ℕ) (before : List (SignalObservation fl)) (o : SignalObservation fl)
        → Lags keep prev before
        → (lli prev (key_of o) (slips (key_of o) (o ∷ before))).1
          ≡ not (nat_beq ((if o.v.ll then 1 else 0) + since keep (key_of o) before) 0)
    flag prev before o lag =
        lli_lem prev (key_of o) (slips (key_of o) (o ∷ before))
        ∙ ground (arith, lag (key_of o), key_beq_iff (key_of o) (key_of o))

    lli_flags-kept :
        (prev : Map SignalKey ℕ) (before os : List (SignalObservation fl))
        → Lags keep prev before
        → length before + length os < u32_mod
        → lli_flags prev (kept keep (numbered before os)) ≡ surfaced keep before os
    unfolding lli_flags kept numbered surfaced
    lli_flags-kept prev before [] lag short = refl
    lli_flags-kept prev before (o ∷ os) lag short =
        let n = slips (key_of o) (o ∷ before) in
        let small : n % u32_mod ≡ n = omega (arith, slips_le (key_of o) (o ∷ before)) in
        elim (Bool-cases (keep o)) [
          | inl on ↦
              let ih =
                lli_flags-kept (lli prev (key_of o) n).0 (o ∷ before) os
                  (next_Lags prev before o on lag) (omega arith) in
              rw (small, same, on) (λ i. flag prev before o lag i ∷ ih i)
          | inr off ↦
              rw (small, same, off)
                (lli_flags-kept prev (o ∷ before) os (skip_Lags prev before o off lag)
                  (omega arith))
        ]

    -- Behind the counter any stage may drop observations, if it does not decide by `arc` or `ll`:
    -- on each kept observation the writer's flag is set exactly when its signal slipped since its
    -- last kept observation (or since the start). So a slip in a dropped gap is not lost. (For
    -- fewer than 2 ^ 32 observations; then no counter wraps.)
    pub lli_flags-lol_run :
        (os : List (SignalObservation fl))
        → length os < u32_mod
        → lli_flags [] (kept keep (lol_run [] os)) ≡ surfaced keep [] os
    unfolding get
    lli_flags-lol_run os short =
        rw (lol_run-numbered os) (lli_flags-kept [] [] os (λ k. refl) (omega arith))
