-- ===== src/Cli/Pipeline/Surface.antt =====
-- Slips on the way through the chain of cli/src/lib.rs, from the converter to the writer's flags.
use convobs_rs.Base.{
  ℕ, ◌<◌, ◌≡◌, ◌∙◌, refl, ap, Bool, Bool-cases, inl, inr, true, false, not, ◌&&◌, ◌||◌, Option,
  none, some, is_some, List, [], ◌∷◌, arith, nat_beq, length, All,
}
use convobs_rs.Base.Int.{ℤ, pos, int_beq, leb_ℤ, pos_part}
use convobs_rs.Base.Map.{Map}
use convobs_rs.Base.Word.{emod}
use convobs_rs.Arc.{u32_mod, lol_run, lol_observation, lli, key_of}
use convobs_rs.Arc.Roundtrip.{lli_flags, kept, surfaced, lli_flags-lol_run}
use convobs_rs.Error.{Result, ok, err, ◌>>=◌}
use convobs_rs.Rinex.Build.{sort_by_time, insert_by_time}
use convobs_rs.Rinex.Kept.{flagged}
use convobs_rs.Rinex.Shown.{changed_by}
use convobs_rs.Float.{Floats}
use convobs_rs.Ids.{SignalKey}
use convobs_rs.Sink.Interval.{decimation_interval_ticks_iff}
use convobs_rs.Sink.{decimation_interval_ticks, on_grid, decimated, with_cp}
use convobs_rs.Sink.Grid.{nearest, IsRoundable, round_time-nearest}
use convobs_rs.Values.{SignalObservation}
use convobs_rs.Cli.{Config}
use convobs_rs.Cli.Pipeline.{chain, stage_ticks, build_sink, packet_chain, open_writer}

on_grid_lem :
    (n : ℕ) (t : ℤ) → 0 < n → IsRoundable t → on_grid n t ≡ some (nat_beq (emod (nearest t) n) 0)
unfolding on_grid
on_grid_lem n t positive h =
    let test : nat_beq n 0 ≡ false = ground arith in rw (round_time-nearest t h, test, on_grid) refl

abbrev IsInterval : Option ℤ → Type 0
IsInterval none = Unit
IsInterval (some n) = 0 < pos_part n

stage_of :
    (r : Result ℤ) (t : Option ℤ)
    → (r >>= λ n. ok (some n)) ≡ ok t
    → (n : ℤ) × (r ≡ ok n) × (t ≡ some n)
stage_of (ok n) t h = (n, refl, cc h)
stage_of (err e) t h = absurd (cc h)

stage_ticks-IsInterval :
    (interval_ns : ℤ) (ticks : Option ℤ) → stage_ticks interval_ns ≡ ok ticks → IsInterval ticks
unfolding stage_ticks
stage_ticks-IsInterval interval_ns ticks h = elim (Bool-cases (int_beq interval_ns (pos 0))) [
  | inl zero ↦ let same : none ≡ ticks = cc (rw zero at h) in rw (← same) tt
  | inr more ↦
      let (n, is_ok, same) =
        stage_of (decimation_interval_ticks interval_ns) ticks (rw more at h) in
      let (k, e, f, le, div) = (decimation_interval_ticks_iff interval_ns n).0 is_ok in
      let some_ticks : 0 < pos_part n = rw f (omega arith) in rw same some_ticks
]

module _ {fl : Floats} where
  abbrev pub Timed : List (SignalObservation fl) → Type 0
  Timed os = All (λ o. IsRoundable o.t) os

  -- An observation passes the two filters: it has a phase, where that is asked for, and its time
  -- rounded to 100 ms lies on the grid of the interval, if there is one.
  abbrev pub passes : Bool → Option ℤ → SignalObservation fl → Bool
  passes require_cp ticks o =
      (not require_cp || is_some o.v.cp)
      && elim ticks [ none ↦ true | some n ↦ nat_beq (emod (nearest o.t) (pos_part n)) 0 ]

  chain-kept :
      (require_cp : Bool) (ticks : Option ℤ) (os : List (SignalObservation fl))
      → IsInterval ticks
      → Timed os
      → chain require_cp ticks os ≡ some (kept (passes require_cp ticks) os)
  unfolding with_cp decimated kept
  chain-kept require_cp none [] i h = ground arith
  chain-kept require_cp (some n) [] i h = ground arith
  chain-kept require_cp none (o ∷ os) i h = ground (arith, chain-kept require_cp none os i h.1)
  chain-kept require_cp (some n) (o ∷ os) i h =
      ground (arith, on_grid_lem (pos_part n) o.t i h.0, chain-kept require_cp (some n) os i h.1)

  lol_run-Timed :
      (os : List (SignalObservation fl)) (arc : Map SignalKey ℕ) → Timed os → Timed (lol_run arc os)
  unfolding lol_run lol_observation
  lol_run-Timed [] arc h = tt
  lol_run-Timed (o ∷ os) arc h = (h.0, lol_run-Timed os (lol_observation arc o).0 h.1)

  -- Observations in the order of their times.
  abbrev pub InTime : List (SignalObservation fl) → Type 0
  InTime [] = Unit
  InTime (o ∷ os) = All (λ p. leb_ℤ o.t p.t ≡ true) os × InTime os

  sort_by_time-InTime : (os : List (SignalObservation fl)) → InTime os → sort_by_time os ≡ os
  unfolding sort_by_time insert_by_time
  sort_by_time-InTime [] h = refl
  sort_by_time-InTime (o ∷ []) h = refl
  sort_by_time-InTime (o ∷ p ∷ os) h = rw (sort_by_time-InTime (p ∷ os) h.1, h.0.0) refl

  All-kept :
      (P : SignalObservation fl → Type 0) (keep : SignalObservation fl → Bool)
      (os : List (SignalObservation fl))
      → All P os
      → All P (kept keep os)
  unfolding kept
  All-kept P keep [] h = tt
  All-kept P keep (o ∷ os) h = elim (Bool-cases (keep o)) [
    | inl stays ↦ rw stays (h.0, All-kept P keep os h.1)
    | inr goes ↦ rw goes (All-kept P keep os h.1)
  ]

  kept-InTime :
      (keep : SignalObservation fl → Bool) (os : List (SignalObservation fl))
      → InTime os
      → InTime (kept keep os)
  unfolding kept
  kept-InTime keep [] h = tt
  kept-InTime keep (o ∷ os) h = elim (Bool-cases (keep o)) [
    | inl stays ↦
        rw stays (All-kept (λ p. leb_ℤ o.t p.t ≡ true) keep os h.0, kept-InTime keep os h.1)
    | inr goes ↦ rw goes (kept-InTime keep os h.1)
  ]

  lol_run-later :
      (t : ℤ) (os : List (SignalObservation fl)) (arc : Map SignalKey ℕ)
      → All (λ p. leb_ℤ t p.t ≡ true) os
      → All (λ p. leb_ℤ t p.t ≡ true) (lol_run arc os)
  unfolding lol_run lol_observation
  lol_run-later t [] arc h = tt
  lol_run-later t (o ∷ os) arc h = (h.0, lol_run-later t os (lol_observation arc o).0 h.1)

  lol_run-InTime :
      (os : List (SignalObservation fl)) (arc : Map SignalKey ℕ)
      → InTime os
      → InTime (lol_run arc os)
  unfolding lol_run lol_observation
  lol_run-InTime [] arc h = tt
  lol_run-InTime (o ∷ os) arc h =
      let next = (lol_observation arc o).0 in
      (lol_run-later o.t os next h.0, lol_run-InTime os next h.1)

  abbrev pub flags_of : List (SignalObservation fl × Bool) → List Bool
  flags_of [] = []
  flags_of ((o, changed) ∷ os) = changed ∷ flags_of os

  flags_of-flagged :
      (os : List (SignalObservation fl)) (prev : Map SignalKey ℕ)
      → flags_of (flagged prev os) ≡ lli_flags prev os
  unfolding flagged lli_flags
  flags_of-flagged [] prev = refl
  flags_of-flagged (o ∷ os) prev =
      ap (λ fs. changed_by prev o ∷ fs) (flags_of-flagged os (lli prev (key_of o) o.v.arc).0)

  -- The chain of the packet inputs loses no slip on the way to a RINEX file: it is built when the
  -- writer and the decimation interval are fit for it, and then for all observations that come in the
  -- order of their times (fewer than 2 ^ 32, with times below 9223372036854000000 ticks in magnitude)
  -- the writer gets just those that pass the filters, in their order, each behind its counter. The
  -- flags that the RINEX writer makes of the counters, after it has sorted what it got by time, are
  -- set exactly where the signal slipped since its last observation that passed, or since the start.
  pub packet_chain-surfaced :
      (available : Bool) (cfg : Config fl) (ticks : Option ℤ)
      → open_writer available cfg.to cfg.rinex_backend ≡ ok tt
      → stage_ticks cfg.interval_ns ≡ ok ticks
      → (os : List (SignalObservation fl)) → Timed os
      → InTime os
      → length os < u32_mod
      → (gets : List (SignalObservation fl) → Option (List (SignalObservation fl))) × (got : List
          (SignalObservation fl))
        × (packet_chain available cfg ≡ ok gets)
        × (gets os ≡ some got)
        × (got ≡ kept (passes cfg.require_cp ticks) (lol_run [] os))
        × (flags_of (flagged [] (sort_by_time got)) ≡ surfaced (passes cfg.require_cp ticks) [] os)
  unfolding packet_chain build_sink
  packet_chain-surfaced available cfg ticks w e os timed ordered short =
      let keep = passes cfg.require_cp ticks in
      let got = kept keep (lol_run [] os) in
      let in_time : InTime got = kept-InTime keep (lol_run [] os) (lol_run-InTime os [] ordered) in
      (
        λ os. chain cfg.require_cp ticks (lol_run [] os),
        got,
        rw (w, e, build_sink) refl,
        chain-kept cfg.require_cp ticks (lol_run [] os)
            (stage_ticks-IsInterval cfg.interval_ns ticks e) (lol_run-Timed os [] timed),
        refl,
        ap (λ l. flags_of (flagged [] l)) (sort_by_time-InTime got in_time)
            ∙ flags_of-flagged got []
            ∙ lli_flags-lol_run keep (λ o a. refl) os short,
      )
