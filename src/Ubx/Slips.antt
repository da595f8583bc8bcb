-- ===== src/Ubx/Slips.antt =====
-- Slips of the UBX converter of obsj/src/ubx.rs: what `slip_hc` flags over a run of measurements.
use Prim.Native.Nat.{bit_and}
use convobs_rs.Base.{
  ◌≡◌, refl, ap, ◌∙◌, Bool, true, false, not, ◌&&◌, ◌||◌, ltb, leb, nat_beq, if◌then◌else◌, Option,
  none, some, List, [], ◌∷◌, arith, ◌==◌, beq_refl, sym, Bool-cases, Option-cases, inl, inr,
}
use convobs_rs.Base.Map.{Map, get, insert, get-insert}
use convobs_rs.Float.{Floats}
use convobs_rs.Ids.{SignalKey, key_eq, key_beq_iff}
use convobs_rs.Ubx.{
  Options, SignalState, default_state, Meas, slip_state, state_of, slip_hc, differ, has_flag,
  sub_half_cyc, cp_std_mask,
}

-- A measurement of a signal, and whether it has a phase.
pub record Event (fl : Floats) : Type 0 where
  pub key : SignalKey
  pub meas : Meas fl
  pub phase : Bool

state_of-insert :
    (j k : SignalKey) (st : SignalState) (state : Map SignalKey SignalState)
    → state_of (insert j st state) k ≡ (if j == k then st else state_of state k)
state_of-insert j k st state =
    ap (λ o. elim o as (λ x. SignalState) [ none ↦ default_state | some s ↦ s ])
      (get-insert j k st state)
    ∙ ground arith

module _ {fl : Floats} where
  -- The flags `ll` over a list.
  unfoldable pub ll_flags : Options → Map SignalKey SignalState → List (Event fl) → List Bool
  ll_flags opts state [] = []
  ll_flags opts state (e ∷ es) =
      let (state', ll, _) = slip_hc opts state e.key e.meas e.phase in ll ∷ ll_flags opts state' es

  -- The last measurement of a signal; `before` has the latest first.
  abbrev pub last : SignalKey → List (Event fl) → Option (Meas fl)
  last k [] = none
  last k (e ∷ before) = let rest = last k before in if e.key == k then some e.meas else rest

  -- What the receiver tells of a signal: its lock time is 0 or fell, its half-cycle flag changed,
  -- or its phase is worse than the threshold.
  abbrev pub tells : Options → Option (Meas fl) → Meas fl → Bool
  tells opts none m =
      nat_beq m.lock_time 0
      || false
      || has_flag m.trk_stat sub_half_cyc
      || leb opts.slip_threshold (bit_and m.cp_stdev cp_std_mask)
  tells opts (some p) m =
      nat_beq m.lock_time 0
      || ltb m.lock_time p.lock_time
      || differ (has_flag m.trk_stat sub_half_cyc) (has_flag p.trk_stat sub_half_cyc)
      || leb opts.slip_threshold (bit_and m.cp_stdev cp_std_mask)

  abbrev pub half_changed : Option (Meas fl) → Meas fl → Bool
  half_changed none m = has_flag m.trk_stat sub_half_cyc
  half_changed (some p) m =
      differ (has_flag m.trk_stat sub_half_cyc) (has_flag p.trk_stat sub_half_cyc)

  -- A slip was told since the last measurement with a phase.
  abbrev pub untold : Options → SignalKey → List (Event fl) → Bool
  untold opts k [] = false
  untold opts k (e ∷ before) =
      let rest = untold opts k before in
      if e.key == k then not e.phase && (tells opts (last k before) e.meas || rest) else rest

  -- The flags that the converter owes: a change of the half cycle at once, and any slip (such a
  -- change included) with the next phase.
  pub owed : Options → List (Event fl) → List (Event fl) → List Bool
  owed opts before [] = []
  owed opts before (e ∷ es) =
      let rest = owed opts (e ∷ before) es in
      (half_changed (last e.key before) e.meas
        || (e.phase && (tells opts (last e.key before) e.meas || untold opts e.key before)))
      ∷ rest

  abbrev after : Options → SignalKey → List (Event fl) → SignalState
  after opts k before = elim (last k before) [
    | none ↦ default_state
    | some p ↦ record {
      lock = p.lock_time;
      sub_half = has_flag p.trk_stat sub_half_cyc;
      pending = untold opts k before;
      seen = true;
    }
  ]

  abbrev Follows : Options → Map SignalKey SignalState → List (Event fl) → Type 0
  Follows opts state before = (k : SignalKey) → state_of state k ≡ after opts k before

  -- A signal without a measurement has nothing to tell.
  untold-none :
      (opts : Options) (k : SignalKey) (before : List (Event fl))
      → last k before ≡ none
      → untold opts k before ≡ false
  untold-none opts k [] h = refl
  untold-none opts k (e ∷ before) h = ground (arith, untold-none opts k before)

  slip_state-after :
      (opts : Options) (k : SignalKey) (before : List (Event fl)) (m : Meas fl) (phase : Bool)
      → slip_state opts (after opts k before) m phase ≡ (
        record {
          lock = m.lock_time;
          sub_half = has_flag m.trk_stat sub_half_cyc;
          pending = not phase && (tells opts (last k before) m || untold opts k before);
          seen = true;
        },
        half_changed (last k before) m
            || (phase && (tells opts (last k before) m || untold opts k before)),
      )
  unfolding slip_state
  slip_state-after opts k before m phase = elim (Option-cases (last k before)) [
    | inl e ↦ rw (e, untold-none opts k before e) (ground arith)
    | inr (p, e) ↦ rw e (ground arith)
  ]

  after-here :
      (opts : Options) (before : List (Event fl)) (e : Event fl)
      → after opts e.key (e ∷ before) ≡ record {
        lock = e.meas.lock_time;
        sub_half = has_flag (e.meas.trk_stat) sub_half_cyc;
        pending =
            not e.phase && (tells opts (last e.key before) e.meas || untold opts e.key before);
        seen = true;
      }
  after-here opts before e = ground (arith, beq_refl e.key)

  next_flag :
      (opts : Options) (state : Map SignalKey SignalState) (before : List (Event fl)) (e : Event fl)
      → Follows opts state before
      → (slip_hc opts state e.key e.meas e.phase).1 ≡ (
          half_changed (last e.key before) e.meas
          || (e.phase && (tells opts (last e.key before) e.meas || untold opts e.key before)))
  unfolding slip_hc
  next_flag opts state before e inv =
      rw (inv e.key, slip_state-after opts e.key before e.meas e.phase)

  next_Follows :
      (opts : Options) (state : Map SignalKey SignalState) (before : List (Event fl)) (e : Event fl)
      → Follows opts state before
      → Follows opts ((slip_hc opts state e.key e.meas e.phase).0) (e ∷ before)
  unfolding slip_hc
  next_Follows opts state before e inv k =
      let path = key_beq_iff e.key k in
      rw (inv e.key, slip_state-after opts e.key before e.meas e.phase, state_of-insert)
        (elim (Bool-cases (e.key == k)) [
          | inl same ↦
              rw same
                (sym (after-here opts before e) ∙ ap (λ z. after opts z (e ∷ before)) (path.0 same))
          | inr other ↦ rw other (inv k ∙ ground arith)
        ])

  ll_flags-owed :
      (opts : Options) (state : Map SignalKey SignalState) (before es : List (Event fl))
      → Follows opts state before
      → ll_flags opts state es ≡ owed opts before es
  unfolding ll_flags owed
  ll_flags-owed opts state before [] inv = refl
  ll_flags-owed opts state before (e ∷ es) inv =
      let state' = (slip_hc opts state e.key e.meas e.phase).0 in
      let p = next_flag opts state before e inv in
      let q = ll_flags-owed opts state' (e ∷ before) es (next_Follows opts state before e inv) in
      λ i. p i ∷ q i

  -- From the start of a conversion, the flags of a run of measurements are exactly those owed: a
  -- change of the half cycle is flagged at once, and every slip (such a change included) with the
  -- next measurement of its signal that has a phase, also when measurements without a phase lie
  -- between; nothing else is flagged.
  pub slips_are_told :
      (opts : Options) (es : List (Event fl)) → ll_flags opts [] es ≡ owed opts [] es
  unfolding get
  slips_are_told opts es = ll_flags-owed opts [] [] es (λ k. refl)
