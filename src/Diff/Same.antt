-- ===== src/Diff/Same.antt =====
-- `diff_observations` of obsj/src/diff.rs on a stream and itself.
use convobs_rs.Base.{
  ℕ, ◌≡◌, Option-cases, option_beq, refl, Bool, true, false, ◌&&◌, Eq, ◌==◌, contains, Option, none,
  some, is_some, List, [], ◌∷◌, ◌++◌, map, All, All-append, All-mono, Bool-cases, inl, inr,
}
use convobs_rs.Base.Int.{int_eq}
use convobs_rs.Base.Map.{Map, get, insert}
use convobs_rs.Arc.{key_of}
use convobs_rs.Float.{Floats}
use convobs_rs.Ids.{SignalKey, key_eq}
use convobs_rs.Time.{GpsTime}
use convobs_rs.Values.{SignalObservation, SignalValues, is_zero}
use convobs_rs.Diff.{
  ObsTolerances, Epoch, ObsIndex, near, near32, insert_sorted, sort, once, or_insert, zero_diff,
  index_one, index_from, index_observations, lookup, diff_is_zero, diff_signal, same_flag, side,
  key_less,
}
use convobs_rs.Diff.Observations.{
  keys_at, cp_blank, diff_times, diff_keys, compare_at, transition_at, both_sides, diff_key,
  diff_epoch, diff_epochs, diff_observations,
}

-- What holds of every member holds after a sort, without repetitions, and of what a map holds.
module _ {ℓ κ} {A : Type ℓ} (P : A → Type κ) where
  All-insert_sorted :
      (lt : A → A → Bool) (x : A) (ys : List A) → P x → All P ys → All P (insert_sorted lt x ys)
  unfolding insert_sorted
  All-insert_sorted lt x [] p h = (p, tt)
  All-insert_sorted lt x (y ∷ ys) p h = elim (Bool-cases (lt y x)) [
    | inl e ↦ rw e (h.0, All-insert_sorted lt x ys p h.1)
    | inr e ↦ rw e (p, h)
  ]

  All-sort : (lt : A → A → Bool) (xs : List A) → All P xs → All P (sort lt xs)
  unfolding sort
  All-sort lt [] h = tt
  All-sort lt (x ∷ xs) h = All-insert_sorted lt x (sort lt xs) h.0 (All-sort lt xs h.1)

  All-once : ⦃e : Eq A⦄ (seen xs : List A) → All P xs → All P (once seen xs)
  unfolding once
  All-once seen [] h = tt
  All-once seen (x ∷ xs) h = elim (Bool-cases (contains seen x)) [
    | inl e ↦ rw e (All-once seen xs h.1)
    | inr e ↦ rw e (h.0, All-once (x ∷ seen) xs h.1)
  ]

module _ {ℓ κ} {K V : Type ℓ} ⦃e : Eq K⦄ (P : V → Type κ) where
  abbrev Holds : Map K V → Type κ
  Holds m = All (λ (p : K × V). P p.1) m

  insert-Holds : (k : K) (v : V) (m : Map K V) → P v → Holds m → Holds (insert k v m)
  unfolding insert
  insert-Holds k v [] p h = (p, tt)
  insert-Holds k v ((j, w) ∷ m) p h = elim (Bool-cases (j == k)) [
    | inl same ↦ rw same (p, h.1)
    | inr other ↦ rw other (h.0, insert-Holds k v m p h.1)
  ]

  get-Holds : (k : K) (m : Map K V) (v : V) → Holds m → get k m ≡ some v → P v
  unfolding get
  get-Holds k [] v h found = absurd (cc)
  get-Holds k ((j, w) ∷ m) v h found = elim (Bool-cases (j == k)) [
    | inl same ↦
        let e : some w ≡ some v = rw same at found in
        let same_value : w ≡ v = cc e in rw same_value at (h.0)
    | inr other ↦ get-Holds k m v h.1 (rw other at found)
  ]

-- The keys of a map are in it.
module _ {ℓ} {K V : Type ℓ} ⦃e : Eq K⦄ where
  abbrev In : Map K V → K → Type 0
  In m k = is_some (get k m) ≡ true

  keys-In : (m : Map K V) → All (In m) (map (λ (p : K × V). p.0) m)
  unfolding get
  keys-In [] = tt
  keys-In ((j, w) ∷ m) = (
    rw ((e.beq_iff j j).1 refl),
    All-mono (map (λ (p : K × V). p.0) m)
        (λ k h. elim (Bool-cases (j == k)) [ inl same ↦ rw same | inr other ↦ rw other h ])
        (keys-In m),
  )

option_beq_self {ℓ} : {A : Type ℓ} ⦃e : Eq A⦄ (a : Option A) → option_beq a a ≡ true
option_beq_self none = refl
option_beq_self ⦃e⦄ (some a) = (e.beq_iff a a).1 refl

same_flag_self : (b : Bool) → same_flag b b ≡ true
same_flag_self true = refl
same_flag_self false = refl

module _ {fl : Floats} (tol : ObsTolerances fl) where
  -- No number of the observation is further from itself than its tolerance, as a number that is
  -- not finite is.
  abbrev pub IsSteady : SignalObservation fl → Type 0
  IsSteady o =
      (near fl o.v.pr o.v.pr tol.pr ≡ true)
      × (near fl o.v.cp o.v.cp tol.cp ≡ true)
      × (near fl o.v.dop o.v.dop tol.dop ≡ true)
      × (near32 fl o.v.cn0 o.v.cn0 tol.cn0 ≡ true)

  abbrev IsSteadyIndex : ObsIndex fl → Type 0
  IsSteadyIndex ix = Holds (λ (m : Epoch fl). Holds IsSteady m) ix.epochs

  or_insert-Holds :
      (k : SignalKey) (o : SignalObservation fl) (m : Epoch fl)
      → IsSteady o
      → Holds IsSteady m
      → Holds IsSteady (or_insert k o m)
  or_insert-Holds k o m ok h = elim (Bool-cases (is_some (get k m))) [
    | inl old ↦ rw old h
    | inr new ↦ rw new (insert-Holds IsSteady k o m ok h)
  ]

  index_one-IsSteadyIndex :
      (ix : ObsIndex fl) (o : SignalObservation fl)
      → IsSteady o
      → IsSteadyIndex ix
      → IsSteadyIndex (index_one ix o)
  unfolding index_one
  index_one-IsSteadyIndex ix o ok h = elim (Option-cases (get o.t ix.epochs)) [
    | inl new ↦
        rw (new, index_one)
          (insert-Holds (λ (m : Epoch fl). Holds IsSteady m) o.t (or_insert (key_of o) o [])
            ix.epochs (or_insert-Holds (key_of o) o [] ok tt) h)
    | inr (m, old) ↦
        rw (old, index_one)
          (insert-Holds (λ (m : Epoch fl). Holds IsSteady m) o.t (or_insert (key_of o) o m)
            ix.epochs
            (or_insert-Holds (key_of o) o m ok
              (get-Holds (λ (m : Epoch fl). Holds IsSteady m) o.t ix.epochs m h old))
            h)
  ]

  index_from-IsSteadyIndex :
      (ix : ObsIndex fl) (os : List (SignalObservation fl))
      → All IsSteady os
      → IsSteadyIndex ix
      → IsSteadyIndex (index_from ix os)
  unfolding index_from
  index_from-IsSteadyIndex ix [] ok h = h
  index_from-IsSteadyIndex ix (o ∷ os) ok h =
      index_from-IsSteadyIndex (index_one ix o) os ok.1 (index_one-IsSteadyIndex ix o ok.0 h)

  side_self :
      (v : SignalValues fl)
      → near fl v.pr v.pr tol.pr ≡ true
      → near fl v.cp v.cp tol.cp ≡ true
      → near fl v.dop v.dop tol.dop ≡ true
      → near32 fl v.cn0 v.cn0 tol.cn0 ≡ true
      → side tol v v v ≡ zero_diff
  unfolding side
  side_self v hp hc hd hn =
      rw (option_beq_self v.frq, hp, hc, hd, hn, same_flag_self v.hc, same_flag_self v.bt)

  both_sides_self : (blank l : Bool) → both_sides {fl = fl} blank l l zero_diff zero_diff ≡ none
  unfolding both_sides diff_is_zero is_zero
  both_sides_self true l = refl
  both_sides_self false true = refl
  both_sides_self false false = refl

  lookup-IsSteady :
      (ix : ObsIndex fl) (t : GpsTime) (k : SignalKey) (o : SignalObservation fl)
      → IsSteadyIndex ix
      → lookup ix t k ≡ some o
      → IsSteady o
  lookup-IsSteady ix t k o h found = elim (Option-cases (get t ix.epochs)) [
    | inl missing ↦ let e : none ≡ some o = rw missing at found in absurd (cc e)
    | inr (m, there) ↦
        get-Holds IsSteady k m o
          (get-Holds (λ (m : Epoch fl). Holds IsSteady m) t ix.epochs m h there) (rw there at found)
  ]

  -- A signal at an epoch, with the same counters on both sides.
  diff_key_self :
      (blank : Bool) (ix : ObsIndex fl) (t : GpsTime) (k : SignalKey) (l : Bool)
      → IsSteadyIndex ix
      → is_some (lookup ix t k) ≡ true
      → diff_key tol blank ix ix t k l l ≡ []
  unfolding diff_key compare_at diff_signal
  diff_key_self blank ix t k l h found = elim (Option-cases (lookup ix t k)) [
    | inl missing ↦ let e : false ≡ true = rw missing at found in absurd (cc e)
    | inr (o, e) ↦
        let ok = lookup-IsSteady ix t k o h e in
        let same : compare_at t k ix ix tol ≡ (some zero_diff, some zero_diff) =
          rw (e, compare_at, side_self o.v ok.0 ok.1 ok.2 ok.3) in
        let first : (compare_at t k ix ix tol).0 ≡ some zero_diff = rw same in
        let second : (compare_at t k ix ix tol).1 ≡ some zero_diff = rw same in
        rw (first, diff_key) (rw second (rw (both_sides_self (blank && cp_blank ix ix t k) l)))
  ]

  lookup-keys_at :
      (ix : ObsIndex fl) (t : GpsTime) → All (λ k. is_some (lookup ix t k) ≡ true) (keys_at ix t)
  lookup-keys_at ix t = elim (Option-cases (get t ix.epochs)) [
    | inl missing ↦ rw (missing, keys_at) tt
    | inr (m, there) ↦ rw (there, keys_at) (keys-In m)
  ]

  lookup-diff_keys :
      (ix : ObsIndex fl) (t : GpsTime)
      → All (λ k. is_some (lookup ix t k) ≡ true) (diff_keys ix ix t)
  unfolding diff_keys
  lookup-diff_keys ix t =
      let P = λ (k : SignalKey). is_some (lookup ix t k) ≡ true in
      let ks = keys_at ix t in
      let there = lookup-keys_at ix t in
      All-sort P key_less (once [] (ks ++ ks))
        (All-once P [] (ks ++ ks) (All-append P ks ks there there))

  diff_epoch_self :
      (blank : Bool) (ix : ObsIndex fl) (t : GpsTime) (ks : List SignalKey) (p : Map SignalKey ℕ)
      → IsSteadyIndex ix
      → All (λ k. is_some (lookup ix t k) ≡ true) ks
      → (p' : Map SignalKey ℕ) × (diff_epoch tol blank ix ix t ks (p, p) ≡ ((p', p'), []))
  unfolding diff_epoch
  diff_epoch_self blank ix t [] p h there = (p, refl)
  diff_epoch_self blank ix t (k ∷ ks) p h there =
      let step = transition_at p ix t k in
      let (p', rest) = diff_epoch_self blank ix t ks step.0 h there.1 in
      (p', rw (rest, diff_key_self blank ix t k step.1 h there.0))

  diff_epochs_self :
      (blank : Bool) (ix : ObsIndex fl) (ts : List GpsTime) (p : Map SignalKey ℕ)
      → IsSteadyIndex ix
      → diff_epochs tol blank ix ix ts (p, p) ≡ []
  unfolding diff_epochs
  diff_epochs_self blank ix [] p h = refl
  diff_epochs_self blank ix (t ∷ ts) p h =
      let (p', e) = diff_epoch_self blank ix t (diff_keys ix ix t) p h (lookup-diff_keys ix t) in
      rw e (diff_epochs_self blank ix ts p' h)

  -- A stream has no difference from itself, in whatever order its observations come and however
  -- often a signal is repeated, if no number of it is further from itself than its tolerance.
  pub diff_observations_self :
      (os : List (SignalObservation fl)) (ignore_blank : Bool)
      → All IsSteady os
      → diff_observations os os tol ignore_blank ≡ []
  unfolding diff_observations index_observations
  diff_observations_self os ignore_blank h =
      let ix = index_observations os in
      diff_epochs_self ignore_blank ix (diff_times ix ix) []
        (index_from-IsSteadyIndex (record { epochs = []; times = [] }) os h tt)
