-- ===== src/Rinex/Shown.antt =====
-- What `build_obs_file` of obsj/src/rinexobs.rs keeps of its observations: all that is in an epoch is
-- shown by the lines of the file.
use convobs_rs.Base.{
  ℕ, ◌≡◌, refl, ◌∙◌, ap, sym, Bool, true, false, nat_beq, nat_eq, if◌then◌else◌, some, is_some,
  unwrap_or, List, [], ◌∷◌, contains, ◌==◌, All, All-mono, Bool-cases, beq_refl, inl, inr, arith,
}
use convobs_rs.Base.Map.{Map, get, get-insert}
use convobs_rs.Base.Int.{int_beq}
use convobs_rs.Checked.{good, bind-eq-good}
use convobs_rs.Float.{Floats}
use convobs_rs.Ids.{sat_is_valid, sig_is_valid, SatId, ObsCode, SignalKey, code_eq, sat_eq, system}
use convobs_rs.Arc.{lli, key_of}
use convobs_rs.Time.{GpsTime}
use convobs_rs.Values.{SignalObservation}
use convobs_rs.Rinex.{Epoch, ObsFile}
use convobs_rs.Rinex.Build.{
  Fields, add_signal_observation, put_in_epoch, put, new_epoch, start_file, build_step, build_from,
  sorted_codes, build_sorted, build_obs_file, sort_by_time,
}
use convobs_rs.Rinex.Codes.{writer_codes, add_writer_codes}
use convobs_rs.Rinex.Listed.{
  listed, wanted, contains-append, sat_is_valid-known, listed-sorted_codes, or_else,
}
use convobs_rs.Rinex.Written.{has, has-add_signal_observation, listed-add_writer_codes}

module _ {fl : Floats} where
  -- What an epoch has of a satellite, and whether all of it has a column and a line.
  abbrev pub fields_of : Epoch fl → SatId → Fields fl
  fields_of e sat = unwrap_or (get sat e.obs) []

  pub record IsShown (codes : Map ℕ (List ObsCode)) (e : Epoch fl) : Type 0 where
    pub in_column :
        (sat : SatId) (c : ObsCode) → has c (fields_of e sat) ≡ true → listed codes sat c ≡ true
    pub in_line : (sat : SatId) → is_some (get sat e.obs) ≡ true → contains e.sats sat ≡ true

  put-All :
      (P Q : Epoch fl → Type 0) (o : SignalObservation fl) (changed : Bool) (es : List (Epoch fl))
      → ((e : Epoch fl) → P e → Q e)
      → ((e : Epoch fl) → P e → Q (put_in_epoch o changed e))
      → P (new_epoch o.t)
      → All P es
      → All Q (put o changed es)
  unfolding put
  put-All P Q o changed [] lift step new h = (step (new_epoch o.t) new, tt)
  put-All P Q o changed (e ∷ es) lift step new h = elim (Bool-cases (int_beq e.t o.t)) [
    | inl same ↦ rw same (step e h.0, All-mono es lift h.1)
    | inr other ↦ rw other (lift e h.0, put-All P Q o changed es lift step new h.1)
  ]

  new_epoch-IsShown : (codes : Map ℕ (List ObsCode)) (t : GpsTime) → IsShown codes (new_epoch t)
  unfolding get
  new_epoch-IsShown codes t = record {
    in_column = λ sat c h. absurd (cc (h));
    in_line = λ sat h. absurd (cc (h));
  }

  own_column :
      (o : SignalObservation fl) (changed : Bool) (codes : Map ℕ (List ObsCode)) (e : Epoch fl)
      (c : ObsCode)
      → nat_beq (system o.sat) 0 ≡ false
      → IsShown codes e
      → has c (add_signal_observation o changed (fields_of e o.sat)) ≡ true
      → listed (add_writer_codes o changed codes) o.sat c ≡ true
  own_column o changed codes e c known h there =
      let either = has-add_signal_observation o changed c (fields_of e o.sat) there in
      let all = listed-add_writer_codes o changed codes o.sat c known in
      elim (Bool-cases (has c (fields_of e o.sat))) [
        | inl old ↦ rw (all, h.in_column o.sat c old) refl
        | inr new ↦
            let mine : wanted (writer_codes o changed) c ≡ true = rw new at either in
            rw (all, beq_refl (system o.sat), mine) (ground arith)
      ]

  abbrev pub fields_with : SignalObservation fl → Bool → Epoch fl → Fields fl
  fields_with o changed e = add_signal_observation o changed (fields_of e o.sat)

  pub get-put_in_epoch :
      (o : SignalObservation fl) (changed : Bool) (e : Epoch fl) (sat : SatId)
      → get sat (put_in_epoch o changed e).obs
        ≡ (if o.sat == sat then some (fields_with o changed e) else get sat e.obs)
  unfolding put_in_epoch
  get-put_in_epoch o changed e sat = get-insert o.sat sat (fields_with o changed e) e.obs

  put_in_epoch-column :
      (o : SignalObservation fl) (changed : Bool) (codes : Map ℕ (List ObsCode)) (e : Epoch fl)
      (sat : SatId) (c : ObsCode)
      → nat_beq (system o.sat) 0 ≡ false
      → IsShown codes e
      → has c (fields_of (put_in_epoch o changed e) sat) ≡ true
      → listed (add_writer_codes o changed codes) sat c ≡ true
  put_in_epoch-column o changed codes e sat c known h there = elim (Bool-cases (o.sat == sat)) [
    | inl same ↦
        let e' : o.sat ≡ sat = (sat_eq.beq_iff o.sat sat).0 same in
        let own : has c (fields_with o changed e) ≡ true =
          rw (get-put_in_epoch o changed e sat, same) at there in
        rw (← e') (own_column o changed codes e c known h own)
    | inr other ↦
        let own : has c (fields_of e sat) ≡ true =
          rw (get-put_in_epoch o changed e sat, other) at there in
        rw (listed-add_writer_codes o changed codes sat c known, h.in_column sat c own) refl
  ]

  put_in_epoch-line :
      (o : SignalObservation fl) (changed : Bool) (codes : Map ℕ (List ObsCode)) (e : Epoch fl)
      (sat : SatId)
      → IsShown codes e
      → is_some (get sat (put_in_epoch o changed e).obs) ≡ true
      → contains (put_in_epoch o changed e).sats sat ≡ true
  unfolding put_in_epoch
  put_in_epoch-line o changed codes e sat h there = elim (Bool-cases (o.sat == sat)) [
    | inl same ↦
        let e' : o.sat ≡ sat = (sat_eq.beq_iff o.sat sat).0 same in
        let back : (sat == o.sat) ≡ true = (sat_eq.beq_iff sat o.sat).1 (sym e') in
        elim (Bool-cases (is_some (get o.sat e.obs))) [
          | inl old ↦
              let kept : contains e.sats sat ≡ true = rw (← e') (h.in_line o.sat old) in rw old kept
          | inr new ↦ rw (new, contains-append e.sats o.sat sat, back) (ground arith)
        ]
    | inr other ↦
        let own : is_some (get sat e.obs) ≡ true =
          rw (get-put_in_epoch o changed e sat, other) at there in
        elim (Bool-cases (is_some (get o.sat e.obs))) [
          | inl old ↦ rw old (h.in_line sat own)
          | inr new ↦ rw (new, contains-append e.sats o.sat sat, h.in_line sat own) refl
        ]
  ]

  put_in_epoch-IsShown :
      (o : SignalObservation fl) (changed : Bool) (codes : Map ℕ (List ObsCode)) (e : Epoch fl)
      → nat_beq (system o.sat) 0 ≡ false
      → IsShown codes e
      → IsShown (add_writer_codes o changed codes) (put_in_epoch o changed e)
  put_in_epoch-IsShown o changed codes e known h = record {
    in_column = λ sat c there. put_in_epoch-column o changed codes e sat c known h there;
    in_line = λ sat there. put_in_epoch-line o changed codes e sat h there;
  }

  -- Columns stay when codes are added.
  IsShown-add_writer_codes :
      (o : SignalObservation fl) (changed : Bool) (codes : Map ℕ (List ObsCode)) (e : Epoch fl)
      → nat_beq (system o.sat) 0 ≡ false
      → IsShown codes e
      → IsShown (add_writer_codes o changed codes) e
  IsShown-add_writer_codes o changed codes e known h = record {
    in_column = λ sat c there.
        rw (listed-add_writer_codes o changed codes sat c known, h.in_column sat c there) refl;
    in_line = h.in_line;
  }

  abbrev pub changed_by : Map SignalKey ℕ → SignalObservation fl → Bool
  changed_by prev o = (lli prev (key_of o) o.v.arc).1

  pub build_step-good :
      (o : SignalObservation fl) (f : ObsFile fl) (prev : Map SignalKey ℕ)
      (b : ObsFile fl × Map SignalKey ℕ)
      → build_step o (f, prev) ≡ good b
      → (sat_is_valid o.sat ≡ true)
        × (b.0.codes ≡ add_writer_codes o (changed_by prev o) f.codes)
        × (b.0.epochs ≡ put o (changed_by prev o) f.epochs)
        × (b.1 ≡ (lli prev (key_of o) o.v.arc).0)
  unfolding build_step
  build_step-good o f prev b h = elim (Bool-cases (sat_is_valid o.sat)) [
    | inl valid ↦ elim (Bool-cases (sig_is_valid o.sig)) [
      | inl signal ↦
          let done = rw (valid, signal) at h in
          (
            valid,
            sym (ap (λ r. (or_else {A = ObsFile fl × Map SignalKey ℕ} (f, prev) r).0.codes) done),
            sym (ap (λ r. (or_else {A = ObsFile fl × Map SignalKey ℕ} (f, prev) r).0.epochs) done),
            sym (ap (λ r. (or_else {A = ObsFile fl × Map SignalKey ℕ} (f, prev) r).1) done),
          )
      | inr invalid ↦ let failed = rw (valid, invalid) at h in absurd (cc failed)
    ]
    | inr invalid ↦ let failed = rw invalid at h in absurd (cc failed)
  ]

  build_from-IsShown :
      (os : List (SignalObservation fl)) (f g : ObsFile fl) (prev : Map SignalKey ℕ)
      → All (IsShown f.codes) f.epochs
      → build_from os (f, prev) ≡ good g
      → All (IsShown g.codes) g.epochs
  unfolding build_from
  build_from-IsShown [] f g prev h e = let same : f ≡ g = ap (or_else f) e in rw (← same) h
  build_from-IsShown (o ∷ os) f g prev h e =
      let (b, step, more) = bind-eq-good (build_step o (f, prev)) (build_from os) e in
      let (valid, codes, epochs, _) = build_step-good o f prev b step in
      let known = sat_is_valid-known o.sat valid in
      let all : All (IsShown (add_writer_codes o (changed_by prev o) f.codes))
          (put o (changed_by prev o) f.epochs) =
        put-All (IsShown f.codes) (IsShown (add_writer_codes o (changed_by prev o) f.codes)) o
          (changed_by prev o) f.epochs
          (λ e h. IsShown-add_writer_codes o (changed_by prev o) f.codes e known h)
          (λ e h. put_in_epoch-IsShown o (changed_by prev o) f.codes e known h)
          (new_epoch-IsShown f.codes o.t) h in
      build_from-IsShown os b.0 g b.1 (rw (codes, epochs) all) more

  sorted-IsShown :
      (codes : Map ℕ (List ObsCode)) (e : Epoch fl)
      → IsShown codes e
      → IsShown (sorted_codes codes) e
  sorted-IsShown codes e h = record {
    in_column = λ sat c there. listed-sorted_codes codes sat c ∙ h.in_column sat c there;
    in_line = h.in_line;
  }

  build_sorted-IsShown :
      (os : List (SignalObservation fl)) (f : ObsFile fl)
      → build_sorted os ≡ good f
      → All (IsShown f.codes) f.epochs
  build_sorted-IsShown [] f h = absurd (cc)
  build_sorted-IsShown (o ∷ os) f h =
      let (g, built, e) =
        bind-eq-good (build_from (o ∷ os) (start_file o.t, []))
          (λ g. good (record g { codes = sorted_codes g.codes })) h in
      let same : record g { codes = sorted_codes g.codes } ≡ f =
        ap (or_else {A = ObsFile fl} g) e in
      let all = build_from-IsShown (o ∷ os) (start_file o.t) g [] tt built in
      rw (← same) (All-mono g.epochs (λ e h. sorted-IsShown g.codes e h) all)

  -- Whatever file is built, everything in it is written: each field of each epoch belongs to a code
  -- that the header lists for the satellite's system, so that it has a column, and each satellite
  -- that an epoch has fields of is in the epoch's list, so that it has a line.
  pub build_obs_file-IsShown :
      (obs : List (SignalObservation fl)) (f : ObsFile fl)
      → build_obs_file obs ≡ good f
      → All (IsShown f.codes) f.epochs
  unfolding build_obs_file
  build_obs_file-IsShown obs f h = build_sorted-IsShown (sort_by_time obs) f h
