-- ===== src/Rinex/Kept.antt =====
-- What stands where in the file that `build_obs_file` of obsj/src/rinexobs.rs makes: a description of
-- its fields by a search through the observations.
use convobs_rs.Base.{
  ℕ, ◌≡◌, refl, ◌∙◌, ap, sym, Bool, ◌&&◌, if◌then◌else◌, Option, none, List, [], ◌∷◌, ◌==◌,
  Bool-cases, inl, inr,
}
use convobs_rs.Base.Int.{int_beq}
use convobs_rs.Base.Map.{Map, get}
use convobs_rs.Arc.{lli, key_of}
use convobs_rs.Checked.{good, bind-eq-good}
use convobs_rs.Float.{Floats}
use convobs_rs.Ids.{SatId, ObsCode, SignalKey, code_eq, sat_eq}
use convobs_rs.Time.{GpsTime}
use convobs_rs.Values.{SignalObservation}
use convobs_rs.Rinex.{ObsField, Epoch, ObsFile}
use convobs_rs.Rinex.Build.{
  put_in_epoch, put, new_epoch, start_file, build_step, build_from, sorted_codes, build_sorted,
  build_obs_file, sort_by_time,
}
use convobs_rs.Rinex.Listed.{or_else}
use convobs_rs.Rinex.Shown.{fields_of, get-put_in_epoch, changed_by, build_step-good}
use convobs_rs.Rinex.Told.{
  told, or_next, or_next_assoc, or_next-none, same_time, other_time, get-add_signal_observation,
}

module _ {fl : Floats} where
  -- The field that stands in the epochs, by the time, the satellite and the code.
  pub field_at : List (Epoch fl) → GpsTime → SatId → ObsCode → Option (ObsField fl)
  field_at [] t sat c = none
  field_at (e ∷ es) t sat c = if int_beq e.t t then get c (fields_of e sat) else field_at es t sat c

  -- The first observation of the time and satellite that has something for the code.
  abbrev pub told_at :
      SignalObservation fl → Bool → GpsTime → SatId → ObsCode → Option (ObsField fl)
  told_at o changed t sat c = if int_beq o.t t && o.sat == sat then told o changed c else none

  pub first_told :
      List (SignalObservation fl × Bool) → GpsTime → SatId → ObsCode → Option (ObsField fl)
  first_told [] t sat c = none
  first_told ((o, changed) ∷ os) t sat c =
      or_next (told_at o changed t sat c) (first_told os t sat c)

  -- The observations with the flags of `ArcToLl`: whether the arc has changed.
  unfoldable pub flagged :
      Map SignalKey ℕ → List (SignalObservation fl) → List (SignalObservation fl × Bool)
  flagged prev [] = []
  flagged prev (o ∷ os) = (o, changed_by prev o) ∷ flagged (lli prev (key_of o) o.v.arc).0 os

  get-fields_of :
      (o : SignalObservation fl) (changed : Bool) (e : Epoch fl) (sat : SatId) (c : ObsCode)
      → get c (fields_of (put_in_epoch o changed e) sat)
        ≡ or_next (get c (fields_of e sat)) (if o.sat == sat then told o changed c else none)
  get-fields_of o changed e sat c = elim (Bool-cases (o.sat == sat)) [
    | inl same ↦
        let e' : o.sat ≡ sat = (sat_eq.beq_iff o.sat sat).0 same in
        rw (get-put_in_epoch o changed e sat, same)
          (get-add_signal_observation o changed c (fields_of e o.sat)
            ∙ ap (λ s. or_next (get c (fields_of e s)) (told o changed c)) e')
    | inr other ↦
        rw (get-put_in_epoch o changed e sat, other) (sym (or_next-none (get c (fields_of e sat))))
  ]

  put-field_at :
      (o : SignalObservation fl) (changed : Bool) (es : List (Epoch fl)) (t : GpsTime) (sat : SatId)
      (c : ObsCode)
      → field_at (put o changed es) t sat c
        ≡ or_next (field_at es t sat c) (told_at o changed t sat c)
  unfolding put put_in_epoch field_at get
  put-field_at o changed [] t sat c = elim (Bool-cases (int_beq o.t t)) [
    | inl here ↦ rw here (get-fields_of o changed (new_epoch o.t) sat c)
    | inr away ↦ rw away refl
  ]
  put-field_at o changed (e ∷ es) t sat c = elim (Bool-cases (int_beq e.t o.t)) [
    | inl same ↦ elim (Bool-cases (int_beq e.t t)) [
      | inl here ↦
          rw (same, here, same_time e.t o.t t same ∙ here) (get-fields_of o changed e sat c)
      | inr away ↦
          rw (same, away, same_time e.t o.t t same ∙ away)
            (sym (or_next-none (field_at es t sat c)))
    ]
    | inr other ↦ elim (Bool-cases (int_beq e.t t)) [
      | inl here ↦
          rw (other, here, other_time e.t o.t t other here)
            (sym (or_next-none (get c (fields_of e sat))))
      | inr away ↦ rw (other, away) (put-field_at o changed es t sat c)
    ]
  ]

  build_from-field_at :
      (os : List (SignalObservation fl)) (f g : ObsFile fl) (prev : Map SignalKey ℕ) (t : GpsTime)
      (sat : SatId) (c : ObsCode)
      → build_from os (f, prev) ≡ good g
      → field_at g.epochs t sat c
        ≡ or_next (field_at f.epochs t sat c) (first_told (flagged prev os) t sat c)
  unfolding build_from first_told flagged
  build_from-field_at [] f g prev t sat c h =
      let same : f ≡ g = ap (or_else f) h in
      rw (← same) (sym (or_next-none (field_at f.epochs t sat c)))
  build_from-field_at (o ∷ os) f g prev t sat c h =
      let (b, step, more) = bind-eq-good (build_step o (f, prev)) (build_from os) h in
      let (valid, codes, epochs, arcs) = build_step-good o f prev b step in
      let later = first_told (flagged (lli prev (key_of o) o.v.arc).0 os) t sat c in
      build_from-field_at os b.0 g b.1 t sat c more
      ∙ ap (λ p. or_next (field_at b.0.epochs t sat c) (first_told (flagged p os) t sat c)) arcs
      ∙ ap (λ es. or_next (field_at es t sat c) later) epochs
      ∙ ap (λ r. or_next r later) (put-field_at o (changed_by prev o) f.epochs t sat c)
      ∙ or_next_assoc (field_at f.epochs t sat c) (told_at o (changed_by prev o) t sat c) later

  build_sorted-first_told :
      (os : List (SignalObservation fl)) (f : ObsFile fl) (t : GpsTime) (sat : SatId) (c : ObsCode)
      → build_sorted os ≡ good f
      → field_at f.epochs t sat c ≡ first_told (flagged [] os) t sat c
  unfolding field_at
  build_sorted-first_told [] f t sat c h = absurd (cc)
  build_sorted-first_told (o ∷ os) f t sat c h =
      let (g, built, e) =
        bind-eq-good (build_from (o ∷ os) (start_file o.t, []))
          (λ g. good (record g { codes = sorted_codes g.codes })) h in
      let same : record g { codes = sorted_codes g.codes } ≡ f =
        ap (or_else {A = ObsFile fl} g) e in
      ap (λ (x : ObsFile fl). field_at x.epochs t sat c) (sym same)
      ∙ build_from-field_at (o ∷ os) (start_file o.t) g [] t sat c built

  -- Whatever file is built: at each time, for each satellite and code, it has what the first
  -- observation of that time and satellite that has something for the code tells, in the order of
  -- the observations by time; and nothing where no observation tells anything. The flags of the
  -- observations are those of `ArcToLl` in that order.
  pub build_obs_file-first_told :
      (obs : List (SignalObservation fl)) (f : ObsFile fl) (t : GpsTime) (sat : SatId) (c : ObsCode)
      → build_obs_file obs ≡ good f
      → field_at f.epochs t sat c ≡ first_told (flagged [] (sort_by_time obs)) t sat c
  unfolding build_obs_file
  build_obs_file-first_told obs f t sat c h = build_sorted-first_told (sort_by_time obs) f t sat c h
