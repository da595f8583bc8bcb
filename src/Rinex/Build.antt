-- ===== src/Rinex/Build.antt =====
-- What the writer of obsj/src/rinexobs.rs makes of its observations: `build_obs_file`.
use convobs_rs.Base.{
  ℕ, Bool, not, nat_beq, nat_eq, if◌then◌else◌, Option, none, some, is_some, unwrap_or, List, [],
  ◌∷◌, ◌++◌,
}
use convobs_rs.Base.Int.{ltb_ℤ, leb_ℤ, int_beq}
use convobs_rs.Base.Map.{Map, get, insert}
use convobs_rs.Arc.{lli, key_of}
use convobs_rs.Checked.{Checked, good, bad, ◌>>=◌, ◌>>◌, refuse_if}
use convobs_rs.Float.{Floats}
use convobs_rs.Ids.{
  ObsCode, SignalKey, code, code_eq, sat_eq, key_eq, sat_is_valid, sig_is_valid, type_code,
  type_phase, type_doppler, type_signal_strength,
}
use convobs_rs.Time.{GpsTime}
use convobs_rs.Values.{SignalObservation, rinex_lli}
use convobs_rs.Rinex.{ObsField, Epoch, ObsFile}
use convobs_rs.Rinex.Codes.{add_writer_codes, sort_observation_codes}

abbrev pub field : {fl : Floats} → Option fl.F64 → ℕ → ObsField fl
field val lli = record { val = val; lli = lli }

abbrev pub Fields : Floats → Type 0
Fields fl = Map ObsCode (ObsField fl)

abbrev pub as_f64 : (fl : Floats) → Option fl.F32 → Option fl.F64
as_f64 fl none = none
as_f64 fl (some v) = some (fl.of_f32 v)

abbrev pub sorted_codes : Map ℕ (List ObsCode) → Map ℕ (List ObsCode)
sorted_codes [] = []
sorted_codes ((s, cs) ∷ codes) = (s, sort_observation_codes cs) ∷ sorted_codes codes

module _ {fl : Floats} where
  -- `entry(code).or_insert`: the first field of a code stays.
  unfoldable pub add_obs_field : ObsCode → Option fl.F64 → ℕ → Fields fl → Fields fl
  add_obs_field c val l dst = if is_some (get c dst) then dst else insert c (field val l) dst

  -- The four steps of `add_signal_observation`.
  abbrev pub add_if : ObsCode → Option fl.F64 → ℕ → Fields fl → Fields fl
  add_if c none l dst = dst
  add_if c (some v) l dst = add_obs_field c (some v) l dst

  abbrev pub add_phase : ObsCode → Option fl.F64 → ℕ → Fields fl → Fields fl
  add_phase c (some v) l dst = add_obs_field c (some v) l dst
  add_phase c none l dst = if not (nat_beq l 0) then add_obs_field c none l dst else dst

  unfoldable pub add_signal_observation : SignalObservation fl → Bool → Fields fl → Fields fl
  unfolding add_obs_field rinex_lli
  add_signal_observation o arc_changed dst =
      let dst1 = add_if (code o.sig type_code) o.v.pr 0 dst in
      let dst2 = add_phase (code o.sig type_phase) o.v.cp (rinex_lli o.v arc_changed) dst1 in
      let dst3 = add_if (code o.sig type_doppler) o.v.dop 0 dst2 in
      add_if (code o.sig type_signal_strength) (as_f64 fl o.v.cn0) 0 dst3

  -- An epoch with the observation put in; a satellite that is new to it comes last.
  unfoldable pub put_in_epoch : SignalObservation fl → Bool → Epoch fl → Epoch fl
  unfolding add_signal_observation
  put_in_epoch o arc_changed e = record e {
    sats = if is_some (get o.sat e.obs) then e.sats else e.sats ++ (o.sat ∷ []);
    obs =
        insert o.sat (add_signal_observation o arc_changed (unwrap_or (get o.sat e.obs) [])) e.obs;
  }

  abbrev pub new_epoch : GpsTime → Epoch fl
  new_epoch t = record { t = t; sats = []; obs = [] }

  -- `epoch_index` finds the epoch of the time; a new one comes last.
  unfoldable pub put : SignalObservation fl → Bool → List (Epoch fl) → List (Epoch fl)
  unfolding put_in_epoch
  put o arc_changed [] = put_in_epoch o arc_changed (new_epoch o.t) ∷ []
  put o arc_changed (e ∷ es) =
      let rest = put o arc_changed es in
      if int_beq e.t o.t then put_in_epoch o arc_changed e ∷ es else e ∷ rest

  -- `sort_by_key`: an observation goes before the later ones of its own time.
  unfoldable pub insert_by_time :
      SignalObservation fl → List (SignalObservation fl) → List (SignalObservation fl)
  insert_by_time o [] = o ∷ []
  insert_by_time o (p ∷ ps) =
      let rest = insert_by_time o ps in if leb_ℤ o.t p.t then o ∷ p ∷ ps else p ∷ rest

  unfoldable pub sort_by_time : List (SignalObservation fl) → List (SignalObservation fl)
  unfolding insert_by_time
  sort_by_time [] = []
  sort_by_time (o ∷ os) = insert_by_time o (sort_by_time os)

  -- The body of the loop over the observations.
  unfoldable pub build_step :
      SignalObservation fl → ObsFile fl × Map SignalKey ℕ → Checked (ObsFile fl × Map SignalKey ℕ)
  unfolding lli put add_writer_codes
  build_step o (f, prev) =
      let (prev', changed) = lli prev (key_of o) o.v.arc in
      do
        refuse_if (not (sat_is_valid o.sat)) "rinex: invalid satellite"
        refuse_if (not (sig_is_valid o.sig)) "rinex: invalid signal"
        good (
          record {
            codes = add_writer_codes o changed f.codes;
            epochs = put o changed f.epochs;
            frq = elim (o.v.frq) [ none ↦ f.frq | some v ↦ insert o.sat v f.frq ];
            first = if ltb_ℤ o.t f.first then o.t else f.first;
            last = if ltb_ℤ f.last o.t then o.t else f.last;
          },
          prev',
        )

  unfoldable pub build_from :
      List (SignalObservation fl) → ObsFile fl × Map SignalKey ℕ → Checked (ObsFile fl)
  unfolding build_step
  build_from [] (f, prev) = good f
  build_from (o ∷ os) b = build_step o b >>= build_from os

  abbrev pub start_file : GpsTime → ObsFile fl
  start_file t = record { codes = []; epochs = []; frq = []; first = t; last = t }

  abbrev pub build_sorted : List (SignalObservation fl) → Checked (ObsFile fl)
  build_sorted [] = bad "rinex: no observations"
  build_sorted (o ∷ os) = do
    f ← build_from (o ∷ os) (start_file o.t, [])
    good (record f { codes = sorted_codes f.codes })

  -- `build_obs_file`
  unfoldable pub build_obs_file : List (SignalObservation fl) → Checked (ObsFile fl)
  unfolding sort_by_time build_from sort_observation_codes
  build_obs_file obs = build_sorted (sort_by_time obs)
