-- ===== src/Rinex/Written.antt =====
-- The fields that `add_signal_observation` of obsj/src/rinexobs.rs writes, beside the columns that
-- `add_writer_codes` makes for them.
use convobs_rs.Base.{
  ℕ, ◌≡◌, ◌∙◌, ap, sym, Bool, true, false, not, ◌||◌, ◌&&◌, nat_beq, nat_eq, if◌then◌else◌, Option,
  none, some, is_some, unwrap_or, List, [], ◌∷◌, contains, ◌==◌, Bool-cases, inl, inr, arith,
}
use convobs_rs.Base.Map.{Map, get, insert, get-insert}
use convobs_rs.Float.{Floats}
use convobs_rs.Ids.{
  SatId, ObsCode, code, code_eq, sat_eq, system, type_code, type_phase, type_doppler,
  type_signal_strength,
}
use convobs_rs.Values.{SignalObservation, rinex_lli}
use convobs_rs.Rinex.Build.{
  Fields, field, add_obs_field, add_if, add_phase, as_f64, add_signal_observation,
}
use convobs_rs.Rinex.Codes.{if_code, writer_codes, push_codes, add_writer_codes}
use convobs_rs.Rinex.Listed.{
  listed, wanted, push_codes-contains, or_same, wanted-if_code, written_listed, is_some-as_f64,
}

module _ {fl : Floats} where
  abbrev pub has : ObsCode → Fields fl → Bool
  has c dst = is_some (get c dst)

  has-add_obs_field :
      (c k : ObsCode) (v : Option fl.F64) (l : ℕ) (dst : Fields fl)
      → has c (add_obs_field k v l dst) ≡ (has c dst || c == k)
  unfolding add_obs_field
  has-add_obs_field c k v l dst = elim (Bool-cases (has k dst)) [
    | inl there ↦ rw there (or_same (λ x. has x dst) k c there)
    | inr new ↦
        let put : get c (insert k (field v l) dst)
            ≡ (if k == c then some (field v l) else get c dst) =
          get-insert k c (field v l) dst in
        rw (new, put) (ground (arith, code_eq.beq_iff k c, code_eq.beq_iff c k))
  ]

  has-add_if :
      (c k : ObsCode) (v : Option fl.F64) (l : ℕ) (dst : Fields fl)
      → has c (add_if k v l dst) ≡ (has c dst || (is_some v && c == k))
  has-add_if c k none l dst = ground arith
  has-add_if c k (some v) l dst = has-add_obs_field c k (some v) l dst

  has-add_phase :
      (c k : ObsCode) (v : Option fl.F64) (l : ℕ) (dst : Fields fl)
      → has c (add_phase k v l dst) ≡ (has c dst || ((is_some v || not (nat_beq l 0)) && c == k))
  has-add_phase c k (some v) l dst = has-add_obs_field c k (some v) l dst
  has-add_phase c k none l dst = elim (Bool-cases (nat_beq l 0)) [
    | inl zero ↦ rw zero (ground arith)
    | inr some_bits ↦ rw some_bits (has-add_obs_field c k none l dst)
  ]

  -- A field of an epoch is an old one, or its code is one that the writer lists.
  pub has-add_signal_observation :
      (o : SignalObservation fl) (changed : Bool) (c : ObsCode) (dst : Fields fl)
      → has c (add_signal_observation o changed dst) ≡ true
      → (has c dst || wanted (writer_codes o changed) c) ≡ true
  unfolding add_signal_observation writer_codes
  has-add_signal_observation o changed c dst h =
      let l = rinex_lli o.v changed in
      let k1 = code o.sig type_code in
      let k2 = code o.sig type_phase in
      let k3 = code o.sig type_doppler in
      let k4 = code o.sig type_signal_strength in
      let v4 = as_f64 fl o.v.cn0 in
      let dst1 = add_if k1 o.v.pr 0 dst in
      let dst2 = add_phase k2 o.v.cp l dst1 in
      let dst3 = add_if k3 o.v.dop 0 dst2 in
      let p = is_some o.v.pr in
      let q = is_some o.v.cp in
      let r = is_some o.v.dop in
      let n = is_some o.v.cn0 in
      let m = not (nat_beq l 0) in
      let steps : ((((has c dst || (p && c == k1)) || ((q || m) && c == k2)) || (r && c == k3))
            || (n && c == k4))
          ≡ true =
        rw
          (
            is_some-as_f64 fl o.v.cn0,
            has-add_if c k3 o.v.dop 0 dst2,
            has-add_phase c k2 o.v.cp l dst1,
            has-add_if c k1 o.v.pr 0 dst,
          )
          at (sym (has-add_if c k4 v4 0 dst3) ∙ h) in
      rw
        (
          wanted-if_code p k1
              (if_code (p || q || r || n || m) k2 ∷ if_code r k3 ∷ if_code n k4 ∷ []) c,
          wanted-if_code (p || q || r || n || m) k2 (if_code r k3 ∷ if_code n k4 ∷ []) c,
          wanted-if_code r k3 (if_code n k4 ∷ []) c,
          wanted-if_code n k4 [] c,
        )
        (written_listed (has c dst) p q r n m (c == k1) (c == k2) (c == k3) (c == k4) steps)

  -- The columns of the observation's system, with its codes and all that were there.
  pub listed-add_writer_codes :
      (o : SignalObservation fl) (changed : Bool) (codes : Map ℕ (List ObsCode)) (sat : SatId)
      (c : ObsCode)
      → nat_beq (system o.sat) 0 ≡ false
      → listed (add_writer_codes o changed codes) sat c ≡ (
          listed codes sat c
          || (nat_beq (system o.sat) (system sat) && wanted (writer_codes o changed) c))
  unfolding add_writer_codes
  listed-add_writer_codes o changed codes sat c known =
      let sys = system o.sat in
      let ws = writer_codes o changed in
      let old = unwrap_or (get sys codes) [] in
      let found : get (system sat) (insert sys (push_codes ws old) codes)
          ≡ (if sys == system sat then some (push_codes ws old) else get (system sat) codes) =
        get-insert sys (system sat) (push_codes ws old) codes in
      elim (Bool-cases (nat_beq sys (system sat))) [
        | inl same ↦
            let e : sys ≡ system sat = (nat_eq.beq_iff sys (system sat)).0 same in
            rw (known, found, same)
              (push_codes-contains ws old c
                ∙ ap (λ s. contains (unwrap_or (get s codes) []) c || wanted ws c) e)
        | inr other ↦ rw (known, found, other) (ground arith)
      ]
