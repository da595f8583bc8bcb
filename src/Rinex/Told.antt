-- ===== src/Rinex/Told.antt =====
-- What an observation has for a code in the file of obsj/src/rinexobs.rs: a description of the fields
-- that `add_signal_observation` writes.
use convobs_rs.Base.{
  ℕ, ◌≡◌, refl, ◌∙◌, ap, sym, Bool, true, false, not, nat_beq, if◌then◌else◌, Option, none, some,
  is_some, ◌==◌, Bool-cases, inl, inr,
}
use convobs_rs.Base.Int.{int_beq, int_beq_iff}
use convobs_rs.Base.Map.{get, get-insert}
use convobs_rs.Float.{Floats}
use convobs_rs.Ids.{
  ObsCode, code, code_eq, sat_eq, type_code, type_phase, type_doppler, type_signal_strength,
}
use convobs_rs.Time.{GpsTime}
use convobs_rs.Values.{SignalObservation, rinex_lli}
use convobs_rs.Rinex.{ObsField}
use convobs_rs.Rinex.Build.{
  Fields, field, add_obs_field, add_if, add_phase, as_f64, add_signal_observation,
}

-- The first of two answers.
abbrev pub or_next {ℓ} : {A : Type ℓ} → Option A → Option A → Option A
or_next (some a) b = some a
or_next none b = b

pub or_next_assoc {ℓ} :
    {A : Type ℓ} (a b c : Option A) → or_next (or_next a b) c ≡ or_next a (or_next b c)
or_next_assoc (some a) b c = refl
or_next_assoc none b c = refl

pub or_next-none {ℓ} : {A : Type ℓ} (a : Option A) → or_next a none ≡ a
or_next-none (some a) = refl
or_next-none none = refl

or_next-some {ℓ} : {A : Type ℓ} (a b : Option A) → is_some a ≡ true → or_next a b ≡ a
or_next-some (some a) b h = refl
or_next-some none b h = absurd (cc)

or_next-new {ℓ} : {A : Type ℓ} (a b : Option A) → is_some a ≡ false → or_next a b ≡ b
or_next-new (some a) b h = absurd (cc)
or_next-new none b h = refl

pub same_time : (a b t : GpsTime) → int_beq a b ≡ true → int_beq b t ≡ int_beq a t
same_time a b t h = ap (λ x. int_beq x t) (sym ((int_beq_iff a b).0 h))

pub other_time : (a b t : GpsTime) → int_beq a b ≡ false → int_beq a t ≡ true → int_beq b t ≡ false
other_time a b t h k = elim (Bool-cases (int_beq b t)) [
  | inl equal ↦
      let e : a ≡ b = (int_beq_iff a t).0 k ∙ sym ((int_beq_iff b t).0 equal) in
      let same : int_beq a b ≡ true = (int_beq_iff a b).1 e in absurd (cc)
  | inr unequal ↦ unequal
]

module _ {fl : Floats} where
  -- What an observation has for a code: a value, and for the phase an indicator, which can stand
  -- alone.
  abbrev value_at : Option fl.F64 → Option (ObsField fl)
  value_at none = none
  value_at (some v) = some (field (some v) 0)

  abbrev phase_at : Option fl.F64 → ℕ → Option (ObsField fl)
  phase_at (some v) l = some (field (some v) l)
  phase_at none l = if not (nat_beq l 0) then some (field none l) else none

  abbrev pub at_code : ObsCode → ObsCode → Option (ObsField fl) → Option (ObsField fl)
  at_code c k answer = if k == c then answer else none

  abbrev pub told : SignalObservation fl → Bool → ObsCode → Option (ObsField fl)
  told o changed c = or_next (at_code c (code o.sig type_code) (value_at o.v.pr)) (
      or_next (at_code c (code o.sig type_phase) (phase_at o.v.cp (rinex_lli o.v changed))) (
        or_next (at_code c (code o.sig type_doppler) (value_at o.v.dop))
          (at_code c (code o.sig type_signal_strength) (value_at (as_f64 fl o.v.cn0)))))

  get-add_obs_field :
      (c k : ObsCode) (v : Option fl.F64) (l : ℕ) (dst : Fields fl)
      → get c (add_obs_field k v l dst) ≡ or_next (get c dst) (at_code c k (some (field v l)))
  unfolding add_obs_field
  get-add_obs_field c k v l dst =
      let new_field = some (field v l) in
      let answer = at_code c k new_field in
      elim (Bool-cases (k == c)) [
        | inl same ↦
            let e : k ≡ c = (code_eq.beq_iff k c).0 same in
            elim (Bool-cases (is_some (get k dst))) [
              | inl there ↦
                  let here : is_some (get c dst) ≡ true = rw e at there in
                  rw there (sym (or_next-some (get c dst) answer here))
              | inr new ↦
                  let here : is_some (get c dst) ≡ false = rw e at new in
                  rw (new, get-insert k c (field v l) dst, same)
                    (sym (or_next-new (get c dst) new_field here))
            ]
        | inr other ↦ elim (Bool-cases (is_some (get k dst))) [
          | inl there ↦ rw (there, other) (sym (or_next-none (get c dst)))
          | inr new ↦
              rw (new, get-insert k c (field v l) dst, other) (sym (or_next-none (get c dst)))
        ]
      ]

  get-add_if :
      (c k : ObsCode) (v : Option fl.F64) (dst : Fields fl)
      → get c (add_if k v 0 dst) ≡ or_next (get c dst) (at_code c k (value_at v))
  get-add_if c k none dst = elim (Bool-cases (k == c)) [
    | inl same ↦ rw same (sym (or_next-none (get c dst)))
    | inr other ↦ rw other (sym (or_next-none (get c dst)))
  ]
  get-add_if c k (some v) dst = get-add_obs_field c k (some v) 0 dst

  get-add_phase :
      (c k : ObsCode) (v : Option fl.F64) (l : ℕ) (dst : Fields fl)
      → get c (add_phase k v l dst) ≡ or_next (get c dst) (at_code c k (phase_at v l))
  get-add_phase c k (some v) l dst = get-add_obs_field c k (some v) l dst
  get-add_phase c k none l dst = elim (Bool-cases (nat_beq l 0)) [
    | inl zero ↦ rw zero (get-add_if c k none dst)
    | inr bits ↦ rw bits (get-add_obs_field c k none l dst)
  ]

  pub get-add_signal_observation :
      (o : SignalObservation fl) (changed : Bool) (c : ObsCode) (dst : Fields fl)
      → get c (add_signal_observation o changed dst) ≡ or_next (get c dst) (told o changed c)
  unfolding add_signal_observation
  get-add_signal_observation o changed c dst =
      let l = rinex_lli o.v changed in
      let k1 = code o.sig type_code in
      let k2 = code o.sig type_phase in
      let k3 = code o.sig type_doppler in
      let k4 = code o.sig type_signal_strength in
      let v4 = as_f64 fl o.v.cn0 in
      let a1 = at_code c k1 (value_at o.v.pr) in
      let a2 = at_code c k2 (phase_at o.v.cp l) in
      let a3 = at_code c k3 (value_at o.v.dop) in
      let a4 = at_code c k4 (value_at v4) in
      let dst1 = add_if k1 o.v.pr 0 dst in
      let dst2 = add_phase k2 o.v.cp l dst1 in
      let dst3 = add_if k3 o.v.dop 0 dst2 in
      get-add_if c k4 v4 dst3
      ∙ ap (λ r. or_next r a4)
          (get-add_if c k3 o.v.dop dst2
            ∙ ap (λ r. or_next r a3)
                (get-add_phase c k2 o.v.cp l dst1
                  ∙ ap (λ r. or_next r a2) (get-add_if c k1 o.v.pr dst)))
      ∙ or_next_assoc (or_next (or_next (get c dst) a1) a2) a3 a4
      ∙ or_next_assoc (or_next (get c dst) a1) a2 (or_next a3 a4)
      ∙ or_next_assoc (get c dst) a1 (or_next a2 (or_next a3 a4))
