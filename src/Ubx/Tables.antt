-- ===== src/Ubx/Tables.antt =====
-- The tables of obsj/src/ubx.rs and what `Converter::observation` builds from them.
use mathlib.Core.Path.{subst}
use convobs_rs.Base.{
  ℕ, ◌≡◌, ◌≢◌, ◌↔◌, ◌%◌, refl, Bool, true, false, not, ◌&&◌, nat_beq, nat_eq, if◌then◌else◌, Option,
  none, some, is_some, [], ◌∷◌, arith, contains, Option-cases, inl, inr,
}
use convobs_rs.Base.Map.{Map, get}
use convobs_rs.Float.{Floats}
use convobs_rs.Ids.Laws.{sat_is_valid-format}
use convobs_rs.Ids.{
  sat_is_valid, SigId, SignalKey, signal_key, systems, system, sig_is_valid, format,
}
use convobs_rs.Time.{GpsTime}
use convobs_rs.Values.{SignalObservation, has_any_code}
use convobs_rs.Ubx.{
  Options, SignalState, Meas, rinex_sys, rinex_sig, rinex_sat_num, signals, observation, measured,
  slip_hc, carrier_phase,
}

rinex_sys_known : (g s : ℕ) → rinex_sys g ≡ some s → contains systems s ≡ true
unfolding rinex_sys get
rinex_sys_known g s h = ground arith

-- Every signal of a table is valid.
abbrev all_valid : Map ℕ SigId → Bool
all_valid [] = true
all_valid ((n, s) ∷ m) = sig_is_valid s && all_valid m

get-valid :
    (m : Map ℕ SigId) (n : ℕ) (s : SigId)
    → all_valid m ≡ true
    → get n m ≡ some s
    → sig_is_valid s ≡ true
unfolding get
get-valid [] n s h e = ground arith
get-valid ((j, x) ∷ m) n s h e = ground (arith, get-valid m n s)

tables_valid : (g : ℕ) (table : Map ℕ SigId) → get g signals ≡ some table → all_valid table ≡ true
unfolding get sig_is_valid
tables_valid g table h = ground arith

pub rinex_sig-valid : (g n : ℕ) (s : SigId) → rinex_sig g n ≡ some s → sig_is_valid s ≡ true
unfolding rinex_sig
rinex_sig-valid g n s h = elim (Option-cases (get g signals)) [
  | inl e ↦ ground arith
  | inr (table, e) ↦ get-valid table n s (tables_valid g table e) (ground arith)
]

-- The two guards in front of an answer.
abbrev answer {ℓ} : {A S : Type ℓ} → Bool → Bool → S → S → A → Option A
answer {A} {S} zero? any s s' a =
    let r : S × Option A =
      if zero? then (s, none) else if not any then (s', none) else (s', some a) in
    r.1

guarded {ℓ} :
    {A S : Type ℓ} (zero? any : Bool) (s s' : S) (a b : A)
    → answer zero? any s s' a ≡ some b
    → (zero? ≡ false) × (any ≡ true) × (a ≡ b)
guarded zero? any s s' a b h = ground arith

module _ {fl : Floats} where
  -- What an observation of a measurement shows.
  pub Shows : GpsTime → Meas fl → SignalObservation fl → Type 0
  Shows t m o =
      (o.t ≡ t)
      × (rinex_sys m.gnss_id ≡ some (system o.sat))
      × (contains systems (system o.sat) ≡ true)
      × (rinex_sig m.gnss_id m.sig_num ≡ some o.sig)
      × (sig_is_valid o.sig ≡ true)
      × (o.sat ≡ format (system o.sat) (rinex_sat_num m.gnss_id m.sv_id))
      × (rinex_sat_num m.gnss_id m.sv_id ≢ 0)
      × ((sat_is_valid o.sat ≡ true) ↔ (rinex_sat_num m.gnss_id m.sv_id % 100 ≢ 0))
      × (has_any_code o ≡ true)

  measured-Shows :
      (opts : Options) (t : GpsTime) (m : Meas fl) (s : ℕ) (g : SigId) (ll hc : Bool)
      → rinex_sys m.gnss_id ≡ some s
      → rinex_sig m.gnss_id m.sig_num ≡ some g
      → rinex_sat_num m.gnss_id m.sv_id ≢ 0
      → has_any_code (measured opts t m s g ll hc) ≡ true
      → Shows t m (measured opts t m s g ll hc)
  unfolding Shows measured format
  measured-Shows opts t m s g ll hc e f ne any =
      let known = rinex_sys_known m.gnss_id s e in
      let valid = sat_is_valid-format s (rinex_sat_num m.gnss_id m.sv_id) in
      (
        refl,
        e,
        known,
        f,
        rinex_sig-valid m.gnss_id m.sig_num g f,
        refl,
        ne,
        (λ ok. (valid.0 ok).1, λ few. valid.1 (known, few)),
        any,
      )

  -- An observation that a measurement gives has the measurement's time, the system, satellite number
  -- and signal of the tables, a known system, a valid signal, a number that is not 0, and at least one
  -- value. The satellite's identifier is valid exactly when the number is no multiple of 100: only two
  -- digits of it are written.
  pub observation-Shows :
      (opts : Options) (state : Map SignalKey SignalState) (t : GpsTime) (m : Meas fl)
      (o : SignalObservation fl)
      → (observation opts state t m).1 ≡ some o
      → Shows t m o
  unfolding observation
  observation-Shows opts state t m o h = elim (Option-cases (rinex_sys m.gnss_id)) [
    | inl e ↦ absurd (ground (arith, rw (e, observation) at h))
    | inr (s, e) ↦ elim (Option-cases (rinex_sig m.gnss_id m.sig_num)) [
      | inl f ↦ absurd (ground (arith, rw (e, f, observation) at h))
      | inr (g, f) ↦
          let st =
            slip_hc opts state (signal_key (format s (rinex_sat_num m.gnss_id m.sv_id)) g) m
              (is_some (carrier_phase m opts.bds_geo_half_cycle)) in
          let x = measured opts t m s g st.1 st.2 in
          let h' : answer (nat_beq (rinex_sat_num m.gnss_id m.sv_id) 0) (has_any_code x) state st.0
                x
              ≡ some o =
            rw (e, f, observation) at h in
          let (ne, any, path) =
            guarded (nat_beq (rinex_sat_num m.gnss_id m.sv_id) 0) (has_any_code x) state st.0 x o
              h' in
          subst (λ z. Shows t m z) path
            (measured-Shows opts t m s g st.1 st.2 e f (ground arith) any)
    ]
  ]
