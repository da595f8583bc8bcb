-- ===== src/Rtcm/Cell.antt =====
-- The cell arithmetic of obsj/src/rtcm.rs, on the values that the `rtcm-rs` crate decodes.
use convobs_rs.Base.{ℕ, Bool, if◌then◌else◌, Option, some, ◌>>=?◌}
use convobs_rs.Base.Int.{ℤ, pos}
use convobs_rs.Float.{Floats}

-- A satellite's data. `range_mod` and the fine values are already scaled.
pub record SatData (fl : Floats) : Type 0 where
  pub satellite_id : ℕ
  pub range_int : Option ℕ
  pub range_mod : fl.F64
  pub phase_rate : Option ℤ
  pub glo_channel : Option ℤ

-- The data of a signal of a satellite.
pub record SigData (fl : Floats) : Type 0 where
  pub satellite_id : ℕ
  pub band : ℕ
  pub attribute : ℕ
  pub pseudorange : Option fl.F64
  pub phase_range : Option fl.F64
  pub phase_rate : Option fl.F64
  pub lock : ℕ
  pub half_cycle : Bool
  pub cnr : Option fl.F64

module _ (fl : Floats) where
  abbrev pub speed_of_light : fl.F64
  speed_of_light = fl.lit 299792458 0

  abbrev pub range_ms : fl.F64
  range_ms = fl.mul speed_of_light (fl.lit 1 3)

  unfoldable pub rough_range : SatData fl → Option fl.F64
  rough_range sat = sat.range_int >>=? λ rint.
      some (fl.add (fl.mul (fl.of_int (pos rint)) range_ms) (fl.mul sat.range_mod range_ms))

  unfoldable pub pseudorange_of : Option fl.F64 → Option fl.F64 → Option fl.F64
  pseudorange_of rough fine = rough >>=? λ r. fine >>=? λ f. some (fl.add r (fl.mul f range_ms))

  unfoldable pub carrier_phase : Option fl.F64 → Option fl.F64 → Option fl.F64 → Option fl.F64
  carrier_phase rough fine freq = freq >>=? λ h. rough >>=? λ r.
      fine >>=? λ f. some (fl.div (fl.mul (fl.add r (fl.mul f range_ms)) h) speed_of_light)

  unfoldable pub doppler : Option ℤ → Option fl.F64 → Option fl.F64 → Bool → Option fl.F64
  doppler rough fine freq spec_sign = freq >>=? λ h. rough >>=? λ r. fine >>=? λ f.
      let prr = fl.add (fl.of_int r) f in
      let prr' = if spec_sign then fl.neg prr else prr in
      some (fl.of_f32 (fl.to_f32 (fl.div (fl.mul prr' h) speed_of_light)))

  unfoldable pub cn0_of : Option fl.F64 → Option fl.F32
  cn0_of cnr = cnr >>=? λ c.
      let raw = fl.to_u16 (fl.round (fl.mul c (fl.lit 160 1))) in
      some (fl.mul32 (fl.of_int32 raw) (fl.lit32 625 4))
