-- ===== src/Rtcm/Cells.antt =====
-- What `convert_cell` of obsj/src/rtcm.rs makes of a cell.
use mathlib.Core.Path.{subst}
use convobs_rs.Base.{
  ℕ, ◌+◌, ◌%◌, ◌≤◌, ◌≡◌, ◌≢◌, refl, Bool, true, false, not, nat_beq, nat_eq, if◌then◌else◌,
  contains, Option, none, some, is_some, Option-cases, inl, inr, arith,
}
use convobs_rs.Base.Int.{ℤ, pos, negsuc, ◌≤ℤ◌}
use convobs_rs.Float.{Floats}
use convobs_rs.Ids.{sig_id, systems, signal_key, sat_is_valid, sig_is_valid, format}
use convobs_rs.Ids.Laws.{sat_is_valid-format}
use convobs_rs.Time.{GpsTime}
use convobs_rs.Values.{SignalObservation, has_any_code}
use convobs_rs.Rtcm.{Gnss, glonass, gnss_eq, gnss_beq_iff, rinex_sys, rinex_sat_num}
use convobs_rs.Rtcm.Cell.{SatData, SigData}
use convobs_rs.Rtcm.Convert.{Converter, cell_values, slip_hc, channel, convert_cell}

-- Every number that is not refused fits in the two digits of an identifier.
pub rinex_sat_num_bound : (g : Gnss) (id : ℕ) → rinex_sat_num g id ≤ 63
unfolding rinex_sat_num
rinex_sat_num_bound g id = ground arith

rinex_sys_known : (g : Gnss) → contains systems (rinex_sys g) ≡ true
unfolding rinex_sys
rinex_sys_known g = ground arith

number-IsValid :
    (g : Gnss) (id : ℕ)
    → rinex_sat_num g id ≢ 0
    → sat_is_valid (format (rinex_sys g) (rinex_sat_num g id)) ≡ true
number-IsValid g id h =
    let b = rinex_sat_num_bound g id in
    (sat_is_valid-format (rinex_sys g) (rinex_sat_num g id)).1 (rinex_sys_known g, omega arith)

-- The three guards in front of an answer.
abbrev answer {ℓ} : {A S : Type ℓ} → Bool → Bool → Bool → S → S → A → Option A
answer {A} {S} zero? valid any s s' a =
    let r : S × Option A =
      if zero?
      then (s, none)
      else if not valid
      then (s, none)
      else if not any
      then (s', none)
      else (s', some a) in
    r.1

guarded {ℓ} :
    {A S : Type ℓ} (zero? valid any : Bool) (s s' : S) (a b : A)
    → answer zero? valid any s s' a ≡ some b
    → (zero? ≡ false) × (valid ≡ true) × (any ≡ true) × (a ≡ b)
guarded zero? valid any s s' a b h = ground arith

-- The channel is a GLONASS one from -7 to 6.
abbrev pub ChannelFits : Gnss → Option ℤ → Type 0
ChannelFits g none = Unit
ChannelFits g (some c) = (g ≡ glonass) × (negsuc 6 ≤ℤ c) × (c ≤ℤ pos 6)

channel-some :
    (g : Gnss) (ch : Option ℤ) (c : ℤ)
    → channel g ch ≡ some c
    → (g ≡ glonass) × (negsuc 6 ≤ℤ c) × (c ≤ℤ pos 6)
unfolding channel
channel-some g none c h = ground arith
channel-some g (some x) c h = ground (arith, gnss_beq_iff g glonass)

channel_fits : (g : Gnss) (ch : Option ℤ) → ChannelFits g (channel g ch)
channel_fits g ch = elim (Option-cases (channel g ch)) [
  | inl e ↦ rw e tt
  | inr (c, e) ↦ rw e (channel-some g ch c e)
]

module _ {fl : Floats} where
  -- What an observation of a cell shows.
  pub Shows : GpsTime → Gnss → SatData fl → SignalObservation fl → Type 0
  Shows t g sat o =
      (o.t ≡ t)
      × (o.sat ≡ format (rinex_sys g) (rinex_sat_num g sat.satellite_id))
      × (sat_is_valid o.sat ≡ true)
      × (sig_is_valid o.sig ≡ true)
      × ChannelFits g (o.v.frq)
      × (has_any_code o ≡ true)

  abbrev made_of :
      GpsTime → Gnss → SatData fl → SigData fl → Converter → Bool → SignalObservation fl
  made_of t g sat sig c ll = record {
    t = t;
    sat = format (rinex_sys g) (rinex_sat_num g sat.satellite_id);
    sig = sig_id ((b'0' + sig.band) % 256) (sig.attribute % 256);
    v = cell_values c.opts g sat sig ll;
  }

  made :
      (t : GpsTime) (g : Gnss) (sat : SatData fl) (sig : SigData fl) (c : Converter) (ll : Bool)
      → rinex_sat_num g sat.satellite_id ≢ 0
      → sig_is_valid (sig_id ((b'0' + sig.band) % 256) (sig.attribute % 256)) ≡ true
      → has_any_code (made_of t g sat sig c ll) ≡ true
      → Shows t g sat (made_of t g sat sig c ll)
  unfolding Shows cell_values
  made t g sat sig c ll ne valid any =
      (refl, refl, number-IsValid g sat.satellite_id ne, valid, channel_fits g sat.glo_channel, any)

  -- An observation that a cell gives has the epoch's time, the cell's satellite under a valid
  -- identifier, a valid signal, a channel only from -7 to 6 and only for GLONASS, and a value.
  pub convert_cell-Shows :
      (t : GpsTime) (g : Gnss) (sat : SatData fl) (sig : SigData fl) (c : Converter)
      (o : SignalObservation fl)
      → (convert_cell t g sat sig c).1 ≡ some o
      → Shows t g sat o
  unfolding convert_cell
  convert_cell-Shows t g sat sig c o h =
      let num = rinex_sat_num g sat.satellite_id in
      let sid = sig_id ((b'0' + sig.band) % 256) (sig.attribute % 256) in
      let phase = is_some ((cell_values (c.opts) g sat sig false).cp) in
      let st = slip_hc (signal_key (format (rinex_sys g) num) sid) sig.lock phase c in
      let x = made_of t g sat sig c st.1 in
      let (ne, valid, any, path) =
        guarded (nat_beq num 0) (sig_is_valid sid) (has_any_code x) c st.0 x o h in
      subst (λ z. Shows t g sat z) path (made t g sat sig c st.1 (ground arith) valid any)
