-- ===== src/Ubx.antt =====
-- UBX RXM-RAWX conversion, after obsj/src/ubx.rs: the measurements, the tables and the converter.
-- `Scan` models the search for a frame, `Slips` and `Tables` hold what is proved of the converter.
-- The `ublox` crate decodes the frames: the converter starts from the batch that it returns.
mod Tests
pub mod Scan
pub mod Fletcher
pub mod Frames
pub mod Slips
pub mod Tables
use Prim.Native.Nat.{bit_and}
use convobs_rs.Base.{
  ℕ, ◌+◌, ◌-◌, Bool, true, false, not, ◌&&◌, ◌||◌, ltb, leb, nat_beq, if◌then◌else◌, nat_eq, Option,
  none, some, is_some, List, [], ◌∷◌,
}
use convobs_rs.Base.Int.{ℤ, pos, ◌-ℤ◌}
use convobs_rs.Base.Map.{Map, get, insert}
use convobs_rs.Base.Word.{as_i8}
use convobs_rs.Error.{Result, ok, err, ◌>>=◌}
use convobs_rs.Float.{Floats}
use convobs_rs.Ids.{SatId, SigId, sig_id, SignalKey, signal_key, key_eq, format}
use convobs_rs.Time.{GpsTime, from_gps_week_seconds}
use convobs_rs.Values.{SignalValues, SignalObservation, default_values, has_any_code}

abbrev pub gps : ℕ
gps = 0

abbrev pub sbas : ℕ
sbas = 1

abbrev pub gal : ℕ
gal = 2

abbrev pub bds : ℕ
bds = 3

abbrev pub qzss : ℕ
qzss = 5

abbrev pub glo : ℕ
glo = 6

abbrev pub navic : ℕ
navic = 7

abbrev pub pr_valid : ℕ
pr_valid = 1

abbrev pub cp_valid : ℕ
cp_valid = 2

abbrev pub half_cyc : ℕ
half_cyc = 4

abbrev pub sub_half_cyc : ℕ
sub_half_cyc = 8

abbrev pub cp_std_mask : ℕ
cp_std_mask = 0x0F

-- `flags & bit != 0`
abbrev pub has_flag : ℕ → ℕ → Bool
has_flag flags bit = not (nat_beq (bit_and flags bit) 0)

-- `a != b`
abbrev pub differ : Bool → Bool → Bool
differ true b = not b
differ false b = b

pub record Options : Type 0 where
  pub slip_threshold : ℕ
  pub bds_geo_half_cycle : Bool

-- What `Converter::new` keeps of the options.
unfoldable pub new_options : Options → Options
new_options opts =
    if nat_beq opts.slip_threshold 0 then record opts { slip_threshold = 15 } else opts

pub record SignalState : Type 0 where
  pub lock : ℕ
  pub sub_half : Bool
  pub pending : Bool
  pub seen : Bool

abbrev pub default_state : SignalState
default_state = record { lock = 0; sub_half = false; pending = false; seen = false }

-- `unwrap_or_default` of the state of a signal.
abbrev pub state_of : Map SignalKey SignalState → SignalKey → SignalState
state_of state k = elim (get k state) [ none ↦ default_state | some s ↦ s ]

pub record Meas (fl : Floats) : Type 0 where
  pub pr_mes : fl.F64
  pub cp_mes : fl.F64
  pub do_mes : fl.F32
  pub gnss_id : ℕ
  pub sv_id : ℕ
  pub sig_num : ℕ
  pub freq_id : ℕ
  pub lock_time : ℕ
  pub cno : ℕ
  pub cp_stdev : ℕ
  pub trk_stat : ℕ

pub record Rawx (fl : Floats) : Type 0 where
  pub rcv_tow : fl.F64
  pub week : ℕ
  pub meas : List (Meas fl)

-- The `match` on the identifier, a table here.
unfoldable pub rinex_sys : ℕ → Option ℕ
unfolding get
rinex_sys gnss_id = get gnss_id (
    (gps, b'G')
    ∷ (sbas, b'S')
    ∷ (gal, b'E')
    ∷ (bds, b'C')
    ∷ (qzss, b'J')
    ∷ (glo, b'R')
    ∷ (navic, b'I')
    ∷ [])

unfoldable pub rinex_sat_num : ℕ → ℕ → ℕ
rinex_sat_num gnss_id sv_id =
    if nat_beq gnss_id sbas
    then (if leb 120 sv_id then sv_id - 100 else sv_id)
    else if nat_beq gnss_id glo
    then (if nat_beq sv_id 255 then 0 else sv_id)
    else sv_id

abbrev pub gps_signals : Map ℕ SigId
gps_signals =
    (0, sig_id b'1' b'C')
    ∷ (3, sig_id b'2' b'L')
    ∷ (4, sig_id b'2' b'S')
    ∷ (6, sig_id b'5' b'I')
    ∷ (7, sig_id b'5' b'Q')
    ∷ []

abbrev pub sbas_signals : Map ℕ SigId
sbas_signals = (0, sig_id b'1' b'C') ∷ []

abbrev pub gal_signals : Map ℕ SigId
gal_signals =
    (0, sig_id b'1' b'C')
    ∷ (1, sig_id b'1' b'B')
    ∷ (3, sig_id b'5' b'I')
    ∷ (4, sig_id b'5' b'Q')
    ∷ (5, sig_id b'7' b'I')
    ∷ (6, sig_id b'7' b'Q')
    ∷ (8, sig_id b'6' b'B')
    ∷ (9, sig_id b'6' b'C')
    ∷ (10, sig_id b'6' b'A')
    ∷ []

abbrev pub bds_signals : Map ℕ SigId
bds_signals =
    (0, sig_id b'2' b'I')
    ∷ (1, sig_id b'2' b'I')
    ∷ (2, sig_id b'7' b'I')
    ∷ (3, sig_id b'7' b'I')
    ∷ (4, sig_id b'6' b'I')
    ∷ (5, sig_id b'1' b'P')
    ∷ (6, sig_id b'1' b'D')
    ∷ (7, sig_id b'5' b'P')
    ∷ (8, sig_id b'5' b'D')
    ∷ (10, sig_id b'6' b'I')
    ∷ []

abbrev pub qzss_signals : Map ℕ SigId
qzss_signals =
    (0, sig_id b'1' b'C')
    ∷ (1, sig_id b'1' b'Z')
    ∷ (4, sig_id b'2' b'S')
    ∷ (5, sig_id b'2' b'L')
    ∷ (8, sig_id b'5' b'I')
    ∷ (9, sig_id b'5' b'Q')
    ∷ (12, sig_id b'1' b'E')
    ∷ []

abbrev pub glo_signals : Map ℕ SigId
glo_signals = (0, sig_id b'1' b'C') ∷ (2, sig_id b'2' b'C') ∷ []

abbrev pub navic_signals : Map ℕ SigId
navic_signals = (0, sig_id b'5' b'A') ∷ []

-- The signals of a system, by signal number.
abbrev pub signals : Map ℕ (Map ℕ SigId)
signals =
    (gps, gps_signals)
    ∷ (sbas, sbas_signals)
    ∷ (gal, gal_signals)
    ∷ (bds, bds_signals)
    ∷ (qzss, qzss_signals)
    ∷ (glo, glo_signals)
    ∷ (navic, navic_signals)
    ∷ []

unfoldable pub rinex_sig : ℕ → ℕ → Option SigId
unfolding get
rinex_sig gnss_id sig_num = elim (get gnss_id signals) [
  | none ↦ none
  | some table ↦ get sig_num table
]

module _ {fl : Floats} where
  unfoldable pub is_bds_geo : Meas fl → Bool
  is_bds_geo m = nat_beq m.gnss_id bds && (leb m.sv_id 5 || leb 59 m.sv_id)

  unfoldable pub half_cycle_unresolved : Meas fl → Bool
  half_cycle_unresolved m =
      if nat_beq m.gnss_id sbas then leb m.lock_time 8000 else not (has_flag m.trk_stat half_cyc)

  unfoldable pub carrier_phase : Meas fl → Bool → Option fl.F64
  unfolding is_bds_geo
  carrier_phase m bds_geo_half_cycle =
      if not (has_flag m.trk_stat cp_valid) || not (fl.is_finite m.cp_mes)
      then none
      else some
          (if bds_geo_half_cycle && is_bds_geo m then fl.add m.cp_mes (fl.lit 5 1) else m.cp_mes)

  -- The test for a slip in `slip_hc`.
  abbrev pub slipped : Options → SignalState → Meas fl → Bool
  slipped opts st m =
      nat_beq m.lock_time 0
      || (st.seen && ltb m.lock_time st.lock)
      || differ (has_flag m.trk_stat sub_half_cyc) st.sub_half
      || leb opts.slip_threshold (bit_and m.cp_stdev cp_std_mask)

  -- The body of `slip_hc` on the state of the signal: the state afterwards, and the flag `ll`.
  unfoldable pub slip_state : Options → SignalState → Meas fl → Bool → SignalState × Bool
  slip_state opts st m phase =
      let sub = has_flag m.trk_stat sub_half_cyc in
      let sub_changed = differ sub st.sub_half in
      let pending1 = if slipped opts st m then true else st.pending in
      let ll1 = if sub_changed then true else false in
      let ll2 = if phase && pending1 then true else ll1 in
      let pending2 = if phase && pending1 then false else pending1 in
      (record { lock = m.lock_time; sub_half = sub; pending = pending2; seen = true }, ll2)

  -- `slip_hc`: the map of states afterwards, and the flags `ll` and `hc`.
  unfoldable pub slip_hc :
      Options
      → Map SignalKey SignalState
      → SignalKey
      → Meas fl
      → Bool
      → Map SignalKey SignalState × Bool × Bool
  unfolding half_cycle_unresolved
  slip_hc opts state k m phase =
      let (st, ll) = slip_state opts (state_of state k) m phase in
      (insert k st state, ll, phase && half_cycle_unresolved m)

  -- The observation that `Converter::observation` fills in.
  unfoldable pub measured :
      Options → GpsTime → Meas fl → ℕ → SigId → Bool → Bool → SignalObservation fl
  unfolding carrier_phase
  measured opts t m sys sg ll hc = record {
    t = t;
    sat = format sys (rinex_sat_num m.gnss_id m.sv_id);
    sig = sg;
    v = record default_values {
      frq = if nat_beq m.gnss_id glo then some (as_i8 (as_i8 (pos m.freq_id) -ℤ pos 7)) else none;
      pr = if has_flag m.trk_stat pr_valid && fl.is_finite m.pr_mes then some m.pr_mes else none;
      cp = carrier_phase m opts.bds_geo_half_cycle;
      ll = ll;
      hc = hc;
      dop = if fl.is_finite32 m.do_mes then some (fl.of_f32 m.do_mes) else none;
      cn0 = if nat_beq m.cno 0 then none else some (fl.of_int32 m.cno);
    };
  }

  -- `Converter::observation`: the map of states afterwards, and the observation.
  unfoldable pub observation :
      Options
      → Map SignalKey SignalState
      → GpsTime
      → Meas fl
      → Map SignalKey SignalState × Option (SignalObservation fl)
  unfolding slip_hc measured
  observation opts state t m = elim (rinex_sys m.gnss_id) [
    | none ↦ (state, none)
    | some sys ↦ elim (rinex_sig m.gnss_id m.sig_num) [
      | none ↦ (state, none)
      | some sg ↦
          let sat_num = rinex_sat_num m.gnss_id m.sv_id in
          let phase = is_some (carrier_phase m opts.bds_geo_half_cycle) in
          let (state', ll, hc) = slip_hc opts state (signal_key (format sys sat_num) sg) m phase in
          let o = measured opts t m sys sg ll hc in
          if nat_beq sat_num 0
          then (state, none)
          else if not (has_any_code o)
          then (state', none)
          else (state', some o)
    ]
  ]

  -- A sink with its own state `S`: an error ends the conversion.
  module _ {S : Type 0} (sink : S → SignalObservation fl → Result S) where
    abbrev pub State : Type 0
    State = Map SignalKey SignalState × S

    unfoldable pub convert_meas : Options → GpsTime → List (Meas fl) → State → Result State
    unfolding observation
    convert_meas opts t [] s = ok s
    convert_meas opts t (m ∷ ms) (state, s) =
        let (state', o) = observation opts state t m in
        elim o [
          | none ↦ convert_meas opts t ms (state', s)
          | some o' ↦ sink s o' >>= λ s'. convert_meas opts t ms (state', s')
        ]

    -- `convert_rawx`
    unfoldable pub convert_rawx : Options → Rawx fl → State → Result State
    unfolding convert_meas
    convert_rawx opts m = convert_meas opts (from_gps_week_seconds fl (pos m.week) m.rcv_tow) m.meas

    -- The loop of `convert_chunk` over the batch.
    unfoldable pub convert_batch : Options → List (Rawx fl) → State → Result State
    unfolding convert_rawx
    convert_batch opts [] s = ok s
    convert_batch opts (m ∷ ms) s = convert_rawx opts m s >>= convert_batch opts ms
