-- ===== src/Rtcm/Convert.antt =====
-- The converter of obsj/src/rtcm.rs: its state, the detection of slips, and one cell.
use convobs_rs.Base.{
  ◌%◌, ◌>>=?◌, ℕ, ◌+◌, Bool, true, false, not, ◌&&◌, ◌||◌, ltb, nat_beq, nat_eq, ◌==◌, unwrap_or,
  if◌then◌else◌, Option, none, some, is_some, List, [], ◌∷◌,
}
use convobs_rs.Base.Int.{ℤ, pos, negsuc, leb_ℤ}
use convobs_rs.Base.Map.{Map, get, insert, remove}
use convobs_rs.Float.{Floats}
use convobs_rs.Freq.{signal_frequency_hz}
use convobs_rs.Ids.{sig_id, sig_is_valid, SignalKey, signal_key, key_eq, format}
use convobs_rs.Time.{GpsTime}
use convobs_rs.Values.{SignalValues, SignalObservation, default_values, has_any_code}
use convobs_rs.Rtcm.{
  default_gps_utc_ms, TimeInterval, interval_is_zero, Options, Gnss, glonass, gnss_eq, rinex_sys,
  rinex_sat_num,
}
use convobs_rs.Rtcm.Cell.{
  SatData, SigData, rough_range, pseudorange_of, carrier_phase, doppler, cn0_of,
}

-- The fields of `Converter` without the sink.
pub record Converter : Type 0 where
  pub opts : Options
  pub week : TimeInterval
  pub leap_ms : ℤ
  pub time : Map Gnss GpsTime
  pub lock : Map SignalKey ℕ
  pub slip : Map SignalKey Bool

abbrev pub new : Options → Converter
new opts = record {
  opts = opts;
  week = record { start_ns = pos 0; dur_ns = pos 0 };
  leap_ms = pos default_gps_utc_ms;
  time = [];
  lock = [];
  slip = [];
}

unfoldable pub set_week : TimeInterval → Converter → Converter
set_week week c = if not (interval_is_zero week) then record c { week = week } else c

-- `slip_hc` for a key: the converter afterwards and the flag `ll`; `hc` is the cell's own bit.
unfoldable pub slip_hc : SignalKey → ℕ → Bool → Converter → Converter × Bool
slip_hc k cell_lock has_phase c =
    let deferred = unwrap_or (get k c.slip) false in
    let prev = unwrap_or (get k c.lock) 0 in
    let ll = ltb cell_lock prev || (nat_beq cell_lock 0 && nat_beq prev 0) || deferred in
    let slip' = if ll && not has_phase then insert k true c.slip else remove k c.slip in
    (record c { lock = insert k cell_lock c.lock; slip = slip' }, ll)

-- The frequency channel of a GLONASS satellite, from -7 to 6.
unfoldable pub channel : Gnss → Option ℤ → Option ℤ
channel gnss none = none
channel gnss (some c) =
    if gnss == glonass
    then (if leb_ℤ (negsuc 6) c && leb_ℤ c (pos 6) then some c else none)
    else none

module _ {fl : Floats} where
  -- The values of the observation that `convert_cell` fills in.
  unfoldable pub cell_values : Options → Gnss → SatData fl → SigData fl → Bool → SignalValues fl
  unfolding channel
  cell_values opts gnss sat sig ll =
      let sys = rinex_sys gnss in
      let sig_id' = sig_id ((b'0' + sig.band) % 256) (sig.attribute % 256) in
      let frq = channel gnss sat.glo_channel in
      let rough = rough_range fl sat in
      let freq = signal_frequency_hz fl sys sig_id' frq in
      let dop = doppler fl sat.phase_rate sig.phase_rate freq opts.use_spec_phase_range_rate_sign in
      record default_values {
        frq = frq;
        pr = pseudorange_of fl rough sig.pseudorange;
        cp = carrier_phase fl rough sig.phase_range freq;
        dop = dop >>=? λ d.
            if not opts.omit_zero_do || not (fl.eq d (fl.lit 0 0)) then some d else none;
        cn0 = cn0_of fl sig.cnr;
        ll = ll;
        hc = sig.half_cycle;
      }

  -- `convert_cell` up to the call of the sink: the converter afterwards, and the observation.
  unfoldable pub convert_cell :
      GpsTime
      → Gnss
      → SatData fl
      → SigData fl
      → Converter
      → Converter × Option (SignalObservation fl)
  unfolding cell_values slip_hc
  convert_cell t gnss sat sig c =
      let sys = rinex_sys gnss in
      let sat_num = rinex_sat_num gnss sat.satellite_id in
      let sig_id' = sig_id ((b'0' + sig.band) % 256) (sig.attribute % 256) in
      let satid = format sys sat_num in
      let phase = is_some ((cell_values c.opts gnss sat sig false).cp) in
      let (c', ll) = slip_hc (signal_key satid sig_id') sig.lock phase c in
      let o : SignalObservation fl = record {
        t = t;
        sat = satid;
        sig = sig_id';
        v = cell_values c.opts gnss sat sig ll;
      } in
      if nat_beq sat_num 0
      then (c, none)
      else if not (sig_is_valid sig_id')
      then (c, none)
      else if not (has_any_code o)
      then (c', none)
      else (c', some o)

  -- `sats.iter().find(..)`
  unfoldable pub find_sat : List (SatData fl) → ℕ → Option (SatData fl)
  find_sat [] id = none
  find_sat (s ∷ sats) id = if nat_beq s.satellite_id id then some s else find_sat sats id
