-- ===== src/Rtcm/Frame.antt =====
-- The converter of obsj/src/rtcm.rs over whole messages: `convert_frame` and what it calls. The
-- `rtcm-rs` crate decodes a frame to a message: the parameter `decode` gives the fields that the
-- converter reads. The wrapped sink is a parameter with its own state.
use Prim.Native.Nat.{bit_or}
use convobs_rs.Base.{
  zero, suc, ◌/◌, ◌%◌, ◌++◌, ℕ, ◌+◌, ◌*◌, ◌^◌, Bool, true, false, ◌&&◌, ◌||◌, ltb, nat_beq, nat_eq,
  unwrap_or, if◌then◌else◌, Option, none, some, List, [], ◌∷◌,
}
use convobs_rs.Base.Int.{ℤ}
use convobs_rs.Base.Map.{get, insert}
use convobs_rs.Base.Word.{mul_i64}
use convobs_rs.Error.{Result, ok, err}
use convobs_rs.Float.{Floats}
use convobs_rs.Ids.{key_eq}
use convobs_rs.Metadata.{
  Text, is_empty, Metadata, Marker, default_metadata, default_marker, default_antenna,
}
use convobs_rs.Time.{GpsTime}
use convobs_rs.Values.{SignalObservation}
use convobs_rs.Rtcm.{second_ms, TimeInterval, Gnss, glonass, gnss_eq}
use convobs_rs.Rtcm.Cell.{SatData, SigData}
use convobs_rs.Rtcm.Week.{resolve_time}
use convobs_rs.Rtcm.Convert.{Converter, set_week, convert_cell, find_sat}

-- `str::trim_end_matches` for spaces and NULs.
unfoldable pub clean : Text → Text
clean [] = []
clean (x ∷ xs) =
    let rest = clean xs in if is_empty rest && (nat_beq x b' ' || nat_beq x 0) then [] else x ∷ rest

-- The decimal digits; a `u16` has at most five.
unfoldable pub decimal : ℕ → ℕ → Text
decimal zero n = []
decimal (suc fuel) n =
    let rest = decimal fuel (n / 10) in
    if ltb n 10 then (b'0' + n) ∷ [] else rest ++ ((b'0' + n % 10) ∷ [])

unfoldable pub station_marker : ℕ → Marker
unfolding decimal
station_marker id = record default_marker { number = decimal 5 id }

-- What the converter reads of a decoded message, by its number: an MSM7 message of a system, the
-- one of GLONASS with its day of the week, and 1005, 1006, 1007, 1008, 1013, 1033 and 1230.
pub data Message (fl : Floats) : Type 0 where
  msm : Gnss → ℕ → List (SatData fl) → List (SigData fl) → Message fl
  glonass_msm : Option ℕ → ℕ → List (SatData fl) → List (SigData fl) → Message fl
  station : ℕ → fl.F64 → fl.F64 → fl.F64 → Message fl
  station_height : ℕ → fl.F64 → fl.F64 → fl.F64 → fl.F64 → Message fl
  antenna_type : ℕ → Text → Message fl
  antenna_serial : ℕ → Text → Text → Message fl
  system_parameters : ℕ → Option ℤ → Message fl
  receiver_antenna : ℕ → Text → Text → Text → Text → Text → Message fl
  glonass_biases : ℕ → Message fl
  other : Message fl

module _ {fl : Floats} where
  module _ {S : Type 0} (sink : S → SignalObservation fl → Result S)
      (metadata_sink : S → Metadata fl → Result S) where
    -- The converter afterwards, and the sink with whether a record was produced, or the error.
    abbrev pub Outcome : Type 0
    Outcome = Converter × Result (S × Bool)

    -- The loop of `convert_msm` over the signals.
    unfoldable pub convert_cells :
        GpsTime → Gnss → List (SatData fl) → List (SigData fl) → Converter → S → Bool → Outcome
    unfolding find_sat convert_cell
    convert_cells t gnss sats [] c s seen = (c, ok (s, seen))
    convert_cells t gnss sats (sig ∷ sigs) c s seen = elim (find_sat sats sig.satellite_id) [
      | none ↦ convert_cells t gnss sats sigs c s seen
      | some sat ↦
          let (c', o) = convert_cell t gnss sat sig c in
          elim o [
            | none ↦ convert_cells t gnss sats sigs c' s seen
            | some o' ↦ elim (sink s o') [
              | err e ↦ (c', err e)
              | ok s' ↦ convert_cells t gnss sats sigs c' s' true
            ]
          ]
    ]

    unfoldable pub convert_msm :
        Gnss → ℕ → List (SatData fl) → List (SigData fl) → TimeInterval → Converter → S → Outcome
    unfolding convert_cells set_week
    convert_msm gnss epoch_time sats sigs week c s =
        let c' = set_week week c in
        elim (resolve_time c'.leap_ms c'.week (get gnss c'.time) epoch_time gnss week) [
          | err e ↦ (c', err e)
          | ok t ↦
              convert_cells t gnss sats sigs (record c' { time = insert gnss t c'.time }) s false
        ]

    -- `set_week` and `emit_metadata`, for a station.
    unfoldable pub emit_metadata : Metadata fl → Converter → S → Outcome
    emit_metadata m c s = elim (metadata_sink s m) [
      | err e ↦ (c, err e)
      | ok s' ↦ (c, ok (s', true))
    ]

    unfoldable pub convert_message : Message fl → TimeInterval → Converter → S → Outcome
    unfolding convert_msm emit_metadata set_week
    convert_message (msm gnss epoch sats sigs) week c s = convert_msm gnss epoch sats sigs week c s
    convert_message (glonass_msm day tod sats sigs) week c s =
        let epoch = bit_or (unwrap_or day 7 * 2 ^ 27 % 2 ^ 32) tod in
        convert_msm glonass epoch sats sigs week c s
    convert_message (station id x y z) week c s =
        emit_metadata
          (record default_metadata { approx_position = some (x, y, z); marker = station_marker id })
          (set_week week c) s
    convert_message (station_height id x y z h) week c s =
        emit_metadata
          (record default_metadata {
            approx_position = some (x, y, z);
            antenna_delta = some (h, fl.lit 0 0, fl.lit 0 0);
            marker = station_marker id;
          })
          (set_week week c) s
    convert_message (antenna_type id descriptor) week c s =
        emit_metadata
          (record default_metadata {
            antenna = record default_antenna { type_ = clean descriptor };
            marker = station_marker id;
          })
          (set_week week c) s
    convert_message (antenna_serial id descriptor serial) week c s =
        emit_metadata
          (record default_metadata {
            antenna = record { type_ = clean descriptor; number = clean serial };
            marker = station_marker id;
          })
          (set_week week c) s
    convert_message (system_parameters id none) week c s =
        emit_metadata (record default_metadata { marker = station_marker id }) (set_week week c) s
    convert_message (system_parameters id (some leap)) week c s =
        emit_metadata
          (record default_metadata { marker = station_marker id; leap_seconds = some leap })
          (record (set_week week c) { leap_ms = mul_i64 leap second_ms }) s
    convert_message (receiver_antenna id descriptor serial rec_number rec_type rec_version) week c
          s =
        emit_metadata
          (record default_metadata {
            antenna = record { type_ = clean descriptor; number = clean serial };
            receiver = record {
              number = clean rec_number;
              type_ = clean rec_type;
              version = clean rec_version;
            };
            marker = station_marker id;
          })
          (set_week week c) s
    convert_message (glonass_biases id) week c s =
        emit_metadata (record default_metadata { marker = station_marker id }) (set_week week c) s
    convert_message other week c s = (set_week week c, ok (s, false))

    -- `convert_frame`: `decode` is the crate's, `none` where it refuses the frame.
    unfoldable pub convert_frame :
        (List ℕ → Option (Message fl)) → List ℕ → TimeInterval → Converter → S → Outcome
    unfolding convert_message
    convert_frame decode frame week c s = elim (decode frame) [
      | none ↦ (set_week week c, ok (s, false))
      | some m ↦ convert_message m week c s
    ]
