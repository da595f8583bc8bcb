-- ===== src/Rtcm/Tests.antt =====
-- Tests of the models of obsj/src/rtcm.rs.
use convobs_rs.Base.{ℕ, ◌≡◌, refl, true, false, none, some, List, [], ◌∷◌, arith}
use convobs_rs.Base.Int.{pos, negsuc}
use convobs_rs.Base.Map.{get}
use convobs_rs.Ids.{format, sig_is_valid}
use convobs_rs.Values.{SignalObservation, has_any_code}
use convobs_rs.Rtcm.{TimeInterval, Options, gps, rinex_sys, rinex_sat_num}
use convobs_rs.Rtcm.Week.{epoch_week_offsets, resolve_time, resolve_week, resolve_continuity}
use convobs_rs.Rtcm.Resolve.{Outcome, candidates, resolve_week-Outcome}
use convobs_rs.Rtcm.Cell.{SatData, SigData, pseudorange_of, rough_range}
use convobs_rs.Rtcm.Convert.{new, cell_values, convert_cell, slip_hc}
use convobs_rs.Rtcm.Continuity.{NearOne, Closest, resolve_continuity-Closest}
use convobs_rs.Rtcm.Epoch.{Follows, no_constraint, resolve_time-Follows}
use convobs_rs.Rtcm.Slips.{Event, ll_flags, owed, cell_slips_are_told}
use convobs_rs.Rtcm.Cells.{Shows, convert_cell-Shows}
use convobs_rs.Rtcm.Stream.{first_frame_pos, frames, first_msm7, Frame}
use convobs_rs.Rtcm.Frames.{Chain, first_of, frames_end}
use convobs_rs.Samples.{sixes, sixes_documented, int_floats, l1c, g01_l1c}

abbrev first_week : TimeInterval
first_week = record { start_ns = pos 0; dur_ns = pos 604800000000000 }

abbrev options : Options
options = record { use_spec_phase_range_rate_sign = false; omit_zero_do = true }

resolve_week-Outcome_example :
    Outcome first_week
      (candidates first_week (pos 1000 ∷ pos 2000 ∷ []))
      (resolve_week (pos 1000 ∷ pos 2000 ∷ []) first_week)
resolve_week-Outcome_example = resolve_week-Outcome first_week (pos 1000 ∷ pos 2000 ∷ [])

resolve_continuity-Closest_example :
    NearOne 604799500
      (pos 1000 ∷ negsuc 9999 ∷ [])
      (resolve_continuity (pos 1000) (negsuc 9999 ∷ []) (pos 6047995000000))
    × Closest 604799500
        (pos 1000 ∷ negsuc 9999 ∷ [])
        (resolve_continuity (pos 1000) (negsuc 9999 ∷ []) (pos 6047995000000))
resolve_continuity-Closest_example =
    resolve_continuity-Closest (pos 1000) (negsuc 9999 ∷ []) 6047995000000 (omega arith)
      (ground arith, (ground arith, tt))

-- A phase, a slip without a phase, and the phase that shows it.
abbrev events : List Event
events =
    record { key = g01_l1c; lock = 20; phase = true }
    ∷ record { key = g01_l1c; lock = 5; phase = false }
    ∷ record { key = g01_l1c; lock = 6; phase = true }
    ∷ []

cell_slips_are_told_example : ll_flags (new options) events ≡ owed [] events
cell_slips_are_told_example = cell_slips_are_told options events

abbrev sat_data : SatData int_floats
sat_data = record {
  satellite_id = 1;
  range_int = some 70;
  range_mod = pos 0;
  phase_rate = none;
  glo_channel = some (pos 3);
}

abbrev sig_data : SigData int_floats
sig_data = record {
  satellite_id = 1;
  band = 1;
  attribute = b'C';
  pseudorange = some (pos 0);
  phase_range = none;
  phase_rate = none;
  lock = 20;
  half_cycle = false;
  cnr = some (pos 40);
}

abbrev cell_observation : SignalObservation int_floats
cell_observation = record {
  t = pos 10000000;
  sat = format (rinex_sys gps) (rinex_sat_num gps 1);
  sig = l1c;
  v = cell_values options gps sat_data sig_data false;
}

cell_test :
    (convert_cell (pos 10000000) gps sat_data sig_data (new options)).1 ≡ some cell_observation
unfolding convert_cell slip_hc rinex_sat_num sig_is_valid has_any_code pseudorange_of rough_range
    get
cell_test = refl

convert_cell-Shows_example : Shows (pos 10000000) gps sat_data cell_observation
convert_cell-Shows_example =
    convert_cell-Shows (pos 10000000) gps sat_data sig_data (new options) cell_observation cell_test

abbrev stream : List ℕ
stream = 0 ∷ 0 ∷ 0 ∷ 0x3E ∷ 0xD0 ∷ 0 ∷ 0 ∷ 0 ∷ 0 ∷ 0x43 ∷ 0x50 ∷ 0 ∷ 9 ∷ []

first_frame_pos_test : first_frame_pos sixes stream ≡ some 0
unfolding first_frame_pos
first_frame_pos_test = refl

frames_end_example :
    (fs : List Frame) × (frames sixes 14 stream 0 ≡ some fs)
    × Chain stream 0 fs
    × (first_msm7 sixes 14 stream 0 ≡ some (first_of stream fs))
frames_end_example = frames_end sixes sixes_documented 14 stream 0 (omega arith) (omega arith)

resolve_time-Follows_example :
    Follows
      (epoch_week_offsets (pos 18000) 604799999 gps)
      604800500
      (resolve_time (pos 18000) first_week (some (pos 6048005000000)) 604799999 gps no_constraint)
resolve_time-Follows_example =
    resolve_time-Follows (pos 18000) first_week 6048005000000 604799999 gps
      (omega arith, omega arith) (omega arith) (omega arith)
