-- ===== src/Ubx/Tests.antt =====
-- Tests of the models of obsj/src/ubx.rs.
use convobs_rs.Base.{ℕ, ◌≡◌, refl, true, false, Option, none, some, List, [], ◌∷◌, length}
use convobs_rs.Base.Int.{pos}
use convobs_rs.Error.{Result, ok, ◌>>=◌}
use convobs_rs.Values.{SignalObservation, has_any_code}
use convobs_rs.Ubx.{
  Options, new_options, Meas, observation, measured, slip_state, rinex_sys, rinex_sig,
  rinex_sat_num, convert_batch,
}
use convobs_rs.Ubx.Scan.{
  first_frame_pos_where, first_frame_pos, first_rawx_frame_pos, is_rawx_frame,
}
use convobs_rs.Ubx.Frames.{Answers, first_frame_pos_where-Answers}
use convobs_rs.Ubx.Slips.{Event, ll_flags, owed, slips_are_told}
use convobs_rs.Ubx.Tables.{Shows, observation-Shows}
use convobs_rs.Samples.{int_floats, g01_l1c, l1c}

abbrev options : Options
options = record { slip_threshold = 0; bds_geo_half_cycle = false }

-- A stray byte, and an empty frame of class 1 and number 2.
abbrev stream : List ℕ
stream = 7 ∷ 0xB5 ∷ 0x62 ∷ 1 ∷ 2 ∷ 0 ∷ 0 ∷ 3 ∷ 10 ∷ []

first_frame_pos_test : first_frame_pos stream ≡ some (some 1)
unfolding first_frame_pos
first_frame_pos_test = refl

first_rawx_frame_pos_test : first_rawx_frame_pos stream ≡ some none
unfolding first_rawx_frame_pos
first_rawx_frame_pos_test = refl

first_frame_pos_where-Answers_example :
    (r : Option ℕ) × (first_frame_pos_where stream is_rawx_frame ≡ some r)
    × Answers stream is_rawx_frame 0 r
first_frame_pos_where-Answers_example = first_frame_pos_where-Answers stream is_rawx_frame

abbrev meas_at : ℕ → ℕ → Meas int_floats
meas_at lock flags = record {
  pr_mes = pos 20000000;
  cp_mes = pos 100000000;
  do_mes = pos 10;
  gnss_id = 0;
  sv_id = 1;
  sig_num = 0;
  freq_id = 0;
  lock_time = lock;
  cno = 40;
  cp_stdev = 1;
  trk_stat = flags;
}

abbrev events : List (Event int_floats)
events =
    record { key = g01_l1c; meas = meas_at 2000 7; phase = true }
    ∷ record { key = g01_l1c; meas = meas_at 100 1; phase = false }
    ∷ record { key = g01_l1c; meas = meas_at 1100 7; phase = true }
    ∷ []

slips_are_told_example :
    ll_flags (new_options options) [] events ≡ owed (new_options options) [] events
slips_are_told_example = slips_are_told (new_options options) events

abbrev observed : SignalObservation int_floats
observed = measured (new_options options) (pos 10000000) (meas_at 2000 7) b'G' l1c false false

observation_test :
    (observation (new_options options) [] (pos 10000000) (meas_at 2000 7)).1 ≡ some observed
unfolding observation rinex_sys rinex_sig rinex_sat_num has_any_code slip_state new_options
observation_test = refl

observation-Shows_example : Shows (pos 10000000) (meas_at 2000 7) observed
observation-Shows_example =
    observation-Shows (new_options options) [] (pos 10000000) (meas_at 2000 7) observed
      observation_test

-- A sink that keeps what it gets, the last first.
abbrev keep :
    List (SignalObservation int_floats)
    → SignalObservation int_floats
    → Result (List (SignalObservation int_floats))
keep os o = ok (o ∷ os)

-- Two measurements at one epoch: the sink gets both.
batch_test :
    (convert_batch keep
        (new_options options)
        (record { rcv_tow = pos 0; week = 2; meas = meas_at 2000 7 ∷ meas_at 0 1 ∷ [] } ∷ [])
        ([], [])
      >>= λ s. ok (length s.1))
    ≡ ok 2
unfolding convert_batch observation rinex_sys rinex_sig rinex_sat_num has_any_code slip_state
batch_test = refl
