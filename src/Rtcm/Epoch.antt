-- ===== src/Rtcm/Epoch.antt =====
-- Epochs that follow an earlier one, in obsj/src/rtcm.rs: `epoch_week_offsets` gives offsets that
-- belong to the week, and `resolve_time` without a constraint answers an epoch near the last one.
use convobs_rs.Base.{
  ℕ, ◌+◌, ◌*◌, ◌/◌, ◌%◌, ◌^◌, ◌≤◌, ◌<◌, ◌≡◌, refl, leb, nat_beq, if◌then◌else◌, List, [], ◌∷◌, All,
  some, arith, Bool-cases, inl, inr,
}
use convobs_rs.Base.Int.{ℤ, pos, pos_part, neg_part, ◌-ℤ◌, int_bounds}
use convobs_rs.Base.Word.{add_i64, sub_i64, add_i64_fits, sub_i64_fits}
use convobs_rs.Error.{rtcm, Result, ok, err, ◌>>=◌}
use convobs_rs.Time.{GpsTime}
use convobs_rs.Rtcm.{
  day_ms, week_ms, glonass_utc_offset_ms, bdt_offset_ms, rinex_ticks_per_ms, TimeInterval, Gnss,
  gps, glonass, galileo, sbas, qzss, beidou, irnss,
}
use convobs_rs.Rtcm.Week.{
  glonass_epoch_week_offsets, epoch_week_offsets, resolve_time, resolve_continuity,
}
use convobs_rs.Rtcm.Continuity.{IsOffset, NearOne, resolve_continuity-Closest}

-- The leap seconds of an `i16`, in milliseconds.
abbrev pub IsLeap : ℤ → Type 0
IsLeap z = (pos_part z ≤ 32768000) × (neg_part z ≤ 32768000)

at_day-IsOffset :
    (leap : ℤ) (x : ℕ)
    → IsLeap leap
    → x ≤ week_ms
    → IsOffset (add_i64 (sub_i64 (pos x) (pos glonass_utc_offset_ms)) leap)
at_day-IsOffset leap x small h =
    rw
      (
        sub_i64_fits (pos x) (pos glonass_utc_offset_ms) (omega int_bounds),
        add_i64_fits (pos x -ℤ pos glonass_utc_offset_ms) leap (omega int_bounds),
      )
      (omega int_bounds, omega int_bounds)

-- An offset list or an error.
abbrev pub Offsets : Result (ℤ × List ℤ) → Type 0
Offsets (ok (o, os)) = All IsOffset (o ∷ os)
Offsets (err e) = Unit

glonass-Offsets :
    (leap : ℤ) (epoch : ℕ)
    → IsLeap leap
    → epoch < 2 ^ 30
    → Offsets (glonass_epoch_week_offsets leap epoch)
unfolding glonass_epoch_week_offsets
glonass-Offsets leap epoch small three = elim (Bool-cases (leb day_ms (epoch % 2 ^ 27))) [
  | inl bad ↦ rw bad tt
  | inr good ↦
      let tod : epoch % 2 ^ 27 < day_ms = ground arith in
      let day : epoch / 2 ^ 27 < 8 = omega arith in
      elim (Bool-cases (nat_beq (epoch / 2 ^ 27) 7)) [
        | inl unknown ↦
            let at = λ (d : ℕ) (h : d ≤ 6).
              at_day-IsOffset leap (d * day_ms + epoch % 2 ^ 27) small (omega arith) in
            rw (good, unknown)
              (
                at 0 (omega arith),
                (
                  at 1 (omega arith),
                  (
                    at 2 (omega arith),
                    (
                      at 3 (omega arith),
                      (at 4 (omega arith), (at 5 (omega arith), (at 6 (omega arith), tt))),
                    ),
                  ),
                ),
              )
        | inr given ↦
            let below : epoch / 2 ^ 27 < 7 = ground arith in
            rw (good, given)
              (
                at_day-IsOffset leap (epoch / 2 ^ 27 * day_ms + epoch % 2 ^ 27) small (omega arith),
                tt,
              )
      ]
]

plain-Offsets :
    (epoch x : ℕ)
    → x ≤ epoch + bdt_offset_ms
    → Offsets
        (if leb week_ms epoch then err (rtcm "invalid RTCM MSM7 epoch time") else ok (pos x, []))
plain-Offsets epoch x small = elim (Bool-cases (leb week_ms epoch)) [
  | inl late ↦ rw late tt
  | inr early ↦ rw early (ground arith, tt)
]

epoch-Offsets :
    (leap : ℤ) (epoch : ℕ) (g : Gnss)
    → IsLeap leap
    → epoch < 2 ^ 30
    → Offsets (epoch_week_offsets leap epoch g)
unfolding epoch_week_offsets
epoch-Offsets leap epoch glonass small three = glonass-Offsets leap epoch small three
epoch-Offsets leap epoch beidou small three =
    plain-Offsets epoch (epoch + bdt_offset_ms) (omega arith)
epoch-Offsets leap epoch gps small three = plain-Offsets epoch epoch (omega arith)
epoch-Offsets leap epoch galileo small three = plain-Offsets epoch epoch (omega arith)
epoch-Offsets leap epoch sbas small three = plain-Offsets epoch epoch (omega arith)
epoch-Offsets leap epoch qzss small three = plain-Offsets epoch epoch (omega arith)
epoch-Offsets leap epoch irnss small three = plain-Offsets epoch epoch (omega arith)

-- An epoch without a constraint, after one at the tick `p`: near for an offset that the epoch can
-- have, or the error that the epoch has.
abbrev pub Follows : Result (ℤ × List ℤ) → ℕ → Result GpsTime → Type 0
Follows (ok (o, os)) m (ok t) = NearOne m (o ∷ os) t
Follows (ok (o, os)) m (err e) = ⊥
Follows (err e) m r = r ≡ err e

abbrev pub no_constraint : TimeInterval
no_constraint = record { start_ns = pos 0; dur_ns = pos 0 }

follows_lem :
    (offsets : Result (ℤ × List ℤ)) (p : ℕ)
    → p < 1000000000000000000
    → Offsets offsets
    → Follows offsets
        (p / rinex_ticks_per_ms)
        (offsets >>= λ os. ok (resolve_continuity os.0 os.1 (pos p)))
follows_lem (ok (o, os)) p small h = (resolve_continuity-Closest o os p small h).0
follows_lem (err e) p small h = refl

-- Once a system has an epoch, at the tick `p`, an epoch of it without a constraint is resolved
-- whenever its own time is valid, to a tick for one of its offsets at most half a week from `p` in
-- milliseconds, whatever the standing constraint; when its time is not valid, the answer is that
-- error. (For `p` below 10 ^ 18, leap seconds of an `i16`, and an epoch of at most 30 bits.)
pub resolve_time-Follows :
    (leap : ℤ) (standing : TimeInterval) (p epoch : ℕ) (g : Gnss)
    → IsLeap leap
    → p < 1000000000000000000
    → epoch < 2 ^ 30
    → Follows
        (epoch_week_offsets leap epoch g)
        (p / rinex_ticks_per_ms)
        (resolve_time leap standing (some (pos p)) epoch g no_constraint)
unfolding resolve_time
resolve_time-Follows leap standing p epoch g small near three =
    follows_lem (epoch_week_offsets leap epoch g) p near (epoch-Offsets leap epoch g small three)
