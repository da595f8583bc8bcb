-- ===== src/Rtcm/Week.antt =====
-- Week resolution of obsj/src/rtcm.rs: from an epoch time of day or week to a GPS time.
use convobs_rs.Base.{
  ℕ, ◌+◌, ◌*◌, ◌/◌, ◌%◌, ◌^◌, Bool, not, ◌&&◌, leb, nat_beq, if◌then◌else◌, List, [], ◌∷◌, Option,
  none, some, contains, map,
}
use convobs_rs.Base.Int.{ℤ, pos, negsuc, ltb_ℤ, leb_ℤ, int_eq, tdiv}
use convobs_rs.Base.Word.{add_i64, sub_i64, mul_i64}
use convobs_rs.Error.{rtcm, Result, ok, err, ◌>>=◌}
use convobs_rs.Time.{GpsTime, tick_ns, floor_div}
use convobs_rs.Rtcm.{
  rinex_ticks_per_ms, day_ms, week_ms, half_week_ms, bdt_offset_ms, glonass_utc_offset_ms,
  TimeInterval, interval_is_zero, Gnss, beidou, glonass,
}

-- The variables of the loop of `resolve_week`.
pub record Scan : Type 0 where
  pub matched : GpsTime
  pub nmatch : ℕ
  pub seen : List ℤ

-- The tick lies in the constraint, from the start up to but without the end.
abbrev pub in_window : TimeInterval → ℤ → Bool
in_window week ticks =
    let instant_ns = mul_i64 ticks tick_ns in
    leb_ℤ week.start_ns instant_ns && ltb_ℤ instant_ns (add_i64 week.start_ns week.dur_ns)

-- The body of the inner loop.
unfoldable pub scan_ticks : TimeInterval → ℤ → Scan → Scan
scan_ticks week ticks s =
    if contains s.seen ticks
    then s
    else if in_window week ticks
    then record { matched = ticks; nmatch = s.nmatch + 1; seen = ticks ∷ s.seen }
    else record s { seen = ticks ∷ s.seen }

-- The tick of an offset in the week that is `i` after the one of the start.
abbrev pub week_ticks : TimeInterval → ℤ → ℤ → ℤ
week_ticks week offset i =
    let start_ms = floor_div week.start_ns 1000000 in
    let w = floor_div (sub_i64 start_ms offset) week_ms in
    mul_i64 (add_i64 (mul_i64 (add_i64 w i) week_ms) offset) rinex_ticks_per_ms

-- `for i in -1..=2`
unfoldable pub scan_offset : TimeInterval → ℤ → Scan → Scan
scan_offset week offset s =
    let s0 = scan_ticks week (week_ticks week offset (negsuc 0)) s in
    let s1 = scan_ticks week (week_ticks week offset (pos 0)) s0 in
    let s2 = scan_ticks week (week_ticks week offset (pos 1)) s1 in
    scan_ticks week (week_ticks week offset (pos 2)) s2

unfoldable pub scan_offsets : TimeInterval → List ℤ → Scan → Scan
scan_offsets week [] s = s
scan_offsets week (offset ∷ offsets) s = scan_offsets week offsets (scan_offset week offset s)

abbrev pub scan_start : Scan
scan_start = record { matched = pos 0; nmatch = 0; seen = [] }

-- The final `match nmatch`.
unfoldable pub scan_result : Scan → Result GpsTime
scan_result s =
    if nat_beq s.nmatch 0
    then err (rtcm "no MSM7 epoch matches the week constraint")
    else if nat_beq s.nmatch 1
    then ok s.matched
    else err (rtcm "MSM7 epoch is ambiguous in the week constraint")

unfoldable pub resolve_week : List ℤ → TimeInterval → Result GpsTime
resolve_week offsets week = scan_result (scan_offsets week offsets scan_start)

unfoldable pub continuity_candidate : ℤ → ℤ → ℤ → GpsTime
continuity_candidate prev_week offset prev_ms =
    let cand_ms = add_i64 (mul_i64 prev_week week_ms) offset in
    let diff = sub_i64 cand_ms prev_ms in
    let cand_ms' =
      if ltb_ℤ diff (sub_i64 (pos 0) (pos half_week_ms))
      then add_i64 cand_ms (pos week_ms)
      else if ltb_ℤ (pos half_week_ms) diff
      then sub_i64 cand_ms (pos week_ms)
      else cand_ms in
    mul_i64 cand_ms' rinex_ticks_per_ms

-- `(t.0 / RINEX_TICKS_PER_MS - prev_ms).abs()`
abbrev pub abs_i64 : ℤ → ℤ
abs_i64 z = if ltb_ℤ z (pos 0) then sub_i64 (pos 0) z else z

abbrev pub continuity_diff : GpsTime → ℤ → ℤ
continuity_diff t prev_ms = abs_i64 (sub_i64 (tdiv t rinex_ticks_per_ms) prev_ms)

-- The loop over the offsets behind the first.
unfoldable pub closest : ℤ → ℤ → List ℤ → GpsTime → ℤ → GpsTime
closest prev_week prev_ms [] best best_diff = best
closest prev_week prev_ms (offset ∷ offsets) best best_diff =
    let t = continuity_candidate prev_week offset prev_ms in
    let diff = continuity_diff t prev_ms in
    let better = ltb_ℤ diff best_diff in
    closest prev_week prev_ms offsets (if better then t else best)
      (if better then diff else best_diff)

-- The offsets are a first one and the rest: the program never passes an empty list.
unfoldable pub resolve_continuity : ℤ → List ℤ → GpsTime → GpsTime
resolve_continuity offset offsets prev =
    let prev_ms = tdiv prev rinex_ticks_per_ms in
    let prev_week = floor_div prev_ms week_ms in
    let best = continuity_candidate prev_week offset prev_ms in
    closest prev_week prev_ms offsets best (continuity_diff best prev_ms)

-- The candidate offsets in the week (a first one and the rest) of a GLONASS epoch, which holds the
-- day of the week in bits 27 and up. The leap seconds `leap_ms` come from an `i16`.
unfoldable pub glonass_epoch_week_offsets : ℤ → ℕ → Result (ℤ × List ℤ)
glonass_epoch_week_offsets leap_ms epoch =
    let day = epoch / 2 ^ 27 in
    let tod = epoch % 2 ^ 27 in
    let at_day =
      λ (d : ℕ). add_i64 (sub_i64 (pos (d * day_ms + tod)) (pos glonass_utc_offset_ms)) leap_ms in
    if leb day_ms tod
    then err (rtcm "invalid GLONASS time of day")
    else if not (nat_beq day 7)
    then ok (at_day day, [])
    else ok (at_day 0, map at_day (1 ∷ 2 ∷ 3 ∷ 4 ∷ 5 ∷ 6 ∷ []))

unfoldable pub epoch_week_offsets : ℤ → ℕ → Gnss → Result (ℤ × List ℤ)
unfolding glonass_epoch_week_offsets
epoch_week_offsets leap_ms epoch_time glonass = glonass_epoch_week_offsets leap_ms epoch_time
epoch_week_offsets leap_ms epoch_time beidou =
    if leb week_ms epoch_time
    then err (rtcm "invalid RTCM MSM7 epoch time")
    else ok (pos (epoch_time + bdt_offset_ms), [])
epoch_week_offsets leap_ms epoch_time gnss =
    if leb week_ms epoch_time
    then err (rtcm "invalid RTCM MSM7 epoch time")
    else ok (pos epoch_time, [])

-- `resolve_time`, with the fields that it reads: the leap seconds, the standing week constraint and
-- the last epoch of the system.
unfoldable pub resolve_time :
    ℤ → TimeInterval → Option GpsTime → ℕ → Gnss → TimeInterval → Result GpsTime
resolve_time leap_ms standing prev epoch_time gnss week =
    epoch_week_offsets leap_ms epoch_time gnss >>= λ offsets.
    if not (interval_is_zero week) then resolve_week (offsets.0 ∷ offsets.1) week else elim prev [
      | none ↦
          if not (interval_is_zero standing)
          then resolve_week (offsets.0 ∷ offsets.1) standing
          else err (rtcm "RTCM MSM7 epoch needs a week constraint")
      | some p ↦ ok (resolve_continuity offsets.0 offsets.1 p)
    ]
