-- ===== src/Rtcm.antt =====
-- RTCM MSM7 conversion, after obsj/src/rtcm.rs: the types, the constants and the tables. The
-- children model week resolution (`Week`), the cell arithmetic (`Cell`), the converter (`Convert`)
-- and the scan for frames (`Frames`).
mod Tests
pub mod Week
pub mod Resolve
pub mod Cell
pub mod Convert
pub mod Frame
pub mod Slips
pub mod Cells
pub mod Continuity
pub mod Epoch
pub mod Stream
pub mod Frames
use convobs_rs.Base.{
  ℕ, ◌+◌, ◌*◌, ◌/◌, ◌%◌, Bool, true, false, ◌&&◌, leb, nat_beq, if◌then◌else◌, Eq, ◌≡◌, ◌↔◌, arith,
  refl,
}
use convobs_rs.Base.Int.{ℤ, pos, int_beq}

abbrev pub rinex_ticks_per_ms : ℕ
rinex_ticks_per_ms = 10000

abbrev pub second_ms : ℕ
second_ms = 1000

abbrev pub hour_ms : ℕ
hour_ms = 60 * 60 * second_ms

abbrev pub day_ms : ℕ
day_ms = 24 * hour_ms

abbrev pub week_ms : ℕ
week_ms = 7 * day_ms

abbrev pub half_week_ms : ℕ
half_week_ms = week_ms / 2

abbrev pub bdt_offset_ms : ℕ
bdt_offset_ms = 14 * second_ms

abbrev pub glonass_utc_offset_ms : ℕ
glonass_utc_offset_ms = 3 * hour_ms

abbrev pub default_gps_utc_ms : ℕ
default_gps_utc_ms = 18 * second_ms

-- A time constraint in nanoseconds from the GPS epoch.
pub record TimeInterval : Type 0 where
  pub start_ns : ℤ
  pub dur_ns : ℤ

-- `TimeInterval::is_zero`
abbrev pub interval_is_zero : TimeInterval → Bool
interval_is_zero w = int_beq w.start_ns (pos 0) && int_beq w.dur_ns (pos 0)

pub record Options : Type 0 where
  pub use_spec_phase_range_rate_sign : Bool
  pub omit_zero_do : Bool

pub data Gnss : Type 0 where
  gps glonass galileo sbas qzss beidou irnss : Gnss

abbrev pub gnss_beq : Gnss → Gnss → Bool
gnss_beq gps gps = true
gnss_beq glonass glonass = true
gnss_beq galileo galileo = true
gnss_beq sbas sbas = true
gnss_beq qzss qzss = true
gnss_beq beidou beidou = true
gnss_beq irnss irnss = true
gnss_beq _ _ = false

pub gnss_beq_iff : (a b : Gnss) → (gnss_beq a b ≡ true) ↔ (a ≡ b)
gnss_beq_iff a b = ground arith

instance abbrev pub gnss_eq : Eq Gnss
gnss_eq = record { beq = gnss_beq; beq_iff = gnss_beq_iff }

unfoldable pub rinex_sys : Gnss → ℕ
rinex_sys gps = b'G'
rinex_sys glonass = b'R'
rinex_sys galileo = b'E'
rinex_sys sbas = b'S'
rinex_sys qzss = b'J'
rinex_sys beidou = b'C'
rinex_sys irnss = b'I'

unfoldable pub rinex_sat_num : Gnss → ℕ → ℕ
rinex_sat_num gnss sat_id =
    let in_range = λ (hi : ℕ). leb 1 sat_id && leb sat_id hi in
    elim gnss [
      | gps ↦ if in_range 63 then sat_id else 0
      | glonass ↦ if in_range 24 then sat_id else 0
      | galileo ↦ if in_range 50 then sat_id else 0
      | sbas ↦ if in_range 39 then sat_id + 19 else 0
      | qzss ↦ if in_range 10 then sat_id else 0
      | beidou ↦ if in_range 63 then sat_id else 0
      | irnss ↦ if in_range 14 then sat_id else 0
    ]
