-- ===== src/Cli/Detect.antt =====
-- The family of a raw stream, of cli/src/lib.rs: `detect_raw_family`.
pub mod First
use convobs_rs.Base.{
  ℕ, suc, Bool, true, false, leb, if◌then◌else◌, Option, none, some, List, length, unwrap_or,
}
use convobs_rs.Rtcm.Stream.{Frame, frames, first_msm7}
use convobs_rs.Ubx.Scan.{first_rawx_frame_pos}

pub data FamilyKind : Type 0 where
  rtcm_kind ubx_kind : FamilyKind

-- The frame that starts first, from the two positions.
unfoldable pub earlier_family : Option ℕ → Option ℕ → Option FamilyKind
earlier_family (some r) (some u) = some (if leb r u then rtcm_kind else ubx_kind)
earlier_family (some r) none = some rtcm_kind
earlier_family none (some u) = some ubx_kind
earlier_family none none = none

-- `next_msg_frame` is the framer of the `rtcm-rs` crate. The searches have the fuel that is shown to
-- be enough for them.
module _ (next_msg_frame : List ℕ → ℕ × Option ℕ) where
  unfoldable pub first_msm7_frame_pos : List ℕ → Option ℕ
  unfolding first_msm7
  first_msm7_frame_pos bytes =
      unwrap_or (first_msm7 next_msg_frame (suc (length bytes)) bytes 0) none

  unfoldable pub all_frames : List ℕ → List Frame
  unfolding frames
  all_frames bytes = unwrap_or (frames next_msg_frame (suc (length bytes)) bytes 0) List.[]

  unfoldable pub detect_raw_family : List ℕ → Option FamilyKind
  unfolding earlier_family first_msm7_frame_pos first_rawx_frame_pos
  detect_raw_family bytes =
      earlier_family (first_msm7_frame_pos bytes) (unwrap_or (first_rawx_frame_pos bytes) none)
