-- ===== src/Rtcm/Stream.antt =====
-- The scan for RTCM frames of obsj/src/rtcm.rs: `Frames`, `first_frame_pos` and
-- `first_msm7_frame_pos`. The framer `next_msg_frame` is the `rtcm-rs` crate's, a parameter: how many
-- bytes it consumed, and the length of the frame that ends there. The loops run on fuel.
use Prim.Native.Nat.{bit_or}
use convobs_rs.Base.{
  ℕ, zero, suc, ◌+◌, ◌-◌, ◌*◌, ◌/◌, ◌%◌, ◌≤◌, ◌<◌, Bool, true, false, ◌&&◌, leb, nat_beq,
  if◌then◌else◌, Option, none, some, List, [], ◌∷◌, length, get_or, take, drop,
}

-- `extract_msg_type` and `is_msm7_frame`
unfoldable pub extract_msg_type : List ℕ → ℕ
extract_msg_type frame =
    if leb (length frame) 5 then 0 else bit_or (get_or frame 3 0 * 16) (get_or frame 4 0 / 16)

unfoldable pub is_msm7_frame : List ℕ → Bool
unfolding extract_msg_type
is_msm7_frame frame =
    let mt = extract_msg_type frame in leb 1071 mt && leb mt 1137 && nat_beq (mt % 10) 7

-- A frame in a buffer: where it starts, and its length.
pub record Frame : Type 0 where
  pub start : ℕ
  pub size : ℕ

abbrev pub frame_at : ℕ → ℕ → Frame
frame_at s n = record { start = s; size = n }

abbrev pub frame_bytes : List ℕ → Frame → List ℕ
frame_bytes bytes f = take f.size (drop f.start bytes)

-- What the framer's documentation says of an answer: a frame has at least a byte, and it ends with
-- the bytes that were consumed, which were there.
abbrev pub FramerAnswer : List ℕ → ℕ × Option ℕ → Type 0
FramerAnswer bytes (consumed, none) = Unit
FramerAnswer bytes (consumed, some len) = (0 < len) × (len ≤ consumed) × (consumed ≤ length bytes)

-- What `Frames::next` makes of an answer of the framer at a position.
abbrev pub answered : ℕ → ℕ × Option ℕ → Option (Frame × ℕ)
answered p (consumed, none) = none
answered p (consumed, some len) = some (frame_at (p + consumed - len) len, p + consumed)

module _ (next_msg_frame : List ℕ → ℕ × Option ℕ) where
  -- `Frames::next` from a position: the frame, and the position afterwards.
  unfoldable pub next : List ℕ → ℕ → Option (Frame × ℕ)
  next bytes p = if leb (length bytes) p then none else answered p (next_msg_frame (drop p bytes))

  -- All frames from a position; `none` when the fuel runs out.
  unfoldable pub frames : ℕ → List ℕ → ℕ → Option (List Frame)
  unfolding next
  frames zero bytes p = none
  frames (suc fuel) bytes p = elim (next bytes p) [
    | none ↦ some []
    | some (f, p') ↦ elim (frames fuel bytes p') [ none ↦ none | some fs ↦ some (f ∷ fs) ]
  ]

  unfoldable pub first_frame_pos : List ℕ → Option ℕ
  first_frame_pos bytes =
      let (consumed, frame) = next_msg_frame bytes in
      elim frame [ none ↦ none | some len ↦ some (consumed - len) ]

  -- The loop of `first_msm7_frame_pos` from a position.
  unfoldable pub first_msm7 : ℕ → List ℕ → ℕ → Option (Option ℕ)
  unfolding is_msm7_frame
  first_msm7 zero bytes p = none
  first_msm7 (suc fuel) bytes p = elim (next bytes p) [
    | none ↦ some none
    | some (f, p') ↦ elim (is_msm7_frame (frame_bytes bytes f)) [
      | true ↦ some (some f.start)
      | false ↦ first_msm7 fuel bytes p'
    ]
  ]
