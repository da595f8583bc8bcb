-- ===== src/Rtcm/Frames.antt =====
-- What the scan for RTCM frames of obsj/src/rtcm.rs finds, given a framer that answers as documented.
use mathlib.Core.Path.{subst}
use convobs_rs.Base.{
  ℕ, zero, suc, ◌+◌, ◌-◌, ◌≤◌, ◌<◌, ◌≡◌, sym, leb, if◌then◌else◌, Option, none, some, List, [], ◌∷◌,
  length, drop, length-drop, arith, Bool-cases, Option-cases, inl, inr,
}
use convobs_rs.Rtcm.Stream.{
  Frame, frame_at, frame_bytes, FramerAnswer, answered, is_msm7_frame, next, frames, first_msm7,
}

-- The frames lie one behind the other in the buffer, from a position on.
pub Chain : List ℕ → ℕ → List Frame → Type 0
Chain bytes p [] = Unit
Chain bytes p (f ∷ fs) =
    (p ≤ f.start)
    × (0 < f.size)
    × (f.start + f.size ≤ length bytes)
    × Chain bytes (f.start + f.size) fs

-- The start of the first frame that is an MSM7 message.
pub first_of : List ℕ → List Frame → Option ℕ
first_of bytes [] = none
first_of bytes (f ∷ fs) =
    let rest = first_of bytes fs in
    if is_msm7_frame (frame_bytes bytes f) then some f.start else rest

abbrev Good : List ℕ → ℕ → Frame × ℕ → Type 0
Good bytes p (f, p') = (p ≤ f.start) × (0 < f.size) × (f.start + f.size ≡ p') × (p' ≤ length bytes)

answered-Good :
    (bytes : List ℕ) (p : ℕ) (a : ℕ × Option ℕ) (r : Frame × ℕ)
    → p < length bytes
    → FramerAnswer (drop p bytes) a
    → answered p a ≡ some r
    → Good bytes p r
answered-Good bytes p (c, none) r l ok h = absurd (ground arith)
answered-Good bytes p (c, some len) r l ok h =
    let m = length-drop p bytes in
    let same : (frame_at (p + c - len) len, p + c) ≡ r = ground arith in
    subst (λ z. Good bytes p z) same (omega arith, omega arith, omega arith, omega arith)

module _ (next_msg_frame : List ℕ → ℕ × Option ℕ)
    (documented : (bytes : List ℕ) → FramerAnswer bytes (next_msg_frame bytes)) where
  next-Good :
      (bytes : List ℕ) (p : ℕ) (r : Frame × ℕ)
      → next next_msg_frame bytes p ≡ some r
      → Good bytes p r
  unfolding next
  next-Good bytes p r h = elim (Bool-cases (leb (length bytes) p)) [
    | inl stop ↦ absurd (ground (arith, rw (stop, next) at h))
    | inr go ↦
        answered-Good bytes p (next_msg_frame (drop p bytes)) r (ground arith)
          (documented (drop p bytes)) (rw (go, next) at h)
  ]

  frames-stop :
      (fuel : ℕ) (bytes : List ℕ) (p : ℕ)
      → next next_msg_frame bytes p ≡ none
      → (frames next_msg_frame (suc fuel) bytes p ≡ some [])
        × (first_msm7 next_msg_frame (suc fuel) bytes p ≡ some none)
  unfolding frames first_msm7
  frames-stop fuel bytes p e = (rw (e, frames), rw (e, first_msm7))

  frames-go :
      (fuel : ℕ) (bytes : List ℕ) (p : ℕ) (f : Frame) (p' : ℕ) (fs : List Frame)
      → next next_msg_frame bytes p ≡ some (f, p')
      → frames next_msg_frame fuel bytes p' ≡ some fs
      → frames next_msg_frame (suc fuel) bytes p ≡ some (f ∷ fs)
  unfolding frames
  frames-go fuel bytes p f p' fs e h = rw (e, h, frames)

  first_msm7-go :
      (fuel : ℕ) (bytes : List ℕ) (p : ℕ) (f : Frame) (p' : ℕ) (fs : List Frame)
      → next next_msg_frame bytes p ≡ some (f, p')
      → first_msm7 next_msg_frame fuel bytes p' ≡ some (first_of bytes fs)
      → first_msm7 next_msg_frame (suc fuel) bytes p ≡ some (first_of bytes (f ∷ fs))
  unfolding first_msm7 first_of
  first_msm7-go fuel bytes p f p' fs e h = elim (Bool-cases (is_msm7_frame (frame_bytes bytes f))) [
    | inl hit ↦ rw (e, hit, first_msm7)
    | inr miss ↦ rw (e, miss, first_msm7) h
  ]

  -- Given a framer whose frames are not empty and end inside the bytes that it got, and a unit of
  -- fuel for every byte behind a position in the buffer: the scan from there ends, its frames lie
  -- one behind the other inside the buffer, and the search for an MSM7 frame answers the first
  -- that is one.
  pub frames_end :
      (fuel : ℕ) (bytes : List ℕ) (p : ℕ)
      → p ≤ length bytes
      → length bytes < p + fuel
      → (fs : List Frame) × (frames next_msg_frame fuel bytes p ≡ some fs)
        × Chain bytes p fs
        × (first_msm7 next_msg_frame fuel bytes p ≡ some (first_of bytes fs))
  unfolding Chain first_of
  frames_end zero bytes p l h = absurd (omega arith)
  frames_end (suc fuel) bytes p l h = elim (Option-cases (next next_msg_frame bytes p)) [
    | inl e ↦ ([], (frames-stop fuel bytes p e).0, tt, (frames-stop fuel bytes p e).1)
    | inr ((f, p'), e) ↦
        let (from, size, end, room) = next-Good bytes p (f, p') e in
        let (fs, h1, h2, h3) = frames_end fuel bytes p' room (omega arith) in
        (
          f ∷ fs,
          frames-go fuel bytes p f p' fs e h1,
          (from, size, omega arith, subst (λ z. Chain bytes z fs) (sym end) h2),
          first_msm7-go fuel bytes p f p' fs e h3,
        )
  ]
