-- ===== src/Cli/Detect/First.antt =====
-- What `detect_raw_family` of cli/src/lib.rs decides, given a framer that answers as documented.
use convobs_rs.Base.{
  ℕ, suc, ◌≤◌, ◌<◌, ◌≡◌, refl, Option, none, some, List, length, arith, leb, Bool-cases, inl, inr,
}
use convobs_rs.Rtcm.Stream.{Frame, FramerAnswer, frames}
use convobs_rs.Rtcm.Frames.{Chain, first_of, frames_end}
use convobs_rs.Ubx.Scan.{is_rawx_frame, first_rawx_frame_pos}
use convobs_rs.Ubx.Frames.{Answers, first_frame_pos_where-Answers}
use convobs_rs.Cli.Detect.{
  FamilyKind, rtcm_kind, ubx_kind, earlier_family, first_msm7_frame_pos, detect_raw_family,
}

-- The family whose frame starts first, an RTCM frame before a UBX frame at the same place; none
-- when there is neither.
abbrev pub Earliest : Option ℕ → Option ℕ → Option FamilyKind → Type 0
Earliest r u none = (r ≡ none) × (u ≡ none)
Earliest r u (some rtcm_kind) = (i : ℕ) × (r ≡ some i) × ((j : ℕ) → u ≡ some j → i ≤ j)
Earliest r u (some ubx_kind) = (j : ℕ) × (u ≡ some j) × ((i : ℕ) → r ≡ some i → j < i)

earlier_family-Earliest : (r u : Option ℕ) → Earliest r u (earlier_family r u)
unfolding earlier_family
earlier_family-Earliest none none = (refl, refl)
earlier_family-Earliest (some i) none = (i, refl, λ j e. absurd (ground arith))
earlier_family-Earliest none (some j) = (j, refl, λ i e. absurd (ground arith))
earlier_family-Earliest (some i) (some j) = elim (Bool-cases (leb i j)) [
  | inl first ↦ rw first (i, refl, λ k e. ground arith)
  | inr later ↦ rw later (j, refl, λ k e. ground arith)
]

module _ (next_msg_frame : List ℕ → ℕ × Option ℕ)
    (documented : (bytes : List ℕ) → FramerAnswer bytes (next_msg_frame bytes)) where
  -- A raw stream gets the family of whichever observation frame starts first: the first MSM7 message
  -- among the RTCM frames that the scan finds, which lie one behind the other in the stream, or the
  -- first RXM-RAWX frame with a valid checksum on the way of the UBX search. Both searches end.
  pub detect_raw_family-Earliest :
      (bytes : List ℕ)
      → (fs : List Frame) × (frames next_msg_frame (suc (length bytes)) bytes 0 ≡ some fs)
        × Chain bytes 0 fs
        × ((u : Option ℕ) × Answers bytes is_rawx_frame 0 u
            × Earliest (first_of bytes fs) u (detect_raw_family next_msg_frame bytes))
  unfolding detect_raw_family first_msm7_frame_pos first_rawx_frame_pos
  detect_raw_family-Earliest bytes =
      let (fs, e, in_chain, found) =
        frames_end next_msg_frame documented (suc (length bytes)) bytes 0 (omega arith)
          (omega arith) in
      let (u, h, answers) = first_frame_pos_where-Answers bytes is_rawx_frame in
      (fs, e, in_chain, (u, answers, rw (found, h) (earlier_family-Earliest (first_of bytes fs) u)))
