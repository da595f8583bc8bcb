-- ===== src/Ubx/Frames.antt =====
-- What the search for a UBX frame in obsj/src/ubx.rs finds: it ends, and it answers the first
-- accepted frame on the way that steps over whole frames and single other bytes.
use mathlib.Core.Path.{subst}
use convobs_rs.Base.{
  ℕ, zero, suc, ◌+◌, ◌-◌, ◌*◌, ◌%◌, ◌≤◌, ◌<◌, ◌≡◌, ◌∙◌, ap, sym, Bool, true, false, ◌&&◌,
  if◌then◌else◌, nat_beq, nat_beq_iff, leb, Option, none, some, List, length, arith, leb→le,
  Bool-cases, Option-cases, inl, inr,
}
use convobs_rs.Ubx.Fletcher.{total, weighted, checksum-total}
use convobs_rs.Ubx.Scan.{byte, slice, checksum, claimed_end, frame_end, scan, first_frame_pos_where}

-- The bytes `bytes[i..end]` are a frame: the two sync bytes, a length that fits the input, and behind
-- the payload the two sums of the bytes from the class on, modulo 256.
pub record IsFrame (bytes : List ℕ) (i end : ℕ) : Type 0 where
  pub first_sync : byte bytes i ≡ 0xB5
  pub second_sync : byte bytes (i + 1) ≡ 0x62
  pub framed : end ≡ i + 8 + (byte bytes (i + 4) + 256 * byte bytes (i + 5))
  pub inside : end ≤ length bytes
  pub first_sum : byte bytes (end - 2) ≡ total (slice bytes (i + 2) (end - 2)) % 256
  pub second_sum : byte bytes (end - 1) ≡ weighted (slice bytes (i + 2) (end - 2)) % 256

abbrev tested : Bool → Bool → Bool → Bool → Bool → ℕ → Option ℕ
tested s1 s2 l c1 c2 last =
    if s1 && s2 then (if l then (if c1 && c2 then some last else none) else none) else none

all_tests :
    (s1 s2 l c1 c2 : Bool) (last end : ℕ)
    → tested s1 s2 l c1 c2 last ≡ some end
    → (s1 ≡ true) × (s2 ≡ true) × (l ≡ true) × (c1 ≡ true) × (c2 ≡ true) × (last ≡ end)
all_tests s1 s2 l c1 c2 last end h = ground arith

frame_end-IsFrame :
    (bytes : List ℕ) (i end : ℕ) → frame_end bytes i ≡ some end → IsFrame bytes i end
unfolding frame_end claimed_end
frame_end-IsFrame bytes i end h =
    let last = claimed_end bytes i in
    let s = slice bytes (i + 2) (last - 2) in
    let sums = checksum-total s in
    let (s1, s2, l, c1, c2, same) =
      all_tests (nat_beq (byte bytes i) 0xB5) (nat_beq (byte bytes (i + 1)) 0x62)
        (leb last (length bytes)) (nat_beq ((checksum s).0) (byte bytes (last - 2)))
        (nat_beq ((checksum s).1) (byte bytes (last - 1))) last end h in
    let found : IsFrame bytes i last = record {
      first_sync = (nat_beq_iff (byte bytes i) 0xB5).0 s1;
      second_sync = (nat_beq_iff (byte bytes (i + 1)) 0x62).0 s2;
      framed = omega arith;
      inside = leb→le last (length bytes) l;
      first_sum =
          sym ((nat_beq_iff ((checksum s).0) (byte bytes (last - 2))).0 c1)
          ∙ ap (λ (p : ℕ × ℕ). p.0) sums;
      second_sum =
          sym ((nat_beq_iff ((checksum s).1) (byte bytes (last - 1))).0 c2)
          ∙ ap (λ (p : ℕ × ℕ). p.1) sums;
    } in
    subst (λ e. IsFrame bytes i e) same found

IsFrame-frame_end :
    (bytes : List ℕ) (i end : ℕ) → IsFrame bytes i end → frame_end bytes i ≡ some end
unfolding frame_end claimed_end
IsFrame-frame_end bytes i end h =
    let last = claimed_end bytes i in
    let e : end ≡ last = omega (arith, h.framed) in
    let there = subst (λ e. IsFrame bytes i e) e h in
    let s = slice bytes (i + 2) (last - 2) in
    let sums = checksum-total s in
    let c1 : nat_beq ((checksum s).0) (byte bytes (last - 2)) ≡ true =
      (nat_beq_iff ((checksum s).0) (byte bytes (last - 2))).1
        (ap (λ (p : ℕ × ℕ). p.0) sums ∙ sym there.first_sum) in
    let c2 : nat_beq ((checksum s).1) (byte bytes (last - 1)) ≡ true =
      (nat_beq_iff ((checksum s).1) (byte bytes (last - 1))).1
        (ap (λ (p : ℕ × ℕ). p.1) sums ∙ sym there.second_sum) in
    let s1 : nat_beq (byte bytes i) 0xB5 ≡ true =
      (nat_beq_iff (byte bytes i) 0xB5).1 h.first_sync in
    let s2 : nat_beq (byte bytes (i + 1)) 0x62 ≡ true =
      (nat_beq_iff (byte bytes (i + 1)) 0x62).1 h.second_sync in
    let l : leb last (length bytes) ≡ true = ground (arith, there.inside) in
    rw (s1, s2, l, c1, c2) (ap some (sym e))

nothing_here :
    (bytes : List ℕ) (i : ℕ) → frame_end bytes i ≡ none → (end : ℕ) → ¬ IsFrame bytes i end
nothing_here bytes i e end h = absurd (cc (e, IsFrame-frame_end bytes i end h))

frame_end_far :
    (bytes : List ℕ) (i end : ℕ)
    → frame_end bytes i ≡ some end
    → (i + 8 ≤ end) × (end ≤ length bytes)
unfolding frame_end claimed_end
frame_end_far bytes i end h = ground arith

module _ (bytes : List ℕ) (accept : List ℕ → Bool) where
  -- From one position of the search to a later one.
  pub data Way : ℕ → ℕ → Type 0 where
    here : {i : ℕ} → Way i i
    other_byte :
        {i j : ℕ}
        → i + 8 ≤ length bytes
        → ((end : ℕ) → ¬ IsFrame bytes i end)
        → Way (i + 1) j
        → Way i j
    other_frame :
        {i j : ℕ} (end : ℕ)
        → i + 8 ≤ length bytes
        → IsFrame bytes i end
        → accept (slice bytes i end) ≡ false
        → Way end j
        → Way i j

  -- The answer of a search from `i`: the position of an accepted frame, or nothing up to the end.
  pub Answers : ℕ → Option ℕ → Type 0
  Answers i (some j) =
      Way i j × ((end : ℕ) × IsFrame bytes j end × (accept (slice bytes j end) ≡ true))
  Answers i none = (j : ℕ) × Way i j × (length bytes < j + 8)

  abbrev Ends : ℕ → ℕ → Type 0
  Ends fuel i = (r : Option ℕ) × (scan bytes accept fuel i ≡ some r) × Answers i r

  past_byte :
      (i : ℕ)
      → i + 8 ≤ length bytes
      → frame_end bytes i ≡ none
      → (r : Option ℕ) → Answers (i + 1) r
      → Answers i r
  unfolding Answers
  past_byte i h e (some j) (w, found) = (other_byte h (nothing_here bytes i e) w, found)
  past_byte i h e none (j, w, l) = (j, other_byte h (nothing_here bytes i e) w, l)

  past_frame :
      (i end : ℕ)
      → i + 8 ≤ length bytes
      → frame_end bytes i ≡ some end
      → accept (slice bytes i end) ≡ false
      → (r : Option ℕ) → Answers end r
      → Answers i r
  unfolding Answers
  past_frame i end h e bad (some j) (w, found) =
      (other_frame end h (frame_end-IsFrame bytes i end e) bad w, found)
  past_frame i end h e bad none (j, w, l) =
      (j, other_frame end h (frame_end-IsFrame bytes i end e) bad w, l)

  step_on :
      (fuel i j : ℕ)
      → scan bytes accept (suc fuel) i ≡ scan bytes accept fuel j
      → ((r : Option ℕ) → Answers j r → Answers i r)
      → Ends fuel j
      → Ends (suc fuel) i
  step_on fuel i j e f (r, p, q) = (r, e ∙ p, f r q)

  scan-byte :
      (fuel i : ℕ)
      → leb (i + 8) (length bytes) ≡ true
      → frame_end bytes i ≡ none
      → scan bytes accept (suc fuel) i ≡ scan bytes accept fuel (i + 1)
  unfolding scan
  scan-byte fuel i go e = rw (go, e, scan)

  scan-frame :
      (fuel i end : ℕ)
      → leb (i + 8) (length bytes) ≡ true
      → frame_end bytes i ≡ some end
      → accept (slice bytes i end) ≡ false
      → scan bytes accept (suc fuel) i ≡ scan bytes accept fuel end
  unfolding scan
  scan-frame fuel i end go e bad = rw (go, e, bad, scan)

  scan-found :
      (fuel i end : ℕ)
      → leb (i + 8) (length bytes) ≡ true
      → frame_end bytes i ≡ some end
      → accept (slice bytes i end) ≡ true
      → scan bytes accept (suc fuel) i ≡ some (some i)
  unfolding scan
  scan-found fuel i end go e good = rw (go, e, good, scan)

  scan-stop :
      (fuel i : ℕ) → leb (i + 8) (length bytes) ≡ false → scan bytes accept (suc fuel) i ≡ some none
  unfolding scan
  scan-stop fuel i stop = rw (stop, scan)

  scan-Answers : (fuel i : ℕ) → i ≤ length bytes → length bytes < fuel + i → Ends fuel i
  unfolding Answers
  scan-Answers zero i k h = absurd (omega arith)
  scan-Answers (suc fuel) i k h = elim (Bool-cases (leb (i + 8) (length bytes))) [
    | inr stop ↦ (none, scan-stop fuel i stop, (i, here, ground arith))
    | inl go ↦
        let room = leb→le (i + 8) (length bytes) go in
        elim (Option-cases (frame_end bytes i)) [
          | inl e ↦
              step_on fuel i (i + 1) (scan-byte fuel i go e) (past_byte i room e)
                (scan-Answers fuel (i + 1) (omega arith) (omega arith))
          | inr (end, e) ↦
              let far = frame_end_far bytes i end e in
              elim (Bool-cases (accept (slice bytes i end))) [
                | inl good ↦ (
                  some i,
                  scan-found fuel i end go e good,
                  (here, (end, frame_end-IsFrame bytes i end e, good)),
                )
                | inr bad ↦
                    step_on fuel i end (scan-frame fuel i end go e bad)
                      (past_frame i end room e bad) (scan-Answers fuel end far.1 (omega arith))
              ]
        ]
  ]

  -- The search ends. It answers the first accepted frame on the way from the start that steps over
  -- whole frames, and over a single byte where no frame starts; it answers nothing when that way
  -- comes to the last eight bytes without one. A frame has the two sync bytes, a length that fits the
  -- input, and behind its payload the sum of the bytes from the class on and the sum in which a byte
  -- counts once for itself and once for each byte behind it, both modulo 256.
  pub first_frame_pos_where-Answers :
      (r : Option ℕ) × (first_frame_pos_where bytes accept ≡ some r) × Answers 0 r
  unfolding first_frame_pos_where
  first_frame_pos_where-Answers = scan-Answers (suc (length bytes)) 0 (omega arith) (omega arith)
