-- ===== src/Ubx/Scan.antt =====
-- The search for a UBX frame in obsj/src/ubx.rs: `checksum`, `first_frame_pos_where` and its two
-- callers. The loop runs on fuel; one unit for each byte is enough.
use convobs_rs.Base.{
  ℕ, zero, suc, ◌+◌, ◌-◌, ◌*◌, ◌%◌, Bool, true, false, ◌&&◌, leb, nat_beq, if◌then◌else◌, Option,
  none, some, List, [], ◌∷◌, length, get_or, take, drop,
}

-- The bytes of `data[i..j]`.
abbrev pub slice : List ℕ → ℕ → ℕ → List ℕ
slice bytes i j = take (j - i) (drop i bytes)

abbrev pub byte : List ℕ → ℕ → ℕ
byte bytes i = get_or bytes i 0

-- The loop of `checksum`.
unfoldable pub fletcher : ℕ → ℕ → List ℕ → ℕ × ℕ
fletcher a b [] = (a, b)
fletcher a b (x ∷ xs) = let a' = (a + x) % 256 in fletcher a' ((b + a') % 256) xs

unfoldable pub checksum : List ℕ → ℕ × ℕ
unfolding fletcher
checksum bytes = fletcher 0 0 bytes

unfoldable pub is_rawx_frame : List ℕ → Bool
is_rawx_frame frame =
    leb 4 (length frame)
    && nat_beq (byte frame 0) 0xB5
    && nat_beq (byte frame 1) 0x62
    && nat_beq (byte frame 2) 0x02
    && nat_beq (byte frame 3) 0x15

-- The end that the header at `i` gives.
unfoldable pub claimed_end : List ℕ → ℕ → ℕ
claimed_end bytes i = i + 6 + (byte bytes (i + 4) + byte bytes (i + 5) * 256) + 2

-- The tests of the loop's body: the end of the frame when one with a valid checksum starts at `i`.
unfoldable pub frame_end : List ℕ → ℕ → Option ℕ
unfolding claimed_end checksum
frame_end bytes i =
    let end = claimed_end bytes i in
    let (a, b) = checksum (slice bytes (i + 2) (end - 2)) in
    if nat_beq (byte bytes i) 0xB5 && nat_beq (byte bytes (i + 1)) 0x62
    then (if leb end (length bytes)
        then (if nat_beq a (byte bytes (end - 2)) && nat_beq b (byte bytes (end - 1))
            then some end
            else none)
        else none)
    else none

module _ (bytes : List ℕ) (accept : List ℕ → Bool) where
  -- The loop from position `i`; `none` when the fuel runs out.
  unfoldable pub scan : ℕ → ℕ → Option (Option ℕ)
  unfolding frame_end
  scan zero i = none
  scan (suc fuel) i = elim (leb (i + 8) (length bytes)) [
    | false ↦ some none
    | true ↦ elim (frame_end bytes i) [
      | none ↦ scan fuel (i + 1)
      | some end ↦ elim (accept (slice bytes i end)) [
        | true ↦ some (some i)
        | false ↦ scan fuel end
      ]
    ]
  ]

  unfoldable pub first_frame_pos_where : Option (Option ℕ)
  unfolding scan
  first_frame_pos_where = scan (suc (length bytes)) 0

-- `first_frame_pos` and `first_rawx_frame_pos`
unfoldable pub first_frame_pos : List ℕ → Option (Option ℕ)
unfolding first_frame_pos_where
first_frame_pos bytes = first_frame_pos_where bytes (λ _. true)

unfoldable pub first_rawx_frame_pos : List ℕ → Option (Option ℕ)
unfolding first_frame_pos_where is_rawx_frame
first_rawx_frame_pos bytes = first_frame_pos_where bytes is_rawx_frame
