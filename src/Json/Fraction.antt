-- ===== src/Json/Fraction.antt =====
-- The fraction of a second in the text of an instant and back, of obsj/src/json.rs: trailing zeros
-- are left out and filled up again.
use convobs_rs.Base.{
  ℕ, zero, suc, ◌^◌, ◌<◌, ◌≤◌, ◌≡◌, ◌≢◌, ◌⊎◌, refl, ◌∙◌, sym, ap, false, nat_beq, List, [], ◌∷◌,
  ◌++◌, some, length, take, Bool-cases, inl, inr, if◌then◌else◌, arith,
}
use convobs_rs.Base.Texts.{parse_unsigned}
use convobs_rs.Time.Text.{zero_padded, signed_padded, date_text, clock_text}
use convobs_rs.Time.Zoned.{trim_end_zeros}
use convobs_rs.Time.Printed.{zero_padded-IsField, zeros-value, parse_unsigned-IsField}
use convobs_rs.Time.Text
use convobs_rs.Json.Instants.{zeros, nanos_of, cut_inside}

List-cases : (s : List ℕ) → (s ≡ []) ⊎ ((c : ℕ) × (cs : List ℕ) × (s ≡ c ∷ cs))
List-cases [] = inl refl
List-cases (c ∷ cs) = inr (c, cs, refl)

-- What `trim_end_matches` takes away are zeros, and it is put back by filling up.
trimmed-none : (s : List ℕ) → trim_end_zeros s ≡ [] → s ≡ Text.zeros (length s)
unfolding trim_end_zeros
trimmed-none [] h = refl
trimmed-none (c ∷ cs) h = elim (List-cases (trim_end_zeros cs)) [
  | inl none_left ↦
      let is_zero : (if nat_beq c b'0' then [] else c ∷ []) ≡ [] =
        rw (none_left, trim_end_zeros) at h in
      let same : c ≡ b'0' = ground arith in rw (same, ← trimmed-none cs none_left)
  | inr (d, ds, left) ↦ absurd (cc (rw (left, trim_end_zeros) at h))
]

take-zeros : (n m : ℕ) → n ≤ m → take n (Text.zeros m) ≡ Text.zeros n
take-zeros zero m h = refl
take-zeros (suc n) zero h = absurd (omega arith)
take-zeros (suc n) (suc m) h = ap (λ s. b'0' ∷ s) (take-zeros n m (omega arith))

filled :
    (s : List ℕ) (m : ℕ) → length s ≤ m → take (length s) (trim_end_zeros s ++ Text.zeros m) ≡ s
unfolding trim_end_zeros
filled [] m h = refl
filled (c ∷ cs) m h = elim (List-cases (trim_end_zeros cs)) [
  | inl none_left ↦ elim (Bool-cases (nat_beq c b'0')) [
    | inl is_zero ↦
        let nothing : trim_end_zeros (c ∷ cs) ≡ [] = rw (none_left, trim_end_zeros, is_zero) in
        rw nothing (take-zeros (suc (length cs)) m h ∙ sym (trimmed-none (c ∷ cs) nothing))
    | inr other ↦
        let only : trim_end_zeros (c ∷ cs) ≡ c ∷ [] = rw (none_left, trim_end_zeros, other) in
        let rest : take (length cs) (Text.zeros m) ≡ cs =
          rw none_left at (filled cs m (omega arith)) in
        rw only (ap (λ s. c ∷ s) rest)
  ]
  | inr (d, ds, left) ↦
      let more : trim_end_zeros (c ∷ cs) ≡ c ∷ trim_end_zeros cs = rw (left, trim_end_zeros) in
      rw more (ap (λ s. c ∷ s) (filled cs m (omega arith)))
]

nanos_of-filled :
    (t s : List ℕ) → take 9 (t ++ zeros) ≡ s → t ≢ [] → nanos_of t ≡ parse_unsigned (2 ^ 32) s
unfolding nanos_of
nanos_of-filled [] s full some_left = absurd (some_left refl)
nanos_of-filled (c ∷ cs) s full some_left = ap (λ u. parse_unsigned (2 ^ 32) u) full

-- The fraction of a second, trimmed and read.
pub nanos_of-trim_end_zeros :
    (n : ℕ) → n < 1000000000 → n ≢ 0 → nanos_of (trim_end_zeros (zero_padded 9 n)) ≡ some n
nanos_of-trim_end_zeros n h positive =
    let f = zero_padded-IsField 8 n (omega arith) (omega arith) in
    let s = zero_padded 9 n in
    let some_left = λ (nothing : trim_end_zeros s ≡ []).
      let all_zero : s ≡ Text.zeros 9 = rw f.0 at (trimmed-none s nothing) in
      let value : some 0 ≡ some n = rw (all_zero, zeros-value 9) at (f.2) in
      absurd (omega (arith, positive (cc value))) in
    nanos_of-filled (trim_end_zeros s) s (rw f.0 at (filled s 9 (omega arith))) some_left
    ∙ parse_unsigned-IsField (2 ^ 32) 8 n s f (omega arith)

pub length-trim_end_zeros : (s : List ℕ) → length (trim_end_zeros s) ≤ length s
unfolding trim_end_zeros
length-trim_end_zeros [] = omega arith
length-trim_end_zeros (c ∷ cs) = ground (arith, length-trim_end_zeros cs)

pub short_is_whole : (s : List ℕ) → length s ≤ 9 → cut_inside s ≡ false
short_is_whole s h = ground arith
