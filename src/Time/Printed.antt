-- ===== src/Time/Printed.antt =====
-- The numbers of a label as text and back, of obsj/src/obs.rs: the padded digits that `Display` of
-- `GpsTime` writes are read by `parse_time` as the number.
use native.Mathlib.Nat.{pow-le-pow_right}
use convobs_rs.Base.{
  ℕ, zero, suc, ◌+◌, ◌-◌, ◌*◌, ◌/◌, ◌%◌, ◌^◌, ◌≤◌, ◌<◌, ◌≡◌, refl, ◌∙◌, ap, true, false, ltb,
  nat_beq, some, List, [], ◌∷◌, ◌++◌, length, length-append, All, All-append, Bool-cases, inl, inr,
  arith,
}
use convobs_rs.Base.Int.{pos}
use convobs_rs.Base.Texts.{digit, digits_from, parse_unsigned, parse_signed, split, split_once}
use convobs_rs.Time.Text.{decimal_digits, zeros, zero_padded}

digits_from-append :
    (xs ys : List ℕ) (acc m : ℕ)
    → digits_from acc xs ≡ some m
    → digits_from acc (xs ++ ys) ≡ digits_from m ys
unfolding digits_from
digits_from-append [] ys acc m h = ground arith
digits_from-append (x ∷ xs) ys acc m h =
    elim (Bool-cases (digit x)) as (λ d. digits_from acc (x ∷ xs ++ ys) ≡ digits_from m ys) [
      | inl d ↦
          let head : digits_from (acc * 10 + (x - b'0')) xs ≡ some m = rw d at h in
          rw d (digits_from-append xs ys (acc * 10 + (x - b'0')) m head)
      | inr d ↦ absurd (cc)
    ]

abbrev pub IsDigit : ℕ → Type 0
IsDigit c = digit c ≡ true

-- A text that `parse_time` reads as a field of a label.
abbrev pub IsField : ℕ → ℕ → List ℕ → Type 0
IsField w n s = (length s ≡ w) × All IsDigit s × (digits_from 0 s ≡ some n)

tenth : (w n : ℕ) → n < 10 ^ suc w → n / 10 < 10 ^ w
tenth w n h = ground arith

pub decimal_digits-value :
    (fuel n : ℕ) → n < 10 ^ fuel → digits_from 0 (decimal_digits fuel n) ≡ some n
unfolding decimal_digits digits_from
decimal_digits-value zero n h = ground arith
decimal_digits-value (suc fuel) n h = elim (Bool-cases (ltb n 10)) [
  | inl small ↦ ground arith
  | inr big ↦
      rw
        (
          big,
          digits_from-append (decimal_digits fuel (n / 10)) ((b'0' + n % 10) ∷ []) 0 (n / 10)
              (decimal_digits-value fuel (n / 10) (tenth fuel n h)),
        )
        (ground arith)
]

pub decimal_digits-digits : (fuel n : ℕ) → All IsDigit (decimal_digits fuel n)
unfolding decimal_digits
decimal_digits-digits zero n = tt
decimal_digits-digits (suc fuel) n = elim (Bool-cases (ltb n 10)) [
  | inl small ↦ rw small (ground arith, tt)
  | inr big ↦ rw big (
      All-append IsDigit (decimal_digits fuel (n / 10)) ((b'0' + n % 10) ∷ [])
        (decimal_digits-digits fuel (n / 10)) (ground arith, tt))
]

pub length-decimal_digits : (fuel w n : ℕ) → n < 10 ^ suc w → length (decimal_digits fuel n) ≤ suc w
unfolding decimal_digits
length-decimal_digits zero w n h = omega arith
length-decimal_digits (suc fuel) zero n h = ground arith
length-decimal_digits (suc fuel) (suc w) n h = elim (Bool-cases (ltb n 10)) [
  | inl small ↦ rw small (omega arith)
  | inr big ↦
      rw (big, length-append (decimal_digits fuel (n / 10)) ((b'0' + n % 10) ∷ []))
        (omega (arith, length-decimal_digits fuel w (n / 10) (tenth (suc w) n h)))
]

-- There is always a digit.
pub decimal_digits-long : (fuel n : ℕ) → 0 < length (decimal_digits (suc fuel) n)
unfolding decimal_digits
decimal_digits-long fuel n = elim (Bool-cases (ltb n 10)) [
  | inl small ↦ rw small (omega arith)
  | inr big ↦
      rw (big, length-append (decimal_digits fuel (n / 10)) ((b'0' + n % 10) ∷ [])) (omega arith)
]

zeros-digits : (k : ℕ) → All IsDigit (zeros k)
zeros-digits zero = tt
zeros-digits (suc k) = (refl, zeros-digits k)

pub length-zeros : (k : ℕ) → length (zeros k) ≡ k
length-zeros zero = refl
length-zeros (suc k) = ap suc (length-zeros k)

pub zeros-value : (k : ℕ) → digits_from 0 (zeros k) ≡ some 0
unfolding digits_from
zeros-value zero = refl
zeros-value (suc k) = zeros-value k

-- A number below `10 ^ w` is padded to `w` digits that have its value.
pub zero_padded-IsField :
    (w n : ℕ) → n < 10 ^ suc w → suc w < 20 → IsField (suc w) n (zero_padded (suc w) n)
unfolding zero_padded
zero_padded-IsField w n h l =
    let s = decimal_digits 20 n in
    let k = suc w - length s in
    (
      length-append (zeros k) s ∙ omega (arith, length-zeros k, length-decimal_digits 20 w n h),
      All-append IsDigit (zeros k) s (zeros-digits k) (decimal_digits-digits 20 n),
      digits_from-append (zeros k) s 0 0 (zeros-value k)
          ∙ decimal_digits-value 20 n (
              omega (
                arith,
                pow-le-pow_right {n = 10} (omega arith) {i = suc w} {j = 20} (omega arith),
              )),
    )

-- Bytes without a separator.
abbrev pub Lacks : ℕ → List ℕ → Type 0
Lacks sep s = All (λ c. nat_beq c sep ≡ false) s

pub digits-Lacks : (sep : ℕ) (s : List ℕ) → digit sep ≡ false → All IsDigit s → Lacks sep s
digits-Lacks sep [] none_of h = tt
digits-Lacks sep (c ∷ cs) none_of h = (ground arith, digits-Lacks sep cs none_of h.1)

pub split-none : (sep : ℕ) (s : List ℕ) → Lacks sep s → split sep s ≡ s ∷ []
unfolding split
split-none sep [] h = refl
split-none sep (c ∷ cs) h = rw (h.0, split-none sep cs h.1)

pub split-join :
    (sep : ℕ) (s t : List ℕ) → Lacks sep s → split sep (s ++ (sep ∷ t)) ≡ s ∷ split sep t
unfolding split
split-join sep [] t h = ground arith
split-join sep (c ∷ cs) t h = rw (h.0, split-join sep cs t h.1)

pub split_once-join :
    (sep : ℕ) (s t : List ℕ) → Lacks sep s → split_once sep (s ++ (sep ∷ t)) ≡ some (s, t)
unfolding split_once
split_once-join sep [] t h = ground arith
split_once-join sep (c ∷ cs) t h = rw (h.0, split_once-join sep cs t h.1)

pub parse_unsigned-IsField :
    (limit w n : ℕ) (s : List ℕ) → IsField (suc w) n s → n < limit → parse_unsigned limit s ≡ some n
unfolding parse_unsigned
parse_unsigned-IsField limit w n [] h l = absurd (ground arith)
parse_unsigned-IsField limit w n (c ∷ cs) h l = rw h.2 (ground arith)

pub parse_signed-IsField :
    (half w n : ℕ) (s : List ℕ)
    → IsField (suc w) n s
    → n < half
    → parse_signed half s ≡ some (pos n)
unfolding parse_signed
parse_signed-IsField half w n [] h l = absurd (ground arith)
parse_signed-IsField half w n (c ∷ cs) h l = rw h.2 (ground arith)
