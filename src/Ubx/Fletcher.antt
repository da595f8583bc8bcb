-- ===== src/Ubx/Fletcher.antt =====
-- What the loop of `checksum` in obsj/src/ubx.rs adds up: the sum of the bytes, and the sum in which a
-- byte counts once for itself and once for each byte behind it.
use convobs_rs.Base.{ℕ, suc, ◌+◌, ◌*◌, ◌%◌, ◌≡◌, refl, ◌∙◌, List, [], ◌∷◌, length, arith}
use convobs_rs.Ubx.Scan.{fletcher, checksum}

pub total : List ℕ → ℕ
total [] = 0
total (x ∷ xs) = x + total xs

pub weighted : List ℕ → ℕ
weighted [] = 0
weighted (x ∷ xs) = suc (length xs) * x + weighted xs

fletcher_lem :
    (xs : List ℕ) (a b : ℕ)
    → fletcher (a % 256) (b % 256) xs
      ≡ ((a + total xs) % 256, (b + length xs * a + weighted xs) % 256)
unfolding fletcher total weighted
fletcher_lem [] a b =
    let same_a : a + 0 ≡ a = omega arith in
    let same_b : b + 0 * a + 0 ≡ b = grind arith in rw (same_a, same_b) refl
fletcher_lem (x ∷ xs) a b =
    let a' : (a % 256 + x) % 256 ≡ (a + x) % 256 = omega arith in
    let b' : (b % 256 + (a + x) % 256) % 256 ≡ (b + (a + x)) % 256 = omega arith in
    let first : a + x + total xs ≡ a + (x + total xs) = omega arith in
    let second : b + (a + x) + length xs * (a + x) + weighted xs
        ≡ b + suc (length xs) * a + (suc (length xs) * x + weighted xs) =
      grind arith in
    rw (a', b', fletcher_lem xs (a + x) (b + (a + x)), first, second) refl

pub checksum-total : (xs : List ℕ) → checksum xs ≡ (total xs % 256, weighted xs % 256)
unfolding checksum
checksum-total xs =
    let second : length xs * 0 + weighted xs ≡ weighted xs = grind arith in
    let first : 0 + length xs * 0 + weighted xs ≡ weighted xs = grind arith in
    let none : 0 + total xs ≡ total xs = omega arith in fletcher_lem xs 0 0 ∙ rw (first, none) refl
