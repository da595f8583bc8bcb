-- ===== src/Time/Days.antt =====
-- The day count of obsj/src/obs.rs on its ordinary range: what `floor_div`, `civil_from_days` and
-- `days_from_civil` compute once no step wraps around.
use convobs_rs.Base.{
  ℕ, suc, ◌+◌, ◌-◌, ◌*◌, ◌/◌, ◌%◌, ◌≤◌, ◌<◌, ◌≡◌, ◌⊎◌, inl, inr, ap, arith, ltb, leb, if◌then◌else◌,
}
use native.Mathlib.Nat.{div-add-mod', mod-lt, div-eq_of_lt-le, div-le_self, add-div_right}
use native.Mathlib.Decide.{dec_lt}
use convobs_rs.Base.Int.{ℤ, pos, negsuc, pos_part, neg_part, ◌+ℤ◌, ◌-ℤ◌, ◌*ℤ◌, leb_ℤ, tdiv, tmod}
use convobs_rs.Base.Word.{
  add_pos, sub_pos, mul_pos, ediv, emod, Is64, i64_half, wrap_i64, add_i64, sub_i64, mul_i64,
  as_u32, add_i64_fits, sub_i64_fits,
}
use convobs_rs.Time.{
  div_mod, floor_div, year_of_era, day_of_year, march_month, day_of_month, civil_month,
  civil_of_era, civil_from_days, days_of_era, days_from_civil,
}

-- The next number: the quotient grows by one exactly when the division becomes exact.
div_suc :
    (n d : ℕ)
    → 0 < d
    → ((suc n % d ≡ 0) × (n % d + 1 ≡ d) × (suc n / d ≡ n / d + 1))
      ⊎ ((suc n % d ≡ n % d + 1) × (suc n / d ≡ n / d))
div_suc n d h = elim (dec_lt (n % d + 1) d) [
  | yes p ↦
      let q : suc n / d ≡ n / d =
        div-eq_of_lt-le d (omega (arith, div-add-mod' n d, mod-lt n h))
          (omega (arith, div-add-mod' n d, mod-lt n h)) in
      inr (omega (arith, div-add-mod' (suc n) d, div-add-mod' n d, ap (λ (t : ℕ). t * d) q), q)
  | no p ↦
      let q : suc n / d ≡ n / d + 1 =
        div-eq_of_lt-le d (omega (arith, div-add-mod' n d, mod-lt n h))
          (omega (arith, div-add-mod' n d, mod-lt n h)) in
      inl (
        omega
            (arith, div-add-mod' (suc n) d, div-add-mod' n d, mod-lt n h, ap (λ (t : ℕ). t * d) q),
        omega (arith, mod-lt n h),
        q,
      )
]

pub floor_div-ediv : (n : ℤ) (d : ℕ) → 1 < d → Is64 n → floor_div n d ≡ ediv n d
unfolding floor_div ediv tdiv tmod sub_i64 wrap_i64 ◌-ℤ◌
floor_div-ediv (pos n) d h k = ground arith
floor_div-ediv (negsuc n) d h k = ground (arith, div_suc n d, div-le_self (suc n) d)

pub div_mod-ediv : (n : ℤ) (d : ℕ) → 1 < d → Is64 n → div_mod n d ≡ (ediv n d, pos (emod n d))
unfolding div_mod ediv emod tdiv tmod sub_i64 wrap_i64 ◌-ℤ◌ ◌+ℤ◌
div_mod-ediv (pos n) d h k = ground arith
div_mod-ediv (negsuc n) d h k =
    let p : 0 < d = omega arith in ground (arith, div_suc n d, div-le_self (suc n) d)

-- The year of the era of a day of the era, and the day of that year (counted from March 1st).
abbrev pub yoe_of : ℕ → ℕ
yoe_of x = (x - x / 1460 + x / 36524 - x / 146096) / 365

abbrev pub year_start : ℕ → ℕ
year_start k = k * 365 + k / 4 - k / 100

abbrev pub month_of : ℕ → ℕ
month_of mp = if ltb mp 10 then mp + 3 else mp - 9

abbrev pub IsSmall : ℤ → Type 0
IsSmall z = (pos_part z < 10000000000000) × (neg_part z < 10000000000000)

year_of_era-pos : (x : ℕ) → x < 146097 → year_of_era (pos x) ≡ pos (yoe_of x)
unfolding year_of_era tdiv
year_of_era-pos x h = simp (
  sub_pos x (x / 1460) (omega arith) (omega arith),
  add_pos (x - x / 1460) (x / 36524) (omega arith),
  sub_pos (x - x / 1460 + x / 36524) (x / 146096) (omega arith) (omega arith),
)

day_of_year-pos :
    (x k : ℕ)
    → k ≤ 399
    → year_start k ≤ x
    → x < 146097
    → day_of_year (pos x) (pos k) ≡ pos (x - year_start k)
unfolding day_of_year tdiv
day_of_year-pos x k hk le h = simp (
  mul_pos k 365 (omega arith),
  add_pos (k * 365) (k / 4) (omega arith),
  sub_pos (k * 365 + k / 4) (k / 100) (omega arith) (omega arith),
  sub_pos x (year_start k) le (omega arith),
)

march_month-pos : (y : ℕ) → y ≤ 366 → march_month (pos y) ≡ pos ((5 * y + 2) / 153)
unfolding march_month tdiv
march_month-pos y h =
    simp (mul_pos y 5 (omega arith), add_pos (y * 5) 2 (omega arith)) (ap pos (omega arith))

day_of_month-pos :
    (y p : ℕ)
    → y ≤ 366
    → p ≤ 11
    → (153 * p + 2) / 5 ≤ y
    → day_of_month (pos y) (pos p) ≡ pos (y - (153 * p + 2) / 5 + 1)
unfolding day_of_month tdiv
day_of_month-pos y p h hp le =
    simp
      (
        mul_pos p 153 (omega arith),
        add_pos (p * 153) 2 (omega arith),
        sub_pos y ((p * 153 + 2) / 5) (omega arith) (omega arith),
        add_pos (y - (p * 153 + 2) / 5) 1 (omega arith),
      )
      (ap pos (omega arith))

civil_month-pos : (p : ℕ) → p ≤ 11 → civil_month (pos p) ≡ pos (month_of p)
unfolding civil_month
civil_month-pos p h = ground (arith, add_pos p 3, sub_pos p 9)

as_u32-pos : (n : ℕ) → n < 1000 → as_u32 (pos n) ≡ n
unfolding as_u32
as_u32-pos n h = omega arith

year_sum :
    (era : ℤ) (k i : ℕ)
    → k ≤ 399
    → i ≤ 1
    → IsSmall era
    → add_i64 (add_i64 (pos k) (mul_i64 era 400)) (pos i) ≡ era *ℤ 400 +ℤ pos (k + i)
unfolding add_i64 mul_i64 wrap_i64 ◌+ℤ◌ ◌*ℤ◌
year_sum (pos n) k i hk hi small = ground arith
year_sum (negsuc n) k i hk hi small = ground arith

-- One for January and February, which belong to the March year before.
abbrev pub early : ℕ → ℕ
early m = if leb m 2 then 1 else 0

early-pos : (m : ℕ) → (if leb_ℤ (pos m) (pos 2) then pos 1 else pos 0) ≡ pos (early m)
early-pos m = ground arith

-- The date of day `x` of an era, in the numbers of ℕ.
pub civil_of_era_lem :
    (era : ℤ) (x : ℕ)
    → x < 146097
    → IsSmall era
    → let k = yoe_of x in
      let y = x - year_start k in
      let p = (5 * y + 2) / 153 in
      civil_of_era era (pos x)
      ≡ (era *ℤ 400 +ℤ pos (k + early (month_of p)), month_of p, y - (153 * p + 2) / 5 + 1)
unfolding civil_of_era
civil_of_era_lem era x h small =
    let k = yoe_of x in
    let y = x - year_start k in
    let p = (5 * y + 2) / 153 in
    rw (
      year_of_era-pos x h,
      day_of_year-pos x k (omega arith) (omega arith) h,
      march_month-pos y (omega arith),
      civil_month-pos p (omega arith),
      day_of_month-pos y p (omega arith) (omega arith) (omega arith),
      as_u32-pos (month_of p) (ground arith),
      as_u32-pos (y - (153 * p + 2) / 5 + 1) (omega arith),
      early-pos (month_of p),
      year_sum era k (early (month_of p)) (omega arith) (ground arith) small,
    )

-- The era, which the code computes by a division that truncates towards zero, and the rest.
sub_negsuc : (n a : ℕ) → n + a < i64_half → sub_i64 (negsuc n) (pos a) ≡ negsuc (n + a)
unfolding sub_i64 ◌-ℤ◌ wrap_i64
sub_negsuc n a h = ground arith

sub_negsuc₂ : (n m : ℕ) → n ≤ m → m < i64_half → sub_i64 (negsuc n) (negsuc m) ≡ pos (m - n)
unfolding sub_i64 ◌-ℤ◌ wrap_i64
sub_negsuc₂ n m le h = ground arith

mul_negsuc :
    (q d : ℕ) → 0 < suc q * d → suc q * d < i64_half → mul_i64 (negsuc q) d ≡ negsuc (suc q * d - 1)
unfolding mul_i64 ◌*ℤ◌ wrap_i64
mul_negsuc q d p h = ground arith

-- `if z >= 0 { z } else { z - (d - 1) } / d` rounds down.
trunc_era :
    (z : ℤ) (d : ℕ)
    → 0 < d
    → d < 1000000
    → IsSmall z
    → tdiv (if leb_ℤ (pos 0) z then z else sub_i64 z (pos (d - 1))) d ≡ ediv z d
unfolding tdiv ediv
trunc_era (pos n) d h k small = ground arith
trunc_era (negsuc n) d h k small =
    rw (sub_negsuc n (d - 1) (omega arith)) (ground (arith, same, add-div_right n h))
  where
    same : suc (n + (d - 1)) / d ≡ (n + d) / d
    same = ap (λ (t : ℕ). t / d) (omega arith)

pub era_rest :
    (z : ℤ) (d : ℕ)
    → 0 < d
    → d < 1000000
    → IsSmall z
    → sub_i64 z (mul_i64 (ediv z d) d) ≡ pos (emod z d)
unfolding ediv emod
era_rest (pos n) d h k small =
    rw
      (
        mul_pos (n / d) d (omega (arith, div-add-mod' n d)),
        sub_pos n (n / d * d) (omega (arith, div-add-mod' n d)) (omega arith),
      )
      (ap pos (omega (arith, div-add-mod' n d)))
era_rest (negsuc n) d h k small =
    rw
      (
        mul_negsuc (n / d) d (omega (arith, div-add-mod' n d, mod-lt n h))
            (omega (arith, div-add-mod' n d, mod-lt n h)),
        sub_negsuc₂ n (suc (n / d) * d - 1) (omega (arith, div-add-mod' n d, mod-lt n h))
            (omega (arith, div-add-mod' n d, mod-lt n h)),
      )
      (ap pos (omega (arith, div-add-mod' n d, mod-lt n h)))

-- A day number below 10 ^ 13 falls into the era and the day of the era by division.
pub civil_from_days_lem :
    (days : ℤ)
    → IsSmall (days +ℤ pos 719468)
    → let z = days +ℤ pos 719468 in
      civil_from_days days ≡ civil_of_era (ediv z 146097) (pos (emod z 146097))
unfolding civil_from_days
civil_from_days_lem days small =
    let z = days +ℤ pos 719468 in
    rw (
      add_i64_fits days (pos 719468) (omega arith),
      trunc_era z 146097 (omega arith) (omega arith) small,
      era_rest z 146097 (omega arith) (omega arith) small,
    )

-- The day of the year before month `m` (from March 1st), and the day of the era, of a date in
-- year `k` of the era.
abbrev pub month_start : ℕ → ℕ
month_start m = (153 * (if ltb 2 m then m - 3 else m + 9) + 2) / 5

abbrev pub day_of_era : ℕ → ℕ → ℕ → ℕ
day_of_era k m d = year_start k + month_start m + (d - 1)

day_sum :
    (k i : ℕ)
    → k ≤ 399
    → 1 ≤ i
    → i < 0x200000000
    → add_i64
        (sub_i64 (add_i64 (mul_i64 (pos k) 365) (pos (k / 4))) (pos (k / 100)))
        (pos i -ℤ pos 1)
      ≡ pos (year_start k + (i - 1))
unfolding ◌-ℤ◌
day_sum k i hk h1 h =
    rw
      (
        mul_pos k 365 (omega arith),
        add_pos (k * 365) (k / 4) (omega arith),
        sub_pos (k * 365 + k / 4) (k / 100) (omega arith) (omega arith),
      )
      (ground (arith, add_pos (year_start k) (i - 1)))

era_sum :
    (era : ℤ) (x : ℕ)
    → x ≤ 0x300000000
    → IsSmall era
    → sub_i64 (add_i64 (mul_i64 era 146097) (pos x)) (pos 719468)
      ≡ era *ℤ 146097 +ℤ pos x -ℤ pos 719468
unfolding add_i64 mul_i64 sub_i64 wrap_i64 ◌+ℤ◌ ◌-ℤ◌ ◌*ℤ◌
era_sum (pos n) x hx small = ground arith
era_sum (negsuc n) x hx small = ground arith

pub march_days :
    (m d : ℕ)
    → m ≤ 12
    → 1 ≤ d
    → d < 0x100000000
    → (month_start m + d < 0x100001000) × (1 ≤ month_start m + d)
march_days m d hm h1 h31 = ground arith

-- The day of the month may be any `u32` here.
pub days_of_era_lem :
    (era : ℤ) (k m d : ℕ)
    → k ≤ 399
    → m ≤ 12
    → 1 ≤ d
    → d < 0x100000000
    → IsSmall era
    → days_of_era era (pos k) m d ≡ era *ℤ 146097 +ℤ pos (day_of_era k m d) -ℤ pos 719468
unfolding days_of_era tdiv
days_of_era_lem era k m d hk hm h1 h31 small =
    let range = march_days m d hm h1 h31 in
    rw (day_sum k (month_start m + d) hk range.1 (omega arith))
      (rw (← same) (era_sum era (day_of_era k m d) (omega arith) small))
  where
    same : day_of_era k m d ≡ year_start k + (month_start m + d - 1)
    same = omega arith

early-if : (m : ℕ) → (if leb m 2 then pos 1 else pos 0) ≡ pos (early m)
early-if m = ground arith

pub days_from_civil_lem :
    (year : ℤ) (m d : ℕ)
    → IsSmall (year -ℤ pos (early m))
    → let y = year -ℤ pos (early m) in
      days_from_civil year m d ≡ days_of_era (ediv y 400) (pos (emod y 400)) m d
unfolding days_from_civil
days_from_civil_lem year m d small =
    let y = year -ℤ pos (early m) in
    rw (
      early-if m,
      sub_i64_fits year (pos (early m)) (omega arith),
      trunc_era y 400 (omega arith) (omega arith) small,
      era_rest y 400 (omega arith) (omega arith) small,
    )
