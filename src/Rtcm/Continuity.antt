-- ===== src/Rtcm/Continuity.antt =====
-- Epochs by continuity in obsj/src/rtcm.rs: `resolve_continuity` answers the occurrence of an epoch
-- that is nearest to the last one.
use mathlib.Core.Path.{subst}
use convobs_rs.Base.{
  ℕ, ◌+◌, ◌*◌, ◌/◌, ◌≤◌, ◌<◌, ◌≡◌, refl, sym, true, false, if◌then◌else◌, List, [], ◌∷◌, All, arith,
  Bool-cases, inl, inr, ◌⊎◌, ltb→lt, ltb_false→le,
}
use convobs_rs.Base.Int.{
  ℤ, pos, pos_part, neg_part, ◌+ℤ◌, ◌-ℤ◌, ◌*ℤ◌, ◌≤ℤ◌, ltb_ℤ, tdiv, tmod, eq_of_parts, +ℤ_bound,
  -ℤ_bound, int_laws, int_bounds,
}
use convobs_rs.Base.Word.{add_i64_fits, sub_i64_fits, mul_i64_fits}
use convobs_rs.Time.{GpsTime, floor_div}
use convobs_rs.Rtcm.{week_ms, half_week_ms, rinex_ticks_per_ms}
use convobs_rs.Rtcm.Week.{continuity_candidate, continuity_diff, closest, resolve_continuity}

-- An offset in the week that an epoch can have: from half a week before its start to half a week
-- after its end.
abbrev pub IsOffset : ℤ → Type 0
IsOffset o = (neg_part o ≤ half_week_ms) × (pos_part o ≤ week_ms + half_week_ms)

-- The tick is at the offset in some week, at most half a week from the millisecond `m`.
abbrev pub Near : ℕ → ℤ → GpsTime → Type 0
Near m offset t =
    (ms : ℤ) × (t ≡ ms *ℤ rinex_ticks_per_ms)
    × ((k : ℤ) × (ms ≡ k *ℤ week_ms +ℤ offset))
    × (ms ≤ℤ pos (m + half_week_ms))
    × (pos m ≤ℤ ms +ℤ pos half_week_ms)

abbrev base : ℕ → ℤ → ℤ
base m offset = pos (m / week_ms) *ℤ week_ms +ℤ offset

abbrev picked : ℤ → ℕ → ℤ
picked b m =
    if ltb_ℤ (b -ℤ pos m) (pos 0 -ℤ pos half_week_ms)
    then b +ℤ pos week_ms
    else if ltb_ℤ (pos half_week_ms) (b -ℤ pos m)
    then b -ℤ pos week_ms
    else b

-- The correction by a week brings a value that is off by less than two weeks to half a week.
abbrev Within : ℤ → ℕ → Type 0
Within b m =
    (pos_part b + half_week_ms ≤ m + neg_part b + 2 * week_ms)
    × (m + neg_part b ≤ pos_part b + week_ms + half_week_ms)

picked_near :
    (b : ℤ) (m : ℕ)
    → Within b m
    → (picked b m ≤ℤ pos (m + half_week_ms)) × (pos m ≤ℤ picked b m +ℤ pos half_week_ms)
picked_near b m h = elim (Bool-cases (ltb_ℤ (b -ℤ pos m) (pos 0 -ℤ pos half_week_ms))) [
  | inl low ↦ let lt = ltb→lt _ _ low in rw low (omega int_laws, omega int_laws)
  | inr notlow ↦ elim (Bool-cases (ltb_ℤ (pos half_week_ms) (b -ℤ pos m))) [
    | inl high ↦ let lt = ltb→lt _ _ high in rw (notlow, high) (omega int_laws, omega int_laws)
    | inr mid ↦
        let le = ltb_false→le _ _ notlow in
        let le' = ltb_false→le _ _ mid in rw (notlow, mid) (omega int_laws, omega int_laws)
  ]
]

picked_bound :
    (b : ℤ) (m : ℕ)
    → (pos_part (picked b m) ≤ pos_part b + week_ms)
      × (neg_part (picked b m) ≤ neg_part b + week_ms)
picked_bound b m =
    let up = +ℤ_bound b (pos week_ms) in let down = -ℤ_bound b (pos week_ms) in ground arith

picked_week :
    (w : ℕ) (offset : ℤ) (m : ℕ) (b : ℤ)
    → b ≡ pos w *ℤ week_ms +ℤ offset
    → (k : ℤ) × (picked b m ≡ k *ℤ week_ms +ℤ offset)
picked_week w offset m b e = elim (Bool-cases (ltb_ℤ (b -ℤ pos m) (pos 0 -ℤ pos half_week_ms))) [
  | inl low ↦ (pos w +ℤ pos 1, rw (low, e) (eq_of_parts _ _ (omega int_laws)))
  | inr notlow ↦ elim (Bool-cases (ltb_ℤ (pos half_week_ms) (b -ℤ pos m))) [
    | inl high ↦ (pos w -ℤ pos 1, rw (notlow, high, e) (eq_of_parts _ _ (omega int_laws)))
    | inr mid ↦ (pos w, rw (notlow, mid) e)
  ]
]

candidate-picked :
    (m : ℕ) (offset : ℤ)
    → m < 100000000000000
    → IsOffset offset
    → continuity_candidate (pos (m / week_ms)) offset (pos m)
      ≡ picked (base m offset) m *ℤ rinex_ticks_per_ms
unfolding continuity_candidate
candidate-picked m offset small ok =
    let b = base m offset in
    rw (
      mul_i64_fits (pos (m / week_ms)) week_ms (omega int_bounds),
      add_i64_fits (pos (m / week_ms) *ℤ week_ms) offset (omega int_bounds),
      sub_i64_fits b (pos m) (omega int_bounds),
      sub_i64_fits (pos 0) (pos half_week_ms) (omega int_bounds),
      add_i64_fits b (pos week_ms) (omega int_bounds),
      sub_i64_fits b (pos week_ms) (omega int_bounds),
      mul_i64_fits (picked b m) rinex_ticks_per_ms
          (let bound = picked_bound b m in omega int_bounds),
    )

candidate-Near :
    (m : ℕ) (offset : ℤ)
    → m < 100000000000000
    → IsOffset offset
    → Near m offset (continuity_candidate (pos (m / week_ms)) offset (pos m))
candidate-Near m offset small ok =
    let b = base m offset in
    (
      picked b m,
      candidate-picked m offset small ok,
      picked_week (m / week_ms) offset m b refl,
      (picked_near b m (omega int_laws)).0,
      (picked_near b m (omega int_laws)).1,
    )

-- The tick is near for one of the offsets.
abbrev pub NearOne : ℕ → List ℤ → GpsTime → Type 0
NearOne m [] t = ⊥
NearOne m (o ∷ os) t = Near m o t ⊎ NearOne m os t

-- No offset has a candidate that is closer to the millisecond `m`.
abbrev pub Closest : ℕ → List ℤ → GpsTime → Type 0
Closest m os t =
    All
      (λ o.
        continuity_diff t (pos m)
        ≤ℤ continuity_diff (continuity_candidate (pos (m / week_ms)) o (pos m)) (pos m))
      os

closest_nil : (w pm : ℤ) (best : GpsTime) (d : ℤ) → closest w pm [] best d ≡ best
unfolding closest
closest_nil w pm best d = refl

closest_better :
    (w pm o : ℤ) (os : List ℤ) (best : GpsTime) (d : ℤ)
    → ltb_ℤ (continuity_diff (continuity_candidate w o pm) pm) d ≡ true
    → closest w pm (o ∷ os) best d
      ≡ closest w pm os
          (continuity_candidate w o pm)
          (continuity_diff (continuity_candidate w o pm) pm)
unfolding closest
closest_better w pm o os best d h = rw (h, closest)

closest_worse :
    (w pm o : ℤ) (os : List ℤ) (best : GpsTime) (d : ℤ)
    → ltb_ℤ (continuity_diff (continuity_candidate w o pm) pm) d ≡ false
    → closest w pm (o ∷ os) best d ≡ closest w pm os best d
unfolding closest
closest_worse w pm o os best d h = rw (h, closest)

module _ (m : ℕ) (small : m < 100000000000000) where
  abbrev Kept : List ℤ → GpsTime → GpsTime → Type 0
  Kept os best r =
      ((r ≡ best) ⊎ NearOne m os r)
      × (continuity_diff r (pos m) ≤ℤ continuity_diff best (pos m))
      × Closest m os r

  take_better :
      (o : ℤ) (os : List ℤ) (best r : GpsTime)
      → IsOffset o
      → let t = continuity_candidate (pos (m / week_ms)) o (pos m) in
        continuity_diff t (pos m) ≤ℤ continuity_diff best (pos m)
        → Kept os t r
        → Kept (o ∷ os) best r
  take_better o os best r ok less (from, low, all) = (
    elim from [
      | inl e ↦ inr (inl (subst (λ z. Near m o z) (sym e) (candidate-Near m o small ok)))
      | inr f ↦ inr (inr f)
    ],
    omega arith,
    (low, all),
  )

  keep_best :
      (o : ℤ) (os : List ℤ) (best r : GpsTime)
      → let t = continuity_candidate (pos (m / week_ms)) o (pos m) in
        continuity_diff best (pos m) ≤ℤ continuity_diff t (pos m)
        → Kept os best r
        → Kept (o ∷ os) best r
  keep_best o os best r less (from, low, all) =
      (elim from [ inl e ↦ inl e | inr f ↦ inr (inr f) ], low, (omega arith, all))

  closest-Kept :
      (os : List ℤ) (best : GpsTime)
      → All IsOffset os
      → Kept os best (closest (pos (m / week_ms)) (pos m) os best (continuity_diff best (pos m)))
  closest-Kept [] best ok = rw closest_nil (inl refl, omega arith, tt)
  closest-Kept (o ∷ os) best ok =
      let w = pos (m / week_ms) in
      let t = continuity_candidate w o (pos m) in
      elim (Bool-cases (ltb_ℤ (continuity_diff t (pos m)) (continuity_diff best (pos m)))) [
        | inl better ↦
            let less = ltb→lt _ _ better in
            subst (λ z. Kept (o ∷ os) best z)
              (sym (closest_better w (pos m) o os best (continuity_diff best (pos m)) better))
              (take_better o os best (closest w (pos m) os t (continuity_diff t (pos m))) ok.0
                (omega arith) (closest-Kept os t ok.1))
        | inr worse ↦
            subst (λ z. Kept (o ∷ os) best z)
              (sym (closest_worse w (pos m) o os best (continuity_diff best (pos m)) worse))
              (keep_best o os best (closest w (pos m) os best (continuity_diff best (pos m)))
                (ltb_false→le _ _ worse) (closest-Kept os best ok.1))
      ]

floor_div_pos : (n d : ℕ) → floor_div (pos n) d ≡ pos (n / d)
unfolding floor_div tdiv tmod
floor_div_pos n d = ground arith

resolve_continuity_pos :
    (offset : ℤ) (offsets : List ℤ) (p : ℕ)
    → let m = p / rinex_ticks_per_ms in
      let first = continuity_candidate (pos (m / week_ms)) offset (pos m) in
      resolve_continuity offset offsets (pos p)
      ≡ closest (pos (m / week_ms)) (pos m) offsets first (continuity_diff first (pos m))
unfolding resolve_continuity tdiv
resolve_continuity_pos offset offsets p = rw (floor_div_pos, resolve_continuity)

-- With the last epoch at the tick `p`, the answer is the occurrence of one of the offsets in some
-- week, at most half a week from the last epoch's millisecond, and no offset has a candidate that
-- is closer. (For `p` below 10 ^ 18, the year 5148, and offsets from half a week before the week
-- to half a week after it.)
pub resolve_continuity-Closest :
    (offset : ℤ) (offsets : List ℤ) (p : ℕ)
    → p < 1000000000000000000
    → All IsOffset (offset ∷ offsets)
    → NearOne
        (p / rinex_ticks_per_ms)
        (offset ∷ offsets)
        (resolve_continuity offset offsets (pos p))
      × Closest
          (p / rinex_ticks_per_ms)
          (offset ∷ offsets)
          (resolve_continuity offset offsets (pos p))
resolve_continuity-Closest offset offsets p small ok =
    let m = p / rinex_ticks_per_ms in
    let first = continuity_candidate (pos (m / week_ms)) offset (pos m) in
    let (from, low, all) = closest-Kept m (omega arith) offsets first ok.1 in
    let near = candidate-Near m offset (omega arith) ok.0 in
    subst (λ z. NearOne m (offset ∷ offsets) z × Closest m (offset ∷ offsets) z)
      (sym (resolve_continuity_pos offset offsets p))
      (
        elim from [ inl e ↦ inl (subst (λ z. Near m offset z) (sym e) near) | inr f ↦ inr f ],
        (low, all),
      )
