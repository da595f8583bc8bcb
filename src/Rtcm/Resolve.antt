-- ===== src/Rtcm/Resolve.antt =====
-- What the scan of `resolve_week` in obsj/src/rtcm.rs finds: the one candidate in the window, or
-- that there is none, or that there are two.
use native.Mathlib.Decide.{dec_lt}
use convobs_rs.Base.{
  ◌+◌, ◌≤◌, ◌≡◌, ◌≢◌, ◌⊎◌, refl, sym, ◌∙◌, true, false, List, [], ◌∷◌, contains, arith, inl, inr,
  Bool-cases, if◌then◌else◌, nat_beq,
}
use convobs_rs.Base.Int.{ℤ, pos, negsuc, int_eq, int_beq_iff}
use convobs_rs.Error.{Result, ok, err}
use convobs_rs.Time.{GpsTime}
use convobs_rs.Rtcm.{TimeInterval}
use convobs_rs.Rtcm.Week.{
  Scan, in_window, scan_ticks, week_ticks, scan_offset, scan_offsets, scan_start, scan_result,
  resolve_week,
}

-- The candidates in the order of the two loops.
pub candidates : TimeInterval → List ℤ → List ℤ
candidates week [] = []
candidates week (o ∷ os) =
    week_ticks week o (negsuc 0)
    ∷ week_ticks week o (pos 0)
    ∷ week_ticks week o (pos 1)
    ∷ week_ticks week o (pos 2)
    ∷ candidates week os

scan_list : TimeInterval → List ℤ → Scan → Scan
scan_list week [] s = s
scan_list week (x ∷ xs) s = scan_list week xs (scan_ticks week x s)

scan_offsets-scan_list :
    (week : TimeInterval) (offsets : List ℤ) (s : Scan)
    → scan_offsets week offsets s ≡ scan_list week (candidates week offsets) s
unfolding scan_offsets scan_offset scan_list candidates
scan_offsets-scan_list week [] s = refl
scan_offsets-scan_list week (o ∷ os) s = scan_offsets-scan_list week os (scan_offset week o s)

abbrev pub Member : ℤ → List ℤ → Type 0
Member x xs = contains xs x ≡ true

-- The candidate `t` is the only one in the window.
abbrev pub Only : TimeInterval → List ℤ → ℤ → Type 0
Only week xs t =
    Member t xs
    × (in_window week t ≡ true)
    × ((x : ℤ) → Member x xs → in_window week x ≡ true → x ≡ t)

abbrev pub Two : TimeInterval → List ℤ → Type 0
Two week xs =
    (x : ℤ) × (y : ℤ) × Member x xs
    × Member y xs
    × (in_window week x ≡ true)
    × (in_window week y ≡ true)
    × (x ≢ y)

abbrev pub Nothing : TimeInterval → List ℤ → Type 0
Nothing week xs = (x : ℤ) → Member x xs → in_window week x ≡ false

record Inv (week : TimeInterval) (done : List ℤ) (s : Scan) : Type 0 where
  seen_is : (x : ℤ) → contains s.seen x ≡ contains done x
  at_zero : s.nmatch ≡ 0 → Nothing week done
  at_one : s.nmatch ≡ 1 → Only week done s.matched
  at_many : 2 ≤ s.nmatch → Two week done

-- The three branches of the loop's body.
module _ (week : TimeInterval) (done : List ℤ) (s : Scan) (x : ℤ) (inv : Inv week done s) where
  known : contains s.seen x ≡ true → Inv week (x ∷ done) s
  known old = record {
    seen_is = λ z. ground (arith, inv.seen_is z, inv.seen_is x, int_beq_iff z x);
    at_zero = λ e z m. ground (arith, inv.at_zero e z, inv.seen_is x, int_beq_iff z x);
    at_one = λ e. (
      ground (arith, inv.at_one e),
      ground (arith, inv.at_one e),
      λ z m w. (inv.at_one e).2 z (ground (arith, inv.seen_is x, int_beq_iff z x)) w,
    );
    at_many = λ e.
        let (a, b, ma, mb, wa, wb, ne) = inv.at_many e in
        (a, b, ground arith, ground arith, wa, wb, ne);
  }

  outside :
      contains s.seen x ≡ false
      → in_window week x ≡ false
      → Inv week (x ∷ done) (record s { seen = x ∷ s.seen })
  outside new out = record {
    seen_is = λ z. ground (arith, inv.seen_is z);
    at_zero = λ e z m. ground (arith, inv.at_zero e z, int_beq_iff z x);
    at_one = λ e. (
      ground (arith, inv.at_one e),
      ground (arith, inv.at_one e),
      λ z m w. (inv.at_one e).2 z (ground (arith, int_beq_iff z x)) w,
    );
    at_many = λ e.
        let (a, b, ma, mb, wa, wb, ne) = inv.at_many e in
        (a, b, ground arith, ground arith, wa, wb, ne);
  }

  inside :
      contains s.seen x ≡ false
      → in_window week x ≡ true
      → Inv week (x ∷ done) (record { matched = x; nmatch = s.nmatch + 1; seen = x ∷ s.seen })
  inside new hit = record {
    seen_is = λ z. ground (arith, inv.seen_is z);
    at_zero = λ e. absurd (omega arith);
    at_one = λ e. (
      ground (arith, int_beq_iff x x),
      hit,
      λ z m w. ground (arith, inv.at_zero (omega arith) z, int_beq_iff z x),
    );
    at_many = λ e. elim (dec_lt 1 s.nmatch) [
      | yes p ↦
          let (a, b, ma, mb, wa, wb, ne) = inv.at_many p in
          (a, b, ground arith, ground arith, wa, wb, ne)
      | no p ↦
          let only = inv.at_one (omega arith) in
          (
            x,
            s.matched,
            ground (arith, int_beq_iff x x),
            ground arith,
            hit,
            only.1,
            λ same. ground (arith, inv.seen_is x, rw (← same) at only.0),
          )
    ];
  }

  scan_ticks-Inv : Inv week (x ∷ done) (scan_ticks week x s)
  unfolding scan_ticks
  scan_ticks-Inv = elim (Bool-cases (contains s.seen x)) [
    | inl old ↦ rw (old, scan_ticks) (known old)
    | inr new ↦ elim (Bool-cases (in_window week x)) [
      | inl hit ↦ rw (new, hit, scan_ticks) (inside new hit)
      | inr out ↦ rw (new, out, scan_ticks) (outside new out)
    ]
  ]

-- The candidates that were scanned, the latest first.
abbrev scanned : List ℤ → List ℤ → List ℤ
scanned done [] = done
scanned done (x ∷ xs) = scanned (x ∷ done) xs

scan_list-Inv :
    (week : TimeInterval) (done xs : List ℤ) (s : Scan)
    → Inv week done s
    → Inv week (scanned done xs) (scan_list week xs s)
unfolding scan_list
scan_list-Inv week done [] s inv = inv
scan_list-Inv week done (x ∷ xs) s inv =
    scan_list-Inv week (x ∷ done) xs (scan_ticks week x s) (scan_ticks-Inv week done s x inv)

start-Inv : (week : TimeInterval) → Inv week [] scan_start
start-Inv week = record {
  seen_is = λ x. refl;
  at_zero = λ e x m. absurd (ground arith);
  at_one = λ e. absurd (omega arith);
  at_many = λ e. absurd (omega arith);
}

contains-scanned :
    (done xs : List ℤ) (z : ℤ)
    → contains (scanned done xs) z ≡ (if contains xs z then true else contains done z)
contains-scanned done [] z = refl
contains-scanned done (x ∷ xs) z = contains-scanned (x ∷ done) xs z ∙ ground arith

-- The three outcomes, for what `scan_list` leaves.
abbrev pub Outcome : TimeInterval → List ℤ → Result GpsTime → Type 0
Outcome week xs (ok t) = Only week xs t
Outcome week xs (err e) = Nothing week xs ⊎ Two week xs

result-Outcome :
    (week : TimeInterval) (xs : List ℤ) (s : Scan) → Inv week xs s → Outcome week xs (scan_result s)
unfolding scan_result
result-Outcome week xs s inv = elim (dec_lt s.nmatch 1) [
  | yes p ↦ let e : s.nmatch ≡ 0 = omega arith in rw (e) (inl (inv.at_zero e))
  | no p ↦ elim (dec_lt 1 s.nmatch) [
    | yes q ↦
        let e0 : nat_beq s.nmatch 0 ≡ false = ground arith in
        let e1 : nat_beq s.nmatch 1 ≡ false = ground arith in rw (e0, e1) (inr (inv.at_many q))
    | no q ↦ let e : s.nmatch ≡ 1 = omega arith in rw (e) (inv.at_one e)
  ]
]

-- What the scan finds depends on the members alone.
module _ (week : TimeInterval) (xs ys : List ℤ) (s : Scan)
    (same : (z : ℤ) → contains xs z ≡ contains ys z) where
  same_members : Inv week xs s → Inv week ys s
  same_members inv = record {
    seen_is = λ z. inv.seen_is z ∙ same z;
    at_zero = λ e z m. inv.at_zero e z (same z ∙ m);
    at_one = λ e.
        let (m, w, only) = inv.at_one e in
        (sym (same s.matched) ∙ m, w, λ z mz. only z (same z ∙ mz));
    at_many = λ e.
        let (a, b, ma, mb, wa, wb, ne) = inv.at_many e in
        (a, b, sym (same a) ∙ ma, sym (same b) ∙ mb, wa, wb, ne);
  }

-- `resolve_week` answers the candidate that is in the window when it is the only one; it answers
-- an error only when none is in the window or two different ones are.
pub resolve_week-Outcome :
    (week : TimeInterval) (offsets : List ℤ)
    → Outcome week (candidates week offsets) (resolve_week offsets week)
unfolding resolve_week
resolve_week-Outcome week offsets =
    let xs = candidates week offsets in
    let inv = scan_list-Inv week [] xs scan_start (start-Inv week) in
    let same = λ (z : ℤ). contains-scanned [] xs z ∙ ground arith in
    rw scan_offsets-scan_list (
      result-Outcome week xs (scan_list week xs scan_start)
        (same_members week (scanned [] xs) xs (scan_list week xs scan_start) same inv))
