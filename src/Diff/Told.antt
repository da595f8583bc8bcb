-- ===== src/Diff/Told.antt =====
-- What the two sides of `diff_signal` of obsj/src/diff.rs show, field by field.
use convobs_rs.Base.{
  ◌≡◌, ◌↔◌, ◌⊎◌, refl, ap, Bool, true, false, if◌then◌else◌, option_beq, nat_eq, Option, none, some,
  inl, inr,
}
use convobs_rs.Base.Int.{ℤ, int_eq}
use convobs_rs.Float.{Floats}
use convobs_rs.Values.{SignalValues}
use convobs_rs.Diff.{SignalDiff, ObsTolerances, near, near32, unless, same_flag, side}

frq_beq_iff : (a b : Option ℤ) → (option_beq a b ≡ true) ↔ (a ≡ b)
frq_beq_iff none none = (λ h. refl, λ h. refl)
frq_beq_iff none (some y) = (λ h. absurd (cc h), λ h. absurd (cc h))
frq_beq_iff (some x) none = (λ h. absurd (cc h), λ h. absurd (cc h))
frq_beq_iff (some x) (some y) =
    (λ h. ap some ((int_eq.beq_iff x y).0 h), λ h. (int_eq.beq_iff x y).1 (cc h))

-- Two values that agree: both absent, or both there and within the tolerance of each other.
pub Within : (fl : Floats) → fl.F64 → Option fl.F64 → Option fl.F64 → Type 0
Within fl tol none none = Unit
Within fl tol (some x) (some y) = fl.le (fl.abs (fl.sub x y)) tol ≡ true
Within fl tol none (some y) = ⊥
Within fl tol (some x) none = ⊥

pub Within32 : (fl : Floats) → fl.F64 → Option fl.F32 → Option fl.F32 → Type 0
Within32 fl tol none none = Unit
Within32 fl tol (some x) (some y) = fl.le (fl.abs (fl.of_f32 (fl.sub32 x y))) tol ≡ true
Within32 fl tol none (some y) = ⊥
Within32 fl tol (some x) none = ⊥

near-Within :
    (fl : Floats) (tol : fl.F64) (a b : Option fl.F64)
    → (near fl a b tol ≡ true) ↔ Within fl tol a b
unfolding near Within
near-Within fl tol none none = (λ h. tt, λ h. refl)
near-Within fl tol (some x) (some y) = (λ h. h, λ h. h)
near-Within fl tol none (some y) = (λ h. absurd (cc h), λ h. absurd h)
near-Within fl tol (some x) none = (λ h. absurd (cc h), λ h. absurd h)

near32-Within32 :
    (fl : Floats) (tol : fl.F64) (a b : Option fl.F32)
    → (near32 fl a b tol ≡ true) ↔ Within32 fl tol a b
unfolding near32 Within32
near32-Within32 fl tol none none = (λ h. tt, λ h. refl)
near32-Within32 fl tol (some x) (some y) = (λ h. h, λ h. h)
near32-Within32 fl tol none (some y) = (λ h. absurd (cc h), λ h. absurd h)
near32-Within32 fl tol (some x) none = (λ h. absurd (cc h), λ h. absurd h)

-- What the two sides show of a field, `blank` where they show nothing: nothing when the values
-- agree, and each its own when they do not.
abbrev pub Tells {ℓ} : {A : Type ℓ} → Type 0 → A → A → A → A → A → Type ℓ
Tells Agrees blank a b shown_a shown_b =
    (Agrees × (shown_a ≡ blank) × (shown_b ≡ blank)) ⊎ ((¬ Agrees) × (shown_a ≡ a) × (shown_b ≡ b))

unless-Tells {ℓ} :
    {A : Type ℓ} {Agrees : Type 0} (agrees : Bool) (a b : Option A)
    → (agrees ≡ true) ↔ Agrees
    → Tells Agrees none a b (unless agrees a) (unless agrees b)
unless-Tells true a b test = inl (test.0 refl, refl, refl)
unless-Tells false a b test = inr ((λ same. absurd (cc (test.1 same))), refl, refl)

flag-Tells :
    (a b : Bool)
    → Tells
        (a ≡ b)
        false
        a
        b
        (if same_flag a b then false else a)
        (if same_flag a b then false else b)
flag-Tells true true = inl (refl, refl, refl)
flag-Tells true false = inr ((λ e. absurd (cc e)), refl, refl)
flag-Tells false true = inr ((λ e. absurd (cc e)), refl, refl)
flag-Tells false false = inl (refl, refl, refl)

module _ {fl : Floats} where
  -- The two sides of two values of a signal, field by field.
  pub record Told (tol : ObsTolerances fl) (a b : SignalValues fl) (x y : SignalDiff fl)
      : Type 0 where
    pub frq : Tells (a.frq ≡ b.frq) none a.frq b.frq x.v.frq y.v.frq
    pub pr : Tells (Within fl tol.pr a.pr b.pr) none a.pr b.pr x.v.pr y.v.pr
    pub cp : Tells (Within fl tol.cp a.cp b.cp) none a.cp b.cp x.v.cp y.v.cp
    pub dop : Tells (Within fl tol.dop a.dop b.dop) none a.dop b.dop x.v.dop y.v.dop
    pub cn0 : Tells (Within32 fl tol.cn0 a.cn0 b.cn0) none a.cn0 b.cn0 x.v.cn0 y.v.cn0
    pub hc : Tells (a.hc ≡ b.hc) false a.hc b.hc x.v.hc y.v.hc
    pub bt : Tells (a.bt ≡ b.bt) false a.bt b.bt x.v.bt y.v.bt
    pub no_slip : (x.ll ≡ false) × (y.ll ≡ false) × (x.v.ll ≡ false) × (y.v.ll ≡ false)
    pub no_arc : (x.v.arc ≡ 0) × (y.v.arc ≡ 0)

  -- Each field of two values of a signal is on neither side when the two agree on it, and on both
  -- sides with its own value when they do not: a measured value agrees when it is absent twice, or
  -- there twice within its tolerance, a channel and a flag when they are equal. The sides show
  -- neither a counter nor a slip.
  pub side-Told :
      (tol : ObsTolerances fl) (a b : SignalValues fl)
      → Told tol a b (side tol a b a) (side tol a b b)
  unfolding side
  side-Told tol a b = record {
    frq = unless-Tells (option_beq a.frq b.frq) a.frq b.frq (frq_beq_iff a.frq b.frq);
    pr = unless-Tells (near fl a.pr b.pr tol.pr) a.pr b.pr (near-Within fl tol.pr a.pr b.pr);
    cp = unless-Tells (near fl a.cp b.cp tol.cp) a.cp b.cp (near-Within fl tol.cp a.cp b.cp);
    dop =
        unless-Tells (near fl a.dop b.dop tol.dop) a.dop b.dop (near-Within fl tol.dop a.dop b.dop);
    cn0 =
        unless-Tells (near32 fl a.cn0 b.cn0 tol.cn0) a.cn0 b.cn0
          (near32-Within32 fl tol.cn0 a.cn0 b.cn0);
    hc = flag-Tells a.hc b.hc;
    bt = flag-Tells a.bt b.bt;
    no_slip = (refl, refl, refl, refl);
    no_arc = (refl, refl);
  }
