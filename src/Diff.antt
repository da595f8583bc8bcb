-- ===== src/Diff.antt =====
-- The comparator of obsj/src/diff.rs: two streams of observations, by epoch and signal, and two
-- metadata records. The index of a stream holds the observation where the code holds its position.
mod Tests
pub mod Observations
pub mod Told
pub mod Same
pub mod Headers
use convobs_rs.Base.{
  ℕ, Bool, true, false, not, ◌&&◌, ◌||◌, ltb, nat_beq, if◌then◌else◌, Eq, ◌==◌, option_beq,
  contains, Option, none, some, is_some, List, [], ◌∷◌, ◌++◌, map, ◌>>=?◌, unwrap_or,
}
use convobs_rs.Base.Int.{ℤ, ltb_ℤ, int_eq}
use convobs_rs.Base.Map.{Map, get, insert}
use convobs_rs.Arc.{transition, key_of}
use convobs_rs.Float.{Floats}
use convobs_rs.Ids.{SatId, SigId, SignalKey, key_eq}
use convobs_rs.Time.{GpsTime}
use convobs_rs.Values.{SignalValues, SignalObservation, default_values, is_zero}

pub record ObsTolerances (fl : Floats) : Type 0 where
  pub pr : fl.F64
  pub cp : fl.F64
  pub dop : fl.F64
  pub cn0 : fl.F64

pub record SignalDiff (fl : Floats) : Type 0 where
  pub v : SignalValues fl
  pub ll : Bool

pub record DiffRecord (fl : Floats) : Type 0 where
  pub t : GpsTime
  pub key : SignalKey
  pub a : Option (SignalDiff fl)
  pub b : Option (SignalDiff fl)

-- The order of the identifiers, by their bytes.
abbrev pub less : List (ℕ × ℕ) → Bool
less [] = false
less ((x, y) ∷ rest) = let later = less rest in ltb x y || (nat_beq x y && later)

abbrev pub key_less : SignalKey → SignalKey → Bool
key_less j k = less (
    (j.sat.b0, k.sat.b0)
    ∷ (j.sat.b1, k.sat.b1)
    ∷ (j.sat.b2, k.sat.b2)
    ∷ (j.sig.band, k.sig.band)
    ∷ (j.sig.attribute, k.sig.attribute)
    ∷ [])

-- A sort by a strict order: the keys that are sorted are all different.
unfoldable pub insert_sorted {ℓ} : {A : Type ℓ} → (A → A → Bool) → A → List A → List A
insert_sorted lt x [] = x ∷ []
insert_sorted lt x (y ∷ ys) =
    let rest = insert_sorted lt x ys in if lt y x then y ∷ rest else x ∷ y ∷ ys

unfoldable pub sort {ℓ} : {A : Type ℓ} → (A → A → Bool) → List A → List A
unfolding insert_sorted
sort lt [] = []
sort lt (x ∷ xs) = insert_sorted lt x (sort lt xs)

-- The members in order, each once: the loops with a set of those seen.
unfoldable pub once {ℓ} : {A : Type ℓ} ⦃e : Eq A⦄ → List A → List A → List A
once seen [] = []
once seen (x ∷ xs) = if contains seen x then once seen xs else x ∷ once (x ∷ seen) xs

-- The index of a stream: the epochs with their first observation of each signal, and the times in
-- the order in which they come.
abbrev pub Epoch : Floats → Type 0
Epoch fl = Map SignalKey (SignalObservation fl)

pub record ObsIndex (fl : Floats) : Type 0 where
  pub epochs : Map GpsTime (Epoch fl)
  pub times : List GpsTime

abbrev pub same_flag : Bool → Bool → Bool
same_flag true b = b
same_flag false b = not b

-- The two sides of a field: kept unless they agree.
abbrev pub unless {ℓ} : {A : Type ℓ} → Bool → Option A → Option A
unless agree a = if agree then none else a

-- The tests of `cmp_f64` and `cmp_f32`.
unfoldable pub near : (fl : Floats) → Option fl.F64 → Option fl.F64 → fl.F64 → Bool
near fl none none tol = true
near fl (some x) (some y) tol = fl.le (fl.abs (fl.sub x y)) tol
near fl _ _ tol = false

unfoldable pub near32 : (fl : Floats) → Option fl.F32 → Option fl.F32 → fl.F64 → Bool
near32 fl none none tol = true
near32 fl (some x) (some y) tol = fl.le (fl.abs (fl.of_f32 (fl.sub32 x y))) tol
near32 fl _ _ tol = false

module _ {fl : Floats} where
  abbrev pub zero_diff : SignalDiff fl
  zero_diff = record { v = default_values; ll = false }

  -- `SignalDiff::is_zero`
  unfoldable pub diff_is_zero : SignalDiff fl → Bool
  diff_is_zero d = is_zero d.v && not d.ll

  -- `or_insert`
  abbrev pub or_insert : SignalKey → SignalObservation fl → Epoch fl → Epoch fl
  or_insert k o m = if is_some (get k m) then m else insert k o m

  unfoldable pub index_one : ObsIndex fl → SignalObservation fl → ObsIndex fl
  index_one ix o = elim (get o.t ix.epochs) [
    | none ↦ record {
      epochs = insert o.t (or_insert (key_of o) o []) ix.epochs;
      times = ix.times ++ (o.t ∷ []);
    }
    | some m ↦ record ix { epochs = insert o.t (or_insert (key_of o) o m) ix.epochs }
  ]

  unfoldable pub index_from : ObsIndex fl → List (SignalObservation fl) → ObsIndex fl
  unfolding index_one
  index_from ix [] = ix
  index_from ix (o ∷ os) = index_from (index_one ix o) os

  unfoldable pub index_observations : List (SignalObservation fl) → ObsIndex fl
  unfolding index_from
  index_observations os = index_from (record { epochs = []; times = [] }) os

  -- The observation of a signal at an epoch.
  abbrev pub lookup : ObsIndex fl → GpsTime → SignalKey → Option (SignalObservation fl)
  lookup ix t k = get t ix.epochs >>=? λ m. get k m

  abbrev pub values_as_diff : SignalValues fl → SignalDiff fl
  values_as_diff v = record { v = record v { arc = 0 }; ll = false }

  -- One side of `diff_signal` for two values `a` and `b`: `x` is one of them.
  unfoldable pub side :
      ObsTolerances fl → SignalValues fl → SignalValues fl → SignalValues fl → SignalDiff fl
  unfolding near near32
  side tol a b x = record {
    v = record default_values {
      frq = unless (option_beq a.frq b.frq) x.frq;
      pr = unless (near fl a.pr b.pr tol.pr) x.pr;
      cp = unless (near fl a.cp b.cp tol.cp) x.cp;
      dop = unless (near fl a.dop b.dop tol.dop) x.dop;
      cn0 = unless (near32 fl a.cn0 b.cn0 tol.cn0) x.cn0;
      hc = if same_flag a.hc b.hc then false else x.hc;
      bt = if same_flag a.bt b.bt then false else x.bt;
    };
    ll = false;
  }

  unfoldable pub diff_signal :
      ObsTolerances fl
      → Option (SignalValues fl)
      → Option (SignalValues fl)
      → Option (SignalDiff fl) × Option (SignalDiff fl)
  unfolding side
  diff_signal tol none none = (none, none)
  diff_signal tol none (some b) = (none, some (values_as_diff b))
  diff_signal tol (some a) none = (some (values_as_diff a), none)
  diff_signal tol (some a) (some b) = (some (side tol a b a), some (side tol a b b))
