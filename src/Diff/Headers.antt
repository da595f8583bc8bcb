-- ===== src/Diff/Headers.antt =====
-- The comparison of two metadata records, `diff_metadata` of obsj/src/diff.rs.
use convobs_rs.Base.{
  ◌≡◌, refl, Bool, true, false, ◌&&◌, if◌then◌else◌, nat_beq, nat_eq, Option, none, some, [], ◌∷◌,
  arith,
}
use convobs_rs.Base.Int.{ℤ, int_beq, int_beq_iff}
use convobs_rs.Float.{Floats}
use convobs_rs.Metadata.{Text, Metadata, default_metadata}

pub record MetadataTolerances (fl : Floats) : Type 0 where
  pub approx_pos : fl.F64
  pub antenna_delta : fl.F64

-- The test `!=` on texts, on intervals and on leap seconds.
abbrev pub text_beq : Text → Text → Bool
text_beq [] [] = true
text_beq [] (y ∷ ys) = false
text_beq (x ∷ xs) [] = false
text_beq (x ∷ xs) (y ∷ ys) = let rest = text_beq xs ys in nat_beq x y && rest

abbrev pub opt_beq {ℓ} : {A : Type ℓ} → (A → A → Bool) → Option A → Option A → Bool
opt_beq eq none none = true
opt_beq eq none (some y) = false
opt_beq eq (some x) none = false
opt_beq eq (some x) (some y) = eq x y

module _ (fl : Floats) where
  -- The test of `cmp_triple`.
  unfoldable pub near_triple :
      Option (fl.F64 × fl.F64 × fl.F64) → Option (fl.F64 × fl.F64 × fl.F64) → fl.F64 → Bool
  near_triple none none tol = true
  near_triple (some (x, y, z)) (some (x', y', z')) tol =
      fl.le (fl.abs (fl.sub x x')) tol
      && fl.le (fl.abs (fl.sub y y')) tol
      && fl.le (fl.abs (fl.sub z z')) tol
  near_triple _ _ tol = false

-- One side of `cmp_str`, and of `cmp_opt` and `cmp_triple`.
abbrev pub text_unless : Bool → Text → Text
text_unless same x = if same then [] else x

abbrev pub option_unless {ℓ} : {A : Type ℓ} → Bool → Option A → Option A
option_unless same x = if same then none else x

module _ {fl : Floats} where
  -- One side of `diff_metadata` for the records `a` and `b`: `x` is one of them. The run and the
  -- comments are left out.
  unfoldable pub metadata_side :
      MetadataTolerances fl → Bool → Metadata fl → Metadata fl → Metadata fl → Metadata fl
  unfolding near_triple
  metadata_side tol ignore_marker a b x = record default_metadata {
    version = text_unless (text_beq a.version b.version) x.version;
    marker = record {
      name =
          if ignore_marker
          then []
          else text_unless (text_beq a.marker.name b.marker.name) x.marker.name;
      number =
          if ignore_marker
          then []
          else text_unless (text_beq a.marker.number b.marker.number) x.marker.number;
      type_ =
          if ignore_marker
          then []
          else text_unless (text_beq a.marker.type_ b.marker.type_) x.marker.type_;
    };
    observer = text_unless (text_beq a.observer b.observer) x.observer;
    agency = text_unless (text_beq a.agency b.agency) x.agency;
    receiver = record {
      number = text_unless (text_beq a.receiver.number b.receiver.number) x.receiver.number;
      type_ = text_unless (text_beq a.receiver.type_ b.receiver.type_) x.receiver.type_;
      version = text_unless (text_beq a.receiver.version b.receiver.version) x.receiver.version;
    };
    antenna = record {
      number = text_unless (text_beq a.antenna.number b.antenna.number) x.antenna.number;
      type_ = text_unless (text_beq a.antenna.type_ b.antenna.type_) x.antenna.type_;
    };
    approx_position =
        option_unless (near_triple fl a.approx_position b.approx_position tol.approx_pos)
          x.approx_position;
    antenna_delta =
        option_unless (near_triple fl a.antenna_delta b.antenna_delta tol.antenna_delta)
          x.antenna_delta;
    interval = option_unless (opt_beq fl.eq a.interval b.interval) x.interval;
    leap_seconds = option_unless (opt_beq int_beq a.leap_seconds b.leap_seconds) x.leap_seconds;
  }

  unfoldable pub diff_metadata :
      Metadata fl → Metadata fl → MetadataTolerances fl → Bool → Metadata fl × Metadata fl
  unfolding metadata_side
  diff_metadata a b tol ignore_marker =
      (metadata_side tol ignore_marker a b a, metadata_side tol ignore_marker a b b)

text_beq_refl : (x : Text) → text_beq x x ≡ true
text_beq_refl [] = refl
text_beq_refl (c ∷ cs) = let rest = text_beq_refl cs in ground arith

text_self : (x t : Text) → text_unless (text_beq x x) t ≡ []
text_self x t = rw (text_beq_refl x)

marker_self :
    (ignore : Bool) (x : Text) → (if ignore then [] else text_unless (text_beq x x) x) ≡ []
marker_self true x = refl
marker_self false x = text_self x x

-- The tolerance admits each position of a record, as it does every number but a NaN.
abbrev pub Admits : (fl : Floats) → fl.F64 → Option (fl.F64 × fl.F64 × fl.F64) → Type 0
Admits fl tol none = Unit
Admits fl tol (some (x, y, z)) =
    (fl.le (fl.abs (fl.sub x x)) tol ≡ true)
    × (fl.le (fl.abs (fl.sub y y)) tol ≡ true)
    × (fl.le (fl.abs (fl.sub z z)) tol ≡ true)

triple_self :
    (fl : Floats) (tol : fl.F64) (o : Option (fl.F64 × fl.F64 × fl.F64))
    → Admits fl tol o
    → option_unless (near_triple fl o o tol) o ≡ none
unfolding near_triple
triple_self fl tol none h = refl
triple_self fl tol (some (x, y, z)) h = rw (h.0, h.1, h.2)

option_self {ℓ} :
    {A : Type ℓ} (eq : A → A → Bool) (o : Option A)
    → opt_beq eq o o ≡ true
    → option_unless (opt_beq eq o o) o ≡ none
option_self eq o h = rw h

leap_self : (o : Option ℤ) → opt_beq int_beq o o ≡ true
leap_self none = refl
leap_self (some x) = (int_beq_iff x x).1 refl

module _ {fl : Floats} where
  metadata_side_self :
      (a : Metadata fl) (tol : MetadataTolerances fl) (ignore_marker : Bool)
      → Admits fl tol.approx_pos a.approx_position
      → Admits fl tol.antenna_delta a.antenna_delta
      → opt_beq fl.eq a.interval a.interval ≡ true
      → metadata_side tol ignore_marker a a a ≡ default_metadata
  unfolding metadata_side
  metadata_side_self a tol ignore_marker hp hd hi i = record default_metadata {
    version = text_self a.version a.version i;
    marker = record {
      name = marker_self ignore_marker a.marker.name i;
      number = marker_self ignore_marker a.marker.number i;
      type_ = marker_self ignore_marker a.marker.type_ i;
    };
    observer = text_self a.observer a.observer i;
    agency = text_self a.agency a.agency i;
    receiver = record {
      number = text_self a.receiver.number a.receiver.number i;
      type_ = text_self a.receiver.type_ a.receiver.type_ i;
      version = text_self a.receiver.version a.receiver.version i;
    };
    antenna = record {
      number = text_self a.antenna.number a.antenna.number i;
      type_ = text_self a.antenna.type_ a.antenna.type_ i;
    };
    approx_position = triple_self fl tol.approx_pos a.approx_position hp i;
    antenna_delta = triple_self fl tol.antenna_delta a.antenna_delta hd i;
    interval = option_self fl.eq a.interval hi i;
    leap_seconds = option_self int_beq a.leap_seconds (leap_self a.leap_seconds) i;
  }

  -- A metadata record has no difference from itself, when the tolerances admit its positions and its
  -- interval equals itself (no number is a NaN).
  diff_metadata_self :
      (a : Metadata fl) (tol : MetadataTolerances fl) (ignore_marker : Bool)
      → Admits fl tol.approx_pos a.approx_position
      → Admits fl tol.antenna_delta a.antenna_delta
      → opt_beq fl.eq a.interval a.interval ≡ true
      → diff_metadata a a tol ignore_marker ≡ (default_metadata, default_metadata)
  unfolding diff_metadata
  diff_metadata_self a tol ignore_marker hp hd hi i =
      let p = metadata_side_self a tol ignore_marker hp hd hi in (p i, p i)
