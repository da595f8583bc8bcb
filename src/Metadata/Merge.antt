-- ===== src/Metadata/Merge.antt =====
-- `Metadata::merge` of obsj/src/obs.rs is associative, with the default record as its unit: a header
-- gathered record by record does not depend on how the records are grouped.
use mathlib.Core.List.{append_assoc}
use convobs_rs.Base.{
  ◌≡◌, refl, Bool, not, if◌then◌else◌, Option, none, some, List, [], ◌∷◌, ◌++◌, arith,
}
use convobs_rs.Float.{Floats}
use convobs_rs.Metadata.{
  Metadata, MetadataRun, Receiver, Antenna, run_is_zero, receiver_is_zero, antenna_is_zero, over,
  is_none, is_empty, default_metadata, default_run, default_receiver, default_antenna, merge,
}

over_assoc {ℓ} :
    {A : Type ℓ} (unset : A → Bool) (a b c : A)
    → over unset (over unset a b) c ≡ over unset a (over unset b c)
over_assoc unset a b c = ground arith

-- A value that is unset is the default.
over_text {ℓ} : {A : Type ℓ} (l : List A) → over is_empty [] l ≡ l
over_text [] = refl
over_text (x ∷ l) = refl

over_option {ℓ} : {A : Type ℓ} (o : Option A) → over is_none none o ≡ o
over_option none = refl
over_option (some x) = refl

over_run : (r : MetadataRun) → over run_is_zero default_run r ≡ r
over_run r = ground arith

over_receiver : (r : Receiver) → over receiver_is_zero default_receiver r ≡ r
over_receiver r = ground arith

over_antenna : (r : Antenna) → over antenna_is_zero default_antenna r ≡ r
over_antenna r = ground arith

over_comment {ℓ} : {A : Type ℓ} (l : List A) → (if not (is_empty l) then [] ++ l else []) ≡ l
over_comment [] = refl
over_comment (x ∷ l) = refl

comment_assoc {ℓ} :
    {A : Type ℓ} (a b : List A) (c : List A)
    → (if not (is_empty c)
        then (if not (is_empty b) then a ++ b else a) ++ c
        else (if not (is_empty b) then a ++ b else a))
      ≡ (let bc = if not (is_empty c) then b ++ c else b in
          if not (is_empty bc) then a ++ bc else a)
comment_assoc a b [] = refl
comment_assoc a [] (z ∷ c) = refl
comment_assoc a (y ∷ b) (z ∷ c) = append_assoc a (y ∷ b) (z ∷ c)

module _ {fl : Floats} where
  -- Merging is associative: a header gathered from records does not depend on how they are
  -- grouped.
  merge_assoc : (a b c : Metadata fl) → merge (merge a b) c ≡ merge a (merge b c)
  unfolding merge
  merge_assoc a b c = λ i. record {
    version = over_assoc is_empty a.version b.version c.version i;
    run = over_assoc run_is_zero a.run b.run c.run i;
    comment = comment_assoc a.comment b.comment c.comment i;
    marker = record {
      name = over_assoc is_empty a.marker.name b.marker.name c.marker.name i;
      number = over_assoc is_empty a.marker.number b.marker.number c.marker.number i;
      type_ = over_assoc is_empty a.marker.type_ b.marker.type_ c.marker.type_ i;
    };
    observer = over_assoc is_empty a.observer b.observer c.observer i;
    agency = over_assoc is_empty a.agency b.agency c.agency i;
    receiver = over_assoc receiver_is_zero a.receiver b.receiver c.receiver i;
    antenna = over_assoc antenna_is_zero a.antenna b.antenna c.antenna i;
    approx_position = over_assoc is_none a.approx_position b.approx_position c.approx_position i;
    antenna_delta = over_assoc is_none a.antenna_delta b.antenna_delta c.antenna_delta i;
    interval = over_assoc is_none a.interval b.interval c.interval i;
    leap_seconds = over_assoc is_none a.leap_seconds b.leap_seconds c.leap_seconds i;
  }

  -- The default record is a unit of merging, on both sides.
  merge_unit : (a : Metadata fl) → (merge a default_metadata ≡ a) × (merge default_metadata a ≡ a)
  unfolding merge
  merge_unit a = (
    refl,
    λ i. record {
      version = over_text a.version i;
      run = over_run a.run i;
      comment = over_comment a.comment i;
      marker = record {
        name = over_text a.marker.name i;
        number = over_text a.marker.number i;
        type_ = over_text a.marker.type_ i;
      };
      observer = over_text a.observer i;
      agency = over_text a.agency i;
      receiver = over_receiver a.receiver i;
      antenna = over_antenna a.antenna i;
      approx_position = over_option a.approx_position i;
      antenna_delta = over_option a.antenna_delta i;
      interval = over_option a.interval i;
      leap_seconds = over_option a.leap_seconds i;
    },
  )
