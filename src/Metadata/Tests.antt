-- ===== src/Metadata/Tests.antt =====
-- Tests of the model of `Metadata::merge` in obsj/src/obs.rs.
use convobs_rs.Base.{◌≡◌, refl, [], ◌∷◌, some}
use convobs_rs.Base.Int.{pos}
use convobs_rs.Metadata.{Metadata, default_metadata, merge}
use convobs_rs.Samples.{int_floats}

abbrev commented : Metadata int_floats
commented = record default_metadata { comment = (b'a' ∷ []) ∷ []; leap_seconds = some (pos 18) }

abbrev versioned : Metadata int_floats
versioned = record default_metadata { version = b'1' ∷ []; comment = (b'b' ∷ []) ∷ [] }

merge_test : merge commented versioned ≡ record default_metadata {
  version = b'1' ∷ [];
  comment = (b'a' ∷ []) ∷ (b'b' ∷ []) ∷ [];
  leap_seconds = some (pos 18);
}
unfolding merge
merge_test = refl
