-- ===== src/Json/Structs.antt =====
-- The structs of a header that are written as JSON are read back, of obsj/src/json.rs.
use convobs_rs.Base.{
  ◌≡◌, refl, sym, ap, ◌∙◌, Bool, true, false, is_some, if◌then◌else◌, Option, none, some, [], ◌∷◌,
  unwrap_or, Bool-cases, inl, inr, arith,
}
use convobs_rs.Checked.{Checked, good}
use convobs_rs.Metadata.{
  Text, MetadataRun, Marker, Receiver, Antenna, is_empty, run_is_zero, receiver_is_zero,
  antenna_is_zero, default_run, default_marker, default_receiver, default_antenna,
}
use convobs_rs.Time.{Instant}
use convobs_rs.Json.Instants.{parse_rfc3339}
use convobs_rs.Time.Zoned.{zoned}
use convobs_rs.Json.Values.{Json, Fields, decoded, decoded_or}
use convobs_rs.Json.Decode.{
  decode_text, decode_instant, run_of, marker_of, receiver_of, antenna_of, decode_run,
  decode_marker, decode_receiver, decode_antenna,
}
use convobs_rs.Json.Written.{
  text_unless_empty, some_of, unless_skipped, marker_is_zero, object_of, run_entries,
  marker_entries, receiver_entries, antenna_entries,
}
use convobs_rs.Json.Back.{find-entries}

text_back : (s : Text) → decoded_or [] decode_text (text_unless_empty s) ≡ good s
text_back [] = refl
text_back (c ∷ s) = refl

-- An option that is left out if it is empty.
abbrev pub filled : Text → Option Text
filled [] = none
filled (c ∷ s) = some (c ∷ s)

pub filled_back : (s : Text) → decoded decode_text (text_unless_empty s) ≡ good (filled s)
filled_back [] = refl
filled_back (c ∷ s) = refl

pub unwrap_filled : (s : Text) → unwrap_or (filled s) [] ≡ s
unwrap_filled [] = refl
unwrap_filled (c ∷ s) = refl

-- The structs.
abbrev pub IsReadable : Option Instant → Type 0
IsReadable none = Unit
IsReadable (some i) = parse_rfc3339 (zoned i) ≡ good (some i)

date_back :
    (d : Option Instant)
    → IsReadable d
    → decoded decode_instant (some_of (λ i. Json.text (zoned i)) d) ≡ good d
unfolding decode_instant
date_back none h = refl
date_back (some i) h = rw h

pub marker_back : (m : Marker) → decode_marker (object_of (marker_entries m)) ≡ good m
unfolding decode_marker
marker_back m =
    ap marker_of (find-entries (marker_entries m) refl)
    ∙ rw (text_back m.name, text_back m.number, text_back m.type_)

pub receiver_back : (r : Receiver) → decode_receiver (object_of (receiver_entries r)) ≡ good r
unfolding decode_receiver
receiver_back r =
    ap receiver_of (find-entries (receiver_entries r) refl)
    ∙ rw (text_back r.number, text_back r.type_, text_back r.version)

pub antenna_back : (a : Antenna) → decode_antenna (object_of (antenna_entries a)) ≡ good a
unfolding decode_antenna
antenna_back a =
    ap antenna_of (find-entries (antenna_entries a) refl)
    ∙ rw (text_back a.number, text_back a.type_)

pub run_back :
    (r : MetadataRun) → IsReadable r.date → decode_run (object_of (run_entries r)) ≡ good r
unfolding decode_run
run_back r h =
    ap run_of (find-entries (run_entries r) refl)
    ∙ rw (text_back r.program, text_back r.by, date_back r.date h)

-- A struct that is left out if it is the default.
module _ {ℓ} {A : Type ℓ} (decode : Json → Checked A) (zero : Bool) (default : A)
    (fields : Fields) where
  pub struct_back :
      (x : A)
      → decode (Json.object fields) ≡ good x
      → decoded decode (unless_skipped zero (Json.object fields))
        ≡ good (if zero then none else some x)
  struct_back x h = elim (Bool-cases zero) [ inl e ↦ rw e | inr e ↦ rw (e, h) ]

pub unwrap_struct {ℓ} :
    {A : Type ℓ} (zero : Bool) (x default : A)
    → (zero ≡ true → x ≡ default)
    → unwrap_or (if zero then none else some x) default ≡ x
unwrap_struct true x default h = sym (h refl)
unwrap_struct false x default h = refl

nothing_left : (s : Text) → is_empty s ≡ true → s ≡ []
nothing_left [] h = refl
nothing_left (c ∷ s) h = absurd (cc h)

no_date : (d : Option Instant) → is_some d ≡ false → d ≡ none
no_date none h = refl
no_date (some i) h = absurd (cc h)

-- What is left out is the default.
pub default_run_left : (r : MetadataRun) → run_is_zero r ≡ true → r ≡ default_run
default_run_left r h = cc (
  nothing_left r.program (ground arith),
  nothing_left r.by (ground arith),
  no_date r.date (ground arith),
)

pub default_marker_left : (m : Marker) → marker_is_zero m ≡ true → m ≡ default_marker
default_marker_left m h = cc (
  nothing_left m.name (ground arith),
  nothing_left m.number (ground arith),
  nothing_left m.type_ (ground arith),
)

pub default_receiver_left : (r : Receiver) → receiver_is_zero r ≡ true → r ≡ default_receiver
default_receiver_left r h = cc (
  nothing_left r.number (ground arith),
  nothing_left r.type_ (ground arith),
  nothing_left r.version (ground arith),
)

pub default_antenna_left : (a : Antenna) → antenna_is_zero a ≡ true → a ≡ default_antenna
default_antenna_left a h =
    cc (nothing_left a.number (ground arith), nothing_left a.type_ (ground arith))
