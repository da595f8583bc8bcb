-- ===== src/Json/Facts.antt =====
-- A metadata record that is written as a line of JSON is read back, of obsj/src/json.rs.
use convobs_rs.Base.{
  ◌<◌, ◌≡◌, refl, ap, ◌∙◌, if◌then◌else◌, Option, none, some, List, [], ◌∷◌, unwrap_or,
}
use convobs_rs.Base.Int.{ℤ, pos_part, neg_part}
use convobs_rs.Checked.{good}
use convobs_rs.Float.{Floats}
use convobs_rs.Metadata.{
  Text, Metadata, is_empty, run_is_zero, receiver_is_zero, antenna_is_zero, default_run,
  default_marker, default_receiver, default_antenna,
}
use convobs_rs.Json.Values.{Json, present, decoded}
use convobs_rs.Json.Decode.{
  Serde, decode_comment, decode_texts, decode_f64, decode_triple, decode_signed, decode_run,
  decode_marker, decode_receiver, decode_antenna,
}
use convobs_rs.Json.Records.{RawRecord, metadata, raw_record, record_of, parse_record}
use convobs_rs.Json.Written.{
  int, triple, texts, some_of, unless_skipped, marker_is_zero, metadata_entries,
}
use convobs_rs.Json.Back.{look_in, find-entries, PrintsInts, signed_back}
use convobs_rs.Json.Structs.{
  filled, filled_back, unwrap_filled, IsReadable, marker_back, receiver_back, antenna_back,
  run_back, struct_back, unwrap_struct, default_run_left, default_marker_left,
  default_receiver_left, default_antenna_left,
}

module _ {fl : Floats} (serde : Serde fl) where
  -- A number of a header that comes back from its token.
  abbrev pub Prints : fl.F64 → Type 0
  Prints x =
      (token : Text) × (serde.print_f64 x ≡ Json.number token) × (serde.json_f64 token ≡ some x)

  abbrev pub PrintsOption : Option fl.F64 → Type 0
  PrintsOption none = Unit
  PrintsOption (some x) = Prints x

  abbrev pub PrintsTriple : Option (fl.F64 × fl.F64 × fl.F64) → Type 0
  PrintsTriple none = Unit
  PrintsTriple (some (x, y, z)) = Prints x × Prints y × Prints z

  abbrev pub IsI16 : Option ℤ → Type 0
  IsI16 none = Unit
  IsI16 (some z) = (pos_part z < 32768) × (neg_part z < 32769)

  number_back :
      (x : Option fl.F64)
      → PrintsOption x
      → decoded (decode_f64 serde) (some_of serde.print_f64 x) ≡ good x
  number_back none h = refl
  number_back (some x) (token, printed, read) = rw (printed, read)

  triple_back :
      (p : Option (fl.F64 × fl.F64 × fl.F64))
      → PrintsTriple p
      → decoded (decode_triple serde) (some_of (triple serde) p) ≡ good p
  triple_back none h = refl
  triple_back (some (x, y, z)) ((tx, px, rx), (ty, py, ry), (tz, pz, rz)) =
      rw (px, py, pz, rx, ry, rz)

  leap_back :
      (leap : Option ℤ)
      → PrintsInts serde
      → IsI16 leap
      → decoded (decode_signed serde 32768) (some_of (int serde) leap) ≡ good leap
  leap_back none prints h = refl
  leap_back (some z) prints h = rw (signed_back serde 32768 z prints h.0 h.1)

  texts_back : (ss : List Text) → decode_texts (texts ss) ≡ good ss
  texts_back [] = refl
  texts_back (s ∷ ss) = rw (texts_back ss)

  abbrev filled_list : List Text → Option (List Text)
  filled_list [] = none
  filled_list (s ∷ ss) = some (s ∷ ss)

  comment_back :
      (ss : List Text)
      → decoded decode_comment (unless_skipped (is_empty ss) (Json.list (texts ss)))
        ≡ good (filled_list ss)
  comment_back [] = refl
  comment_back (s ∷ ss) = rw (texts_back (s ∷ ss))

  unwrap_filled_list : (ss : List Text) → unwrap_or (filled_list ss) [] ≡ ss
  unwrap_filled_list [] = refl
  unwrap_filled_list (s ∷ ss) = refl

  -- A header whose date can be read and whose numbers fit.
  pub record IsWritableHeader (m : Metadata fl) : Type 0 where
    pub date : IsReadable m.run.date
    pub approx_position : PrintsTriple m.approx_position
    pub antenna_delta : PrintsTriple m.antenna_delta
    pub interval : PrintsOption m.interval
    pub leap_seconds : IsI16 m.leap_seconds

  abbrev raw_of : Metadata fl → RawRecord fl
  raw_of m = record {
    t = none;
    sat = none;
    sig = none;
    frq = none;
    pr = none;
    cp = none;
    dop = none;
    cn0 = none;
    arc = none;
    hc = none;
    bt = none;
    version = filled m.version;
    run = if run_is_zero m.run then none else some m.run;
    comment = filled_list m.comment;
    marker = if marker_is_zero m.marker then none else some m.marker;
    observer = filled m.observer;
    agency = filled m.agency;
    receiver = if receiver_is_zero m.receiver then none else some m.receiver;
    antenna = if antenna_is_zero m.antenna then none else some m.antenna;
    approx_position = m.approx_position;
    antenna_delta = m.antenna_delta;
    interval = m.interval;
    leap_seconds = m.leap_seconds;
    ssi = none;
    lli = none;
    ll = none;
  }

  raw_record-metadata :
      (m : Metadata fl)
      → PrintsInts serde
      → IsWritableHeader m
      → raw_record serde (look_in (metadata_entries serde m)) ≡ good (raw_of m)
  unfolding raw_record
  raw_record-metadata m prints h = rw (
    filled_back m.version,
    struct_back decode_run (run_is_zero m.run) default_run _ m.run (run_back m.run h.date),
    comment_back m.comment,
    struct_back decode_marker (marker_is_zero m.marker) default_marker _ m.marker
        (marker_back m.marker),
    filled_back m.observer,
    filled_back m.agency,
    struct_back decode_receiver (receiver_is_zero m.receiver) default_receiver _ m.receiver
        (receiver_back m.receiver),
    struct_back decode_antenna (antenna_is_zero m.antenna) default_antenna _ m.antenna
        (antenna_back m.antenna),
    triple_back m.approx_position h.approx_position,
    triple_back m.antenna_delta h.antenna_delta,
    number_back m.interval h.interval,
    leap_back m.leap_seconds prints h.leap_seconds,
  )

  record_of-metadata : (m : Metadata fl) → record_of serde (raw_of m) ≡ good (metadata m)
  unfolding record_of
  record_of-metadata m = rw (
    unwrap_filled m.version,
    unwrap_struct (run_is_zero m.run) m.run default_run (default_run_left m.run),
    unwrap_filled_list m.comment,
    unwrap_struct (marker_is_zero m.marker) m.marker default_marker (default_marker_left m.marker),
    unwrap_filled m.observer,
    unwrap_filled m.agency,
    unwrap_struct (receiver_is_zero m.receiver) m.receiver default_receiver
        (default_receiver_left m.receiver),
    unwrap_struct (antenna_is_zero m.antenna) m.antenna default_antenna
        (default_antenna_left m.antenna),
  )

  -- A written metadata record is read back.
  pub parse_record-metadata :
      (m : Metadata fl)
      → PrintsInts serde
      → IsWritableHeader m
      → serde.from_str (serde.to_string (present (metadata_entries serde m)))
        ≡ some (present (metadata_entries serde m))
      → parse_record serde (serde.to_string (present (metadata_entries serde m)))
        ≡ good (metadata m)
  unfolding parse_record
  parse_record-metadata m prints h back =
      let fields =
        ap (raw_record serde) (find-entries (metadata_entries serde m) refl)
        ∙ raw_record-metadata m prints h in
      rw (back, fields) (record_of-metadata m)
