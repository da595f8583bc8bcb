-- ===== src/Json/Written.antt =====
-- What is written for a record: `Serialize` of `SignalObservation` and of `Metadata` in
-- obsj/src/obs.rs, for which `ObsJsonSink` of obsj/src/json.rs writes one line.
use convobs_rs.Base.{
  Bool, true, nat_beq, if◌then◌else◌, ◌&&◌, Option, none, some, List, [], ◌∷◌, ◌++◌,
}
use convobs_rs.Base.Int.{ℤ, pos}
use convobs_rs.Base.Texts.{ascii}
use convobs_rs.Float.{Floats}
use convobs_rs.Ids.{sat_as_str, sig_as_str}
use convobs_rs.Metadata.{
  Text, MetadataRun, Marker, Receiver, Antenna, Metadata, is_empty, run_is_zero, receiver_is_zero,
  antenna_is_zero,
}
use convobs_rs.Time.Text.{display}
use convobs_rs.Time.Zoned.{zoned}
use convobs_rs.Values.{SignalObservation}
use convobs_rs.Json.Values.{Json, Items, present}
use convobs_rs.Json.Decode.{Serde}
use convobs_rs.Json.Records.{Record, observation, metadata}

-- A field that is left out on a condition, and the field of an option.
abbrev pub unless_skipped : Bool → Json → Option Json
unless_skipped skipped v = if skipped then none else some v

abbrev pub some_of {ℓ} : {A : Type ℓ} → (A → Json) → Option A → Option Json
some_of f none = none
some_of f (some x) = some (f x)

abbrev pub text_unless_empty : Text → Option Json
text_unless_empty [] = none
text_unless_empty (c ∷ s) = some (Json.text (c ∷ s))

abbrev pub texts : List Text → Items
texts [] = Items.nil
texts (s ∷ rest) = Items.cons (Json.text s) (texts rest)

-- `Marker::is_zero`
abbrev pub marker_is_zero : Marker → Bool
marker_is_zero m = is_empty m.name && is_empty m.number && is_empty m.type_

abbrev pub Entries : Type 0
Entries = List (Text × Option Json)

abbrev pub run_entries : MetadataRun → Entries
run_entries r =
    (ascii "program", text_unless_empty r.program)
    ∷ (ascii "by", text_unless_empty r.by)
    ∷ (ascii "date", some_of (λ i. Json.text (zoned i)) r.date)
    ∷ []

abbrev pub marker_entries : Marker → Entries
marker_entries m =
    (ascii "name", text_unless_empty m.name)
    ∷ (ascii "number", text_unless_empty m.number)
    ∷ (ascii "type", text_unless_empty m.type_)
    ∷ []

abbrev pub receiver_entries : Receiver → Entries
receiver_entries r =
    (ascii "number", text_unless_empty r.number)
    ∷ (ascii "type", text_unless_empty r.type_)
    ∷ (ascii "version", text_unless_empty r.version)
    ∷ []

abbrev pub antenna_entries : Antenna → Entries
antenna_entries a =
    (ascii "number", text_unless_empty a.number) ∷ (ascii "type", text_unless_empty a.type_) ∷ []

abbrev pub object_of : Entries → Json
object_of es = Json.object (present es)

module _ {fl : Floats} (serde : Serde fl) where
  abbrev pub int : ℤ → Json
  int z = Json.number (serde.print_int z)

  abbrev pub triple : fl.F64 × fl.F64 × fl.F64 → Json
  triple (x, y, z) = Json.list (
      Items.cons (serde.print_f64 x)
        (Items.cons (serde.print_f64 y) (Items.cons (serde.print_f64 z) Items.nil)))

  -- `SignalObservation::serialize`
  abbrev pub observation_entries : SignalObservation fl → Entries
  observation_entries o =
      (ascii "t", some (Json.text (display o.t)))
      ∷ (ascii "sat", some (Json.text (sat_as_str o.sat)))
      ∷ (ascii "sig", some (Json.text (sig_as_str o.sig)))
      ∷ (ascii "frq", some_of int o.v.frq)
      ∷ (ascii "pr", some_of serde.print_f64 o.v.pr)
      ∷ (ascii "cp", some_of serde.print_f64 o.v.cp)
      ∷ (ascii "do", some_of serde.print_f64 o.v.dop)
      ∷ (ascii "cn0", some_of serde.print_f32 o.v.cn0)
      ∷ (ascii "arc", unless_skipped (nat_beq o.v.arc 0) (int (pos o.v.arc)))
      ∷ (ascii "hc", if o.v.hc then some (Json.flag true) else none)
      ∷ (ascii "bt", if o.v.bt then some (Json.flag true) else none)
      ∷ []

  abbrev pub metadata_entries : Metadata fl → Entries
  metadata_entries m =
      (ascii "version", text_unless_empty m.version)
      ∷ (ascii "run", unless_skipped (run_is_zero m.run) (object_of (run_entries m.run)))
      ∷ (ascii "comment", unless_skipped (is_empty m.comment) (Json.list (texts m.comment)))
      ∷ (
        ascii "marker",
        unless_skipped (marker_is_zero m.marker) (object_of (marker_entries m.marker)),
      )
      ∷ (ascii "observer", text_unless_empty m.observer)
      ∷ (ascii "agency", text_unless_empty m.agency)
      ∷ (
        ascii "receiver",
        unless_skipped (receiver_is_zero m.receiver) (object_of (receiver_entries m.receiver)),
      )
      ∷ (
        ascii "antenna",
        unless_skipped (antenna_is_zero m.antenna) (object_of (antenna_entries m.antenna)),
      )
      ∷ (ascii "approxPosition", some_of triple m.approx_position)
      ∷ (ascii "antennaDelta", some_of triple m.antenna_delta)
      ∷ (ascii "interval", some_of serde.print_f64 m.interval)
      ∷ (ascii "leapSeconds", some_of int m.leap_seconds)
      ∷ []

  abbrev pub entries : Record fl → Entries
  entries (observation o) = observation_entries o
  entries (metadata m) = metadata_entries m

  -- `ObsJsonSink::write_record`
  unfoldable pub write_record : Record fl → Text
  unfolding display zoned
  write_record r = serde.to_string (present (entries r)) ++ (10 ∷ [])
