-- ===== src/Json/Decode.antt =====
-- The fields of JSON records decoded, after the derived and the written `Deserialize` of
-- obsj/src/obs.rs. The text of a JSON value is `serde_json`'s, a parameter; a struct is taken to be
-- an object.
use convobs_rs.Base.{ℕ, Bool, ltb, if◌then◌else◌, Option, List, [], ◌∷◌}
use convobs_rs.Base.Int.{ℤ, pos, negsuc}
use convobs_rs.Base.Texts.{ascii}
use convobs_rs.Checked.{Checked, good, bad, ◌>>=◌, or_bad}
use convobs_rs.Float.{Floats}
use convobs_rs.Ids.{SatId, SigId, parse_sat, parse_sig}
use convobs_rs.Metadata.{Text, MetadataRun, Marker, Receiver, Antenna}
use convobs_rs.Time.{GpsTime, Instant}
use convobs_rs.Time.Text.{parse_time}
use convobs_rs.Json.Instants.{parse_rfc3339}
use convobs_rs.Json.Values.{Json, Items, Fields, Look, find, optional, with_default}

-- What is used of `serde_json` and of the standard library's parser of floating-point numbers:
-- the tokens of numbers, read by `parse` and by `serde_json` itself, and what is written for them;
-- and the text of an object.
pub record Serde (fl : Floats) : Type 0 where
  pub parse_f64 : Text → Option fl.F64
  pub parse_f32 : Text → Option fl.F32
  pub json_f64 : Text → Option fl.F64
  pub json_int : Text → Option ℤ
  pub print_f64 : fl.F64 → Json
  pub print_f32 : fl.F32 → Json
  pub print_int : ℤ → Text
  pub from_str : Text → Option Fields
  pub to_string : Fields → Text

abbrev pub decode_text : Json → Checked Text
decode_text (Json.text s) = good s
decode_text _ = bad "invalid type"

unfoldable pub decode_time : Json → Checked GpsTime
decode_time (Json.text s) = parse_time s
decode_time _ = bad "invalid type"

unfoldable pub decode_sat : Json → Checked SatId
decode_sat (Json.text s) = or_bad (parse_sat s) "invalid satellite identifier"
decode_sat _ = bad "invalid type"

unfoldable pub decode_sig : Json → Checked SigId
decode_sig (Json.text s) = or_bad (parse_sig s) "invalid signal identifier"
decode_sig _ = bad "invalid type"

unfoldable pub decode_instant : Json → Checked Instant
decode_instant (Json.text s) = parse_rfc3339 s >>= λ i. or_bad i "invalid time"
decode_instant _ = bad "invalid type"

abbrev pub decode_flag : Json → Checked Bool
decode_flag (Json.flag b) = good b
decode_flag _ = bad "invalid type"

abbrev pub decode_texts : Items → Checked (List Text)
decode_texts Items.nil = good []
decode_texts (Items.cons v items) =
    decode_text v >>= λ s. decode_texts items >>= λ rest. good (s ∷ rest)

abbrev pub decode_comment : Json → Checked (List Text)
decode_comment (Json.list items) = decode_texts items
decode_comment _ = bad "invalid type"

-- A raw value, and `IgnoredAny`.
abbrev pub any : Json → Checked Json
any v = good v

-- The structs of the header.
unfoldable pub run_of : Look → Checked MetadataRun
unfolding decode_instant
run_of look = do
  program ← with_default (ascii "program") [] decode_text look
  by ← with_default (ascii "by") [] decode_text look
  date ← optional (ascii "date") decode_instant look
  good (record { program = program; by = by; date = date })

unfoldable pub decode_run : Json → Checked MetadataRun
unfolding run_of
decode_run (Json.object fields) = run_of (λ k. find k fields)
decode_run _ = bad "invalid type"

unfoldable pub marker_of : Look → Checked Marker
marker_of look = do
  name ← with_default (ascii "name") [] decode_text look
  number ← with_default (ascii "number") [] decode_text look
  type_ ← with_default (ascii "type") [] decode_text look
  good (record { name = name; number = number; type_ = type_ })

unfoldable pub decode_marker : Json → Checked Marker
unfolding marker_of
decode_marker (Json.object fields) = marker_of (λ k. find k fields)
decode_marker _ = bad "invalid type"

unfoldable pub receiver_of : Look → Checked Receiver
receiver_of look = do
  number ← with_default (ascii "number") [] decode_text look
  type_ ← with_default (ascii "type") [] decode_text look
  version ← with_default (ascii "version") [] decode_text look
  good (record { number = number; type_ = type_; version = version })

unfoldable pub decode_receiver : Json → Checked Receiver
unfolding receiver_of
decode_receiver (Json.object fields) = receiver_of (λ k. find k fields)
decode_receiver _ = bad "invalid type"

unfoldable pub antenna_of : Look → Checked Antenna
antenna_of look = do
  number ← with_default (ascii "number") [] decode_text look
  type_ ← with_default (ascii "type") [] decode_text look
  good (record { number = number; type_ = type_ })

unfoldable pub decode_antenna : Json → Checked Antenna
unfolding antenna_of
decode_antenna (Json.object fields) = antenna_of (λ k. find k fields)
decode_antenna _ = bad "invalid type"

-- A signed integer of a width of `2 * half` values, and an unsigned one below `limit`.
abbrev pub in_signed : ℕ → ℤ → Checked ℤ
in_signed half (pos n) = if ltb n half then good (pos n) else bad "invalid value"
in_signed half (negsuc n) = if ltb n half then good (negsuc n) else bad "invalid value"

abbrev pub in_unsigned : ℕ → ℤ → Checked ℕ
in_unsigned limit (pos n) = if ltb n limit then good n else bad "invalid value"
in_unsigned limit (negsuc n) = bad "invalid value"

module _ {fl : Floats} (serde : Serde fl) where
  abbrev pub decode_int : Json → Checked ℤ
  decode_int (Json.number token) = or_bad (serde.json_int token) "invalid type"
  decode_int _ = bad "invalid type"

  abbrev pub decode_f64 : Json → Checked fl.F64
  decode_f64 (Json.number token) = or_bad (serde.json_f64 token) "invalid type"
  decode_f64 _ = bad "invalid type"

  abbrev pub decode_triple : Json → Checked (fl.F64 × fl.F64 × fl.F64)
  decode_triple (Json.list (Items.cons a (Items.cons b (Items.cons c Items.nil)))) = do
    x ← decode_f64 a
    y ← decode_f64 b
    z ← decode_f64 c
    good (x, y, z)
  decode_triple _ = bad "invalid type"

  abbrev pub decode_signed : ℕ → Json → Checked ℤ
  decode_signed half v = decode_int v >>= in_signed half

  abbrev pub decode_unsigned : ℕ → Json → Checked ℕ
  decode_unsigned limit v = decode_int v >>= in_unsigned limit
