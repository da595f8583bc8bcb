-- ===== src/Cli/Log.antt =====
-- Packet logs: cli/src/packetlog.rs, and `convert_packet_log` of cli/src/lib.rs. The parsing of a JSON
-- line (`serde_json`) and of hexadecimal digits (`faster-hex`) are parameters.
pub mod Family
use convobs_rs.Base.{
  ℕ, ◌+◌, ◌%◌, Bool, true, false, not, ◌&&◌, ◌||◌, leb, nat_beq, if◌then◌else◌, Option, none, some,
  is_some, unwrap_or, ◌>>=?◌, List, [], ◌∷◌, ◌==◌, length, take,
}
use convobs_rs.Base.Texts.{ascii, text_beq, text_eq, trim, trim_start, trim_end, to_lowercase}
use convobs_rs.Error.{Result}
use convobs_rs.Float.{Floats}
use convobs_rs.Json.Instants.{parse_rfc3339}
use convobs_rs.Metadata.{Text, Metadata, is_empty}
use convobs_rs.Values.{SignalObservation}
use convobs_rs.Rtcm.{TimeInterval}
use convobs_rs.Rtcm.Frame.{Message}
use convobs_rs.Ubx.{Rawx}
use convobs_rs.Cli.{Checked, good, bad, ◌>>=◌, ◌>>◌, refuse_if, or_bad}
use convobs_rs.Cli.Driver.{Driver, no_interval, tag_matches, convert_payload}
use convobs_rs.Cli.Weeks.{packet_log_week_constraint}

pub record Entry : Type 0 where
  pub t : Option Text
  pub tag : Option Text
  pub bin : Option Text
  pub ascii_text : Option Text
  pub out : Bool

abbrev pub tag_str : Entry → Text
tag_str e = unwrap_or e.tag []

-- `hex_digits` is `faster_hex::hex_decode` for a text of even length.
unfoldable pub hex_decode : (Text → Option (List ℕ)) → Text → Checked (List ℕ)
hex_decode hex_digits s =
    refuse_if (not (nat_beq (length s % 2) 0)) "odd-length hex string"
    >> or_bad (hex_digits s) "invalid hex string"

-- `filter(|s| !s.is_empty())`
abbrev pub non_empty : Option Text → Option Text
non_empty none = none
non_empty (some s) = if not (is_empty s) then some s else none

-- The hex digits begin like those of an RXM-RAWX frame.
unfoldable pub is_rawx_hex : Text → Bool
unfolding to_lowercase
is_rawx_hex hex = leb 8 (length hex) && to_lowercase (take 8 hex) == ascii "b5620215"

-- The time constraint around the timestamp of an RTCM entry.
unfoldable pub timed_week : Option Text → Checked TimeInterval
unfolding parse_rfc3339 packet_log_week_constraint
timed_week stamp = do
  t ← elim stamp [ none ↦ good none | some s ↦ parse_rfc3339 s ]
  t' ← or_bad t "RTCM packet log line has no timestamp"
  good (packet_log_week_constraint t')

unfoldable pub entry_week : Entry → Checked TimeInterval
unfolding timed_week
entry_week e = if tag_str e == ascii "RTCM" then timed_week e.t else good no_interval

abbrev pub payload_of : (Text → Option (List ℕ)) → Option Text → Option Text → Checked (List ℕ)
payload_of hex_digits (some hex) text = hex_decode hex_digits hex
payload_of hex_digits none (some text) = good text
payload_of hex_digits none none = good []

-- The entry is passed over before anything is decoded.
unfoldable pub is_skipped : {S P : Type 0} → Driver S P → Entry → Bool
unfolding is_rawx_hex tag_matches
is_skipped d e =
    let bin = non_empty e.bin in
    let no_rawx : Bool = elim bin [ none ↦ false | some hex ↦ not (is_rawx_hex hex) ] in
    e.out
    || (not (is_some bin) && not (is_some (non_empty e.ascii_text)))
    || not (tag_matches d (tag_str e))
    || (tag_str e == ascii "UBX" && no_rawx)

module _ {fl : Floats} {S P : Type 0} (new_parser : P) (sink : S → SignalObservation fl → Result S)
    (metadata_sink : S → Metadata fl → Result S) (decode : List ℕ → Option (Message fl))
    (consume_ubx : P → List ℕ → P × List (Rawx fl)) (next_msg_frame : List ℕ → ℕ × Option ℕ)
    (parse_entry : Text → Checked Entry) (hex_digits : Text → Option (List ℕ)) where
  -- The loop's body for an entry that is not passed over.
  unfoldable pub convert_entry : Entry → Driver S P → Checked (Driver S P × Bool)
  unfolding entry_week hex_decode convert_payload
  convert_entry e d = do
    week ← entry_week e
    payload ← payload_of hex_digits (non_empty e.bin) (non_empty e.ascii_text)
    convert_payload new_parser sink metadata_sink decode consume_ubx next_msg_frame (tag_str e)
        payload week d

  -- The loop's body behind the parsing of the line.
  unfoldable pub convert_parsed : Driver S P → Entry → Checked (Driver S P × Bool)
  unfolding is_skipped convert_entry
  convert_parsed d e = if is_skipped d e then good (d, false) else convert_entry e d

  unfoldable pub convert_line : Text → Driver S P → Checked (Driver S P × Bool)
  unfolding convert_parsed trim_start trim_end
  convert_line line d =
      if is_empty (trim line)
      then good (d, false)
      else (parse_entry (trim line) >>= convert_parsed d)

  -- `convert_packet_log` over the lines that were read, with the count.
  unfoldable pub convert_packet_log : List Text → Driver S P → Checked (Driver S P × ℕ)
  unfolding convert_line
  convert_packet_log [] d = good (d, 0)
  convert_packet_log (line ∷ lines) d = do
    (d', produced) ← convert_line line d
    (d'', count) ← convert_packet_log lines d'
    good (d'', if produced then count + 1 else count)
