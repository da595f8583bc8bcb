-- ===== src/Cli/Log/Family.antt =====
-- The family of a driver over a whole packet log, of cli/src/lib.rs: `convert_packet_log`.
use mathlib.Core.Path.{subst}
use convobs_rs.Base.{ℕ, ◌≡◌, Bool, false, Option, List, [], ◌∷◌, arith, Bool-cases, inl, inr}
use convobs_rs.Base.Texts.{trim}
use convobs_rs.Error.{Result}
use convobs_rs.Float.{Floats}
use convobs_rs.Metadata.{Text, Metadata, is_empty}
use convobs_rs.Values.{SignalObservation}
use convobs_rs.Rtcm.Frame.{Message}
use convobs_rs.Ubx.{Rawx}
use convobs_rs.Cli.{Checked, good, bind-eq-good}
use convobs_rs.Cli.Driver.{Driver}
use convobs_rs.Cli.Driver.Locked.{Keeps, Keeps-refl, Keeps-trans, convert_payload-Keeps}
use convobs_rs.Cli.Log.{
  Entry, tag_str, entry_week, payload_of, non_empty, is_skipped, convert_parsed, convert_entry,
  convert_line, convert_packet_log,
}

module _ {fl : Floats} {S P : Type 0} (new_parser : P) (sink : S → SignalObservation fl → Result S)
    (metadata_sink : S → Metadata fl → Result S) (decode : List ℕ → Option (Message fl))
    (consume_ubx : P → List ℕ → P × List (Rawx fl)) (next_msg_frame : List ℕ → ℕ × Option ℕ)
    (parse_entry : Text → Checked Entry) (hex_digits : Text → Option (List ℕ)) where
  convert_entry-Keeps :
      (e : Entry) (d d' : Driver S P) (produced : Bool)
      → convert_entry new_parser sink metadata_sink decode consume_ubx next_msg_frame parse_entry
          hex_digits e d
        ≡ good (d', produced)
      → Keeps d d'
  unfolding convert_entry
  convert_entry-Keeps e d d' produced h =
      let (week, h1, h2) = bind-eq-good (entry_week e) _ h in
      let (payload, h3, h4) =
        bind-eq-good (payload_of hex_digits (non_empty e.bin) (non_empty e.ascii_text)) _ h2 in
      convert_payload-Keeps new_parser sink metadata_sink decode consume_ubx next_msg_frame
        (tag_str e) payload week d d' produced h4

  abbrev unchanged : Driver S P → Checked (Driver S P × Bool)
  unchanged d = good (d, false)

  passed_over :
      (d d' : Driver S P) (produced : Bool) → unchanged d ≡ good (d', produced) → Keeps d d'
  passed_over d d' produced h = subst (Keeps d) (ground arith) (Keeps-refl d)

  convert_parsed-Keeps :
      (e : Entry) (d d' : Driver S P) (produced : Bool)
      → convert_parsed new_parser sink metadata_sink decode consume_ubx next_msg_frame parse_entry
          hex_digits d e
        ≡ good (d', produced)
      → Keeps d d'
  unfolding convert_parsed
  convert_parsed-Keeps e d d' produced h = elim (Bool-cases (is_skipped d e)) [
    | inl skipped ↦ passed_over d d' produced (ground arith)
    | inr used ↦ convert_entry-Keeps e d d' produced (ground arith)
  ]

  -- A line of the log, whether it is passed over or not.
  pub convert_line-Keeps :
      (line : Text) (d d' : Driver S P) (produced : Bool)
      → convert_line new_parser sink metadata_sink decode consume_ubx next_msg_frame parse_entry
          hex_digits line d
        ≡ good (d', produced)
      → Keeps d d'
  unfolding convert_line
  convert_line-Keeps line d d' produced h = elim (Bool-cases (is_empty (trim line))) [
    | inl empty ↦ passed_over d d' produced (ground arith)
    | inr full ↦
        let (e, h1, h2) =
          bind-eq-good (parse_entry (trim line))
            (convert_parsed new_parser sink metadata_sink decode consume_ubx next_msg_frame
              parse_entry hex_digits d)
            (ground arith) in
        convert_parsed-Keeps e d d' produced h2
  ]

  -- Over a whole packet log that is converted: the input format and the options stay, the driver
  -- does not lose its sink, and once a packet has resolved the family, no later one changes it.
  pub convert_packet_log-Keeps :
      (lines : List Text) (d d' : Driver S P) (n : ℕ)
      → convert_packet_log new_parser sink metadata_sink decode consume_ubx next_msg_frame
          parse_entry hex_digits lines d
        ≡ good (d', n)
      → Keeps d d'
  unfolding convert_packet_log
  convert_packet_log-Keeps [] d d' n h = subst (Keeps d) (ground arith) (Keeps-refl d)
  convert_packet_log-Keeps (line ∷ lines) d d' n h =
      let (first, h1, h2) =
        bind-eq-good
          (convert_line new_parser sink metadata_sink decode consume_ubx next_msg_frame parse_entry
            hex_digits line d)
          _ h in
      let (rest, h3, h4) =
        bind-eq-good
          (convert_packet_log new_parser sink metadata_sink decode consume_ubx next_msg_frame
            parse_entry hex_digits lines (first.0))
          _ h2 in
      subst (Keeps d) (ground arith) (
        Keeps-trans (convert_line-Keeps line d (first.0) (first.1) h1)
          (convert_packet_log-Keeps lines (first.0) (rest.0) (rest.1) h3))
