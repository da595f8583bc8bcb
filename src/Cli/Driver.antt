-- ===== src/Cli/Driver.antt =====
-- The driver of cli/src/lib.rs: `PacketDriver`, which gives packets to the converter of one family.
-- The sink is a parameter with its own state, the decoders are those of the `rtcm-rs` and `ublox`
-- crates; the parser of `ublox` keeps a state of its own between chunks.
pub mod Locked
use Prim.Native.String.{String, ◌++◌}
use convobs_rs.Base.{
  ℕ, ltb, ◌+◌, Bool, true, false, ◌&&◌, ◌||◌, if◌then◌else◌, Option, none, some, List, [], ◌∷◌,
  ◌==◌, length, map,
}
use convobs_rs.Base.Int.{pos}
use convobs_rs.Base.Map.{Map}
use convobs_rs.Base.Texts.{ascii, text_beq, text_eq}
use convobs_rs.Error.{Result, ok, err}
use convobs_rs.Float.{Floats}
use convobs_rs.Ids.{SignalKey}
use convobs_rs.Metadata.{Text, Metadata}
use convobs_rs.Values.{SignalObservation}
use convobs_rs.Rtcm
use convobs_rs.Rtcm.{TimeInterval}
use convobs_rs.Rtcm.Convert
use convobs_rs.Rtcm.Frame.{Message, convert_frame}
use convobs_rs.Rtcm.Stream.{frame_bytes, is_msm7_frame}
use convobs_rs.Ubx
use convobs_rs.Ubx.{SignalState, Rawx, new_options, convert_batch}
use convobs_rs.Ubx.Scan.{is_rawx_frame}
use convobs_rs.Cli.{
  Checked, good, bad, ◌>>=◌, text_of, checked, InputFormat, raw, ubx, rtcm, rinex, obs_json,
}
use convobs_rs.Cli.Detect.{FamilyKind, rtcm_kind, ubx_kind, detect_raw_family, all_frames}
use convobs_rs.Cli.Weeks.{WeekConstraint}

-- `S` is the state of the sink, `P` that of the parser. A converter holds its sink.
pub data Family (S P : Type 0) : Type 0 where
  pending : Option S → Family S P
  rtcm_family : Rtcm.Convert.Converter → S → Family S P
  ubx_family : Ubx.Options → P → Map SignalKey SignalState → S → Family S P

-- The buffer `scratch`, which is used again for each payload, is left out.
pub record Driver (S P : Type 0) : Type 0 where
  pub from : InputFormat
  pub family : Family S P
  pub rtcm_opts : Rtcm.Options
  pub ubx_opts : Ubx.Options

abbrev pub no_interval : TimeInterval
no_interval = record { start_ns = pos 0; dur_ns = pos 0 }

-- `new_parser` is the parser before it has seen a byte.
module _ {S P : Type 0} (new_parser : P) where
  abbrev pub new_rtcm : Rtcm.Options → S → Family S P
  new_rtcm opts s = rtcm_family (Rtcm.Convert.new opts) s

  abbrev pub new_ubx : Ubx.Options → S → Family S P
  new_ubx opts s = ubx_family (new_options opts) new_parser [] s

  unfoldable pub new_driver : InputFormat → Rtcm.Options → Ubx.Options → S → Driver S P
  new_driver from rtcm_opts ubx_opts s = record {
    from = from;
    family = elim from [
      | ubx ↦ new_ubx ubx_opts s
      | rtcm ↦ new_rtcm rtcm_opts s
      | _ ↦ pending (some s)
    ];
    rtcm_opts = rtcm_opts;
    ubx_opts = ubx_opts;
  }

  -- The sink of a pending family is taken and given to a new converter.
  abbrev pub resolved : (S → Family S P) → Family S P → Family S P
  resolved start (pending none) = pending none
  resolved start (pending (some s)) = start s
  resolved start family = family

  -- The driver as `use_rtcm` and `use_ubx` leave it; the converter that they answer is the one of
  -- its family, if that is the right one.
  unfoldable pub use_rtcm : Driver S P → Driver S P
  use_rtcm d = record d { family = resolved (new_rtcm d.rtcm_opts) d.family }

  unfoldable pub use_ubx : Driver S P → Driver S P
  use_ubx d = record d { family = resolved (new_ubx d.ubx_opts) d.family }

module _ {S P : Type 0} where
  abbrev pub with_family : Driver S P → Family S P → Driver S P
  with_family d f = record d { family = f }

  abbrev pub is_rtcm_family : Family S P → Bool
  is_rtcm_family (rtcm_family c s) = true
  is_rtcm_family _ = false

  unfoldable pub tag_matches : Driver S P → Text → Bool
  tag_matches d tag = elim d.from [
    | rtcm ↦ tag == ascii "RTCM"
    | ubx ↦ tag == ascii "UBX"
    | raw ↦ tag == ascii "RTCM" || tag == ascii "UBX"
    | _ ↦ false
  ]

  -- `sink_metadata` and `flush` call the sink where it is.
  unfoldable pub on_sink : (S → Result S) → Family S P → Checked (Family S P)
  on_sink act (pending none) = good (pending none)
  on_sink act (pending (some s)) = checked (act s) >>= λ s'. good (pending (some s'))
  on_sink act (rtcm_family c s) = checked (act s) >>= λ s'. good (rtcm_family c s')
  on_sink act (ubx_family opts p states s) =
      checked (act s) >>= λ s'. good (ubx_family opts p states s')

-- The family that a stream is converted by: a raw one by whichever observation frame comes first.
unfoldable pub stream_kind : (List ℕ → ℕ × Option ℕ) → InputFormat → List ℕ → Option FamilyKind
unfolding detect_raw_family
stream_kind next_msg_frame ubx bytes = some ubx_kind
stream_kind next_msg_frame rtcm bytes = some rtcm_kind
stream_kind next_msg_frame raw bytes = detect_raw_family next_msg_frame bytes
stream_kind next_msg_frame _ bytes = none

module _ {fl : Floats} {S P : Type 0} (new_parser : P) (sink : S → SignalObservation fl → Result S)
    (metadata_sink : S → Metadata fl → Result S) (decode : List ℕ → Option (Message fl))
    (consume_ubx : P → List ℕ → P × List (Rawx fl)) (next_msg_frame : List ℕ → ℕ × Option ℕ) where
  abbrev pub sink_metadata : Metadata fl → Driver S P → Checked (Driver S P)
  sink_metadata m d = on_sink (λ s. metadata_sink s m) d.family >>= λ f. good (with_family d f)

  -- `convert_frame` on the converter of a driver; `failure` makes the message of an error.
  unfoldable pub rtcm_frame :
      (String → String) → List ℕ → TimeInterval → Driver S P → Checked (Driver S P)
  unfolding convert_frame
  rtcm_frame failure frame week d = elim (d.family) [
    | rtcm_family c s ↦
        let (c', answer) = convert_frame sink metadata_sink decode frame week c s in
        elim answer [
          | ok (s', produced) ↦ good (with_family d (rtcm_family c' s'))
          | err e ↦ bad (failure (text_of e))
        ]
    | _ ↦ good d
  ]

  -- `convert_chunk` on the converter of a driver, with the number of messages.
  unfoldable pub ubx_chunk : List ℕ → Driver S P → Checked (Driver S P × ℕ)
  unfolding convert_batch
  ubx_chunk bytes d = elim (d.family) [
    | ubx_family opts p states s ↦
        let (p', batch) = consume_ubx p bytes in
        checked (convert_batch sink opts batch (states, s)) >>= λ state.
        good (with_family d (ubx_family opts p' (state.0) (state.1)), length batch)
    | _ ↦ good (d, 0)
  ]

  -- `convert_payload`: whether a record was produced.
  unfoldable pub convert_payload :
      Text → List ℕ → TimeInterval → Driver S P → Checked (Driver S P × Bool)
  unfolding use_rtcm use_ubx rtcm_frame ubx_chunk is_msm7_frame is_rawx_frame
  convert_payload tag payload week d =
      let by_rtcm : Checked (Driver S P × Bool) =
        let d' = use_rtcm new_parser d in
        rtcm_frame (λ m. "RTCM epoch does not match packet-log timestamp: " ++ m) payload week d'
        >>= λ d''. good (d'', is_rtcm_family d'.family && is_msm7_frame payload) in
      let by_ubx : Checked (Driver S P × Bool) =
        ubx_chunk payload (use_ubx new_parser d) >>= λ done. good (done.0, ltb 0 (done.1)) in
      if tag == ascii "RTCM"
      then by_rtcm
      else if tag == ascii "UBX" && is_rawx_frame payload
      then by_ubx
      else good (d, false)

  -- The loop of `convert_rtcm_stream`: only the first frame carries the week constraint.
  unfoldable pub rtcm_frames :
      (String → String) → TimeInterval → List (List ℕ) → Driver S P → Checked (Driver S P × ℕ)
  unfolding rtcm_frame is_msm7_frame
  rtcm_frames failure week [] d = good (d, 0)
  rtcm_frames failure week (frame ∷ frames) d = do
    d' ← rtcm_frame failure frame week d
    (d'', count) ← rtcm_frames (λ m. m) no_interval frames d'
    good (d'', if is_msm7_frame frame then count + 1 else count)

  unfoldable pub convert_rtcm_stream :
      List ℕ → WeekConstraint → Driver S P → Checked (Driver S P × ℕ)
  unfolding use_rtcm rtcm_frames all_frames
  convert_rtcm_stream bytes wc d =
      let d' = use_rtcm new_parser d in
      let frames = map (frame_bytes bytes) (all_frames next_msg_frame bytes) in
      let run : Checked (Driver S P × ℕ) = rtcm_frames (λ m. wc.errf ++ m) wc.interval frames d' in
      if is_rtcm_family d'.family then run else good (d', 0)

  -- `convert_packet_stream` for the family of the stream: the count, and whether it is RTCM.
  unfoldable pub stream_by :
      Option FamilyKind → List ℕ → WeekConstraint → Driver S P → Checked (Driver S P × ℕ × Bool)
  unfolding use_ubx ubx_chunk convert_rtcm_stream
  stream_by none bytes wc d = good (d, 0, false)
  stream_by (some ubx_kind) bytes wc d =
      ubx_chunk bytes (use_ubx new_parser d) >>= λ done. good (done.0, done.1, false)
  stream_by (some rtcm_kind) bytes wc d =
      convert_rtcm_stream bytes wc d >>= λ done. good (done.0, done.1, true)

  unfoldable pub convert_packet_stream :
      List ℕ → WeekConstraint → Driver S P → Checked (Driver S P × ℕ × Bool)
  unfolding stream_kind stream_by
  convert_packet_stream bytes wc d = stream_by (stream_kind next_msg_frame d.from bytes) bytes wc d
