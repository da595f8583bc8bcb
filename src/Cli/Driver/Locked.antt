-- ===== src/Cli/Driver/Locked.antt =====
-- The family of a driver in cli/src/lib.rs: what the steps of `PacketDriver` keep.
use convobs_rs.Base.{
  ℕ, ◌+◌, ◌≡◌, refl, ◌∙◌, ap, Bool, true, false, if◌then◌else◌, Option, none, some, map, List, [],
  ◌∷◌, ◌==◌, arith, Bool-cases, inl, inr,
}
use mathlib.Core.Path.{subst}
use convobs_rs.Base.Texts.{ascii, text_eq}
use convobs_rs.Checked.{bind-eq-good, bind_congr}
use convobs_rs.Error.{Result}
use convobs_rs.Float.{Floats}
use convobs_rs.Metadata.{Text, Metadata}
use convobs_rs.Values.{SignalObservation}
use convobs_rs.Rtcm.{TimeInterval}
use convobs_rs.Rtcm.Frame.{Message}
use convobs_rs.Rtcm.Stream.{frame_bytes}
use convobs_rs.Ubx.{Rawx}
use convobs_rs.Cli.{Checked, good, bad, panic, ◌>>=◌}
use convobs_rs.Cli.Detect.{all_frames, FamilyKind, rtcm_kind, ubx_kind}
use convobs_rs.Cli.Driver.{
  Family, pending, rtcm_family, ubx_family, Driver, use_rtcm, use_ubx, rtcm_frame, ubx_chunk,
  convert_payload, rtcm_frames, no_interval, convert_rtcm_stream, convert_packet_stream, stream_by,
  is_rtcm_family, stream_kind,
}
use convobs_rs.Cli.Weeks.{WeekConstraint}
use Prim.Native.String.{String, ◌++◌}

module _ {S P : Type 0} where
  -- The family, once it is resolved.
  abbrev pub kind : Family S P → Option FamilyKind
  kind (pending s) = none
  kind (rtcm_family c s) = some rtcm_kind
  kind (ubx_family opts p states s) = some ubx_kind

  -- The driver holds its sink.
  abbrev pub holds : Family S P → Bool
  holds (pending none) = false
  holds (pending (some s)) = true
  holds (rtcm_family c s) = true
  holds (ubx_family opts p states s) = true

  -- From one driver to a later one: the format and the options stay, a sink is not lost, and a
  -- family that is resolved stays what it is.
  pub record Keeps (d d' : Driver S P) : Type 0 where
    pub same_from : d'.from ≡ d.from
    pub same_rtcm : d'.rtcm_opts ≡ d.rtcm_opts
    pub same_ubx : d'.ubx_opts ≡ d.ubx_opts
    pub sink_kept : holds d.family ≡ true → holds d'.family ≡ true
    pub kind_kept : (k : FamilyKind) → kind d.family ≡ some k → kind d'.family ≡ some k

  pub Keeps-refl : (d : Driver S P) → Keeps d d
  Keeps-refl d = record {
    same_from = refl;
    same_rtcm = refl;
    same_ubx = refl;
    sink_kept = λ h. h;
    kind_kept = λ k h. h;
  }

  pub Keeps-trans : {a b c : Driver S P} → Keeps a b → Keeps b c → Keeps a c
  Keeps-trans p q = record {
    same_from = q.same_from ∙ p.same_from;
    same_rtcm = q.same_rtcm ∙ p.same_rtcm;
    same_ubx = q.same_ubx ∙ p.same_ubx;
    sink_kept = λ h. q.sink_kept (p.sink_kept h);
    kind_kept = λ k h. q.kind_kept k (p.kind_kept k h);
  }

  module _ (new_parser : P) where
    pub use_rtcm-Keeps : (d : Driver S P) → Keeps d (use_rtcm new_parser d)
    unfolding use_rtcm
    use_rtcm-Keeps d = ground arith

    pub use_ubx-Keeps : (d : Driver S P) → Keeps d (use_ubx new_parser d)
    unfolding use_ubx
    use_ubx-Keeps d = ground arith

module _ {fl : Floats} {S P : Type 0} (new_parser : P) (sink : S → SignalObservation fl → Result S)
    (metadata_sink : S → Metadata fl → Result S) (decode : List ℕ → Option (Message fl))
    (consume_ubx : P → List ℕ → P × List (Rawx fl)) (next_msg_frame : List ℕ → ℕ × Option ℕ) where
  rtcm_frame-Keeps :
      (failure : String → String) (frame : List ℕ) (week : TimeInterval) (d d' : Driver S P)
      → rtcm_frame new_parser sink metadata_sink decode consume_ubx next_msg_frame failure frame
          week d
        ≡ good d'
      → Keeps d d'
  unfolding rtcm_frame
  rtcm_frame-Keeps failure frame week d d' h = ground arith

  ubx_chunk-Keeps :
      (bytes : List ℕ) (d d' : Driver S P) (n : ℕ)
      → ubx_chunk new_parser sink metadata_sink decode consume_ubx next_msg_frame bytes d
        ≡ good (d', n)
      → Keeps d d'
  unfolding ubx_chunk
  ubx_chunk-Keeps bytes d d' n h = ground arith

  -- A payload's step, on a driver that is locked to one family or will be.
  pub convert_payload-Keeps :
      (tag : Text) (payload : List ℕ) (week : TimeInterval) (d d' : Driver S P) (produced : Bool)
      → convert_payload new_parser sink metadata_sink decode consume_ubx next_msg_frame tag payload
          week d
        ≡ good (d', produced)
      → Keeps d d'
  unfolding convert_payload use_rtcm use_ubx rtcm_frame ubx_chunk
  convert_payload-Keeps tag payload week d d' produced h = ground arith

  -- The driver's tag of a family.
  abbrev pub tag_of : FamilyKind → Text
  tag_of rtcm_kind = ascii "RTCM"
  tag_of ubx_kind = ascii "UBX"

  convert_payload-other :
      (k : FamilyKind) (tag : Text) (payload : List ℕ) (week : TimeInterval) (d : Driver S P)
      → kind d.family ≡ some k
      → (tag == tag_of k) ≡ false
      → convert_payload new_parser sink metadata_sink decode consume_ubx next_msg_frame tag payload
          week d
        ≡ good (d, false)
  unfolding convert_payload use_rtcm use_ubx rtcm_frame ubx_chunk
  convert_payload-other k tag payload week d e other = ground arith

  -- Payloads one after the other, and how many produced a record.
  abbrev pub Payload : Type 0
  Payload = Text × List ℕ × TimeInterval

  unfoldable pub payloads : List Payload → Driver S P → Checked (Driver S P × ℕ)
  payloads [] d = good (d, 0)
  payloads ((tag, payload, week) ∷ ps) d = do
    (d', produced) ←
        convert_payload new_parser sink metadata_sink decode consume_ubx next_msg_frame tag payload
          week d
    (d'', count) ← payloads ps d'
    good (d'', if produced then count + 1 else count)

  abbrev pub tagged : FamilyKind → List Payload → List Payload
  tagged k [] = []
  tagged k (p ∷ ps) = if p.0 == tag_of k then p ∷ tagged k ps else tagged k ps

  uncounted : (m : Checked (Driver S P × ℕ)) → (m >>= λ done. good (done.0, done.1)) ≡ m
  uncounted (good done) = refl
  uncounted (bad message) = refl
  uncounted panic = refl

  -- After the family is resolved, the payloads of the other family change nothing: the driver ends
  -- in the state, with the count or with the error, that its own payloads alone lead to.
  pub payloads-tagged :
      (k : FamilyKind) (ps : List Payload) (d : Driver S P)
      → kind d.family ≡ some k
      → payloads ps d ≡ payloads (tagged k ps) d
  unfolding payloads
  payloads-tagged k [] d e = refl
  payloads-tagged k ((tag, payload, week) ∷ ps) d e = elim (Bool-cases (tag == tag_of k)) [
    | inl own ↦ rw own (
        bind_congr
          (convert_payload new_parser sink metadata_sink decode consume_ubx next_msg_frame tag
            payload week d)
          _ _
          (λ done h.
            let keeps = convert_payload-Keeps tag payload week d (done.0) (done.1) h in
            ap (λ r. r >>= λ x. good (x.0, if done.1 then x.1 + 1 else x.1))
              (payloads-tagged k ps (done.0) (keeps.kind_kept k e))))
    | inr other ↦
        rw (convert_payload-other k tag payload week d e other, other, payloads-tagged k ps d e)
          (uncounted (payloads (tagged k ps) d))
  ]

  rtcm_frames-Keeps :
      (failure : String → String) (week : TimeInterval) (frames : List (List ℕ)) (d d' : Driver S P)
      (n : ℕ)
      → rtcm_frames new_parser sink metadata_sink decode consume_ubx next_msg_frame failure week
          frames d
        ≡ good (d', n)
      → Keeps d d'
  unfolding rtcm_frames
  rtcm_frames-Keeps failure week [] d d' n h = subst (Keeps d) (ground arith) (Keeps-refl d)
  rtcm_frames-Keeps failure week (frame ∷ frames) d d' n h =
      let (d1, h1, rest) =
        bind-eq-good
          (rtcm_frame new_parser sink metadata_sink decode consume_ubx next_msg_frame failure frame
            week d)
          _ h in
      let (done, h2, last) =
        bind-eq-good
          (rtcm_frames new_parser sink metadata_sink decode consume_ubx next_msg_frame (λ m. m)
            no_interval frames d1)
          _ rest in
      let same : done.0 ≡ d' = ground arith in
      subst (Keeps d) same (
        Keeps-trans (rtcm_frame-Keeps failure frame week d d1 h1)
          (rtcm_frames-Keeps (λ m. m) no_interval frames d1 (done.0) (done.1) h2))

  convert_rtcm_stream-Keeps :
      (bytes : List ℕ) (wc : WeekConstraint) (d d' : Driver S P) (n : ℕ)
      → convert_rtcm_stream new_parser sink metadata_sink decode consume_ubx next_msg_frame bytes wc
          d
        ≡ good (d', n)
      → Keeps d d'
  unfolding convert_rtcm_stream
  convert_rtcm_stream-Keeps bytes wc d d' n h =
      let d1 = use_rtcm new_parser d in
      let frames = map (frame_bytes bytes) (all_frames next_msg_frame bytes) in
      Keeps-trans (use_rtcm-Keeps new_parser d) (elim (Bool-cases (is_rtcm_family d1.family)) [
        | inl on ↦ rtcm_frames-Keeps (λ m. wc.errf ++ m) wc.interval frames d1 d' n (ground arith)
        | inr off ↦ subst (Keeps d1) (ground arith) (Keeps-refl d1)
      ])

  by_kind :
      (o : Option FamilyKind) (bytes : List ℕ) (wc : WeekConstraint) (d d' : Driver S P) (n : ℕ)
      (used : Bool)
      → stream_by new_parser sink metadata_sink decode consume_ubx next_msg_frame o bytes wc d
        ≡ good (d', n, used)
      → Keeps d d'
  unfolding stream_by
  by_kind none bytes wc d d' n used h = subst (Keeps d) (ground arith) (Keeps-refl d)
  by_kind (some ubx_kind) bytes wc d d' n used h =
      let d1 = use_ubx new_parser d in
      let (done, h1, last) =
        bind-eq-good
          (ubx_chunk new_parser sink metadata_sink decode consume_ubx next_msg_frame bytes d1) _
          h in
      subst (Keeps d) (ground arith)
        (Keeps-trans (use_ubx-Keeps new_parser d) (ubx_chunk-Keeps bytes d1 (done.0) (done.1) h1))
  by_kind (some rtcm_kind) bytes wc d d' n used h =
      let (done, h1, last) =
        bind-eq-good
          (convert_rtcm_stream new_parser sink metadata_sink decode consume_ubx next_msg_frame bytes
            wc d)
          _ h in
      subst (Keeps d) (ground arith) (convert_rtcm_stream-Keeps bytes wc d (done.0) (done.1) h1)

  -- A whole stream: the driver keeps its sink, and a family that is resolved stays.
  pub convert_packet_stream-Keeps :
      (bytes : List ℕ) (wc : WeekConstraint) (d d' : Driver S P) (n : ℕ) (used : Bool)
      → convert_packet_stream new_parser sink metadata_sink decode consume_ubx next_msg_frame bytes
          wc d
        ≡ good (d', n, used)
      → Keeps d d'
  unfolding convert_packet_stream
  convert_packet_stream-Keeps bytes wc d d' n used h =
      by_kind (stream_kind next_msg_frame d.from bytes) bytes wc d d' n used h
