-- ===== src/Json/Records.antt =====
-- The reader of JSON lines in obsj/src/json.rs: `RawRecord` and `parse_record`. The text of a JSON
-- value is `serde_json`'s, a parameter; a record and the structs in it are taken to be objects.
use convobs_rs.Base.{ℕ, ◌^◌, Bool, false, Option, none, some, is_some, unwrap_or, List, []}
use convobs_rs.Base.Int.{ℤ}
use convobs_rs.Base.Texts.{ascii}
use convobs_rs.Checked.{Checked, good, bad, ◌>>=◌, ◌>>◌, refuse_if, or_bad}
use convobs_rs.Float.{Floats}
use convobs_rs.Ids.{SatId, SigId}
use convobs_rs.Metadata.{
  Text, MetadataRun, Marker, Receiver, Antenna, Metadata, default_run, default_marker,
  default_receiver, default_antenna,
}
use convobs_rs.Time.{GpsTime}
use convobs_rs.Values.{SignalValues, SignalObservation}
use convobs_rs.Json.Decode.{
  Serde, decode_text, decode_time, decode_sat, decode_sig, decode_flag, decode_comment, any,
  decode_run, decode_marker, decode_receiver, decode_antenna, decode_f64, decode_triple,
  decode_signed, decode_unsigned,
}
use convobs_rs.Json.Values.{Json, Look, find, optional}

pub record RawRecord (fl : Floats) : Type 0 where
  pub t : Option GpsTime
  pub sat : Option SatId
  pub sig : Option SigId
  pub frq : Option ℤ
  pub pr : Option Json
  pub cp : Option Json
  pub dop : Option Json
  pub cn0 : Option Json
  pub arc : Option ℕ
  pub hc : Option Bool
  pub bt : Option Bool
  pub version : Option Text
  pub run : Option MetadataRun
  pub comment : Option (List Text)
  pub marker : Option Marker
  pub observer : Option Text
  pub agency : Option Text
  pub receiver : Option Receiver
  pub antenna : Option Antenna
  pub approx_position : Option (fl.F64 × fl.F64 × fl.F64)
  pub antenna_delta : Option (fl.F64 × fl.F64 × fl.F64)
  pub interval : Option fl.F64
  pub leap_seconds : Option ℤ
  pub ssi : Option Json
  pub lli : Option Json
  pub ll : Option Json

pub data Record (fl : Floats) : Type 0 where
  observation : SignalObservation fl → Record fl
  metadata : Metadata fl → Record fl

module _ {fl : Floats} (serde : Serde fl) where
  -- The deserialization of a `RawRecord`.
  unfoldable pub raw_record : Look → Checked (RawRecord fl)
  unfolding decode_time decode_sat decode_sig decode_run decode_marker decode_receiver
      decode_antenna
  raw_record look = do
    t ← optional (ascii "t") decode_time look
    sat ← optional (ascii "sat") decode_sat look
    sig ← optional (ascii "sig") decode_sig look
    frq ← optional (ascii "frq") (decode_signed serde 128) look
    pr ← optional (ascii "pr") any look
    cp ← optional (ascii "cp") any look
    dop ← optional (ascii "do") any look
    cn0 ← optional (ascii "cn0") any look
    arc ← optional (ascii "arc") (decode_unsigned serde (2 ^ 32)) look
    hc ← optional (ascii "hc") decode_flag look
    bt ← optional (ascii "bt") decode_flag look
    version ← optional (ascii "version") decode_text look
    run ← optional (ascii "run") decode_run look
    comment ← optional (ascii "comment") decode_comment look
    marker ← optional (ascii "marker") decode_marker look
    observer ← optional (ascii "observer") decode_text look
    agency ← optional (ascii "agency") decode_text look
    receiver ← optional (ascii "receiver") decode_receiver look
    antenna ← optional (ascii "antenna") decode_antenna look
    approx_position ← optional (ascii "approxPosition") (decode_triple serde) look
    antenna_delta ← optional (ascii "antennaDelta") (decode_triple serde) look
    interval ← optional (ascii "interval") (decode_f64 serde) look
    leap_seconds ← optional (ascii "leapSeconds") (decode_signed serde 32768) look
    ssi ← optional (ascii "ssi") any look
    lli ← optional (ascii "lli") any look
    ll ← optional (ascii "ll") any look
    good (record {
      t = t;
      sat = sat;
      sig = sig;
      frq = frq;
      pr = pr;
      cp = cp;
      dop = dop;
      cn0 = cn0;
      arc = arc;
      hc = hc;
      bt = bt;
      version = version;
      run = run;
      comment = comment;
      marker = marker;
      observer = observer;
      agency = agency;
      receiver = receiver;
      antenna = antenna;
      approx_position = approx_position;
      antenna_delta = antenna_delta;
      interval = interval;
      leap_seconds = leap_seconds;
      ssi = ssi;
      lli = lli;
      ll = ll;
    })

  -- `token_f64` and `token_f32`: only the text of a number can be parsed as one.
  unfoldable pub token_f64 : Option Json → Checked (Option fl.F64)
  token_f64 none = good none
  token_f64 (some (Json.number token)) =
      or_bad (serde.parse_f64 token) "invalid number" >>= λ x. good (some x)
  token_f64 (some _) = bad "invalid number"

  unfoldable pub token_f32 : Option Json → Checked (Option fl.F32)
  token_f32 none = good none
  token_f32 (some (Json.number token)) =
      or_bad (serde.parse_f32 token) "invalid number" >>= λ x. good (some x)
  token_f32 (some _) = bad "invalid number"

  unfoldable pub observation_of : GpsTime → RawRecord fl → Checked (Record fl)
  unfolding token_f64 token_f32
  observation_of t r = do
    refuse_if (is_some r.ssi) "obsj field ssi is not supported"
    refuse_if (is_some r.lli) "obsj field lli is not supported"
    refuse_if (is_some r.ll) "obsj field ll is not supported; use arc"
    sat ← or_bad r.sat "obsj observation record missing sat"
    sig ← or_bad r.sig "obsj observation record missing sig"
    pr ← token_f64 r.pr
    cp ← token_f64 r.cp
    dop ← token_f64 r.dop
    cn0 ← token_f32 r.cn0
    let v : SignalValues fl = record {
      frq = r.frq;
      pr = pr;
      cp = cp;
      dop = dop;
      cn0 = cn0;
      arc = unwrap_or r.arc 0;
      hc = unwrap_or r.hc false;
      bt = unwrap_or r.bt false;
      ll = false;
    }
    good (observation (record { t = t; sat = sat; sig = sig; v = v }))

  abbrev pub metadata_of : RawRecord fl → Record fl
  metadata_of r = metadata (record {
    version = unwrap_or r.version [];
    run = unwrap_or r.run default_run;
    comment = unwrap_or r.comment [];
    marker = unwrap_or r.marker default_marker;
    observer = unwrap_or r.observer [];
    agency = unwrap_or r.agency [];
    receiver = unwrap_or r.receiver default_receiver;
    antenna = unwrap_or r.antenna default_antenna;
    approx_position = r.approx_position;
    antenna_delta = r.antenna_delta;
    interval = r.interval;
    leap_seconds = r.leap_seconds;
  })

  unfoldable pub record_of : RawRecord fl → Checked (Record fl)
  unfolding observation_of
  record_of r = elim r.t [ none ↦ good (metadata_of r) | some t ↦ observation_of t r ]

  -- `parse_record`
  unfoldable pub parse_record : Text → Checked (Record fl)
  unfolding raw_record record_of
  parse_record line = do
    fields ← or_bad (serde.from_str line) "invalid JSON"
    r ← raw_record (λ k. find k fields)
    record_of r
