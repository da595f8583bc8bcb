-- ===== src/Json/Back.antt =====
-- A record that is written as a line of JSON is read back, of obsj/src/json.rs: `parse_record` after
-- `ObsJsonSink`.
use mathlib.Core.Path.{fun_ext}
use convobs_rs.Base.{
  ℕ, ◌+◌, ◌<◌, ◌≡◌, ◌^◌, refl, ap, ◌∙◌, Bool, true, false, nat_beq, if◌then◌else◌, Option, none,
  some, unwrap_or, Bool-cases, inl, inr, arith,
}
use convobs_rs.Base.Int.{ℤ, pos, negsuc, pos_part, neg_part}
use convobs_rs.Checked.{good}
use convobs_rs.Float.{Floats}
use convobs_rs.Ids.{parse_sat, parse_sig, sat_as_str, sig_as_str}
use convobs_rs.Metadata.{Text}
use convobs_rs.Time.Text.{display, parse_time}
use convobs_rs.Values.{SignalObservation}
use convobs_rs.Json.Values.{Json, Look, find, present, entry, keys, decoded}
use convobs_rs.Json.Fields.{distinct, find-present}
use convobs_rs.Json.Decode.{Serde, decode_signed, decode_unsigned, any, decode_flag}
use convobs_rs.Json.Records.{
  RawRecord, observation, raw_record, token_f64, token_f32, record_of, parse_record,
}
use convobs_rs.Json.Written.{Entries, int, some_of, unless_skipped, observation_entries}

-- What `look` finds among written entries.
abbrev pub look_in : Entries → Look
look_in es = λ k. good (entry k es)

pub find-entries :
    (es : Entries) → distinct (keys es) ≡ true → (λ k. find k (present es)) ≡ look_in es
find-entries es h = fun_ext (λ k. find-present k es h)

module _ {fl : Floats} (serde : Serde fl) where
  -- The numbers of an optional value come back from their tokens, as finite numbers do.
  abbrev pub Prints64 : Option fl.F64 → Type 0
  Prints64 none = Unit
  Prints64 (some x) =
      (token : Text) × (serde.print_f64 x ≡ Json.number token) × (serde.parse_f64 token ≡ some x)

  abbrev pub Prints32 : Option fl.F32 → Type 0
  Prints32 none = Unit
  Prints32 (some x) =
      (token : Text) × (serde.print_f32 x ≡ Json.number token) × (serde.parse_f32 token ≡ some x)

  -- The integers of `serde_json`, printed and read.
  abbrev pub PrintsInts : Type 0
  PrintsInts = (z : ℤ) → serde.json_int (serde.print_int z) ≡ some z

  abbrev pub IsI8 : Option ℤ → Type 0
  IsI8 none = Unit
  IsI8 (some z) = (pos_part z < 128) × (neg_part z < 129)

  -- An observation that can be written: its time and identifiers can be read, and its numbers fit.
  pub record IsWritable (o : SignalObservation fl) : Type 0 where
    pub time : parse_time (display o.t) ≡ good o.t
    pub sat : parse_sat (sat_as_str o.sat) ≡ some o.sat
    pub sig : parse_sig (sig_as_str o.sig) ≡ some o.sig
    pub frq : IsI8 o.v.frq
    pub pr : Prints64 o.v.pr
    pub cp : Prints64 o.v.cp
    pub dop : Prints64 o.v.dop
    pub cn0 : Prints32 o.v.cn0
    pub arc : o.v.arc < 2 ^ 32

  pub signed_back :
      (half : ℕ) (z : ℤ)
      → PrintsInts
      → pos_part z < half
      → neg_part z < half + 1
      → decode_signed serde half (int serde z) ≡ good z
  signed_back half (pos n) prints h l = rw (prints (pos n)) (ground arith)
  signed_back half (negsuc n) prints h l = rw (prints (negsuc n)) (ground arith)

  frq_back :
      (frq : Option ℤ)
      → PrintsInts
      → IsI8 frq
      → decoded (decode_signed serde 128) (some_of (int serde) frq) ≡ good frq
  frq_back none prints h = refl
  frq_back (some z) prints h = rw (signed_back 128 z prints h.0 h.1)

  raw64_back :
      (x : Option fl.F64)
      → Prints64 x
      → decoded any (some_of serde.print_f64 x) ≡ good (some_of serde.print_f64 x)
  raw64_back none h = refl
  raw64_back (some x) (token, printed, read) = rw printed

  raw32_back :
      (x : Option fl.F32)
      → Prints32 x
      → decoded any (some_of serde.print_f32 x) ≡ good (some_of serde.print_f32 x)
  raw32_back none h = refl
  raw32_back (some x) (token, printed, read) = rw printed

  token_f64_back :
      (x : Option fl.F64) → Prints64 x → token_f64 serde (some_of serde.print_f64 x) ≡ good x
  unfolding token_f64
  token_f64_back none h = refl
  token_f64_back (some x) (token, printed, read) = rw (printed, token_f64, read)

  token_f32_back :
      (x : Option fl.F32) → Prints32 x → token_f32 serde (some_of serde.print_f32 x) ≡ good x
  unfolding token_f32
  token_f32_back none h = refl
  token_f32_back (some x) (token, printed, read) = rw (printed, token_f32, read)

  abbrev nonzero : ℕ → Option ℕ
  nonzero n = if nat_beq n 0 then none else some n

  arc_back :
      (arc : ℕ)
      → PrintsInts
      → arc < 2 ^ 32
      → decoded
          (decode_unsigned serde (2 ^ 32))
          (unless_skipped (nat_beq arc 0) (int serde (pos arc)))
        ≡ good (nonzero arc)
  arc_back arc prints h = elim (Bool-cases (nat_beq arc 0)) [
    | inl is_zero ↦ rw is_zero
    | inr other ↦ rw (other, prints (pos arc)) (ground arith)
  ]

  abbrev set_flag : Bool → Option Bool
  set_flag b = if b then some true else none

  flag_back :
      (b : Bool)
      → decoded decode_flag (if b then some (Json.flag true) else none) ≡ good (set_flag b)
  flag_back true = refl
  flag_back false = refl

  abbrev raw_of : SignalObservation fl → RawRecord fl
  raw_of o = record {
    t = some o.t;
    sat = some o.sat;
    sig = some o.sig;
    frq = o.v.frq;
    pr = some_of serde.print_f64 o.v.pr;
    cp = some_of serde.print_f64 o.v.cp;
    dop = some_of serde.print_f64 o.v.dop;
    cn0 = some_of serde.print_f32 o.v.cn0;
    arc = nonzero o.v.arc;
    hc = set_flag o.v.hc;
    bt = set_flag o.v.bt;
    version = none;
    run = none;
    comment = none;
    marker = none;
    observer = none;
    agency = none;
    receiver = none;
    antenna = none;
    approx_position = none;
    antenna_delta = none;
    interval = none;
    leap_seconds = none;
    ssi = none;
    lli = none;
    ll = none;
  }

  raw_record-observation :
      (o : SignalObservation fl)
      → PrintsInts
      → IsWritable o
      → raw_record serde (look_in (observation_entries serde o)) ≡ good (raw_of o)
  unfolding raw_record
  raw_record-observation o prints h = rw (
    h.time,
    h.sat,
    h.sig,
    frq_back o.v.frq prints h.frq,
    raw64_back o.v.pr h.pr,
    raw64_back o.v.cp h.cp,
    raw64_back o.v.dop h.dop,
    raw32_back o.v.cn0 h.cn0,
    arc_back o.v.arc prints h.arc,
    flag_back o.v.hc,
    flag_back o.v.bt,
  )

  nonzero_back : (n : ℕ) → unwrap_or (nonzero n) 0 ≡ n
  nonzero_back n = ground arith

  set_flag_back : (b : Bool) → unwrap_or (set_flag b) false ≡ b
  set_flag_back true = refl
  set_flag_back false = refl

  -- The transient flag is not written.
  abbrev pub without_ll : SignalObservation fl → SignalObservation fl
  without_ll o = record o { v = record (o.v) { ll = false } }

  record_of-observation :
      (o : SignalObservation fl)
      → IsWritable o
      → record_of serde (raw_of o) ≡ good (observation (without_ll o))
  unfolding record_of
  record_of-observation o h = rw (
    token_f64_back o.v.pr h.pr,
    token_f64_back o.v.cp h.cp,
    token_f64_back o.v.dop h.dop,
    token_f32_back o.v.cn0 h.cn0,
    nonzero_back o.v.arc,
    set_flag_back o.v.hc,
    set_flag_back o.v.bt,
  )

  -- A written observation is read back, without its transient flag.
  pub parse_record-observation :
      (o : SignalObservation fl)
      → PrintsInts
      → IsWritable o
      → serde.from_str (serde.to_string (present (observation_entries serde o)))
        ≡ some (present (observation_entries serde o))
      → parse_record serde (serde.to_string (present (observation_entries serde o)))
        ≡ good (observation (without_ll o))
  unfolding parse_record
  parse_record-observation o prints h back =
      let es = observation_entries serde o in
      let fields =
        ap (raw_record serde) (find-entries es refl) ∙ raw_record-observation o prints h in
      rw (back, fields) (record_of-observation o h)
