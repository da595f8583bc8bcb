-- ===== src/Json/Lines.antt =====
-- The records that `ObsJsonSink` of obsj/src/json.rs writes are the records that `read_obsj` reads.
use mathlib.Core.List.{append_assoc, append-nil}
use convobs_rs.Base.{
  ◌≡◌, refl, ap, ◌∙◌, sym, false, some, List, [], ◌∷◌, ◌++◌, map, All, All-mono, All-map,
}
use convobs_rs.Base.Texts.{trim, lines, split, line_parts, without_cr}
use convobs_rs.Checked.{good, ◌>>=◌}
use convobs_rs.Float.{Floats}
use convobs_rs.Metadata.{Text, Metadata, default_metadata, is_empty, merge}
use convobs_rs.Time.Printed.{Lacks, split-join}
use convobs_rs.Values.{SignalObservation}
use convobs_rs.Json.Values.{present}
use convobs_rs.Json.Decode.{Serde}
use convobs_rs.Json.Records.{Record, observation, metadata, parse_record}
use convobs_rs.Json.Written.{entries}
use convobs_rs.Json.Back.{PrintsInts, IsWritable, without_ll, parse_record-observation}
use convobs_rs.Json.Facts.{IsWritableHeader, parse_record-metadata}
use convobs_rs.Json.Stream.{Collected, collector, accept, stream_obsj, read_obsj, written}

-- A text that stands on a line of its own, with nothing to trim.
abbrev pub IsLine : Text → Type 0
IsLine s = Lacks 10 s × (without_cr s ≡ s) × (trim s ≡ s) × (is_empty s ≡ false)

line_parts-cons :
    (s q : Text) (parts : List Text)
    → line_parts (s ∷ q ∷ parts) ≡ without_cr s ∷ line_parts (q ∷ parts)
line_parts-cons [] q parts = refl
line_parts-cons (c ∷ cs) q parts = refl

line_parts-end : (ss : List Text) → All IsLine ss → line_parts (ss ++ ([] ∷ [])) ≡ ss
line_parts-end [] h = refl
line_parts-end (s ∷ []) h = line_parts-cons s [] [] ∙ ap (λ t. t ∷ []) h.0.1
line_parts-end (s ∷ u ∷ ss) h =
    line_parts-cons s u (ss ++ ([] ∷ [])) ∙ rw (h.0.1, line_parts-end (u ∷ ss) h.1)

module _ {fl : Floats} (serde : Serde fl) where
  abbrev line_of : Record fl → Text
  line_of r = serde.to_string (present (entries serde r))

  split-written :
      (rs : List (Record fl))
      → All (λ r. IsLine (line_of r)) rs
      → split 10 (written serde rs) ≡ map line_of rs ++ ([] ∷ [])
  unfolding written split
  split-written [] h = refl
  split-written (r ∷ rs) h =
      ap (split 10) (append_assoc (line_of r) (10 ∷ []) (written serde rs))
      ∙ split-join 10 (line_of r) (written serde rs) h.0.0
      ∙ ap (λ ss. line_of r ∷ ss) (split-written rs h.1)

  -- The header facts and the observations of some records.
  abbrev pub headers : Metadata fl → List (Record fl) → Metadata fl
  headers m [] = m
  headers m (observation o ∷ rs) = headers m rs
  headers m (metadata x ∷ rs) = headers (merge m x) rs

  abbrev pub observations : List (Record fl) → List (SignalObservation fl)
  observations [] = []
  observations (observation o ∷ rs) = without_ll serde o ∷ observations rs
  observations (metadata x ∷ rs) = observations rs

  -- A record that can be written and whose text `serde_json` reads back.
  abbrev pub Fits : Record fl → Type 0
  Fits (observation o) = IsWritable serde o
  Fits (metadata m) = IsWritableHeader serde m

  -- What `serde_json` is relied on for: it reads back the objects that it has written, each on
  -- a line of its own.
  abbrev pub ReadsBack : Record fl → Type 0
  ReadsBack r =
      IsLine (line_of r) × (serde.from_str (line_of r) ≡ some (present (entries serde r))) × Fits r

  abbrev read_back : Record fl → Record fl
  read_back (observation o) = observation (without_ll serde o)
  read_back (metadata m) = metadata m

  parse_record-line_of :
      (r : Record fl)
      → PrintsInts serde
      → ReadsBack r
      → parse_record serde (line_of r) ≡ good (read_back r)
  parse_record-line_of (observation o) prints (line, back, fits) =
      parse_record-observation serde o prints fits back
  parse_record-line_of (metadata m) prints (line, back, fits) =
      parse_record-metadata serde m prints fits back

  stream_obsj-step :
      (r : Record fl) (rest : List Text) (c : Collected serde)
      → PrintsInts serde
      → ReadsBack r
      → stream_obsj serde (collector serde) (line_of r ∷ rest) c ≡ (
          accept serde (collector serde) (read_back r) c >>= λ c'.
          stream_obsj serde (collector serde) rest c')
  unfolding stream_obsj
  stream_obsj-step r rest c prints h = rw (h.0.2, h.0.3, parse_record-line_of r prints h)

  stream_obsj-lines :
      (rs : List (Record fl)) (m : Metadata fl) (os : List (SignalObservation fl))
      → PrintsInts serde
      → All ReadsBack rs
      → stream_obsj serde (collector serde) (map line_of rs) (m, os)
        ≡ good (headers m rs, os ++ observations rs)
  unfolding stream_obsj
  stream_obsj-lines [] m os prints h = ap (λ l. good (m, l)) (sym (append-nil os))
  stream_obsj-lines (observation o ∷ rs) m os prints h =
      stream_obsj-step (observation o) (map line_of rs) (m, os) prints h.0
      ∙ stream_obsj-lines rs m (os ++ (without_ll serde o ∷ [])) prints h.1
      ∙ ap (λ l. good (headers m rs, l))
          (append_assoc os (without_ll serde o ∷ []) (observations rs))
  stream_obsj-lines (metadata x ∷ rs) m os prints h =
      stream_obsj-step (metadata x) (map line_of rs) (m, os) prints h.0
      ∙ stream_obsj-lines rs (merge m x) os prints h.1

  -- Whatever observations and metadata records are written, in whatever order, `read_obsj` reads
  -- the text back: the metadata records merged in their order, and every observation in its
  -- order, without the transient flag `ll`. The conditions: the times, dates and identifiers of
  -- the records can be read back; every number of an observation is the one that the parser of the
  -- standard library gives for its printed token; every number of a metadata record is the one that
  -- the own parser of `serde_json` gives for it, which `serde_json` does not promise for every
  -- finite number; and `serde_json` reads the objects and integers back that it has written.
  pub read_obsj-written :
      (rs : List (Record fl))
      → PrintsInts serde
      → All ReadsBack rs
      → read_obsj serde (written serde rs) ≡ good (headers default_metadata rs, observations rs)
  unfolding read_obsj lines
  read_obsj-written rs prints h =
      let lines_of = All-mono rs (λ (r : Record fl) (ok : ReadsBack r). ok.0) h in
      let split_back : lines (written serde rs) ≡ map line_of rs =
        ap line_parts (split-written rs lines_of)
        ∙ line_parts-end (map line_of rs) (All-map IsLine line_of rs lines_of) in
      ap (λ ls. stream_obsj serde (collector serde) ls (default_metadata, [])) split_back
      ∙ stream_obsj-lines rs default_metadata [] prints h
