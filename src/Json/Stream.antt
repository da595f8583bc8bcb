-- ===== src/Json/Stream.antt =====
-- The stream of JSON lines in obsj/src/json.rs: `stream_obsj` into a sink, `read_obsj`, and the text
-- that `ObsJsonSink` writes for a list of records. The lines come from `BufRead::lines`.
use convobs_rs.Base.{if◌then◌else◌, List, [], ◌∷◌, ◌++◌}
use convobs_rs.Base.Texts.{trim, trim_start, trim_end, lines}
use convobs_rs.Checked.{Checked, good, ◌>>=◌}
use convobs_rs.Float.{Floats}
use convobs_rs.Metadata.{Text, Metadata, default_metadata, is_empty, merge}
use convobs_rs.Values.{SignalObservation}
use convobs_rs.Json.Decode.{Serde}
use convobs_rs.Json.Records.{Record, observation, metadata, parse_record}
use convobs_rs.Json.Written.{write_record}

-- The trait `Sink` over a state, as far as a stream calls it.
pub record Sink {ℓ} (fl : Floats) (S : Type ℓ) : Type ℓ where
  pub on_metadata : Metadata fl → S → Checked S
  pub on_observation : SignalObservation fl → S → Checked S

module _ {fl : Floats} (serde : Serde fl) where
  abbrev pub accept {ℓ} : {S : Type ℓ} → Sink fl S → Record fl → S → Checked S
  accept sink (observation o) s = sink.on_observation o s
  accept sink (metadata m) s = sink.on_metadata m s

  -- `stream_obsj`
  unfoldable pub stream_obsj {ℓ} : {S : Type ℓ} → Sink fl S → List Text → S → Checked S
  unfolding parse_record trim_start trim_end
  stream_obsj sink [] s = good s
  stream_obsj sink (line ∷ lines) s =
      let record_read =
        parse_record serde (trim line)
        >>= (λ r. accept sink r s >>= λ s'. stream_obsj sink lines s') in
      let skipped = stream_obsj sink lines s in
      if is_empty (trim line) then skipped else record_read

  -- The `Collector` of `read_obsj`.
  abbrev pub Collected : Type 0
  Collected = Metadata fl × List (SignalObservation fl)

  abbrev pub collector : Sink fl Collected
  collector = record {
    on_metadata = λ m c. good (merge c.0 m, c.1);
    on_observation = λ o c. good (c.0, c.1 ++ (o ∷ []));
  }

  -- `read_obsj`
  unfoldable pub read_obsj : Text → Checked Collected
  unfolding stream_obsj lines merge
  read_obsj text = stream_obsj collector (lines text) (default_metadata, [])

  -- What `ObsJsonSink` has written after some records.
  unfoldable pub written : List (Record fl) → Text
  unfolding write_record
  written [] = []
  written (r ∷ rs) = write_record serde r ++ written rs
