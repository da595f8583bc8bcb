-- ===== src/Rinex/Head/End.antt =====
-- Where `read_header` of obsj/src/rinexobs.rs stops, and what it hands to `read_epochs`.
use convobs_rs.Base.{
  ◌≡◌, ◌↔◌, ap, true, false, List, [], ◌∷◌, ◌++◌, Option, All, Bool-cases, inl, inr,
}
use convobs_rs.Checked.{Checked, good, ◌>>=◌, bind-eq-good}
use convobs_rs.Float.{Floats}
use convobs_rs.Metadata.{Text}
use convobs_rs.Rinex.Head.{
  ObsHeader, new_header, content_of, label_of, is_end, read_record, finished, read_header_from,
  read_header,
}

module _ (fl : Floats) (parse_float : Text → Option fl.F64) where
  -- The records of some lines, one after the other.
  unfoldable pub read_records : ObsHeader fl → List Text → Checked (ObsHeader fl)
  read_records h [] = good h
  read_records h (raw ∷ lines) =
      read_record fl parse_float (label_of raw) (content_of raw) h >>= λ next.
      read_records next lines

  -- The lines up to the end of the header, and what stands behind them.
  abbrev pub IsHead : ObsHeader fl → List Text → ObsHeader fl → List Text → Type 0
  IsHead h lines answer rest =
      (before : List Text) × (last : Text) × (lines ≡ before ++ (last ∷ rest))
      × All (λ raw. is_end raw ≡ false) before
      × (is_end last ≡ true)
      × ((read_records h before >>= λ r. good (finished fl parse_float r)) ≡ good answer)

  read_header_from-IsHead :
      (h : ObsHeader fl) (lines : List Text) (answer : ObsHeader fl) (rest : List Text)
      → read_header_from fl parse_float h lines ≡ good (answer, rest)
      → IsHead h lines answer rest
  unfolding read_header_from read_records
  read_header_from-IsHead h [] answer rest eq = absurd (cc)
  read_header_from-IsHead h (raw ∷ lines) answer rest eq = elim (Bool-cases (is_end raw)) [
    | inl last ↦
        let done : good (finished fl parse_float h, lines) ≡ good (answer, rest) = rw last at eq in
        let same : (finished fl parse_float h, lines) ≡ (answer, rest) = cc done in
        (
          [],
          raw,
          ap (λ (p : ObsHeader fl × List Text). raw ∷ p.1) same,
          tt,
          last,
          ap (λ (p : ObsHeader fl × List Text). good (p.0)) same,
        )
    | inr more ↦
        let step =
          bind-eq-good (read_record fl parse_float (label_of raw) (content_of raw) h)
            (λ next. read_header_from fl parse_float next lines) (rw more at eq) in
        let (next, read, further) = step in
        let (before, last, split, none_ends, ends, records) =
          read_header_from-IsHead next lines answer rest further in
        (raw ∷ before, last, ap (λ l. raw ∷ l) split, (more, none_ends), ends, rw read records)
  ]

  IsHead-read_header_from :
      (before : List Text) (last : Text) (h answer : ObsHeader fl) (rest : List Text)
      → All (λ raw. is_end raw ≡ false) before
      → is_end last ≡ true
      → (read_records h before >>= λ r. good (finished fl parse_float r)) ≡ good answer
      → read_header_from fl parse_float h (before ++ (last ∷ rest)) ≡ good (answer, rest)
  unfolding read_header_from read_records
  IsHead-read_header_from [] last h answer rest none_ends ends records =
      let same : finished fl parse_float h ≡ answer = cc records in rw (ends, same)
  IsHead-read_header_from (raw ∷ before) last h answer rest none_ends ends records =
      let (all, records', done) =
        bind-eq-good (read_records h (raw ∷ before)) (λ r. good (finished fl parse_float r))
          records in
      let (next, read, further) =
        bind-eq-good (read_record fl parse_float (label_of raw) (content_of raw) h)
          (λ next. read_records next before) records' in
      rw (none_ends.0, read)
        (IsHead-read_header_from before last next answer rest none_ends.1 ends (rw further done))

  -- `read_header` returns a header and the lines behind it exactly when some line has the label
  -- `END OF HEADER`: the lines in front of the first such line were read one after the other without
  -- an error and gave the header, and the lines behind it are left for the epochs.
  pub read_header_iff :
      (lines : List Text) (answer : ObsHeader fl) (rest : List Text)
      → (read_header fl parse_float lines ≡ good (answer, rest))
        ↔ IsHead new_header lines answer rest
  unfolding read_header
  read_header_iff lines answer rest = (
    read_header_from-IsHead new_header lines answer rest,
    λ (before, last, split, none_ends, ends, records).
        rw split
          (IsHead-read_header_from before last new_header answer rest none_ends ends records),
  )
