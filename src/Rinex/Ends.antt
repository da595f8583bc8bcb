-- ===== src/Rinex/Ends.antt =====
-- The loop over epochs of the reader in obsj/src/rinexobs.rs ends, with an answer: `read_epochs`.
use convobs_rs.Base.{
  ℕ, zero, suc, ◌≤◌, ◌<◌, ◌≡◌, refl, nat_beq, Option, some, List, [], ◌∷◌, ◌++◌, some, length, drop,
  length-drop, All, All-drop, sym, ◌∙◌, get_or, arith, Bool-cases, inl, inr, Bool, true, false,
  if◌then◌else◌,
}
use Prim.Native.String.{String}
use convobs_rs.Base.Int.{ℤ, pos_part}
use convobs_rs.Base.Map.{Map}
use convobs_rs.Base.Texts.{trim}
use convobs_rs.Checked.{Checked, good, bad, panic, ◌>>=◌, bind-eq-good}
use convobs_rs.Float.{Floats}
use convobs_rs.Ids.{SatId, ObsCode}
use convobs_rs.Metadata.{Text, is_empty}
use convobs_rs.Time.{GpsTime}
use convobs_rs.Values.{SignalObservation}
use convobs_rs.Rinex.Answers.{
  IsAnswer, answer, error, IsAscii, bind-IsAnswer, parse_epoch_line-IsAnswer,
}
use convobs_rs.Rinex.Satellite.{parse_satellite_observation_line}
use convobs_rs.Rinex.Times.{EpochLine, parse_epoch_line}
use convobs_rs.Rinex.Epochs.{
  skip_records, epoch_kind, read_satellites, read_epoch, read_epochs, read_kind, EpochKind,
  observed, skipped, header_update, unsupported, then_read, with_front,
}

either {ℓ} :
    {A : Type ℓ} (b : Bool) (message : String) (x : A)
    → IsAnswer (if b then bad message else good x)
either true message x = error
either false message x = answer

module _ (fl : Floats) (parse_float : Text → Option fl.F64) (codes : Map ℕ (List ObsCode))
    (frq : Map SatId ℤ) (time_system : Text) (leap_seconds : ℤ) where
  abbrev Os : Type 0
  Os = List (SignalObservation fl)

  -- The lines that are left stand at the end of the lines.
  abbrev IsTail : List Text → List Text → Type 0
  IsTail rest lines = (k : ℕ) × (rest ≡ drop k lines)

  skip_records-IsTail :
      (n : ℕ) (lines rest : List Text) → skip_records n lines ≡ good rest → IsTail rest lines
  unfolding skip_records
  skip_records-IsTail zero lines rest h = (0, cc h)
  skip_records-IsTail (suc n) [] rest h = absurd (ground arith)
  skip_records-IsTail (suc n) (line ∷ lines) rest h =
      let (k, e) = skip_records-IsTail n lines rest h in (suc k, e)

  skip_records-IsAnswer : (n : ℕ) (lines : List Text) → IsAnswer (skip_records n lines)
  unfolding skip_records
  skip_records-IsAnswer zero lines = answer
  skip_records-IsAnswer (suc n) [] = error
  skip_records-IsAnswer (suc n) (line ∷ lines) = skip_records-IsAnswer n lines

  read_satellites-IsTail :
      (n : ℕ) (t : GpsTime) (lines : List Text) (r : Os × List Text)
      → read_satellites fl parse_float codes frq time_system leap_seconds n t lines ≡ good r
      → IsTail (r.1) lines
  unfolding read_satellites
  read_satellites-IsTail zero t lines r h = (0, cc h)
  read_satellites-IsTail (suc n) t [] r h = absurd (ground arith)
  read_satellites-IsTail (suc n) t (line ∷ lines) r h =
      let (os, h1, h2) =
        bind-eq-good (parse_satellite_observation_line fl parse_float codes frq t line) _ h in
      let (others, h3, h4) =
        bind-eq-good (read_satellites fl parse_float codes frq time_system leap_seconds n t lines) _
          h2 in
      let (k, e) = read_satellites-IsTail n t lines others h3 in
      let same : others.1 ≡ r.1 = cc h4 in (suc k, sym same ∙ e)

  parse_satellite_observation_line-IsAnswer :
      (t : GpsTime) (line : Text)
      → IsAnswer (parse_satellite_observation_line fl parse_float codes frq t line)
  unfolding parse_satellite_observation_line
  parse_satellite_observation_line-IsAnswer t line = either _ _ _

  read_satellites-IsAnswer :
      (n : ℕ) (t : GpsTime) (lines : List Text)
      → IsAnswer (read_satellites fl parse_float codes frq time_system leap_seconds n t lines)
  unfolding read_satellites
  read_satellites-IsAnswer zero t lines = answer
  read_satellites-IsAnswer (suc n) t [] = error
  read_satellites-IsAnswer (suc n) t (line ∷ lines) =
      bind-IsAnswer _ _ (parse_satellite_observation_line-IsAnswer t line)
        (λ os. bind-IsAnswer _ _ (read_satellites-IsAnswer n t lines) (λ more. answer))

  read_kind-IsTail :
      (k : EpochKind) (e : EpochLine) (lines : List Text) (r : Os × List Text)
      → read_kind fl parse_float codes frq time_system leap_seconds k e lines ≡ good r
      → IsTail (r.1) lines
  unfolding read_kind
  read_kind-IsTail observed e lines r h = read_satellites-IsTail (pos_part e.count) _ lines r h
  read_kind-IsTail skipped e lines r h =
      let (rest, h1, h2) = bind-eq-good (skip_records (pos_part e.count) lines) _ h in
      let (k, e') = skip_records-IsTail (pos_part e.count) lines rest h1 in
      let same : rest ≡ r.1 = cc h2 in (k, sym same ∙ e')
  read_kind-IsTail header_update e lines r h = absurd (ground arith)
  read_kind-IsTail unsupported e lines r h = absurd (ground arith)

  read_kind-IsAnswer :
      (k : EpochKind) (e : EpochLine) (lines : List Text)
      → IsAnswer (read_kind fl parse_float codes frq time_system leap_seconds k e lines)
  unfolding read_kind
  read_kind-IsAnswer observed e lines = read_satellites-IsAnswer (pos_part e.count) _ lines
  read_kind-IsAnswer skipped e lines =
      bind-IsAnswer _ _ (skip_records-IsAnswer (pos_part e.count) lines) (λ rest. answer)
  read_kind-IsAnswer header_update e lines = error
  read_kind-IsAnswer unsupported e lines = error

  abbrev Total : Option (Checked Os) → Type 0
  Total o = (r : Checked Os) × (o ≡ some r) × IsAnswer r

  Total-front : (os : Os) (o : Option (Checked Os)) → Total o → Total (with_front os o)
  Total-front os o (r, e, ok) = rw e (
    (r >>= λ others. good (os ++ others)),
    refl,
    bind-IsAnswer r (λ others. good (os ++ others)) ok (λ others. answer),
  )

  Total-then :
      (m : Checked (Os × List Text)) (next : Os × List Text → Option (Checked Os))
      → IsAnswer m
      → ((x : Os × List Text) → m ≡ good x → Total (next x))
      → Total (then_read m next)
  Total-then (good x) next ok h = h x refl
  Total-then (bad message) next ok h = (bad message, refl, error)
  Total-then panic next ok h = elim ok [ ]

  -- On lines in ASCII the loop over the epochs ends with the observations or with an error, and never
  -- panics: the number of lines is fuel enough, since an epoch takes its own line and goes on at a
  -- later one.
  pub read_epochs-ends :
      (fuel : ℕ) (lines : List Text)
      → All IsAscii lines
      → length lines < fuel
      → (r : Checked (List (SignalObservation fl))) × (read_epochs fl parse_float codes frq
            time_system leap_seconds fuel lines
          ≡ some r)
        × IsAnswer r
  unfolding read_epochs read_epoch
  read_epochs-ends zero lines plain h = absurd (omega arith)
  read_epochs-ends (suc fuel) [] plain h = (good [], refl, answer)
  read_epochs-ends (suc fuel) (line ∷ lines) plain h = elim (Bool-cases (is_empty (trim line))) [
    | inl blank ↦ rw blank (read_epochs-ends fuel lines plain.1 (omega arith))
    | inr text ↦ elim (Bool-cases (nat_beq (get_or line 0 0) b'>')) [
      | inr other ↦ rw (text, other) (bad "rinex: expected epoch line", refl, error)
      | inl epoch ↦
          rw (text, epoch)
            (Total-then
              (parse_epoch_line line >>= λ e.
                read_epoch fl parse_float codes frq time_system leap_seconds e lines)
              _
              (bind-IsAnswer _ _ (parse_epoch_line-IsAnswer line plain.0)
                (λ e. read_kind-IsAnswer (epoch_kind e.flag) e lines))
              (λ taken found.
                let (e, h1, h2) = bind-eq-good (parse_epoch_line line) _ found in
                let (k, tail) = read_kind-IsTail (epoch_kind e.flag) e lines taken h2 in
                let still : All IsAscii (taken.1) = rw tail (All-drop IsAscii k lines plain.1) in
                let less : length (taken.1) ≤ length lines =
                  rw tail (omega (arith, length-drop k lines)) in
                Total-front (taken.0) _
                  (read_epochs-ends fuel (taken.1) still (omega (arith, less)))))
    ]
  ]
