-- ===== src/Freq.antt =====
-- The carrier frequencies of obsj/src/freq.rs. A `match` on the band is a table here.
use convobs_rs.Base.{ℕ, nat_eq, Option, none, some, [], ◌∷◌}
use convobs_rs.Base.Int.{ℤ}
use convobs_rs.Base.Map.{Map, get}
use convobs_rs.Float.{Floats}
use convobs_rs.Ids.{SigId}

module _ (fl : Floats) where
  -- Kilohertz over 1000.
  abbrev mhz : ℕ → fl.F64
  mhz khz = fl.lit khz 3

  unfoldable pub signal_frequency_mhz : ℕ → SigId → Option ℤ → Option fl.F64
  unfolding get
  signal_frequency_mhz sys sig frq =
      let glonass : Option fl.F64 = elim frq [
        | none ↦ none
        | some c ↦
            let k = fl.of_int c in
            get (sig.band) (
              (b'1', fl.add (fl.lit 1602000 3) (fl.mul k (fl.lit 5625 4)))
              ∷ (b'2', fl.add (fl.lit 1246000 3) (fl.mul k (fl.lit 4375 4)))
              ∷ [])
      ] in
      let band = λ (table : Map ℕ fl.F64). get (sig.band) table in
      let found : Option (Option fl.F64) = get sys (
        (b'G', band ((b'1', mhz 1575420) ∷ (b'2', mhz 1227600) ∷ (b'5', mhz 1176450) ∷ []))
        ∷ (b'R', glonass)
        ∷ (
          b'E',
          band (
              (b'1', mhz 1575420)
              ∷ (b'5', mhz 1176450)
              ∷ (b'6', mhz 1278750)
              ∷ (b'7', mhz 1207140)
              ∷ (b'8', mhz 1191795)
              ∷ []),
        )
        ∷ (b'S', band ((b'1', mhz 1575420) ∷ (b'5', mhz 1176450) ∷ []))
        ∷ (
          b'J',
          band (
              (b'1', mhz 1575420)
              ∷ (b'2', mhz 1227600)
              ∷ (b'5', mhz 1176450)
              ∷ (b'6', mhz 1278750)
              ∷ []),
        )
        ∷ (
          b'C',
          band (
              (b'1', mhz 1575420)
              ∷ (b'2', mhz 1561098)
              ∷ (b'5', mhz 1176450)
              ∷ (b'6', mhz 1268520)
              ∷ (b'7', mhz 1207140)
              ∷ []),
        )
        ∷ (b'I', band ((b'5', mhz 1176450) ∷ (b'9', mhz 2492028) ∷ []))
        ∷ []) in
      elim found [ none ↦ none | some f ↦ f ]

  unfoldable pub signal_frequency_hz : ℕ → SigId → Option ℤ → Option fl.F64
  unfolding signal_frequency_mhz
  signal_frequency_hz sys sig frq = elim (signal_frequency_mhz sys sig frq) [
    | none ↦ none
    | some f ↦ some (fl.mul f (fl.lit 1000000 0))
  ]
