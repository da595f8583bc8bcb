-- ===== src/Rinex/Satellite.antt =====
-- The reader of a satellite's line in obsj/src/rinexobs.rs: `parse_satellite_observation_line` and
-- what it calls. Parsing a decimal number is the standard library's, a parameter.
use convobs_rs.Base.{
  ℕ, ◌+◌, ◌-◌, ◌*◌, not, ◌||◌, leb, nat_beq, nat_eq, if◌then◌else◌, Option, none, some, is_some,
  unwrap_or, List, [], ◌∷◌, length, get_or, take, drop,
}
use convobs_rs.Base.Int.{ℤ}
use convobs_rs.Base.Map.{Map, get, insert}
use convobs_rs.Base.Texts.{digit, trim, trim_start, trim_end}
use convobs_rs.Checked.{Checked, good, bad}
use convobs_rs.Float.{Floats}
use convobs_rs.Ids.{
  SatId, SigId, ObsCode, sat_id, sat_eq, sig_eq, sat_is_valid, system, signal, type_code,
  type_phase, type_doppler, type_signal_strength,
}
use convobs_rs.Metadata.{Text, is_empty}
use convobs_rs.Time.{GpsTime}
use convobs_rs.Values.{SignalValues, SignalObservation, default_values, set_lli}
use convobs_rs.Rinex.Columns.{pad_line, spaces}

-- The columns of the `i`-th code, of a line in ASCII.
unfoldable pub rinex_field : Text → ℕ → Text
rinex_field line i =
    let start = 3 + i * 16 in
    if leb (length line) start then spaces 16 else take 16 (pad_line (drop start line) 16)

unfoldable pub parse_indicator : ℕ → Option ℕ
parse_indicator b = if digit b then some (b - b'0') else none

module _ (fl : Floats) (parse_float : Text → Option fl.F64) where
  unfoldable pub cn0_from_ssi : ℕ → fl.F32
  cn0_from_ssi ssi =
      if leb ssi 1
      then fl.lit32 6 0
      else if leb 9 ssi
      then fl.lit32 57 0
      else fl.of_int32 (ssi * 6 + 3)

  unfoldable pub add_ssi : ℕ → SignalValues fl → SignalValues fl
  unfolding cn0_from_ssi
  add_ssi ssi v =
      if nat_beq ssi 0 || is_some v.cn0 then v else record v { cn0 = some (cn0_from_ssi ssi) }

  unfoldable pub parse_obs_float : Text → Option fl.F64
  parse_obs_float s = if is_empty s then none else parse_float s

  -- The new value where there is one.
  abbrev pub or_old {ℓ} : {A : Type ℓ} → Option A → Option A → Option A
  or_old none old = old
  or_old (some x) old = some x

  abbrev pub with_ssi : ℕ → SignalValues fl → SignalValues fl
  with_ssi b v = elim (parse_indicator b) [ none ↦ v | some ssi ↦ add_ssi ssi v ]

  abbrev pub with_lli : ℕ → SignalValues fl → SignalValues fl
  with_lli b v = elim (parse_indicator b) [ none ↦ v | some l ↦ set_lli v l ]

  abbrev pub to_f32 : Option fl.F64 → Option fl.F32
  to_f32 none = none
  to_f32 (some x) = some (fl.to_f32 x)

  -- `add_rinex_field`, for a field of 16 columns.
  unfoldable pub add_rinex_field : ObsCode → Text → SignalValues fl → SignalValues fl
  unfolding parse_indicator add_ssi parse_obs_float set_lli
  add_rinex_field c field v =
      let val = parse_obs_float (trim (take 14 field)) in
      let lli_byte = get_or field 14 0 in
      let ssi_byte = get_or field 15 0 in
      if nat_beq c.obs_type type_code
      then with_ssi ssi_byte (record v { pr = or_old val v.pr })
      else if nat_beq c.obs_type type_phase
      then with_ssi ssi_byte (with_lli lli_byte (record v { cp = or_old val v.cp }))
      else if nat_beq c.obs_type type_doppler
      then record v { dop = or_old val v.dop }
      else if nat_beq c.obs_type type_signal_strength
      then record v { cn0 = or_old (to_f32 val) v.cn0 }
      else v

  -- `by_sig` in the order of `order`: the values of the signals that the line has shown.
  abbrev pub Shown : Type 0
  Shown = Map SigId (SignalValues fl)

  abbrev pub first_values : Option ℤ → SignalValues fl
  first_values frq = record default_values { frq = frq }

  -- The loop over the codes, from the `i`-th.
  unfoldable pub read_fields :
      Text → Option ℤ → ℕ → List ObsCode → Map SigId (SignalValues fl) → Map SigId (SignalValues fl)
  unfolding rinex_field add_rinex_field trim_start trim_end
  read_fields line frq i [] shown = shown
  read_fields line frq i (c ∷ cs) shown =
      let field = rinex_field line i in
      let before = unwrap_or (get (signal c) shown) (first_values frq) in
      read_fields line frq (i + 1) cs (
        if is_empty (trim field)
        then shown
        else insert (signal c) (add_rinex_field c field before) shown)

  abbrev pub observations :
      GpsTime → SatId → Map SigId (SignalValues fl) → List (SignalObservation fl)
  observations t sat [] = []
  observations t sat ((sig, v) ∷ shown) =
      record { t = t; sat = sat; sig = sig; v = v } ∷ observations t sat shown

  -- `parse_satellite_observation_line`, with the codes and the channels of the header.
  unfoldable pub parse_satellite_observation_line :
      Map ℕ (List ObsCode) → Map SatId ℤ → GpsTime → Text → Checked (List (SignalObservation fl))
  unfolding read_fields sat_is_valid
  parse_satellite_observation_line codes frq t raw_line =
      let line = pad_line raw_line 3 in
      let sat = sat_id (get_or line 0 0) (get_or line 1 0) (get_or line 2 0) in
      let shown = read_fields line (get sat frq) 0 (unwrap_or (get (system sat) codes) []) [] in
      if not (sat_is_valid sat)
      then bad "rinex: invalid satellite"
      else good (observations t sat shown)
