-- ===== src/Rinex/Write.antt =====
-- The writer of a header in obsj/src/rinexobs.rs: `write_header` and what it calls. Printing a number with decimals is the standard
-- library's, a parameter, by the number of its decimals. A text is ASCII, so that its columns are
-- its bytes.
use convobs_rs.Base.{
  ℕ, zero, suc, Bool, ◌-◌, nat_beq, nat_eq, if◌then◌else◌, Option, none, some, unwrap_or, List, [],
  ◌∷◌, ◌++◌, length, take, drop,
}
use convobs_rs.Base.Int.{ℤ, pos}
use convobs_rs.Base.Map.{Map, get}
use convobs_rs.Base.Texts.{ascii}
use convobs_rs.Diff.{less, sort}
use convobs_rs.Float.{Floats}
use convobs_rs.Ids.{SatId, ObsCode, sat_eq, sat_as_str, system}
use convobs_rs.Metadata.{Text, Metadata, is_empty}
use convobs_rs.Time.{GpsTime, Civil, Instant, civil, civil_of_instant}
use convobs_rs.Time.Text.{zeros, zero_padded, signed_padded}
use convobs_rs.Rinex.{ObsFile}
use convobs_rs.Rinex.Codes.{has_codes, ordered_systems}
use convobs_rs.Rinex.Columns.{spaces, pad_left, pad_right, header_line, write_obs_types}

-- `{:<n.n}`: the text cut and filled up to the width.
abbrev pub cut_right : ℕ → Text → Text
cut_right n s = pad_right n (take n s)

abbrev pub one_system : List ℕ → Text
one_system (s ∷ []) =
    if nat_beq s b'G'
    then ascii "G: GPS"
    else if nat_beq s b'R'
    then ascii "R: GLONASS"
    else if nat_beq s b'E'
    then ascii "E: Galileo"
    else if nat_beq s b'J'
    then ascii "J: QZSS"
    else if nat_beq s b'C'
    then ascii "C: BDS"
    else if nat_beq s b'I'
    then ascii "I: NavIC"
    else if nat_beq s b'S'
    then ascii "S: SBAS"
    else ascii "M: Mixed"
one_system _ = ascii "M: Mixed"

unfoldable pub header_system : Map ℕ (List ObsCode) → Text
unfolding ordered_systems
header_system codes = one_system (ordered_systems codes)

unfoldable pub format_run_date : Instant → Text
unfolding civil_of_instant signed_padded zero_padded
format_run_date d =
    let c = civil_of_instant d in
    signed_padded 4 c.year
    ++ (zero_padded 2 c.month
        ++ (zero_padded 2 c.day
            ++ (b' '
                ∷ (zero_padded 2 c.hour
                    ++ (zero_padded 2 c.minute ++ (zero_padded 2 c.second ++ ascii " UTC"))))))

abbrev pub date_or_blank : Option Instant → Text
date_or_blank none = []
date_or_blank (some d) = format_run_date d

-- A satellite and its channel, as many as a line holds.
abbrev pub sat_less : SatId → SatId → Bool
sat_less a b = less ((a.b0, b.b0) ∷ (a.b1, b.b1) ∷ (a.b2, b.b2) ∷ [])

abbrev pub glonass_sats : Map SatId ℤ → List SatId
glonass_sats [] = []
glonass_sats ((sat, v) ∷ frq) =
    if nat_beq (system sat) b'R' then sat ∷ glonass_sats frq else glonass_sats frq

abbrev pub channels : Map SatId ℤ → List SatId → Text
channels frq [] = []
channels frq (sat ∷ sats) =
    (b' ' ∷ sat_as_str sat)
    ++ (pad_left 3 (signed_padded 0 (unwrap_or (get sat frq) (pos 0))) ++ channels frq sats)

-- The lines behind the first; the fuel is at least their number.
unfoldable pub more_channels : ℕ → Map SatId ℤ → List SatId → Text
unfolding header_line
more_channels zero frq sats = []
more_channels (suc fuel) frq [] = []
more_channels (suc fuel) frq (sat ∷ sats) =
    let rest = more_channels fuel frq (drop 8 (sat ∷ sats)) in
    header_line (spaces 3 ++ channels frq (take 8 (sat ∷ sats))) (ascii "GLONASS SLOT / FRQ #")
    ++ rest

abbrev pub channel_lines : Map SatId ℤ → List SatId → Text
channel_lines frq [] = []
channel_lines frq (sat ∷ sats) =
    header_line
      (pad_left 3 (zero_padded 0 (length (sat ∷ sats))) ++ channels frq (take 8 (sat ∷ sats)))
      (ascii "GLONASS SLOT / FRQ #")
    ++ more_channels (length sats) frq (drop 8 (sat ∷ sats))

-- `write_glonass_freq`
unfoldable pub write_glonass_freq : Map SatId ℤ → Text
unfolding sort header_line more_channels zero_padded signed_padded get
write_glonass_freq frq = channel_lines frq (sort sat_less (glonass_sats frq))

module _ (fl : Floats) (print_fixed : ℕ → fl.F64 → Text) where
  -- `second_field`, of the seconds and nanoseconds; it is not negative.
  unfoldable pub second_field : Civil → Text
  second_field c =
      let s = print_fixed 7 (
        fl.add (fl.of_int (pos c.second))
          (fl.div (fl.of_int (pos c.nanos)) (fl.lit 1000000000 0))) in
      zeros (10 - length s) ++ s

  unfoldable pub write_time_header : GpsTime → Text → Text
  unfolding second_field header_line signed_padded zero_padded
  write_time_header t label =
      let c = civil t in
      header_line
        (pad_left 6 (signed_padded 0 c.year)
          ++ (pad_left 6 (zero_padded 2 c.month)
              ++ (pad_left 6 (zero_padded 2 c.day)
                  ++ (pad_left 6 (zero_padded 2 c.hour)
                      ++ (pad_left 6 (zero_padded 2 c.minute)
                          ++ (pad_left 13 (second_field c) ++ ascii "     GPS"))))))
        label

  abbrev pub three_numbers : fl.F64 × fl.F64 × fl.F64 → Text
  three_numbers (x, y, z) =
      pad_left 14 (print_fixed 4 x)
      ++ (pad_left 14 (print_fixed 4 y) ++ pad_left 14 (print_fixed 4 z))

  abbrev pub triple_text : Option (fl.F64 × fl.F64 × fl.F64) → Text
  triple_text p = three_numbers (unwrap_or p (fl.lit 0 0, fl.lit 0 0, fl.lit 0 0))

  abbrev pub comment_lines : List Text → Text
  comment_lines [] = []
  comment_lines (c ∷ cs) = header_line c (ascii "COMMENT") ++ comment_lines cs

  abbrev pub type_lines : Map ℕ (List ObsCode) → List ℕ → Text
  type_lines codes [] = []
  type_lines codes (s ∷ systems) =
      write_obs_types s (unwrap_or (get s codes) []) ++ type_lines codes systems

  abbrev pub interval_line : Option fl.F64 → Text
  interval_line none = []
  interval_line (some v) = header_line (pad_left 10 (print_fixed 3 v)) (ascii "INTERVAL")

  abbrev pub leap_line : Option ℤ → Text
  leap_line none = []
  leap_line (some n) = header_line (pad_left 6 (signed_padded 0 n)) (ascii "LEAP SECONDS")

  abbrev pub identity_lines : Metadata fl → Text → Text
  identity_lines m sys =
      header_line
        (pad_left 9 (take 9 m.version)
          ++ (spaces 11 ++ (ascii "OBSERVATION DATA    " ++ cut_right 20 sys)))
        (ascii "RINEX VERSION / TYPE")
      ++ (header_line
            (cut_right 20 m.run.program
              ++ (cut_right 20 m.run.by ++ cut_right 20 (date_or_blank m.run.date)))
            (ascii "PGM / RUN BY / DATE")
          ++ comment_lines m.comment)

  abbrev pub station_lines : Metadata fl → Text
  station_lines m =
      header_line m.marker.name (ascii "MARKER NAME")
      ++ (header_line m.marker.number (ascii "MARKER NUMBER")
          ++ (header_line m.marker.type_ (ascii "MARKER TYPE")
              ++ (header_line (cut_right 20 m.observer ++ cut_right 40 m.agency)
                    (ascii "OBSERVER / AGENCY")
                  ++ (header_line
                        (cut_right 20 m.receiver.number
                          ++ (cut_right 20 m.receiver.type_ ++ cut_right 20 m.receiver.version))
                        (ascii "REC # / TYPE / VERS")
                      ++ (header_line
                            (cut_right 20 m.antenna.number ++ cut_right 20 m.antenna.type_)
                            (ascii "ANT # / TYPE")
                          ++ (header_line (triple_text m.approx_position)
                                (ascii "APPROX POSITION XYZ")
                              ++ header_line (triple_text m.antenna_delta)
                                  (ascii "ANTENNA: DELTA H/E/N")))))))

  -- `write_header`
  unfoldable pub write_header : Metadata fl → ObsFile fl → Text
  unfolding header_system header_line write_time_header write_glonass_freq write_obs_types
      format_run_date ordered_systems get signed_padded
  write_header m f =
      identity_lines m (header_system f.codes)
      ++ (station_lines m
          ++ (type_lines f.codes (ordered_systems f.codes)
              ++ (interval_line m.interval
                  ++ (write_time_header f.first (ascii "TIME OF FIRST OBS")
                      ++ (write_time_header f.last (ascii "TIME OF LAST OBS")
                          ++ ((if is_empty f.frq then [] else write_glonass_freq f.frq)
                              ++ ((if has_codes (get b'R' f.codes)
                                    then header_line
                                        (ascii
                                          " C1C    0.000 C1P    0.000 C2C    0.000 C2P    0.000")
                                        (ascii "GLONASS COD/PHS/BIS")
                                    else [])
                                  ++ (leap_line m.leap_seconds
                                      ++ header_line [] (ascii "END OF HEADER")))))))))
