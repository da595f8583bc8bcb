-- ===== src/Json/Reread.antt =====
-- The text of an instant and back, of obsj/src/json.rs: `parse_rfc3339_public` after `Display` of
-- `ZonedDateTime`.
use mathlib.Core.List.{append_assoc}
use convobs_rs.Base.{
  ℕ, ◌^◌, ◌<◌, ◌≤◌, ◌≡◌, refl, ◌∙◌, sym, ap, true, false, nat_beq, List, [], ◌∷◌, ◌++◌, some, none,
  ◌>>=?◌, length, All, Bool-cases, inl, inr, arith,
}
use convobs_rs.Base.Int.{pos, int_laws, int_bounds, ◌-ℤ◌}
use convobs_rs.Base.Word.{i64_half, ediv, emod-lt, sub_i64_fits}
use convobs_rs.Base.Texts.{split_once, split_three}
use convobs_rs.Checked.{good}
use convobs_rs.Time.{Civil, Instant, is_valid, civil_of_instant, civil_from_days}
use convobs_rs.Time.Calendar.{IsNear}
use convobs_rs.Time.Days.{IsSmall}
use convobs_rs.Time.Era.{days_in_month_le}
use convobs_rs.Time.Dates.{is_valid_iff, days_from_civil-civil_from_days}
use convobs_rs.Time.Label.{
  label, civil_of_unix-label, near_unix, instant_from_civil-civil_of_instant,
}
use convobs_rs.Time.Text.{zero_padded, signed_padded, date_text, clock_text}
use convobs_rs.Time.Zoned.{trim_end_zeros, fine_clock, zoneless_text, zoneless, zoned}
use convobs_rs.Time.Printed.{
  IsDigit, IsField, zero_padded-IsField, Lacks, digits-Lacks, split_once-join,
  parse_unsigned-IsField, parse_signed-IsField,
}
use convobs_rs.Time.Reread.{join-Lacks}
use convobs_rs.Json.Instants.{
  strip_z, split_zone, nanos_of, cut_inside, clock, civil_of, fields_of, instant_of, parse_rfc3339,
}
use convobs_rs.Json.Fraction.{nanos_of-trim_end_zeros, length-trim_end_zeros, short_is_whole}

split_three-join :
    (sep : ℕ) (a b c : List ℕ)
    → Lacks sep a
    → Lacks sep b
    → split_three sep (a ++ (sep ∷ (b ++ (sep ∷ c)))) ≡ some (a, b, c)
unfolding split_three
split_three-join sep a b c ha hb =
    rw (split_once-join sep a (b ++ (sep ∷ c)) ha, split_three, split_once-join sep b c hb)

split_once-none : (sep : ℕ) (s : List ℕ) → Lacks sep s → split_once sep s ≡ none
unfolding split_once
split_once-none sep [] h = refl
split_once-none sep (c ∷ cs) h = rw (h.0, split_once-none sep cs h.1)

strip_z-append : (s : List ℕ) → strip_z (s ++ (b'Z' ∷ [])) ≡ some s
unfolding strip_z
strip_z-append [] = refl
strip_z-append (c ∷ []) = refl
strip_z-append (c ∷ d ∷ cs) = rw (strip_z-append (d ∷ cs))

split_zone-zulu : (s : List ℕ) → split_zone (s ++ (b'Z' ∷ [])) ≡ some (s, pos 0)
unfolding split_zone
split_zone-zulu s = rw (strip_z-append s, split_zone)

abbrev date_of : List ℕ → List ℕ → List ℕ → List ℕ
date_of y mo d = y ++ (b'-' ∷ (mo ++ (b'-' ∷ d)))

abbrev clock_of : List ℕ → List ℕ → List ℕ → List ℕ
clock_of h mi s = h ++ (b':' ∷ (mi ++ (b':' ∷ s)))

-- The fields of a text in Zulu time.
fields_of-zulu :
    (y mo d h mi s fine frac : List ℕ)
    → All IsDigit y × All IsDigit mo × All IsDigit d
    → All IsDigit h × All IsDigit mi × All IsDigit s
    → clock fine ≡ (clock_of h mi s, frac)
    → fields_of (date_of y mo d ++ (b'T' ∷ (fine ++ (b'Z' ∷ []))))
      ≡ (civil_of (y, mo, d) (h, mi, s) >>=? λ c. some (c, pos 0, frac))
unfolding fields_of
fields_of-zulu y mo d h mi s fine frac (hy, hmo, hd) (hh, hmi, hs) known = rw (
  split_once-join b'T' (date_of y mo d) (fine ++ (b'Z' ∷ [])) (
      join-Lacks b'T' b'-' y _ refl (digits-Lacks b'T' y refl hy) (
        join-Lacks b'T' b'-' mo d refl (digits-Lacks b'T' mo refl hmo)
          (digits-Lacks b'T' d refl hd))),
  fields_of,
  split_three-join b'-' y mo d (digits-Lacks b'-' y refl hy) (digits-Lacks b'-' mo refl hmo),
  split_zone-zulu fine,
  known,
  split_three-join b':' h mi s (digits-Lacks b':' h refl hh) (digits-Lacks b':' mi refl hmi),
)

clock-Lacks :
    (h mi s : List ℕ)
    → All IsDigit h × All IsDigit mi × All IsDigit s
    → Lacks b'.' (clock_of h mi s)
clock-Lacks h mi s (hh, hmi, hs) =
    join-Lacks b'.' b':' h _ refl (digits-Lacks b'.' h refl hh)
      (join-Lacks b'.' b':' mi s refl (digits-Lacks b'.' mi refl hmi) (digits-Lacks b'.' s refl hs))

-- The clock of the text, with and without a fraction.
clock-plain :
    (h mi s : List ℕ)
    → All IsDigit h × All IsDigit mi × All IsDigit s
    → clock (clock_of h mi s) ≡ (clock_of h mi s, [])
clock-plain h mi s (hh, hmi, hs) =
    rw (split_once-none b'.' (clock_of h mi s) (clock-Lacks h mi s (hh, hmi, hs)))

clock-fine :
    (h mi s f : List ℕ)
    → All IsDigit h × All IsDigit mi × All IsDigit s
    → clock (clock_of h mi s ++ (b'.' ∷ f)) ≡ (clock_of h mi s, f)
clock-fine h mi s f ok = rw (split_once-join b'.' (clock_of h mi s) f (clock-Lacks h mi s ok))

abbrev IsStamp : Civil → ℕ → Type 0
IsStamp c year =
    (c.year ≡ pos year)
    × (year < 10000)
    × (c.month < 100)
    × (c.day < 100)
    × (c.hour < 100)
    × (c.minute < 100)
    × (c.second < 100)
    × (c.nanos < 1000000000)
    × (is_valid c ≡ true)

civil_of-fields :
    (c : Civil) (year : ℕ) (y mo d h mi s : List ℕ)
    → IsStamp c year
    → IsField 4 year y × IsField 2 c.month mo × IsField 2 c.day d
    → IsField 2 c.hour h × IsField 2 c.minute mi × IsField 2 c.second s
    → civil_of (y, mo, d) (h, mi, s) ≡ some (record c { nanos = 0 })
civil_of-fields c year y mo d h mi s ok (fy, fmo, fd) (fh, fmi, fs) = rw (
  parse_signed-IsField i64_half 3 year y fy (omega arith),
  parse_unsigned-IsField (2 ^ 32) 1 c.month mo fmo (omega arith),
  parse_unsigned-IsField (2 ^ 32) 1 c.day d fd (omega arith),
  parse_unsigned-IsField (2 ^ 32) 1 c.hour h fh (omega arith),
  parse_unsigned-IsField (2 ^ 32) 1 c.minute mi fmi (omega arith),
  parse_unsigned-IsField (2 ^ 32) 1 c.second s fs (omega arith),
  sym ok.0,
)

-- The fields, the offset and the fraction, put together.
parse_rfc3339-fields :
    (s : List ℕ) (c : Civil) (frac : List ℕ)
    → fields_of s ≡ some (record c { nanos = 0 }, pos 0, frac)
    → cut_inside frac ≡ false
    → nanos_of frac ≡ some c.nanos
    → parse_rfc3339 s ≡ good (instant_of c (pos 0))
unfolding parse_rfc3339
parse_rfc3339-fields s c frac fields whole nanos = rw (fields, parse_rfc3339, whole, nanos)

-- The text with a given time of day.
parse_rfc3339-fine :
    (c : Civil) (year : ℕ) (fine frac : List ℕ)
    → IsStamp c year
    → clock fine ≡ (clock_text c, frac)
    → length frac ≤ 9
    → nanos_of frac ≡ some c.nanos
    → parse_rfc3339 (date_text c ++ (b'T' ∷ (fine ++ (b'Z' ∷ [])))) ≡ good (instant_of c (pos 0))
unfolding date_text clock_text signed_padded
parse_rfc3339-fine c year fine frac ok known short nanos =
    let fy = zero_padded-IsField 3 year (omega arith) (omega arith) in
    let fmo = zero_padded-IsField 1 c.month (omega arith) (omega arith) in
    let fd = zero_padded-IsField 1 c.day (omega arith) (omega arith) in
    let fh = zero_padded-IsField 1 c.hour (omega arith) (omega arith) in
    let fmi = zero_padded-IsField 1 c.minute (omega arith) (omega arith) in
    let fs = zero_padded-IsField 1 c.second (omega arith) (omega arith) in
    let read = civil_of-fields c year _ _ _ _ _ _ ok (fy, fmo, fd) (fh, fmi, fs) in
    let date = date_of (zero_padded 4 year) (zero_padded 2 c.month) (zero_padded 2 c.day) in
    let fields : fields_of (date ++ (b'T' ∷ (fine ++ (b'Z' ∷ []))))
        ≡ some (record c { nanos = 0 }, pos 0, frac) =
      fields_of-zulu (zero_padded 4 year) (zero_padded 2 c.month) (zero_padded 2 c.day)
        (zero_padded 2 c.hour) (zero_padded 2 c.minute) (zero_padded 2 c.second) fine frac
        (fy.1, fmo.1, fd.1) (fh.1, fmi.1, fs.1) known
      ∙ rw read in
    let shown : date_text c ≡ date = rw ok.0 in
    rw shown (
      parse_rfc3339-fields (date ++ (b'T' ∷ (fine ++ (b'Z' ∷ [])))) c frac fields
        (short_is_whole frac short) nanos)

clock_text-digits :
    (c : Civil) (year : ℕ)
    → IsStamp c year
    → All IsDigit (zero_padded 2 c.hour)
      × All IsDigit (zero_padded 2 c.minute)
      × All IsDigit (zero_padded 2 c.second)
clock_text-digits c year ok = (
  (zero_padded-IsField 1 c.hour (omega arith) (omega arith)).1,
  (zero_padded-IsField 1 c.minute (omega arith) (omega arith)).1,
  (zero_padded-IsField 1 c.second (omega arith) (omega arith)).1,
)

parse_rfc3339-zoneless_text :
    (c : Civil) (year : ℕ)
    → IsStamp c year
    → parse_rfc3339 (zoneless_text c ++ (b'Z' ∷ [])) ≡ good (instant_of c (pos 0))
unfolding zoneless_text fine_clock clock_text nanos_of
parse_rfc3339-zoneless_text c year ok =
    let digits = clock_text-digits c year ok in
    let h = zero_padded 2 c.hour in
    let mi = zero_padded 2 c.minute in
    let s = zero_padded 2 c.second in
    rw (append_assoc (date_text c) (b'T' ∷ fine_clock c) (b'Z' ∷ []))
      (elim (Bool-cases (nat_beq c.nanos 0)) [
        | inl whole ↦
            let zero_nanos : c.nanos ≡ 0 = ground arith in
            rw (whole, fine_clock)
              (parse_rfc3339-fine c year (clock_text c) [] ok (clock-plain h mi s digits)
                (omega arith) (ap some (sym zero_nanos)))
        | inr fine ↦
            let f = zero_padded-IsField 8 c.nanos (omega arith) (omega arith) in
            rw (fine, fine_clock)
              (parse_rfc3339-fine c year
                (clock_text c ++ (b'.' ∷ trim_end_zeros (zero_padded 9 c.nanos)))
                (trim_end_zeros (zero_padded 9 c.nanos)) ok
                (clock-fine h mi s (trim_end_zeros (zero_padded 9 c.nanos)) digits)
                (omega (arith, length-trim_end_zeros (zero_padded 9 c.nanos)))
                (nanos_of-trim_end_zeros c.nanos (omega arith)
                  (λ none_left. absurd (ground arith))))
      ])

-- The fields of an instant.
civil_of_instant-IsStamp :
    (i : Instant) (year : ℕ)
    → IsSmall i.secs
    → i.nanos < 1000000000
    → (civil_of_instant i).year ≡ pos year
    → year < 10000
    → IsStamp (civil_of_instant i) year
unfolding civil_of_instant
civil_of_instant-IsStamp i year small below shown early =
    let days = ediv i.secs 86400 in
    let close = near_unix i.secs small in
    let date = (days_from_civil-civil_from_days days (omega arith)).0 in
    let (y, m, d) = civil_from_days days in
    let short = days_in_month_le y m in
    let lt = emod-lt i.secs 86400 (omega arith) in
    let l = label i.secs i.nanos in
    let is = civil_of_unix-label i.secs i.nanos small in
    let shown_year : l.year ≡ pos year = rw is at shown in
    let close_year : IsNear l.year = rw shown_year ((omega arith), (omega arith)) in
    let valid =
      (is_valid_iff l close_year (omega arith)).1
        (date, omega arith, omega arith, omega arith, omega arith) in
    rw is (
      shown_year,
      early,
      omega arith,
      omega arith,
      omega arith,
      omega arith,
      omega arith,
      omega arith,
      valid,
    )

-- The time stamp that is written for an instant in a year from 0 to 9999, to the nanosecond, is
-- parsed as that instant.
pub parse_rfc3339-zoned :
    (i : Instant) (year : ℕ)
    → IsSmall i.secs
    → i.nanos < 1000000000
    → (civil_of_instant i).year ≡ pos year
    → year < 10000
    → parse_rfc3339 (zoned i) ≡ good (some i)
unfolding zoned zoneless instant_of
parse_rfc3339-zoned i year small below shown early =
    let ok = civil_of_instant-IsStamp i year small below shown early in
    let same : i.secs -ℤ pos 0 ≡ i.secs = omega int_laws in
    parse_rfc3339-zoneless_text (civil_of_instant i) year ok
    ∙ rw
        (
          ok.8,
          instant_from_civil-civil_of_instant i small,
          sub_i64_fits i.secs (pos 0) (omega int_bounds),
        )
        (ap good (ap some (cc same)))
