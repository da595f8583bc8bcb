-- ===== src/Time/Reread.antt =====
-- The label of a GPS time and back, of obsj/src/obs.rs: `parse_time` after `Display` of `GpsTime`.
use convobs_rs.Base.{
  ℕ, ◌*◌, ◌/◌, ◌%◌, ◌^◌, ◌<◌, ◌≡◌, refl, ◌∙◌, sym, ap, true, false, nat_beq, List, [], ◌∷◌, ◌++◌,
  length, All, All-append, arith,
}
use convobs_rs.Base.Int.{pos}
use convobs_rs.Base.Word.{i64_half, ediv, emod, emod-lt}
use convobs_rs.Base.Texts.{split}
use convobs_rs.Time.Calendar.{IsNear}
use convobs_rs.Time.Era.{days_in_month_le}
use convobs_rs.Time.Dates.{is_valid_iff, days_from_civil-civil_from_days}
use convobs_rs.Time.Label.{label, IsTick, unix_of_tick, near_second, civil-label, from_civil-civil}
use convobs_rs.Time.Label.{near_day}
use convobs_rs.Checked.{good}
use convobs_rs.Time.{Civil, GpsTime, civil, from_civil, is_valid, civil_from_days}
use convobs_rs.Time.Text.{
  zero_padded, signed_padded, date_text, clock_text, label_text, display, time_of, parse_time,
}
use convobs_rs.Time.Printed.{
  IsDigit, IsField, zero_padded-IsField, Lacks, digits-Lacks, split-none, split-join,
  split_once-join, parse_unsigned-IsField, parse_signed-IsField,
}

-- Three texts of digits, joined by a byte that is no digit, come apart again.
pub split-three :
    (sep : ℕ) (a b c : List ℕ)
    → Lacks sep a
    → Lacks sep b
    → Lacks sep c
    → split sep (a ++ (sep ∷ (b ++ (sep ∷ c)))) ≡ a ∷ b ∷ c ∷ []
split-three sep a b c ha hb hc =
    rw (split-join sep a (b ++ (sep ∷ c)) ha, split-join sep b c hb, split-none sep c hc)

-- Joined texts lack what the texts and the byte between them are not.
pub join-Lacks :
    (other sep : ℕ) (s t : List ℕ)
    → nat_beq sep other ≡ false
    → Lacks other s
    → Lacks other t
    → Lacks other (s ++ (sep ∷ t))
join-Lacks other sep s t differ hs ht =
    All-append (λ c. nat_beq c other ≡ false) s (sep ∷ t) hs (differ, ht)

-- What `parse_time` finds in a label of digits.
parse_time-parts :
    (y mo d h mi s f : List ℕ)
    → All IsDigit y × All IsDigit mo × All IsDigit d
    → All IsDigit h × All IsDigit mi × All IsDigit s
    → length f ≡ 7
    → parse_time (
        (y ++ (b'-' ∷ (mo ++ (b'-' ∷ d))))
        ++ (b'T' ∷ ((h ++ (b':' ∷ (mi ++ (b':' ∷ s)))) ++ (b'.' ∷ f))))
      ≡ time_of (y, mo, d) (h, mi, s) f
unfolding parse_time
parse_time-parts y mo d h mi s f (hy, hmo, hd) (hh, hmi, hs) seven = rw (
  split_once-join b'T' (y ++ (b'-' ∷ (mo ++ (b'-' ∷ d)))) _ (
      join-Lacks b'T' b'-' y _ refl (digits-Lacks b'T' y refl hy) (
        join-Lacks b'T' b'-' mo d refl (digits-Lacks b'T' mo refl hmo)
          (digits-Lacks b'T' d refl hd))),
  split-three b'-' y mo d (digits-Lacks b'-' y refl hy) (digits-Lacks b'-' mo refl hmo)
      (digits-Lacks b'-' d refl hd),
  split_once-join b'.' (h ++ (b':' ∷ (mi ++ (b':' ∷ s)))) f (
      join-Lacks b'.' b':' h _ refl (digits-Lacks b'.' h refl hh) (
        join-Lacks b'.' b':' mi s refl (digits-Lacks b'.' mi refl hmi)
          (digits-Lacks b'.' s refl hs))),
  split-three b':' h mi s (digits-Lacks b':' h refl hh) (digits-Lacks b':' mi refl hmi)
      (digits-Lacks b':' s refl hs),
  seven,
)

-- The fields of a label, read.
abbrev pub IsLabel : Civil → ℕ → Type 0
IsLabel c year =
    (c.year ≡ pos year)
    × (year < 10000)
    × (c.month < 100)
    × (c.day < 100)
    × (c.hour < 100)
    × (c.minute < 100)
    × (c.second < 100)
    × (c.nanos < 1000000000)
    × (c.nanos % 100 ≡ 0)
    × (is_valid c ≡ true)

time_of-fields :
    (c : Civil) (year : ℕ) (y mo d h mi s f : List ℕ)
    → IsLabel c year
    → IsField 4 year y × IsField 2 c.month mo × IsField 2 c.day d
    → IsField 2 c.hour h × IsField 2 c.minute mi × IsField 2 c.second s
    → IsField 7 (c.nanos / 100) f
    → time_of (y, mo, d) (h, mi, s) f ≡ good (from_civil c)
unfolding time_of
time_of-fields c year y mo d h mi s f ok (fy, fmo, fd) (fh, fmi, fs) ff =
    let same : c.nanos / 100 * 100 % 2 ^ 32 ≡ c.nanos = omega arith in
    rw (
      parse_signed-IsField i64_half 3 year y fy (omega arith),
      parse_unsigned-IsField (2 ^ 32) 1 c.month mo fmo (omega arith),
      parse_unsigned-IsField (2 ^ 32) 1 c.day d fd (omega arith),
      parse_unsigned-IsField (2 ^ 32) 1 c.hour h fh (omega arith),
      parse_unsigned-IsField (2 ^ 32) 1 c.minute mi fmi (omega arith),
      parse_unsigned-IsField (2 ^ 32) 1 c.second s fs (omega arith),
      parse_unsigned-IsField (2 ^ 32) 6 (c.nanos / 100) f ff (omega arith),
      same,
      sym ok.0,
      ok.9,
    )

-- The label of a date from the year 0 to the year 9999 is read back, if its nanoseconds are
-- a number of ticks.
parse_time-label_text :
    (c : Civil) (year : ℕ) → IsLabel c year → parse_time (label_text c) ≡ good (from_civil c)
unfolding label_text date_text clock_text signed_padded
parse_time-label_text c year ok =
    let fy = zero_padded-IsField 3 year (omega arith) (omega arith) in
    let fmo = zero_padded-IsField 1 c.month (omega arith) (omega arith) in
    let fd = zero_padded-IsField 1 c.day (omega arith) (omega arith) in
    let fh = zero_padded-IsField 1 c.hour (omega arith) (omega arith) in
    let fmi = zero_padded-IsField 1 c.minute (omega arith) (omega arith) in
    let fs = zero_padded-IsField 1 c.second (omega arith) (omega arith) in
    let ff = zero_padded-IsField 6 (c.nanos / 100) (omega arith) (omega arith) in
    rw ok.0 (
      parse_time-parts (zero_padded 4 year) (zero_padded 2 c.month) (zero_padded 2 c.day)
        (zero_padded 2 c.hour) (zero_padded 2 c.minute) (zero_padded 2 c.second)
        (zero_padded 7 (c.nanos / 100)) (fy.1, fmo.1, fd.1) (fh.1, fmi.1, fs.1) ff.0)
    ∙ time_of-fields c year _ _ _ _ _ _ _ ok (fy, fmo, fd) (fh, fmi, fs) ff

-- The civil label of a tick is a date with a time of day and a whole number of ticks.
civil-IsLabel :
    (t : GpsTime) (year : ℕ)
    → IsTick t
    → (civil t).year ≡ pos year
    → year < 10000
    → IsLabel (civil t) year
civil-IsLabel t year h shown below =
    let unix = unix_of_tick t in
    let sod = emod unix 86400 in
    let near = near_second t h in
    let days = ediv unix 86400 in
    let close = near_day (ediv t 10000000) (omega (arith, near.0), omega (arith, near.1)) in
    let date = (days_from_civil-civil_from_days days close).0 in
    let (y, m, d) = civil_from_days days in
    let short = days_in_month_le y m in
    let lt = emod-lt unix 86400 (omega arith) in
    let lt7 = emod-lt t 10000000 (omega arith) in
    let l = label unix (emod t 10000000 * 100) in
    let is = civil-label t h in
    let shown_year : l.year ≡ pos year = rw is at shown in
    let close_year : IsNear l.year = rw shown_year ((omega arith), (omega arith)) in
    let valid =
      (is_valid_iff l close_year (omega arith)).1
        (date, omega arith, omega arith, omega arith, omega arith) in
    rw is (
      shown_year,
      below,
      omega arith,
      omega arith,
      omega arith,
      omega arith,
      omega arith,
      omega arith,
      omega arith,
      valid,
    )

-- The label that is printed for a tick within 291 years of 1980, in a year from 0 to 9999, is
-- parsed as that tick.
pub parse_time-display :
    (t : GpsTime) (year : ℕ)
    → IsTick t
    → (civil t).year ≡ pos year
    → year < 10000
    → parse_time (display t) ≡ good t
unfolding display
parse_time-display t year h shown below =
    parse_time-label_text (civil t) year (civil-IsLabel t year h shown below)
    ∙ ap good (from_civil-civil t h)
