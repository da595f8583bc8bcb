-- ===== src/Time/Text.antt =====
-- The text of a GPS time, of obsj/src/obs.rs: `Display` of `GpsTime`, and `parse_time`. Every error
-- of `parse_time` has one message, which names the text as well; here it leaves the text out.
use convobs_rs.Base.{
  ℕ, zero, suc, ◌+◌, ◌-◌, ◌*◌, ◌/◌, ◌%◌, ◌^◌, not, ltb, nat_beq, if◌then◌else◌, List, [], ◌∷◌, ◌++◌,
  length,
}
use convobs_rs.Base.Int.{ℤ, pos, negsuc}
use convobs_rs.Base.Texts.{split, split_once, parse_unsigned, parse_signed}
use convobs_rs.Base.Word.{i64_half}
use convobs_rs.Checked.{Checked, good, bad, ◌>>=◌, ◌>>◌, refuse_if, or_bad}
use convobs_rs.Time.{Civil, GpsTime, civil, from_civil, is_valid}

-- `{}` of an unsigned number; the fuel is above the number of digits of any `u32` or `i64`.
unfoldable pub decimal_digits : ℕ → ℕ → List ℕ
decimal_digits zero n = []
decimal_digits (suc fuel) n =
    let rest = decimal_digits fuel (n / 10) in
    if ltb n 10 then (b'0' + n) ∷ [] else rest ++ ((b'0' + n % 10) ∷ [])

abbrev pub zeros : ℕ → List ℕ
zeros zero = []
zeros (suc n) = b'0' ∷ zeros n

-- `{:0w}` of an unsigned number; a `u32` has at most ten digits, and an `i64` nineteen.
unfoldable pub zero_padded : ℕ → ℕ → List ℕ
unfolding decimal_digits
zero_padded w n = let s = decimal_digits 20 n in zeros (w - length s) ++ s

-- `{:0w}` of an `i64`: the sign counts for the width.
unfoldable pub signed_padded : ℕ → ℤ → List ℕ
unfolding zero_padded
signed_padded w (pos n) = zero_padded w n
signed_padded w (negsuc n) = b'-' ∷ zero_padded (w - 1) (suc n)

-- `YYYY-MM-DD`, `HH:MM:SS`, and the whole label.
unfoldable pub date_text : Civil → List ℕ
unfolding signed_padded
date_text c =
    signed_padded 4 c.year ++ (b'-' ∷ (zero_padded 2 c.month ++ (b'-' ∷ zero_padded 2 c.day)))

unfoldable pub clock_text : Civil → List ℕ
unfolding zero_padded
clock_text c =
    zero_padded 2 c.hour ++ (b':' ∷ (zero_padded 2 c.minute ++ (b':' ∷ zero_padded 2 c.second)))

unfoldable pub label_text : Civil → List ℕ
unfolding date_text clock_text
label_text c = date_text c ++ (b'T' ∷ (clock_text c ++ (b'.' ∷ zero_padded 7 (c.nanos / 100))))

unfoldable pub display : GpsTime → List ℕ
unfolding label_text
display t = label_text (civil t)

abbrev pub three : List (List ℕ) → Checked (List ℕ × List ℕ × List ℕ)
three (a ∷ b ∷ c ∷ []) = good (a, b, c)
three _ = bad "invalid time"

abbrev pub number : List ℕ → Checked ℕ
number s = or_bad (parse_unsigned (2 ^ 32) s) "invalid time"

-- The fields of a label, parsed and checked.
unfoldable pub time_of :
    List ℕ × List ℕ × List ℕ → List ℕ × List ℕ × List ℕ → List ℕ → Checked GpsTime
unfolding parse_signed parse_unsigned
time_of (y, mo, d) (h, mi, s) frac = do
  year ← or_bad (parse_signed i64_half y) "invalid time"
  month ← number mo
  day ← number d
  hour ← number h
  minute ← number mi
  second ← number s
  frac7 ← number frac
  let c : Civil = record {
    year = year;
    month = month;
    day = day;
    hour = hour;
    minute = minute;
    second = second;
    nanos = frac7 * 100 % 2 ^ 32;
  }
  refuse_if (not (is_valid c)) "invalid time"
  good (from_civil c)

-- `parse_time`
unfoldable pub parse_time : List ℕ → Checked GpsTime
unfolding split split_once time_of
parse_time s = do
  (date, time) ← or_bad (split_once b'T' s) "invalid time"
  ymd ← three (split b'-' date)
  (hms, frac) ← or_bad (split_once b'.' time) "invalid time"
  clock ← three (split b':' hms)
  refuse_if (not (nat_beq (length frac) 7)) "invalid time"
  time_of ymd clock frac
