-- ===== src/Json/Instants.antt =====
-- RFC 3339 timestamps, of obsj/src/json.rs: `parse_rfc3339_public` and `split_zone`.
use convobs_rs.Base.{
  ℕ, ◌^◌, Bool, not, ◌&&◌, ◌||◌, ltb, nat_beq, if◌then◌else◌, Option, none, some, ◌>>=?◌, unwrap_or,
  List, [], ◌∷◌, ◌++◌, length, take,
}
use convobs_rs.Base.Int.{ℤ, pos}
use convobs_rs.Base.Texts.{is_char_boundary, split_once, split_three, parse_unsigned, parse_signed}
use convobs_rs.Base.Word.{i64_half, add_i64, sub_i64, mul_i64}
use convobs_rs.Checked.{Checked, good, ◌>>◌, panic_if}
use convobs_rs.Time.{Civil, Instant, instant_from_civil, is_valid}

abbrev pub parse_u32 : List ℕ → Option ℕ
parse_u32 s = parse_unsigned (2 ^ 32) s

abbrev pub parse_i64 : List ℕ → Option ℤ
parse_i64 s = parse_signed i64_half s

-- The last sign of the text: what stands before it, the sign, and what follows.
unfoldable pub last_sign : List ℕ → Option (List ℕ × ℕ × List ℕ)
last_sign [] = none
last_sign (c ∷ cs) =
    let later = last_sign cs in
    elim later [
      | some (a, sign, b) ↦ some (c ∷ a, sign, b)
      | none ↦ if nat_beq c b'+' || nat_beq c b'-' then some ([], c, cs) else none
    ]

-- `strip_suffix('Z')`
unfoldable pub strip_z : List ℕ → Option (List ℕ)
strip_z [] = none
strip_z (c ∷ []) = if nat_beq c b'Z' then some [] else none
strip_z (c ∷ d ∷ cs) = elim (strip_z (d ∷ cs)) [ none ↦ none | some s ↦ some (c ∷ s) ]

abbrev pub offset_secs : ℕ → ℤ → ℤ → ℤ
offset_secs sign h m =
    let secs = add_i64 (mul_i64 h 3600) (mul_i64 m 60) in
    if nat_beq sign b'+' then secs else sub_i64 (pos 0) secs

-- The time of day without its zone, and the zone's offset in seconds.
unfoldable pub split_zone : List ℕ → Option (List ℕ × ℤ)
unfolding strip_z last_sign split_once
split_zone s = elim (strip_z s) [
  | some stripped ↦ some (stripped, pos 0)
  | none ↦ elim (last_sign s) [
    | none ↦ some (s, pos 0)
    | some (before, sign, zone) ↦ split_once b':' zone >>=? λ hm.
        parse_i64 (hm.0) >>=? λ h. parse_i64 (hm.1) >>=? λ m. some (before, offset_secs sign h m)
  ]
]

-- The digits after the point, cut or filled up to nine.
abbrev pub zeros : List ℕ
zeros = b'0' ∷ b'0' ∷ b'0' ∷ b'0' ∷ b'0' ∷ b'0' ∷ b'0' ∷ b'0' ∷ b'0' ∷ []

unfoldable pub nanos_of : List ℕ → Option ℕ
unfolding parse_unsigned
nanos_of [] = some 0
nanos_of (c ∷ frac) = parse_u32 (take 9 ((c ∷ frac) ++ zeros))

-- `truncate(9)` panics inside a character.
abbrev pub cut_inside : List ℕ → Bool
cut_inside frac = ltb 9 (length frac) && not (is_char_boundary frac 9)

-- The instant of the fields, when they are valid.
unfoldable pub instant_of : Civil → ℤ → Option Instant
instant_of c off_secs =
    let i = instant_from_civil c in
    if not (is_valid c) then none else some (record i { secs = sub_i64 i.secs off_secs })

-- The fields without the fraction of a second.
abbrev pub civil_of : List ℕ × List ℕ × List ℕ → List ℕ × List ℕ × List ℕ → Option Civil
civil_of (y, mo, d) (h, mi, s) = parse_i64 y >>=? λ year. parse_u32 mo >>=? λ month.
    parse_u32 d >>=? λ day. parse_u32 h >>=? λ hour. parse_u32 mi >>=? λ minute.
    parse_u32 s >>=? λ second. some (record {
      year = year;
      month = month;
      day = day;
      hour = hour;
      minute = minute;
      second = second;
      nanos = 0;
    })

-- The time of day, and the digits that follow the point.
abbrev pub clock : List ℕ → List ℕ × List ℕ
clock time = unwrap_or (split_once b'.' time) (time, [])

-- The fields, the offset in seconds, and the digits of the fraction.
unfoldable pub fields_of : List ℕ → Option (Civil × ℤ × List ℕ)
unfolding split_once split_three split_zone parse_unsigned parse_signed
fields_of s = split_once b'T' s >>=? λ parts. split_three b'-' (parts.0) >>=? λ ymd.
    split_zone (parts.1) >>=? λ zoned. split_three b':' ((clock (zoned.0)).0) >>=? λ hms.
    civil_of ymd hms >>=? λ c. some (c, zoned.1, (clock (zoned.0)).1)

-- `parse_rfc3339_public`
unfoldable pub parse_rfc3339 : List ℕ → Checked (Option Instant)
unfolding fields_of nanos_of instant_of
parse_rfc3339 s = elim (fields_of s) [
  | none ↦ good none
  | some (c, off_secs, frac) ↦ do
    panic_if (cut_inside frac)
    good (nanos_of frac >>=? λ n. instant_of (record c { nanos = n }) off_secs)
]
