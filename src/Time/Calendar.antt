-- ===== src/Time/Calendar.antt =====
-- An independent description of the Gregorian calendar, by which obsj/src/obs.rs is judged: the
-- leap rule, the lengths of the months, and the order of the days.
use convobs_rs.Base.{ℕ, ◌≤◌, ◌<◌, Bool, not, ◌&&◌, ◌||◌, nat_beq, if◌then◌else◌}
use convobs_rs.Base.Int.{ℤ, pos_part, neg_part}
use convobs_rs.Base.Word.{emod}

-- The leap rule and the lengths of the months.
unfoldable pub is_leap : ℤ → Bool
unfolding emod
is_leap y = (nat_beq (emod y 4) 0 && not (nat_beq (emod y 100) 0)) || nat_beq (emod y 400) 0

unfoldable pub days_in_month : ℤ → ℕ → ℕ
days_in_month y m =
    if nat_beq m 2
    then (if is_leap y then 29 else 28)
    else if nat_beq m 4 || nat_beq m 6 || nat_beq m 9 || nat_beq m 11
    then 30
    else 31

abbrev pub IsDate : ℤ → ℕ → ℕ → Type 0
IsDate y m d = (1 ≤ m) × (m ≤ 12) × (1 ≤ d) × (d ≤ days_in_month y m)

-- Years up to 10 ^ 10 away from year 0, and day numbers up to 8 * 10 ^ 12 away from the epoch.
abbrev pub IsNear : ℤ → Type 0
IsNear y = (pos_part y < 10000000000) × (neg_part y < 10000000000)

abbrev pub IsNearDay : ℤ → Type 0
IsNearDay z = (pos_part z < 8000000000000) × (neg_part z < 8000000000000)
