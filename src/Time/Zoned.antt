-- ===== src/Time/Zoned.antt =====
-- The text of an instant, of obsj/src/obs.rs: `Display` of `ZonelessDateTime` and `ZonedDateTime`,
-- which `serialize_run_date` writes.
use convobs_rs.Base.{ℕ, nat_beq, if◌then◌else◌, List, [], ◌∷◌, ◌++◌}
use convobs_rs.Time.{Civil, Instant, civil_of_instant}
use convobs_rs.Time.Text.{zero_padded, date_text, clock_text}

-- `trim_end_matches('0')`
unfoldable pub trim_end_zeros : List ℕ → List ℕ
trim_end_zeros [] = []
trim_end_zeros (c ∷ cs) =
    let rest = trim_end_zeros cs in
    elim rest [ [] ↦ if nat_beq c b'0' then [] else c ∷ [] | d ∷ ds ↦ c ∷ d ∷ ds ]

-- The clock, with a fraction if there is one.
unfoldable pub fine_clock : Civil → List ℕ
unfolding clock_text trim_end_zeros zero_padded
fine_clock c =
    if nat_beq c.nanos 0
    then clock_text c
    else clock_text c ++ (b'.' ∷ trim_end_zeros (zero_padded 9 c.nanos))

unfoldable pub zoneless_text : Civil → List ℕ
unfolding date_text fine_clock
zoneless_text c = date_text c ++ (b'T' ∷ fine_clock c)

-- `ZonelessDateTime` and `ZonedDateTime`
unfoldable pub zoneless : Instant → List ℕ
unfolding zoneless_text
zoneless i = zoneless_text (civil_of_instant i)

unfoldable pub zoned : Instant → List ℕ
unfolding zoneless
zoned i = zoneless i ++ (b'Z' ∷ [])
