-- ===== src/Values/Tests.antt =====
-- Tests of the models of obsj/src/obs.rs's loss-of-lock indicators.
use convobs_rs.Base.{◌≡◌, refl, true, false}
use convobs_rs.Values.{set_lli, rinex_lli, is_zero, default_values}
use convobs_rs.Values.Lli.{set_lli-rinex_lli}
use convobs_rs.Samples.{int_floats, values}

is_zero_test : is_zero {fl = int_floats} default_values ≡ true
unfolding is_zero
is_zero_test = refl

set_lli-rinex_lli_example :
    set_lli values (rinex_lli (record values { hc = true }) true)
    ≡ record values { ll = true; hc = true; bt = false }
set_lli-rinex_lli_example = set_lli-rinex_lli (record values { hc = true }) values true
