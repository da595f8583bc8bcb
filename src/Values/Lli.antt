-- ===== src/Values/Lli.antt =====
-- The loss-of-lock indicator of obsj/src/obs.rs: `set_lli` and `rinex_lli` undo one another.
use convobs_rs.Base.{ℕ, zero, suc, ◌+◌, ◌<◌, ◌≡◌, refl, Bool, if◌then◌else◌, arith}
use convobs_rs.Float.{Floats}
use convobs_rs.Values.{SignalValues, set_lli, rinex_lli}

module _ {fl : Floats} where
  -- The indicator has three bits, one for each flag.
  pub rinex_lli_bits :
      (v : SignalValues fl) (changed : Bool)
      → rinex_lli v changed
        ≡ (if changed then 1 else 0) + (if v.hc then 2 else 0) + (if v.bt then 4 else 0)
  unfolding rinex_lli
  rinex_lli_bits v changed = ground arith

  -- Reading back a written indicator restores the flags: the slip, the half cycle and BOC, and
  -- changes nothing else.
  pub set_lli-rinex_lli :
      (v w : SignalValues fl) (changed : Bool)
      → set_lli w (rinex_lli v changed) ≡ record w { ll = changed; hc = v.hc; bt = v.bt }
  unfolding set_lli rinex_lli
  set_lli-rinex_lli v w changed = ground arith

  -- Writing what was read gives the indicator back, for an indicator of three bits.
  rinex_lli-set_lli :
      (v : SignalValues fl) (lli : ℕ) → lli < 8 → rinex_lli (set_lli v lli) (set_lli v lli).ll ≡ lli
  unfolding set_lli rinex_lli
  rinex_lli-set_lli v zero h = refl
  rinex_lli-set_lli v (suc zero) h = refl
  rinex_lli-set_lli v (suc (suc zero)) h = refl
  rinex_lli-set_lli v (suc (suc (suc zero))) h = refl
  rinex_lli-set_lli v (suc (suc (suc (suc zero)))) h = refl
  rinex_lli-set_lli v (suc (suc (suc (suc (suc zero))))) h = refl
  rinex_lli-set_lli v (suc (suc (suc (suc (suc (suc zero)))))) h = refl
  rinex_lli-set_lli v (suc (suc (suc (suc (suc (suc (suc zero))))))) h = refl
  rinex_lli-set_lli v (suc (suc (suc (suc (suc (suc (suc (suc n)))))))) h = absurd (omega arith)
