-- ===== src/Values.antt =====
-- Observations of obsj/src/obs.rs: `SignalValues`, `SignalObservation`, and the RINEX loss-of-lock
-- indicator (LLI).
mod Tests
pub mod Lli
use Prim.Native.Nat.{bit_and, bit_or}
use convobs_rs.Base.{
  ℕ, Bool, true, false, not, ◌&&◌, ◌||◌, nat_beq, if◌then◌else◌, Option, none, some, is_some,
}
use convobs_rs.Base.Int.{ℤ}
use convobs_rs.Float.{Floats}
use convobs_rs.Ids.{SatId, SigId, system}
use convobs_rs.Time.{GpsTime}

abbrev pub lli_lost_lock : ℕ
lli_lost_lock = 1

abbrev pub lli_half_cycle : ℕ
lli_half_cycle = 2

abbrev pub lli_boc : ℕ
lli_boc = 4

-- `frq` is an `i8`, `arc` a `u32`.
pub record SignalValues (fl : Floats) : Type 0 where
  pub frq : Option ℤ
  pub pr : Option fl.F64
  pub cp : Option fl.F64
  pub dop : Option fl.F64
  pub cn0 : Option fl.F32
  pub arc : ℕ
  pub hc : Bool
  pub bt : Bool
  pub ll : Bool

pub record SignalObservation (fl : Floats) : Type 0 where
  pub t : GpsTime
  pub sat : SatId
  pub sig : SigId
  pub v : SignalValues fl

module _ {fl : Floats} where
  -- `SignalValues::default`
  abbrev pub default_values : SignalValues fl
  default_values = record {
    frq = none;
    pr = none;
    cp = none;
    dop = none;
    cn0 = none;
    arc = 0;
    hc = false;
    bt = false;
    ll = false;
  }

  -- `SignalValues::is_zero`: a comparison with the default, which no number equals.
  unfoldable pub is_zero : SignalValues fl → Bool
  is_zero v =
      not (is_some v.frq)
      && not (is_some v.pr)
      && not (is_some v.cp)
      && not (is_some v.dop)
      && not (is_some v.cn0)
      && nat_beq v.arc 0
      && not v.hc
      && not v.bt
      && not v.ll

  unfoldable pub set_lli : SignalValues fl → ℕ → SignalValues fl
  set_lli v lli = record v {
    ll = not (nat_beq (bit_and lli lli_lost_lock) 0);
    hc = not (nat_beq (bit_and lli lli_half_cycle) 0);
    bt = not (nat_beq (bit_and lli lli_boc) 0);
  }

  unfoldable pub rinex_lli : SignalValues fl → Bool → ℕ
  rinex_lli v arc_changed =
      let x = if arc_changed then bit_or 0 lli_lost_lock else 0 in
      let y = if v.hc then bit_or x lli_half_cycle else x in if v.bt then bit_or y lli_boc else y

  abbrev pub observed_system : SignalObservation fl → ℕ
  observed_system o = system o.sat

  unfoldable pub has_any_code : SignalObservation fl → Bool
  has_any_code o = is_some o.v.pr || is_some o.v.cp || is_some o.v.dop || is_some o.v.cn0
