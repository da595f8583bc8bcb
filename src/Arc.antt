-- ===== src/Arc.antt =====
-- Loss of lock, after obsj/src/arc.rs: `LossOfLockSink` counts slips into `arc`, and `ArcToLl`
-- turns the counter back into slips.
mod Tests
pub mod Count
pub mod Roundtrip
use convobs_rs.Base.{
  ℕ, ◌+◌, ◌%◌, Bool, true, false, not, nat_beq, if◌then◌else◌, Option, none, some, List, [], ◌∷◌,
  unwrap_or,
}
use convobs_rs.Base.Map.{Map, get, insert}
use convobs_rs.Float.{Floats}
use convobs_rs.Ids.{SignalKey, signal_key, key_eq}
use convobs_rs.Values.{SignalValues, SignalObservation}

abbrev pub u32_mod : ℕ
u32_mod = 0x100000000

module _ {fl : Floats} where
  abbrev pub key_of : SignalObservation fl → SignalKey
  key_of o = signal_key o.sat o.sig

  -- An observation with its counter, the flag `ll` consumed.
  abbrev pub with_arc : SignalObservation fl → ℕ → SignalObservation fl
  with_arc o a = record o { v = record (o.v) { arc = a; ll = false } }

  -- `LossOfLockSink::observation`: the map of counters afterwards, and what the wrapped sink gets.
  unfoldable pub lol_observation :
      Map SignalKey ℕ → SignalObservation fl → Map SignalKey ℕ × SignalObservation fl
  lol_observation arc o =
      let counter = unwrap_or (get (key_of o) arc) 0 in
      let counter' = if o.v.ll then (counter + 1) % u32_mod else counter in
      (insert (key_of o) counter' arc, with_arc o counter')

  -- The observations that reach the wrapped sink.
  unfoldable pub lol_run :
      Map SignalKey ℕ → List (SignalObservation fl) → List (SignalObservation fl)
  lol_run arc [] = []
  lol_run arc (o ∷ os) = let (arc', o') = lol_observation arc o in o' ∷ lol_run arc' os

-- `ArcToLl::lli` and `ArcToLl::transition`: the map `prev` afterwards, and the flag.
unfoldable pub lli : Map SignalKey ℕ → SignalKey → ℕ → Map SignalKey ℕ × Bool
lli prev k arc = (
  insert k arc prev,
  elim (get k prev) [ some p ↦ not (nat_beq arc p) | none ↦ not (nat_beq arc 0) ],
)

unfoldable pub transition : Map SignalKey ℕ → SignalKey → ℕ → Map SignalKey ℕ × Bool
transition prev k arc =
    (insert k arc prev, elim (get k prev) [ some p ↦ not (nat_beq arc p) | none ↦ false ])
