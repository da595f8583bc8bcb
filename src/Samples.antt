-- ===== src/Samples.antt =====
-- Concrete values for the tests: whole numbers in place of floating-point ones, and observations.
use convobs_rs.Base.{
  ℕ, List, Option, length, leb, leb→le, if◌then◌else◌, Bool-cases, inl, inr, arith, ◌/◌, ◌^◌, true,
  none, some,
}
use convobs_rs.Base.Int.{ℤ, pos, pos_part, neg_ℤ, ◌+ℤ◌, ◌-ℤ◌, ◌*ℤ◌, tdiv, leb_ℤ, int_beq}
use convobs_rs.Rtcm.Stream.{FramerAnswer}
use convobs_rs.Float.{Floats}
use convobs_rs.Ids.{SatId, SigId, sat_id, sig_id, SignalKey, signal_key}
use convobs_rs.Values.{SignalValues, SignalObservation, default_values}

abbrev pub int_floats : Floats
int_floats = record {
  F64 = ℤ;
  F32 = ℤ;
  lit = λ m k. pos (m / 10 ^ k);
  add = λ a b. a +ℤ b;
  sub = λ a b. a -ℤ b;
  mul = λ a b. a *ℤ pos_part b;
  div = λ a b. tdiv a (pos_part b);
  neg = neg_ℤ;
  abs = λ a. pos (pos_part a);
  round = λ a. a;
  le = leb_ℤ;
  eq = int_beq;
  is_finite = λ a. true;
  is_finite32 = λ a. true;
  of_int = λ z. z;
  to_i64 = λ z. z;
  to_u16 = pos_part;
  to_f32 = λ a. a;
  of_f32 = λ a. a;
  of_int32 = pos;
  lit32 = λ m k. pos (m / 10 ^ k);
  mul32 = λ a b. a *ℤ pos_part b;
  sub32 = λ a b. a -ℤ b;
}

abbrev pub g01 : SatId
g01 = sat_id b'G' b'0' b'1'

abbrev pub l1c : SigId
l1c = sig_id b'1' b'C'

abbrev pub g01_l1c : SignalKey
g01_l1c = signal_key g01 l1c

abbrev pub values : SignalValues int_floats
values = record default_values { pr = some (pos 20000000); cp = some (pos 100000000) }

-- An observation with a phase that slipped, and one without a phase that did not.
abbrev pub slipped_observation : SignalObservation int_floats
slipped_observation = record {
  t = pos 10000000;
  sat = g01;
  sig = l1c;
  v = record values { ll = true };
}

abbrev pub blank_observation : SignalObservation int_floats
blank_observation = record {
  t = pos 20000000;
  sat = g01;
  sig = l1c;
  v = record values { cp = none };
}

-- A framer that takes every six bytes for a frame.
abbrev pub sixes : List ℕ → ℕ × Option ℕ
sixes bytes = if leb 6 (length bytes) then (6, some 6) else (length bytes, none)

pub sixes_documented : (bytes : List ℕ) → FramerAnswer bytes (sixes bytes)
sixes_documented bytes = elim (Bool-cases (leb 6 (length bytes))) [
  | inl e ↦ rw e (omega arith, omega arith, leb→le 6 (length bytes) e)
  | inr e ↦ rw e tt
]
