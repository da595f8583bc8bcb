-- ===== src/Float.antt =====
-- Floating-point numbers: what the program uses of Rust's `f64` and `f32`, which are not code of
-- the repository. Every definition that computes with them takes such a record as a parameter,
-- and a theorem that needs one of their laws states it as a hypothesis.
use convobs_rs.Base.{ℕ, Bool}
use convobs_rs.Base.Int.{ℤ}

pub record Floats : Type 1 where
  pub F64 : Type 0
  pub F32 : Type 0
  -- The decimal literal `m / 10 ^ k`.
  pub lit : ℕ → ℕ → F64
  -- Arithmetic, and the tests `<=`, `==` and `is_finite`.
  pub add : F64 → F64 → F64
  pub sub : F64 → F64 → F64
  pub mul : F64 → F64 → F64
  pub div : F64 → F64 → F64
  pub neg : F64 → F64
  pub abs : F64 → F64
  pub round : F64 → F64
  pub le : F64 → F64 → Bool
  pub eq : F64 → F64 → Bool
  pub is_finite : F64 → Bool
  pub is_finite32 : F32 → Bool
  -- The casts: an integer `as f64`, an `f64` `as i64` and `as u16`, and between the widths.
  pub of_int : ℤ → F64
  pub to_i64 : F64 → ℤ
  pub to_u16 : F64 → ℕ
  pub to_f32 : F64 → F32
  pub of_f32 : F32 → F64
  -- An integer `as f32`, a literal of `f32`, and the arithmetic on it.
  pub of_int32 : ℕ → F32
  pub lit32 : ℕ → ℕ → F32
  pub mul32 : F32 → F32 → F32
  pub sub32 : F32 → F32 → F32
