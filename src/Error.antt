-- ===== src/Error.antt =====
-- The error type of obsj/src/error.rs, and results.
use Prim.Native.String.{String}
use convobs_rs.Base.{◌≡◌, refl, ◌⊎◌, inl, inr}

-- The message of an I/O error is the operating system's.
pub data Error : Type 0 where
  obsj : String → Error
  rinex : String → Error
  rtcm : String → Error
  ubx : String → Error
  interval : String → Error
  io : String → Error

pub data Result {ℓ} (A : Type ℓ) : Type ℓ where
  ok : A → Result A
  err : Error → Result A

infixl 5 ◌>>=◌
abbrev pub ◌>>=◌ {ℓ κ} : {X : Type ℓ} {Y : Type κ} (r : Result X) (next : X → Result Y) → Result Y
ok x >>= next = next x
err problem >>= next = err problem

pub Result-cases {ℓ} :
    {X : Type ℓ} (r : Result X) → ((x : X) × (r ≡ ok x)) ⊎ ((e : Error) × (r ≡ err e))
Result-cases (ok x) = inl (x, refl)
Result-cases (err e) = inr (e, refl)
