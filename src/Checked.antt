-- ===== src/Checked.antt =====
-- Answers of operations that can fail with a message or panic.
use Prim.Native.String.{String}
use convobs_rs.Base.{◌≡◌, refl, Bool, true, false, Option}
use convobs_rs.Error

-- An answer, an error with its message, or a panic.
pub data Checked {ℓ} (A : Type ℓ) : Type ℓ where
  good : A → Checked A
  bad : String → Checked A
  panic : Checked A

infixl 5 ◌>>=◌
abbrev pub ◌>>=◌ {ℓ κ} : {X : Type ℓ} {Y : Type κ} → Checked X → (X → Checked Y) → Checked Y
good x >>= next = next x
bad message >>= next = bad message
panic >>= next = panic

-- `if failing { return Err(message) }`
abbrev pub refuse_if : Bool → String → Checked (Unit {0})
refuse_if true message = bad message
refuse_if false message = good tt

abbrev pub panic_if : Bool → Checked (Unit {0})
panic_if true = panic
panic_if false = good tt

infixl 5 ◌>>◌
abbrev pub ◌>>◌ {κ} : {Y : Type κ} → Checked (Unit {0}) → Checked Y → Checked Y
m >> next = m >>= λ _. next

-- `ok_or` and `map_err` with a fixed message.
abbrev pub or_bad {ℓ} : {A : Type ℓ} → Option A → String → Checked A
or_bad (Option.some a) message = good a
or_bad Option.none message = bad message

-- `map_err(|e| e.to_string())`; the text of a library error is its message.
abbrev pub text_of : Error.Error → String
text_of (Error.obsj m) = m
text_of (Error.rinex m) = m
text_of (Error.rtcm m) = m
text_of (Error.ubx m) = m
text_of (Error.interval m) = m
text_of (Error.io m) = m

abbrev pub checked {ℓ} : {A : Type ℓ} → Error.Result A → Checked A
checked (Error.ok a) = good a
checked (Error.err e) = bad (text_of e)

-- Inversion of a successful bind.
pub bind-eq-good {ℓ κ} :
    {X : Type ℓ} {Y : Type κ} (m : Checked X) (next : X → Checked Y) {y : Y}
    → (m >>= next) ≡ good y
    → (x : X) × (m ≡ good x) × (next x ≡ good y)
bind-eq-good (good x) next h = (x, refl, h)
bind-eq-good (bad message) next h = cc
bind-eq-good panic next h = cc

-- What follows a step matters only at the answer of the step.
pub bind_congr {ℓ κ} :
    {X : Type ℓ} {Y : Type κ} (m : Checked X) (f g : X → Checked Y)
    → ((x : X) → m ≡ good x → f x ≡ g x)
    → (m >>= f) ≡ (m >>= g)
bind_congr (good x) f g h = h x refl
bind_congr (bad message) f g h = refl
bind_congr panic f g h = refl
