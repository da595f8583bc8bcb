-- ===== src/Rinex/Answers.antt =====
-- Where the reader of epochs in obsj/src/rinexobs.rs does not panic: on lines in ASCII.
use convobs_rs.Base.{
  ℕ, zero, suc, ◌+◌, ◌≤◌, ◌<◌, ◌≡◌, Bool, true, false, if◌then◌else◌, Option, none, some, [], ◌∷◌,
  length, get_or, All, All-append, length-append, ◌-◌, ◌^◌, Bool-cases, inl, inr, arith,
}
use Prim.Native.String.{String}
use convobs_rs.Base.Texts.{is_char_boundary, parse_signed}
use convobs_rs.Base.Int.{pos}
use convobs_rs.Checked.{Checked, good, bad, panic, ◌>>=◌, refuse_if, or_bad}
use convobs_rs.Metadata.{Text, is_empty}
use convobs_rs.Rinex.Cells.{length-spaces}
use convobs_rs.Rinex.Columns.{spaces, pad_line}
use convobs_rs.Rinex.Times.{
  has_time, cut, epoch_time, epoch_fields, parse_epoch_line, parse_epoch_int, parse_rinex_time,
}

-- An answer or an error, and no panic.
pub data IsAnswer {ℓ} {A : Type ℓ} : Checked A → Type ℓ where
  answer : {x : A} → IsAnswer (good x)
  error : {message : String} → IsAnswer (bad message)

pub bind-IsAnswer {ℓ κ} :
    {X : Type ℓ} {Y : Type κ} (m : Checked X) (next : X → Checked Y)
    → IsAnswer m
    → ((x : X) → IsAnswer (next x))
    → IsAnswer (m >>= next)
bind-IsAnswer (good x) next h k = k x
bind-IsAnswer (bad message) next h k = error
bind-IsAnswer panic next h k = elim h [ ]

pub or_bad-IsAnswer {ℓ} : {A : Type ℓ} (a : Option A) (m : String) → IsAnswer (or_bad a m)
or_bad-IsAnswer (some a) m = answer
or_bad-IsAnswer none m = error

-- A parsed field, and what follows it.
or_bad_then {ℓ κ} :
    {X : Type ℓ} {Y : Type κ} (a : Option X) (m : String) (next : X → Checked Y)
    → ((x : X) → IsAnswer (next x))
    → IsAnswer (or_bad a m >>= next)
or_bad_then (some a) m next h = h a
or_bad_then none m next h = error

pub refuse_if-IsAnswer : (b : Bool) (m : String) → IsAnswer (refuse_if b m)
refuse_if-IsAnswer true m = error
refuse_if-IsAnswer false m = answer

refuse_if_then {κ} :
    {Y : Type κ} (b : Bool) (m : String) (next : Unit {0} → Checked Y)
    → ((u : Unit {0}) → IsAnswer (next u))
    → IsAnswer (refuse_if b m >>= next)
refuse_if_then true m next h = error
refuse_if_then false m next h = h tt

abbrev pub IsAscii : Text → Type 0
IsAscii s = All (λ c. c < 128) s

get_or-ascii : (s : Text) (i : ℕ) → IsAscii s → get_or s i 0 < 128
get_or-ascii [] i h = omega arith
get_or-ascii (c ∷ cs) zero h = h.0
get_or-ascii (c ∷ cs) (suc i) h = get_or-ascii cs i h.1

boundary : (s : Text) (i : ℕ) → IsAscii s → i ≤ length s → is_char_boundary s i ≡ true
boundary s i h inside = ground (arith, get_or-ascii s i h)

cut-IsAnswer : (s : Text) (i n : ℕ) → IsAscii s → i + n ≤ length s → IsAnswer (cut s i n)
unfolding cut
cut-IsAnswer s i n h inside = rw (boundary s i h (omega arith), boundary s (i + n) h inside) answer

parse_epoch_int-IsAnswer : (s : Text) → IsAnswer (parse_epoch_int s)
unfolding parse_epoch_int
parse_epoch_int-IsAnswer s = elim (Bool-cases (is_empty s)) [
  | inl blank ↦ rw blank error
  | inr text ↦ rw text (or_bad-IsAnswer (parse_signed (2 ^ 31) s) "rinex: invalid epoch number")
]

parse_rinex_time-IsAnswer : (y mo d h m s : Text) → IsAnswer (parse_rinex_time y mo d h m s)
unfolding parse_rinex_time
parse_rinex_time-IsAnswer y mo d h m s = search (answer, or_bad_then, refuse_if_then) depth 10

epoch_time-IsAnswer : (s : Text) → IsAscii s → 35 ≤ length s → IsAnswer (epoch_time s)
epoch_time-IsAnswer s h long = bind-IsAnswer _ _ (cut-IsAnswer s 2 4 h (omega arith)) (λ y.
    bind-IsAnswer _ _ (cut-IsAnswer s 7 2 h (omega arith)) (λ mo.
      bind-IsAnswer _ _ (cut-IsAnswer s 10 2 h (omega arith)) (λ d.
        bind-IsAnswer _ _ (cut-IsAnswer s 13 2 h (omega arith)) (λ hour.
          bind-IsAnswer _ _ (cut-IsAnswer s 16 2 h (omega arith)) (λ m.
            bind-IsAnswer _ _ (cut-IsAnswer s 19 10 h (omega arith))
              (λ sec. parse_rinex_time-IsAnswer y mo d hour m sec))))))

timed-IsAnswer :
    (b : Bool) (s : Text)
    → IsAscii s
    → 35 ≤ length s
    → IsAnswer (if b then epoch_time s else good (pos 0))
timed-IsAnswer true s h long = epoch_time-IsAnswer s h long
timed-IsAnswer false s h long = answer

epoch_fields-IsAnswer : (s : Text) → IsAscii s → 35 ≤ length s → IsAnswer (epoch_fields s)
unfolding epoch_fields
epoch_fields-IsAnswer s h long =
    bind-IsAnswer _ _ (cut-IsAnswer s 31 1 h (omega arith)) (λ flag_text.
      bind-IsAnswer _ _ (parse_epoch_int-IsAnswer flag_text) (λ flag.
        bind-IsAnswer _ _ (cut-IsAnswer s 32 3 h (omega arith)) (λ count_text.
          bind-IsAnswer _ _ (parse_epoch_int-IsAnswer count_text) (λ n.
            bind-IsAnswer _ _ (refuse_if-IsAnswer _ _)
              (λ u. bind-IsAnswer _ _ (timed-IsAnswer (has_time flag) s h long) (λ t. answer))))))

spaces-IsAscii : (n : ℕ) → IsAscii (spaces n)
spaces-IsAscii zero = tt
spaces-IsAscii (suc n) = (omega arith, spaces-IsAscii n)

pub parse_epoch_line-IsAnswer : (s : Text) → IsAscii s → IsAnswer (parse_epoch_line s)
unfolding parse_epoch_line
parse_epoch_line-IsAnswer s h =
    epoch_fields-IsAnswer (pad_line s 35)
      (All-append (λ c. c < 128) s (spaces (35 - length s)) h (spaces-IsAscii (35 - length s)))
      (omega (arith, length-append s (spaces (35 - length s)), length-spaces (35 - length s)))
