-- ===== src/Cli/Backend.antt =====
-- The choice of the RINEX backend, of cli/src/rinex_backend.rs. Whether the external backend is in the
-- build is a parameter.
use convobs_rs.Base.{
  Bool, true, false, not, ◌&&◌, ◌||◌, nat_beq, if◌then◌else◌, Option, none, some, [], ◌∷◌, ◌==◌,
  ◌↔◌, ◌≡◌, arith,
}
use convobs_rs.Base.Texts.{ascii, to_lowercase, text_eq}
use convobs_rs.Error.{rinex, Result, ok, err}
use convobs_rs.Metadata.{Text}
use convobs_rs.Cli.{Checked, good, bad, RinexBackend, internal, external}

unfoldable pub parse_backend : Text → Checked (Option RinexBackend)
unfolding to_lowercase
parse_backend s =
    let low = to_lowercase s in
    if low == ascii "auto"
    then good none
    else if low == ascii "internal"
    then good (some internal)
    else if low == ascii "external"
    then good (some external)
    else bad "unsupported RINEX backend (expected internal, external, or auto)"

-- Some window of the list is the text.
abbrev pub starts_with : Text → Text → Bool
starts_with [] s = true
starts_with (c ∷ w) [] = false
starts_with (c ∷ w) (d ∷ s) = nat_beq c d && starts_with w s

unfoldable pub any_window : Text → Text → Bool
any_window w [] = starts_with w []
any_window w (c ∷ s) = starts_with w (c ∷ s) || any_window w s

-- The bytes before the first line feed.
unfoldable pub first_line : Text → Text
first_line [] = []
first_line (c ∷ s) = let rest = first_line s in if nat_beq c 10 then [] else c ∷ rest

unfoldable pub is_crinex : Text → Bool
unfolding any_window first_line
is_crinex head = any_window (ascii "CRINEX VERS") (first_line head)

module _ (external_available : Bool) where
  unfoldable pub resolve_input : Option RinexBackend → Bool → Result RinexBackend
  resolve_input (some internal) crinex =
      if crinex
      then err (
          rinex
            ("CRINEX input needs the external RINEX backend; do not pass --rinex-backend internal"))
      else ok internal
  resolve_input (some external) crinex =
      if not external_available
      then err (
          rinex
            ("the external RINEX backend is not compiled in; rebuild with --features rinex-crate"))
      else ok external
  resolve_input none crinex =
      if crinex && not external_available
      then err (
          rinex
            ("CRINEX input needs the external RINEX backend; rebuild with --features rinex-crate"))
      else if crinex
      then ok external
      else ok internal

  -- `open_rinex_input`, for what the reader has in its buffer.
  unfoldable pub open_rinex_input : Option RinexBackend → Text → Result RinexBackend
  unfolding is_crinex resolve_input
  open_rinex_input explicit head = resolve_input explicit (is_crinex head)

  -- `rinex_sink`, as far as it can fail.
  unfoldable pub rinex_sink : RinexBackend → Result (Unit {0})
  rinex_sink internal = ok tt
  rinex_sink external =
      if external_available
      then ok tt
      else err (
          rinex
            ("the external RINEX backend is not compiled in; rebuild with --features rinex-crate"))

  -- A backend can read the input: the internal one no CRINEX, the external one if it is there.
  abbrev pub CanRead : RinexBackend → Bool → Type 0
  CanRead internal crinex = crinex ≡ false
  CanRead external crinex = external_available ≡ true

  abbrev pub Wanted : Option RinexBackend → Bool → RinexBackend
  Wanted none true = external
  Wanted none false = internal
  Wanted (some b) crinex = b

  -- A backend is chosen exactly when the wanted one can read the input, and then it is that one:
  -- the one of the option, or without the option the external one for CRINEX and the internal one
  -- for the rest.
  pub open_rinex_input-ok_iff :
      (explicit : Option RinexBackend) (head : Text) (b : RinexBackend)
      → (open_rinex_input explicit head ≡ ok b)
        ↔ ((b ≡ Wanted explicit (is_crinex head)) × CanRead b (is_crinex head))
  unfolding open_rinex_input
  open_rinex_input-ok_iff none head b = ground arith
  open_rinex_input-ok_iff (some x) head b = ground arith
