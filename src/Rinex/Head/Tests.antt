-- ===== src/Rinex/Head/Tests.antt =====
-- Tests of the header reader of obsj/src/rinexobs.rs.
use convobs_rs.Base.{◌≡◌, ◌↔◌, refl, none, List, [], ◌∷◌, ◌++◌}
use convobs_rs.Base.Int.{pos, negsuc, ◌-ℤ◌}
use convobs_rs.Base.Map.{get, insert}
use convobs_rs.Base.Texts.{ascii, digits_from}
use convobs_rs.Checked.{good, bad}
use convobs_rs.Ids.{sat_id}
use convobs_rs.Metadata.{Text, default_metadata}
use convobs_rs.Samples.{int_floats}
use convobs_rs.Rinex.Columns.{pad_right}
use convobs_rs.Rinex.Records.{split_whitespace, read_signal_strength_unit, read_glonass_freq_header}
use convobs_rs.Rinex.Head.{ObsHeader, new_header, read_header}
use convobs_rs.Rinex.Head.End.{IsHead, read_header_iff}

words_test :
    split_whitespace (ascii "  R01  1 R02 -4 ")
    ≡ ascii "R01" ∷ ascii "1" ∷ ascii "R02" ∷ ascii "-4" ∷ []
unfolding split_whitespace
words_test = refl

unit_test : read_signal_strength_unit (ascii " dBHz ") ≡ good tt
unfolding read_signal_strength_unit
unit_test = refl

channel_test :
    read_glonass_freq_header (ascii "  2 R01  1 R02 -4 ") []
    ≡ good ((sat_id b'R' b'0' b'1', pos 1) ∷ (sat_id b'R' b'0' b'2', negsuc 3) ∷ [])
unfolding read_glonass_freq_header digits_from insert ◌-ℤ◌
channel_test = refl

abbrev head_lines : List Text
head_lines =
    (pad_right 60 (ascii "TEST") ++ ascii "MARKER NAME")
    ∷ (pad_right 60 [] ++ ascii "END OF HEADER")
    ∷ ascii "> rest"
    ∷ []

abbrev head : ObsHeader int_floats
head =
    let h : ObsHeader int_floats = new_header in
    record h {
      meta = record default_metadata {
        marker = record { name = ascii "TEST"; number = []; type_ = [] };
      };
      time_system = ascii "GPS";
    }

read_test : read_header int_floats (λ s. none) head_lines ≡ good (head, ascii "> rest" ∷ [])
unfolding read_header get
read_test = refl

no_end_test :
    read_header int_floats (λ s. none) (ascii "> rest" ∷ []) ≡ bad "rinex: missing END OF HEADER"
unfolding read_header
no_end_test = refl

read_header_iff_example :
    (read_header int_floats (λ s. none) head_lines ≡ good (head, ascii "> rest" ∷ []))
    ↔ IsHead int_floats (λ s. none) new_header head_lines head (ascii "> rest" ∷ [])
read_header_iff_example =
    read_header_iff int_floats (λ s. none) head_lines head (ascii "> rest" ∷ [])
