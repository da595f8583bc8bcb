-- ===== src/Rinex.antt =====
-- The RINEX observation writer and reader, after obsj/src/rinexobs.rs. `Codes` holds the order of the
-- observation codes, `Build` what the writer makes of its observations, `Columns` and `Write` the
-- lines of the header and of an epoch, `Output` the whole file and its sink; `Satellite` the reader
-- of a satellite's line, `Times` the reader's times and `Epochs` its loop over epochs; `Records`,
-- `RunDate` and `Head` are its header, `Lines` its lines. `Words`, `Types`, `Rows` and `Systems` are
-- about the observation types in a header, `Listed`, `Written`, `Shown`, `Told` and `Kept`
-- about what is written. A
-- text is the list of its bytes; lines are taken to be
-- ASCII.
mod Tests
pub mod Codes
pub mod Sorted
pub mod Build
pub mod Listed
pub mod Written
pub mod Shown
pub mod Told
pub mod Kept
pub mod Columns
pub mod Write
pub mod Output
pub mod Satellite
pub mod Cells
pub mod Times
pub mod Epochs
pub mod Answers
pub mod Ends
pub mod File
pub mod Records
pub mod RunDate
pub mod Head
pub mod Lines
pub mod Words
pub mod Types
pub mod Rows
pub mod Systems
use convobs_rs.Base.{ℕ, Option, List, [], ◌∷◌}
use convobs_rs.Base.Int.{ℤ}
use convobs_rs.Base.Map.{Map}
use convobs_rs.Float.{Floats}
use convobs_rs.Ids.{SatId, ObsCode}
use convobs_rs.Time.{GpsTime}

abbrev pub obs_value_width : ℕ
obs_value_width = 14

abbrev pub system_order : List ℕ
system_order = b'G' ∷ b'R' ∷ b'E' ∷ b'J' ∷ b'C' ∷ b'I' ∷ b'S' ∷ []

pub record ObsField (fl : Floats) : Type 0 where
  pub val : Option fl.F64
  pub lli : ℕ

pub record Epoch (fl : Floats) : Type 0 where
  pub t : GpsTime
  pub sats : List SatId
  pub obs : Map SatId (Map ObsCode (ObsField fl))

pub record ObsFile (fl : Floats) : Type 0 where
  pub codes : Map ℕ (List ObsCode)
  pub epochs : List (Epoch fl)
  pub frq : Map SatId ℤ
  pub first : GpsTime
  pub last : GpsTime
