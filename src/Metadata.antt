-- ===== src/Metadata.antt =====
-- Header facts of obsj/src/obs.rs: the metadata records and `Metadata::merge`. A text is the list of
-- its bytes.
mod Tests
pub mod Merge
use convobs_rs.Base.{
  ℕ, Bool, true, false, not, ◌&&◌, if◌then◌else◌, Option, none, some, is_some, List, [], ◌∷◌, ◌++◌,
}
use convobs_rs.Base.Int.{ℤ}
use convobs_rs.Float.{Floats}
use convobs_rs.Time.{Instant}

abbrev pub Text : Type 0
Text = List ℕ

-- `String::is_empty` and `Vec::is_empty`
abbrev pub is_empty {ℓ} : {A : Type ℓ} → List A → Bool
is_empty [] = true
is_empty (x ∷ xs) = false

pub record MetadataRun : Type 0 where
  pub program : Text
  pub by : Text
  pub date : Option Instant

pub record Marker : Type 0 where
  pub name : Text
  pub number : Text
  pub type_ : Text

pub record Receiver : Type 0 where
  pub number : Text
  pub type_ : Text
  pub version : Text

pub record Antenna : Type 0 where
  pub number : Text
  pub type_ : Text

abbrev pub default_run : MetadataRun
default_run = record { program = []; by = []; date = none }

abbrev pub default_marker : Marker
default_marker = record { name = []; number = []; type_ = [] }

abbrev pub default_receiver : Receiver
default_receiver = record { number = []; type_ = []; version = [] }

abbrev pub default_antenna : Antenna
default_antenna = record { number = []; type_ = [] }

-- The `is_zero` methods: comparisons with the default.
abbrev pub run_is_zero : MetadataRun → Bool
run_is_zero r = is_empty r.program && is_empty r.by && not (is_some r.date)

abbrev pub receiver_is_zero : Receiver → Bool
receiver_is_zero r = is_empty r.number && is_empty r.type_ && is_empty r.version

abbrev pub antenna_is_zero : Antenna → Bool
antenna_is_zero r = is_empty r.number && is_empty r.type_

pub record Metadata (fl : Floats) : Type 0 where
  pub version : Text
  pub run : MetadataRun
  pub comment : List Text
  pub marker : Marker
  pub observer : Text
  pub agency : Text
  pub receiver : Receiver
  pub antenna : Antenna
  pub approx_position : Option (fl.F64 × fl.F64 × fl.F64)
  pub antenna_delta : Option (fl.F64 × fl.F64 × fl.F64)
  pub interval : Option fl.F64
  pub leap_seconds : Option ℤ

-- The new value unless it is unset.
abbrev pub over {ℓ} : {A : Type ℓ} → (A → Bool) → A → A → A
over unset a b = if not (unset b) then b else a

abbrev pub is_none {ℓ} : {A : Type ℓ} → Option A → Bool
is_none o = not (is_some o)

module _ {fl : Floats} where
  abbrev pub default_metadata : Metadata fl
  default_metadata = record {
    version = [];
    run = default_run;
    comment = [];
    marker = default_marker;
    observer = [];
    agency = [];
    receiver = default_receiver;
    antenna = default_antenna;
    approx_position = none;
    antenna_delta = none;
    interval = none;
    leap_seconds = none;
  }

  unfoldable pub merge : Metadata fl → Metadata fl → Metadata fl
  merge a b = record {
    version = over is_empty a.version b.version;
    run = over run_is_zero a.run b.run;
    comment = if not (is_empty b.comment) then a.comment ++ b.comment else a.comment;
    marker = record {
      name = over is_empty a.marker.name b.marker.name;
      number = over is_empty a.marker.number b.marker.number;
      type_ = over is_empty a.marker.type_ b.marker.type_;
    };
    observer = over is_empty a.observer b.observer;
    agency = over is_empty a.agency b.agency;
    receiver = over receiver_is_zero a.receiver b.receiver;
    antenna = over antenna_is_zero a.antenna b.antenna;
    approx_position = over is_none a.approx_position b.approx_position;
    antenna_delta = over is_none a.antenna_delta b.antenna_delta;
    interval = over is_none a.interval b.interval;
    leap_seconds = over is_none a.leap_seconds b.leap_seconds;
  }
