-- ===== src/Lib.antt =====
-- convobs: conversion of GNSS receiver data (RTCM MSM7 and UBX RXM-RAWX) to observations, the stream
-- of observations on its way to a writer, and the command line that puts these together.
--
-- How the parts interact. A converter (obsj/src/rtcm.rs, obsj/src/ubx.rs) finds frames in a byte
-- stream, resolves the time of an epoch, and gives one `SignalObservation` (obsj/src/obs.rs) for each
-- signal to a chain of sinks. It sets the flag `ll` where it sees a slip of the carrier phase.
-- `LossOfLockSink` (obsj/src/arc.rs) counts the flags into `arc`; the decimation and carrier-phase
-- filters (obsj/src/sink.rs) then drop observations; a writer turns the counter back to flags by
-- `ArcToLl`. Facts for the header come as `Metadata` records, which are merged. The command line
-- (cli/src/lib.rs) checks its arguments, builds the chain of sinks, constrains the week of RTCM data,
-- and gives packets to a driver that settles on one converter. The RINEX writer and reader
-- (obsj/src/rinexobs.rs) stand at the ends of the stream.
--
-- Files and what they model:
--   Base: shared numbers, lists, maps, equality, machine integers. Float: floating-point numbers.
--   Time: `GpsTime`, `Civil` and `Instant` of obsj/src/obs.rs. Time/Calendar is an independent
--     calendar (leap rule, month lengths); Time/Days, Era, Dates, Label, Overflow and Week relate the
--     code to it. Time/Text is the label of a time and its parser, Time/Printed and Reread its way
--     back.
--   Ids, Values, Metadata: the identifiers, values and header facts of obsj/src/obs.rs.
--   Arc: obsj/src/arc.rs. Arc/Count and Arc/Roundtrip hold the counter and its way back.
--   Error: obsj/src/error.rs. Sink: obsj/src/sink.rs. Freq: obsj/src/freq.rs.
--   Rtcm: obsj/src/rtcm.rs. Rtcm/Week is the resolution of epochs (`resolve_time` and what it calls),
--     Rtcm/Cell the arithmetic of a cell, Rtcm/Convert the converter's state and `convert_cell`,
--     Rtcm/Frame `convert_frame`, Rtcm/Stream the scan for frames. Rtcm/Resolve, Continuity, Epoch,
--     Slips, Cells and Frames hold the proofs.
--   Ubx: obsj/src/ubx.rs, its converter and tables. Ubx/Scan is the search for a frame; Ubx/Fletcher,
--     Frames, Slips and Tables hold the proofs.
--   Diff: obsj/src/diff.rs. Diff/Observations holds the loops over epochs and signals, Diff/Headers
--     the comparison of metadata; Diff/Told and Same hold the proofs.
--   Checked: answers that can be an error or a panic.
--   Cli: cli/src/lib.rs and cli/src/error.rs, formats and settings. Cli/Args is `parse_args`,
--     Cli/Header the metadata of the header, Cli/Filename dates in names, Cli/Weeks the week
--     constraints, Cli/Detect the family of a raw stream, Cli/Driver `PacketDriver`, Cli/Pipeline the
--     chain of sinks. Cli/Backend is cli/src/rinex_backend.rs, Cli/Log cli/src/packetlog.rs with
--     `convert_packet_log`. Cli/Args/Rules, Detect/First, Driver/Locked, Log/Family and
--     Pipeline/Surface hold the proofs.
--   Rinex: obsj/src/rinexobs.rs. Rinex/Codes is the order of observation codes, Rinex/Build
--     `build_obs_file`, Rinex/Columns and Write the written lines, Rinex/Output the written file and
--     its sink, Rinex/Records, RunDate and Head the reader of the header, Rinex/Satellite, Times and
--     Epochs the reader behind it, Rinex/File both. Rinex/Lines is its line reader. Rinex/Sorted,
--     Cells, Words, Types, Rows, Systems, Listed, Written, Shown, Told, Kept, Answers, Ends and
--     Head/End hold the proofs.
--   Json: obsj/src/json.rs. Json/Instants is the parser of timestamps, Json/Values the objects that
--     `serde_json` gives, Json/Decode and Records the records read from them, Json/Written what is
--     written for a record, Json/Stream `stream_obsj` and `read_obsj`. Json/Fraction and Reread hold
--     the proofs on timestamps, Json/Fields, Structs, Facts, Back and Lines those on records.
--   Samples and the modules Tests: concrete values, tests and examples.
--
-- Conventions. An `i64` is an integer with every operation followed by its wrap-around; a `u8`, `u16`
-- or `u32` is a natural number, with `%` where the code can leave the range. A `HashMap` is an
-- association list. A text is the list of its bytes; the lines of a RINEX file are in
-- ASCII (in others a column may cut a character, and the reader panics: this is modelled for the epoch
-- lines). A sink is modelled by what it passes on, or is a
-- parameter with its own state. Floating-point arithmetic is a parameter (Float), and a theorem that
-- needs one of its laws states it as a hypothesis. Error messages leave out the values that the code
-- prints into them.
--
-- Fuel. `round_time` calls itself on the negated argument: two calls are enough, except on the
-- smallest `i64`. The search for a UBX frame and the scan for RTCM frames take a unit of fuel for
-- each byte, since each step moves forward; the driver runs them with that fuel. The loop over the
-- epochs of a RINEX file takes a unit for each line, and the writer of a header's lists one for each
-- entry.
--
-- Code that is not in the repository is a parameter: the decoding of a frame and `next_msg_frame` of
-- the `rtcm-rs` crate (with its documented bounds as a hypothesis), the `ublox` parser, which gives
-- the batch of measurements from which the converter starts, the options that `clap` matched, the
-- decoding of TOML, of JSON lines and of hexadecimal digits, the file system and the environment, and
-- the printing and parsing of decimal fractions.
--
-- Not modelled: the loops over input files, which open, unzip and report; the bridge to the `rinex`
-- crate (rinex-obsj), which calls that crate throughout; the binaries.
pub mod Base
pub mod Float
pub mod Time
pub mod Ids
pub mod Values
pub mod Arc
pub mod Error
pub mod Checked
pub mod Sink
pub mod Metadata
pub mod Freq
pub mod Rtcm
pub mod Ubx
pub mod Diff
pub mod Rinex
pub mod Json
pub mod Cli
mod Samples
