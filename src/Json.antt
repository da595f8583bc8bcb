-- ===== src/Json.antt =====
-- obsj JSON lines, after obsj/src/json.rs.
mod Tests
pub mod Instants
pub mod Fraction
pub mod Reread
pub mod Values
pub mod Decode
pub mod Records
pub mod Written
pub mod Stream
pub mod Lines
pub mod Back
pub mod Structs
pub mod Facts
pub mod Fields
