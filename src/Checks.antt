-- ===== src/Checks.antt =====
-- Concrete stand-ins for the code of other crates, and runs of the theorems at concrete inputs.
pub mod Encoding
pub mod Toy
pub mod Data
pub mod Messages
pub mod Ledger
pub mod Runs
pub mod Mesh
pub mod Web
pub mod Startup
pub mod Boot
pub mod Listing
pub mod Journey
pub mod Trust
pub mod Schema
