-- ===== src/Api.antt =====
-- The HTTP side of src/coordinator/src: the handlers under api/, the error type of app/, and the
-- enclave's key agreement (src/nautilus-enclave/src/crypto.rs).
pub mod Crypto
pub mod Errors
pub mod Messages
pub mod Inference
pub mod Owed
pub mod Reordered
pub mod Calls
pub mod Served
pub mod Journey
pub mod Dispatching
pub mod Stages
pub mod Admin
pub mod Secret
pub mod Models
pub mod Offers
pub mod Proofs
pub mod Health
pub mod Listings
pub mod Session
pub mod Listed
pub mod Turns
pub mod Router
