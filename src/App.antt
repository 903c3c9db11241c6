-- ===== src/App.antt =====
-- src/coordinator/src/app: the configuration (Config), the shared state of the handlers (State), and
-- the start-up of src/coordinator/src/main.rs (Startup).
pub mod Config
pub mod Booted
pub mod State
pub mod Tls
pub mod Startup
pub mod Wiring
pub mod Trust
pub mod Boot
