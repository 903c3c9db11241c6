-- ===== src/Init.antt =====
-- src/init/src: the enclave's first process. Config is what the parent pushes, Setup the
-- environment and the hosts file that the coordinator starts with, Forward the relay of the log.
pub mod Config
pub mod Parsing
pub mod Setup
pub mod Environment
pub mod Forward
pub mod Wire
pub mod Relay
pub mod CatchUp
pub mod Main
