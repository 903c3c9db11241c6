-- ===== src/Settlement.antt =====
-- src/coordinator/src/settlement, src/coordinator/src/jobs/settlement_worker.rs and the settle call
-- of src/coordinator/src/onchain/sui.rs.
pub mod Adapter
pub mod Sidecar
pub mod Worker
pub mod Pending
pub mod Drain
pub mod Once
