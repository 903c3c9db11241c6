-- ===== src/Jobs.antt =====
-- src/coordinator/src/jobs: the deadline watcher of accepted requests.
pub mod Job
pub mod Tracking
pub mod Timeout
pub mod Laws
