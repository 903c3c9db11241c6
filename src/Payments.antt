-- ===== src/Payments.antt =====
-- src/coordinator/src/payments: the payout lines of a completed job and the ledger of payments.
pub mod Split
pub mod Book
pub mod Amount
pub mod Ledger
pub mod Inserts
