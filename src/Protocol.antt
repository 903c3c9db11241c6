-- ===== src/Protocol.antt =====
-- src/pinaivu-protocol: the wire types and the signed artefacts that the coordinator, the nodes
-- and the clients exchange.
pub mod Types
pub mod External
pub mod Signing
pub mod Proof
pub mod SuiAddress
pub mod Receipt
pub mod Token
pub mod Completion
pub mod Recruit
pub mod Dispatch
