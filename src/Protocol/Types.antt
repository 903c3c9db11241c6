-- ===== src/Protocol/Types.antt =====
-- src/pinaivu-protocol/src/types.rs and the error type of lib.rs. A `Uuid` is its 128-bit number;
-- an `f32` is its bit pattern, and what is computed with it goes through `Auction.Float`.
use coordinator.Base.{ℕ, List, Option, Text, Bytes}

abbrev pub Uuid : Type 0
Uuid = ℕ

abbrev pub F32 : Type 0
F32 = ℕ

abbrev pub RequestId : Type 0
RequestId = Uuid

abbrev pub SessionId : Type 0
SessionId = Uuid

abbrev pub NodePeerId : Type 0
NodePeerId = Text

-- An amount in NanoX, a `u64`.
abbrev pub NanoX : Type 0
NanoX = ℕ

pub data PrivacyLevel : Type 0 where
  standard private fragmented maximum : PrivacyLevel

pub data ClientSessionIntent : Type 0 where
  new continue : ClientSessionIntent

pub record InferenceRequest : Type 0 where
  pub request_id : RequestId
  pub session_id : SessionId
  pub model : Text
  pub privacy : PrivacyLevel
  pub session_intent : ClientSessionIntent

pub record InferenceBid : Type 0 where
  pub request_id : RequestId
  pub node_peer_id : NodePeerId
  pub price_per_1k : NanoX
  pub latency_ms : ℕ
  pub reputation : F32
  pub http_endpoint : Text
  pub payout_address : Text
  pub node_x25519_pubkey : Option Bytes

pub record NodeCapabilities : Type 0 where
  pub peer_id : NodePeerId
  pub models : List Text
  pub max_concurrent_jobs : ℕ

pub data VerifyError : Type 0 where
  invalid_public_key invalid_signature_bytes signature_mismatch : VerifyError
