-- ===== src/Protocol/External.antt =====
-- What the protocol takes from other crates: ed25519-dalek, sha2, hex, uuid, and the serializers
-- serde_json and bcs at the types that they are called on. `SignatureLaws` and `BindingLaws` hold
-- what the theorems ask of them; a theorem names the one that it uses.
use coordinator.Base.{ℕ, List, Option, Text, Bytes, Bool, true, ◌≡◌}
use coordinator.Protocol.Types.{RequestId, SessionId, NodePeerId, NanoX, Uuid}

-- The struct `Canonical` of `ProofOfInference::canonical_bytes`.
pub record ProofCanonical : Type 0 where
  pub request_id : RequestId
  pub session_id : SessionId
  pub node_peer_id : NodePeerId
  pub client_address : Text
  pub model_id : Text
  pub input_tokens : ℕ
  pub output_tokens : ℕ
  pub latency_ms : ℕ
  pub price_paid_nanox : NanoX
  pub timestamp : ℕ
  pub input_hash : Bytes
  pub output_hash : Bytes
  pub settlement_id : Text
  pub escrow_tx_id : Option Text
  pub node_pubkey : Bytes

-- The struct `Canonical` of `DispatchToken::canonical_bytes`.
pub record TokenCanonical : Type 0 where
  pub request_id : RequestId
  pub session_id : SessionId
  pub client_pubkey : Bytes
  pub primary_peer_id : NodePeerId
  pub settlement_id : Text
  pub max_price_nanox : NanoX
  pub issued_at_ms : ℕ
  pub deadline_ms : ℕ
  pub coordinator_pubkey : Bytes
  pub node_x25519_pubkey : Option Bytes

-- The struct `Canonical` of `CompletionAck::canonical_bytes`.
pub record AckCanonical : Type 0 where
  pub request_id : RequestId
  pub proof_ids : List Bytes
  pub aggregated_output_hash : Bytes
  pub primary_pubkey : Bytes

-- The struct `Canonical` of `RecruitRequest::canonical_bytes`.
pub record RecruitCanonical : Type 0 where
  pub request_id : RequestId
  pub primary_pubkey : Bytes
  pub model : Text
  pub prompt_chunk : Text
  pub max_price_nanox : ℕ
  pub deadline_ms : ℕ

-- The structs `PayoutBcs`, `ReceiptPayloadBcs` and `IntentMessage` of routing_receipt.rs.
pub record PayoutBcs : Type 0 where
  pub sui_address : Bytes
  pub amount : ℕ

pub record ReceiptPayloadBcs : Type 0 where
  pub request_id : Bytes
  pub aggregated_output_hash : Bytes
  pub payouts : List PayoutBcs

pub record IntentMessage : Type 0 where
  pub intent : ℕ
  pub timestamp_ms : ℕ
  pub payload : ReceiptPayloadBcs

pub record External : Type 0 where
  -- `SigningKey::verifying_key().to_bytes()`, `VerifyingKey::from_bytes(..).is_ok()`,
  -- `Signature::from_slice(..).is_ok()`, `SigningKey::sign(..).to_bytes()`, and
  -- `VerifyingKey::verify(..).is_ok()` at a key, a message and a signature.
  pub verifying_key : Bytes → Bytes
  pub is_verifying_key : Bytes → Bool
  pub is_signature : Bytes → Bool
  pub sign_bytes : Bytes → Bytes → Bytes
  pub verifies : Bytes → Bytes → Bytes → Bool
  pub sha256 : Bytes → Bytes
  pub hex_decode : Text → Option Bytes
  pub uuid_as_bytes : Uuid → Bytes
  pub proof_json : ProofCanonical → Bytes
  pub token_json : TokenCanonical → Bytes
  pub ack_json : AckCanonical → Bytes
  pub recruit_json : RecruitCanonical → Bytes
  pub intent_bcs : IntentMessage → Bytes

-- A key made from a secret is a point, and its signatures are well formed and accepted.
pub record SignatureLaws (x : External) : Type 0 where
  pub verifying_key-is_valid : (k : Bytes) → x.is_verifying_key (x.verifying_key k) ≡ true
  pub sign_bytes-is_valid : (k m : Bytes) → x.is_signature (x.sign_bytes k m) ≡ true
  pub verifies-sign_bytes :
      (k m : Bytes) → x.verifies (x.verifying_key k) m (x.sign_bytes k m) ≡ true

-- Taken to be unbreakable: a signature is accepted for the one message that was signed, and different
-- values serialize to different bytes, hash to different digests and stand for different identifiers.
pub record BindingLaws (x : External) : Type 0 where
  pub sign_bytes-binds :
      (k m n : Bytes) → x.verifies (x.verifying_key k) n (x.sign_bytes k m) ≡ true → n ≡ m
  pub sha256-injective : (a b : Bytes) → x.sha256 a ≡ x.sha256 b → a ≡ b
  pub uuid_as_bytes-injective : (a b : Uuid) → x.uuid_as_bytes a ≡ x.uuid_as_bytes b → a ≡ b
  pub proof_json-injective : (a b : ProofCanonical) → x.proof_json a ≡ x.proof_json b → a ≡ b
  pub token_json-injective : (a b : TokenCanonical) → x.token_json a ≡ x.token_json b → a ≡ b
  pub ack_json-injective : (a b : AckCanonical) → x.ack_json a ≡ x.ack_json b → a ≡ b
  pub recruit_json-injective :
      (a b : RecruitCanonical) → x.recruit_json a ≡ x.recruit_json b → a ≡ b
  pub intent_bcs-injective : (a b : IntentMessage) → x.intent_bcs a ≡ x.intent_bcs b → a ≡ b
