-- ===== src/Protocol/Proof.antt =====
-- src/pinaivu-protocol/src/proof.rs: the execution receipt that a node signs.
use coordinator.Base.{ℕ, Text, Bytes, Option, Outcome, ok, ◌≡◌, arith}
use coordinator.Protocol.Types.{RequestId, SessionId, NodePeerId, NanoX, VerifyError}
use coordinator.Protocol.External.{External, SignatureLaws, BindingLaws, ProofCanonical}
use coordinator.Protocol.Signing.{verify_bytes, verify_bytes-sign, verify_bytes-binds}

pub record ProofOfInference : Type 0 where
  pub request_id : RequestId
  pub session_id : SessionId
  pub node_peer_id : NodePeerId
  pub client_address : Text
  pub model_id : Text
  pub input_tokens : ℕ
  pub output_tokens : ℕ
  pub latency_ms : ℕ
  pub price_paid_nanox : NanoX
  pub timestamp : ℕ
  pub input_hash : Bytes
  pub output_hash : Bytes
  pub settlement_id : Text
  pub escrow_tx_id : Option Text
  pub node_pubkey : Bytes
  pub signature : Bytes

-- Every field but the signature, in the order of the declaration.
abbrev pub canonical : ProofOfInference → ProofCanonical
canonical p = record {
  request_id = p.request_id;
  session_id = p.session_id;
  node_peer_id = p.node_peer_id;
  client_address = p.client_address;
  model_id = p.model_id;
  input_tokens = p.input_tokens;
  output_tokens = p.output_tokens;
  latency_ms = p.latency_ms;
  price_paid_nanox = p.price_paid_nanox;
  timestamp = p.timestamp;
  input_hash = p.input_hash;
  output_hash = p.output_hash;
  settlement_id = p.settlement_id;
  escrow_tx_id = p.escrow_tx_id;
  node_pubkey = p.node_pubkey;
}

module _ (x : External) where
  unfoldable pub canonical_bytes : ProofOfInference → Bytes
  canonical_bytes p = x.proof_json (canonical p)

  unfoldable pub id : ProofOfInference → Bytes
  id p = x.sha256 (canonical_bytes p)

  unfoldable pub sign : Bytes → ProofOfInference → ProofOfInference
  sign key p =
      let q = record p { node_pubkey = x.verifying_key key } in
      record q { signature = x.sign_bytes key (canonical_bytes q) }

  unfoldable pub verify : ProofOfInference → Outcome VerifyError (Unit {0})
  verify p = verify_bytes x p.node_pubkey p.signature (canonical_bytes p)

  -- What a node signs verifies, whatever stood in the two fields before.
  pub verify-sign :
      SignatureLaws x → (key : Bytes) (p : ProofOfInference) → verify (sign key p) ≡ ok tt
  unfolding verify sign canonical_bytes
  verify-sign l key p = verify_bytes-sign x l key _

  -- A proof that verifies under the key and the signature of a signed proof is that proof: no
  -- other field can be altered.
  pub verify-binds_proof :
      BindingLaws x
      → (key : Bytes) (p q : ProofOfInference) → q.node_pubkey ≡ (sign key p).node_pubkey
      → q.signature ≡ (sign key p).signature
      → verify q ≡ ok tt
      → q ≡ sign key p
  unfolding verify sign canonical_bytes
  verify-binds_proof l key p q k s h =
      let same : canonical q ≡ canonical (sign key p) =
        l.proof_json-injective _ _ (verify_bytes-binds x l key _ _ _ _ k s h) in
      ground (arith, same)

  -- Proofs with the same identifier agree in every field but the signature.
  pub id-binds :
      BindingLaws x
      → (p q : ProofOfInference) → id p ≡ id q
      → q ≡ record p { signature = q.signature }
  unfolding id canonical_bytes
  id-binds l p q h =
      let same : canonical p ≡ canonical q =
        l.proof_json-injective _ _ (l.sha256-injective _ _ h) in
      ground (arith, same)
