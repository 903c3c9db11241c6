-- ===== src/Protocol/Token.antt =====
-- src/pinaivu-protocol/src/dispatch_token.rs: the token that names the winning node.
use coordinator.Base.{ℕ, Text, Bytes, Option, Outcome, ok, ◌≡◌, arith}
use coordinator.Protocol.Types.{RequestId, SessionId, NodePeerId, NanoX, VerifyError}
use coordinator.Protocol.External.{External, SignatureLaws, BindingLaws, TokenCanonical}
use coordinator.Protocol.Signing.{verify_bytes, verify_bytes-sign, verify_bytes-binds}

pub record DispatchToken : Type 0 where
  pub request_id : RequestId
  pub session_id : SessionId
  pub client_pubkey : Bytes
  pub primary_peer_id : NodePeerId
  pub settlement_id : Text
  pub max_price_nanox : NanoX
  pub issued_at_ms : ℕ
  pub deadline_ms : ℕ
  pub coordinator_pubkey : Bytes
  pub node_x25519_pubkey : Option Bytes
  pub signature : Bytes

abbrev pub canonical : DispatchToken → TokenCanonical
canonical t = record {
  request_id = t.request_id;
  session_id = t.session_id;
  client_pubkey = t.client_pubkey;
  primary_peer_id = t.primary_peer_id;
  settlement_id = t.settlement_id;
  max_price_nanox = t.max_price_nanox;
  issued_at_ms = t.issued_at_ms;
  deadline_ms = t.deadline_ms;
  coordinator_pubkey = t.coordinator_pubkey;
  node_x25519_pubkey = t.node_x25519_pubkey;
}

module _ (x : External) where
  unfoldable pub canonical_bytes : DispatchToken → Bytes
  canonical_bytes t = x.token_json (canonical t)

  unfoldable pub sign : Bytes → DispatchToken → DispatchToken
  sign key t =
      let q = record t { coordinator_pubkey = x.verifying_key key } in
      record q { signature = x.sign_bytes key (canonical_bytes q) }

  unfoldable pub verify : DispatchToken → Outcome VerifyError (Unit {0})
  verify t = verify_bytes x t.coordinator_pubkey t.signature (canonical_bytes t)

  -- What the coordinator signs verifies.
  pub verify-sign :
      SignatureLaws x → (key : Bytes) (t : DispatchToken) → verify (sign key t) ≡ ok tt
  unfolding verify sign canonical_bytes
  verify-sign l key t = verify_bytes-sign x l key _

  -- A token that verifies under the key and the signature of a signed token is that token: its
  -- peer, its deadline and its price cap cannot be altered, nor any other field.
  verify-binds_token :
      BindingLaws x
      → (key : Bytes) (t q : DispatchToken) → q.coordinator_pubkey ≡ (sign key t).coordinator_pubkey
      → q.signature ≡ (sign key t).signature
      → verify q ≡ ok tt
      → q ≡ sign key t
  unfolding verify sign canonical_bytes
  verify-binds_token l key t q k s h =
      let same : canonical q ≡ canonical (sign key t) =
        l.token_json-injective _ _ (verify_bytes-binds x l key _ _ _ _ k s h) in
      ground (arith, same)
