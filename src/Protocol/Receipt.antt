-- ===== src/Protocol/Receipt.antt =====
-- src/pinaivu-protocol/src/routing_receipt.rs: the audit artefact that the coordinator signs.
use coordinator.Base.{ℕ, List, map, Text, Bytes, Outcome, ok, ◌≡◌, ◌↔◌}
use coordinator.Protocol.Types.{RequestId, NodePeerId, VerifyError}
use coordinator.Protocol.External.{
  External, SignatureLaws, BindingLaws, PayoutBcs, ReceiptPayloadBcs, IntentMessage,
}
use coordinator.Protocol.Signing.{verify_bytes, verify_bytes-sign, verify_bytes-binds}
use coordinator.Protocol.SuiAddress.{parse_sui_address}

abbrev pub intent_routing_receipt : ℕ
intent_routing_receipt = 1

pub record Payout : Type 0 where
  pub sui_address : Text
  pub amount_nanox : ℕ

pub record RoutingReceipt : Type 0 where
  pub request_id : RequestId
  pub client_id : Text
  pub primary_peer_id : NodePeerId
  pub helper_peer_ids : List NodePeerId
  pub bid_set_hash : Bytes
  pub proof_ids : List Bytes
  pub aggregated_output_hash : Bytes
  pub payouts : List Payout
  pub timestamp_ms : ℕ
  pub coordinator_pubkey : Bytes
  pub signature : Bytes

module _ (x : External) where
  abbrev pub payout_bcs : Payout → PayoutBcs
  payout_bcs p = record { sui_address = parse_sui_address x p.sui_address; amount = p.amount_nanox }

  abbrev pub intent_message : RoutingReceipt → IntentMessage
  intent_message r =
      let payload : ReceiptPayloadBcs = record {
        request_id = x.uuid_as_bytes r.request_id;
        aggregated_output_hash = r.aggregated_output_hash;
        payouts = map payout_bcs r.payouts;
      } in
      record { intent = intent_routing_receipt; timestamp_ms = r.timestamp_ms; payload = payload }

  unfoldable pub intent_message_bytes : RoutingReceipt → Bytes
  intent_message_bytes r = x.intent_bcs (intent_message r)

  unfoldable pub sign : Bytes → RoutingReceipt → RoutingReceipt
  sign key r =
      let q = record r { coordinator_pubkey = x.verifying_key key } in
      record q { signature = x.sign_bytes key (intent_message_bytes q) }

  unfoldable pub verify : RoutingReceipt → Outcome VerifyError (Unit {0})
  verify r = verify_bytes x r.coordinator_pubkey r.signature (intent_message_bytes r)

  -- The settlement subset, as the chain sees it.
  abbrev pub SameSettlement : RoutingReceipt → RoutingReceipt → Type 0
  SameSettlement q r =
      (q.request_id ≡ r.request_id)
      × (q.aggregated_output_hash ≡ r.aggregated_output_hash)
      × (map payout_bcs q.payouts ≡ map payout_bcs r.payouts)
      × (q.timestamp_ms ≡ r.timestamp_ms)

  -- What the coordinator signs verifies, whatever stood in the two fields before.
  pub verify-sign :
      SignatureLaws x → (key : Bytes) (r : RoutingReceipt) → verify (sign key r) ≡ ok tt
  unfolding verify sign intent_message_bytes
  verify-sign l key r = verify_bytes-sign x l key _

  -- A receipt that carries the key and the signature of a signed receipt verifies exactly when it
  -- has the same settlement subset. The subset is bound; the metadata is not.
  pub verify_iff-SameSettlement :
      SignatureLaws x
      → BindingLaws x
      → (key : Bytes) (r q : RoutingReceipt)
      → q.coordinator_pubkey ≡ (sign key r).coordinator_pubkey
      → q.signature ≡ (sign key r).signature
      → (verify q ≡ ok tt) ↔ SameSettlement q r
  unfolding verify sign intent_message_bytes
  verify_iff-SameSettlement s l key r q k f = (bound, accepted)
    where
      bound : verify q ≡ ok tt → SameSettlement q r
      bound h =
          let same : intent_message q ≡ intent_message r =
            l.intent_bcs-injective _ _ (verify_bytes-binds x l key _ _ _ _ k f h) in
          (l.uuid_as_bytes-injective _ _ (cc), cc, cc, cc)

      accepted : SameSettlement q r → verify q ≡ ok tt
      accepted h =
          let same : x.intent_bcs (intent_message q) ≡ x.intent_bcs (intent_message r) = cc in
          rw (k, f, same) (verify_bytes-sign x s key _)
