-- ===== src/Api/Proofs.antt =====
-- `get_proof` of src/coordinator/src/api/proofs.rs, and what it shows of an accepted ack.
use coordinator.Base.{ℕ, Option, none, some, Text, Outcome, ok, err, codes, [], nat_eq, ◌≡◌, refl}
use coordinator.Base.Map.{get}
use coordinator.Protocol.Types.{RequestId}
use coordinator.Protocol.External.{External, SignatureLaws}
use coordinator.Protocol.Completion.{
  CompletionAck, accepted_with, verify_primary, verify_all_proofs,
}
use coordinator.Protocol.Receipt
use coordinator.Protocol.Receipt.{RoutingReceipt}
use coordinator.Store.Columns.{Failure}
use coordinator.Store.Defs.{World}
use coordinator.Store.Receipts.{get_receipt}
use coordinator.Payments.Inserts.{IsFresh}
use coordinator.Registry.{PeerId}
use coordinator.Mesh.{EventLoop, MeshExternal}
use coordinator.Mesh.Ack.{handle_completion_ack}
use coordinator.Mesh.AckLaws.{handle_completion_ack-accepts}
use coordinator.Api.Errors.{AppError, not_found, internal}

abbrev pub found : Option RoutingReceipt → Outcome AppError RoutingReceipt
found none = err not_found
found (some receipt) = ok receipt

-- The failure's own text is left out of the error.
abbrev pub looked_up :
    Outcome Failure (Option RoutingReceipt) × World → Outcome AppError RoutingReceipt × World
looked_up (ok o, w) = (found o, w)
looked_up (err e, w) = (err (internal (codes "archive lookup: ")), w)

-- `from_value` is serde_json's, at the archive in Postgres.
unfoldable pub get_proof :
    (Text → Option RoutingReceipt) → RequestId → World → Outcome AppError RoutingReceipt × World
get_proof from_value request_id w = looked_up (get_receipt from_value request_id w)

get_proof_lem :
    (from_value : Text → Option RoutingReceipt) (q : RequestId) (w : World) (json : Text)
    (r : RoutingReceipt)
    → w.faults ≡ []
    → get q w.routing_receipts ≡ some json
    → from_value json ≡ some r
    → (get_proof from_value q w).0 ≡ ok r
unfolding get_proof get_receipt
get_proof_lem from_value q w json r h g e = rw (h, g, e) refl

-- Once an ack whose signature and proofs verify was handled and the database answers, the proof
-- endpoint answers for its request with the receipt that the node was given, which verifies and
-- names the request, if serde_json reads that receipt back from the JSON that it has written of it.
pub get_proof-after_ack :
    (x : External) (m : MeshExternal) (from_value : Text → Option RoutingReceipt)
    → SignatureLaws x
    → (now_ms : ℕ) (sender : PeerId) (ack : CompletionAck) (l : EventLoop) (w : World)
    → verify_primary x ack ≡ ok tt
    → verify_all_proofs x ack ≡ ok tt
    → w.faults ≡ []
    → IsFresh w.next_id w.payments
    → ((r : RoutingReceipt)
        → (handle_completion_ack x m now_ms sender ack l w).0 ≡ accepted_with r
        → from_value (m.receipt_to_value r) ≡ some r)
    → let (response, (l', w')) = handle_completion_ack x m now_ms sender ack l w in
      (receipt : RoutingReceipt) × (response ≡ accepted_with receipt)
      × ((get_proof from_value ack.request_id w').0 ≡ ok receipt)
      × (Receipt.verify x receipt ≡ ok tt)
      × (receipt.request_id ≡ ack.request_id)
get_proof-after_ack x m from_value s now_ms sender ack l w p q h f back =
    let a = handle_completion_ack-accepts x m s now_ms sender ack l w p q h f in
    let w' = (handle_completion_ack x m now_ms sender ack l w).1.1 in
    (
      a.receipt,
      a.answers,
      get_proof_lem from_value ack.request_id w' _ a.receipt a.healthy a.archived
          (back a.receipt a.answers),
      a.verifies,
      a.request,
    )
