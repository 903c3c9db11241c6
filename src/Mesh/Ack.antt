-- ===== src/Mesh/Ack.antt =====
-- `handle_completion_ack` of src/coordinator/src/mesh/event_loop.rs. The archive is the Postgres
-- one; where no statement fails, the in-memory one answers alike.
use coordinator.Base.{
  ℕ, List, [], ◌∷◌, ◌++◌, map, drop, Text, Bytes, Bool, true, false, Option, none, some, Outcome,
  ok, err, codes, nat_eq, text_eq, ◌==◌, ◌&&◌, if◌then◌else◌,
}
use coordinator.Base.Map.{Map, get, has, remove}
use coordinator.Protocol.Types.{
  SessionId, VerifyError, invalid_public_key, invalid_signature_bytes, signature_mismatch,
}
use coordinator.Protocol.External.{External}
use coordinator.Protocol.Proof.{ProofOfInference}
use coordinator.Protocol.Completion.{
  CompletionAck, CompletionResponse, accepted_with, rejected, proof_ids, verify_primary,
  verify_all_proofs,
}
use coordinator.Protocol.Receipt
use coordinator.Protocol.Receipt.{RoutingReceipt, Payout}
use coordinator.Store.Columns.{Failure}
use coordinator.Store.Defs.{World, CacheRow, execute}
use coordinator.Store.Receipts.{put}
use coordinator.Payments.Split.{PayoutLine, compute_payouts}
use coordinator.Payments.Ledger.{insert_pending}
use coordinator.Settlement.Worker.{SettlementJob}
use coordinator.Registry.{PeerId}
use coordinator.Mesh.{EventLoop, InFlightMeta, MeshExternal, try_send, zeroes}

-- `Display` of `VerifyError`.
abbrev pub display : VerifyError → Text
display invalid_public_key = codes "public key bytes are not a valid Ed25519 verifying key"
display invalid_signature_bytes = codes "signature bytes are not a well-formed Ed25519 signature"
display signature_mismatch = codes "signature does not verify against the embedded public key"

-- What the handler reads from the entry that it removed, with the defaults where there is none.
abbrev pub client_id_of : Option InFlightMeta → Text
client_id_of none = []
client_id_of (some m) = m.client_id

abbrev pub bid_set_hash_of : Option InFlightMeta → Bytes
bid_set_hash_of none = zeroes
bid_set_hash_of (some m) = m.bid_set_hash

abbrev pub payout_addresses_of : Option InFlightMeta → Map Text Text
payout_addresses_of none = []
payout_addresses_of (some m) = m.payout_addresses

abbrev pub session_id_of : Option InFlightMeta → Option SessionId
session_id_of none = none
session_id_of (some m) = some m.session_id

abbrev pub peer_ids : List ProofOfInference → List Text
peer_ids = map (λ p. p.node_peer_id)

abbrev pub first_or : Text → List ProofOfInference → Text
first_or sender [] = sender
first_or sender (p ∷ ps) = p.node_peer_id

abbrev pub payout_of : PayoutLine → Payout
payout_of l = record { sui_address = l.sui_address; amount_nanox = l.amount_nanox }

-- The upsert into `node_session_cache`; the time stamp is left out.
abbrev pub upsert_cache : CacheRow → List CacheRow → List CacheRow
upsert_cache row [] = row ∷ []
upsert_cache row (c ∷ cs) =
    if c.node_peer_id == row.node_peer_id && c.session_id == row.session_id
    then row ∷ cs
    else c ∷ upsert_cache row cs

abbrev pub warm_row : SessionId → Text → CacheRow
warm_row session_id peer = record {
  node_peer_id = peer;
  session_id = session_id;
  cache_tier = codes "gpu";
}

-- The foreign key of the table: without a row of the session the statement fails and changes nothing.
abbrev pub insert_warm : SessionId → Text → World → World
insert_warm session_id peer w = record w {
  node_session_cache =
      if has session_id w.sessions
      then upsert_cache (warm_row session_id peer) w.node_session_cache
      else w.node_session_cache;
}

-- The loop over the peers: a failed statement is logged, and the loop goes on.
unfoldable pub mark_warm : SessionId → List Text → World → World
mark_warm session_id [] w = w
mark_warm session_id (peer ∷ peers) w =
    mark_warm session_id peers (execute (insert_warm session_id peer) w).1

abbrev pub warm_peers : Bool → Option SessionId → RoutingReceipt → World → World
warm_peers true (some session_id) receipt w =
    mark_warm session_id (receipt.primary_peer_id ∷ receipt.helper_peer_ids) w
warm_peers true none receipt w = w
warm_peers false session_id receipt w = w

module _ (x : External) (m : MeshExternal) where
  abbrev json_or_braces : Option Text → Text
  json_or_braces none = codes "{}"
  json_or_braces (some t) = t

  abbrev pub settlement_job : RoutingReceipt → SettlementJob
  settlement_job receipt = record {
    request_id = receipt.request_id;
    receipt_json = json_or_braces (m.receipt_to_string receipt);
  }

  abbrev pub enqueue_settlement : RoutingReceipt → EventLoop → EventLoop
  enqueue_settlement receipt l = record l {
    settlement_tx = elim l.settlement_tx [
      | none ↦ none
      | some tx ↦ some (try_send (settlement_job receipt) tx)
    ];
  }

  -- What follows `insert_pending`: its error is logged, and then no settlement job is sent.
  abbrev pub after_insert :
      RoutingReceipt → EventLoop → Outcome Failure (Unit {0}) × World → EventLoop × World
  after_insert receipt l (ok done, w) = (enqueue_settlement receipt l, w)
  after_insert receipt l (err e, w) = (l, w)

  abbrev pub queue_payments :
      Bool → List PayoutLine → RoutingReceipt → EventLoop → World → EventLoop × World
  queue_payments false lines receipt l w = (l, w)
  queue_payments true [] receipt l w = (l, w)
  queue_payments true (line ∷ lines) receipt l w =
      after_insert receipt l (insert_pending receipt.request_id (line ∷ lines) w)

  unfoldable pub build_receipt :
      ℕ → PeerId → CompletionAck → Option InFlightMeta → List PayoutLine → Bytes → RoutingReceipt
  build_receipt now_ms sender ack meta lines key = Receipt.sign x key (record {
    request_id = ack.request_id;
    client_id = client_id_of meta;
    primary_peer_id = first_or (m.peer_id_to_string sender) ack.proofs;
    helper_peer_ids = peer_ids (drop 1 ack.proofs);
    bid_set_hash = bid_set_hash_of meta;
    proof_ids = proof_ids x ack;
    aggregated_output_hash = ack.aggregated_output_hash;
    payouts = map payout_of lines;
    timestamp_ms = now_ms;
    coordinator_pubkey = zeroes;
    signature = [];
  })

  -- From `receipt_archive.put` on.
  abbrev pub after_put :
      Option SessionId
      → List PayoutLine
      → RoutingReceipt
      → EventLoop
      → Outcome Failure (Unit {0}) × World
      → CompletionResponse × (EventLoop × World)
  after_put session_id lines receipt l (err e, w) = (rejected (codes "storage error"), (l, w))
  after_put session_id lines receipt l (ok done, w) =
      let w₁ : World = warm_peers l.has_pg_pool session_id receipt w in
      (accepted_with receipt, queue_payments l.has_pg_pool lines receipt l w₁)

  -- The handler once both verifications have passed.
  abbrev pub settle_ack :
      ℕ
      → PeerId
      → CompletionAck
      → Option InFlightMeta
      → EventLoop
      → World
      → CompletionResponse × (EventLoop × World)
  settle_ack now_ms sender ack meta l w =
      let lines : List PayoutLine = compute_payouts ack (payout_addresses_of meta) in
      let receipt : RoutingReceipt = build_receipt now_ms sender ack meta lines l.enclave_key in
      after_put (session_id_of meta) lines receipt
        (record l { in_flight = remove ack.request_id l.in_flight })
        (put m.receipt_to_value receipt w)

  abbrev pub after_verification :
      Outcome VerifyError (Unit {0})
      → Outcome VerifyError (Unit {0})
      → ℕ
      → PeerId
      → CompletionAck
      → EventLoop
      → World
      → CompletionResponse × (EventLoop × World)
  after_verification (err e) proofs now_ms sender ack l w =
      (rejected (codes "primary signature invalid: " ++ display e), (l, w))
  after_verification (ok done) (err e) now_ms sender ack l w =
      (rejected (codes "proof invalid: " ++ display e), (l, w))
  after_verification (ok done) (ok all) now_ms sender ack l w =
      settle_ack now_ms sender ack (get ack.request_id l.in_flight) l w

  -- The response that is sent back, and the state afterwards.
  unfoldable pub handle_completion_ack :
      ℕ → PeerId → CompletionAck → EventLoop → World → CompletionResponse × (EventLoop × World)
  handle_completion_ack now_ms sender ack l w =
      after_verification (verify_primary x ack) (verify_all_proofs x ack) now_ms sender ack l w
