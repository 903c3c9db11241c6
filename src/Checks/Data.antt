-- ===== src/Checks/Data.antt =====
-- Concrete messages and states.
use coordinator.Base.{ℕ, List, [], ◌∷◌, Text, Bytes, true, Option, none, some, codes}
use coordinator.Base.Map.{Map}
use coordinator.Protocol.Types.{InferenceBid, NodeCapabilities}
use coordinator.Protocol.Proof
use coordinator.Protocol.Proof.{ProofOfInference}
use coordinator.Protocol.Completion
use coordinator.Protocol.Completion.{CompletionAck}
use coordinator.Protocol.Receipt.{RoutingReceipt}
use coordinator.Protocol.Token.{DispatchToken}
use coordinator.Protocol.Recruit.{RecruitRequest}
use coordinator.Store.Columns.{pos}
use coordinator.Store.Defs.{World, PaymentRow, JobRow, pending, confirmed, answered}
use coordinator.Settlement.Worker.{SettlementJob, Json}
use coordinator.Settlement.Adapter.{EscrowHandle}
use coordinator.Jobs.Job.{DispatchJob, dispatched}
use coordinator.Registry.{PeerRegistry, PeerEntry}
use coordinator.Mesh.{EventLoop, MeshExternal, channel}
use coordinator.Payments.Split.{PayoutLine}
use coordinator.Checks.Toy.{toy}

abbrev pub node_key : Bytes
node_key = 7 ∷ []

abbrev pub enclave_key : Bytes
enclave_key = 9 ∷ []

abbrev pub node_a : Text
node_a = codes "a"

abbrev pub addresses : Map Text Text
addresses = (node_a, codes "0x1234") ∷ []

abbrev pub some_proof : ProofOfInference
some_proof = record {
  request_id = 5;
  session_id = 6;
  node_peer_id = node_a;
  client_address = [];
  model_id = codes "m";
  input_tokens = 10;
  output_tokens = 20;
  latency_ms = 5;
  price_paid_nanox = 300;
  timestamp = 1;
  input_hash = 0 ∷ [];
  output_hash = 1 ∷ [];
  settlement_id = codes "free";
  escrow_tx_id = none;
  node_pubkey = [];
  signature = [];
}

abbrev pub signed_proof : ProofOfInference
signed_proof = Proof.sign toy node_key some_proof

abbrev pub some_ack : CompletionAck
some_ack = record {
  request_id = 5;
  proofs = signed_proof ∷ [];
  aggregated_output_hash = 2 ∷ [];
  primary_pubkey = [];
  signature = [];
}

abbrev pub signed_ack : CompletionAck
signed_ack = Completion.sign toy node_key some_ack

abbrev pub some_receipt : RoutingReceipt
some_receipt = record {
  request_id = 5;
  client_id = [];
  primary_peer_id = node_a;
  helper_peer_ids = [];
  bid_set_hash = [];
  proof_ids = [];
  aggregated_output_hash = 2 ∷ [];
  payouts = record { sui_address = codes "0x1234"; amount_nanox = 300 } ∷ [];
  timestamp_ms = 77;
  coordinator_pubkey = [];
  signature = [];
}

abbrev pub some_token : DispatchToken
some_token = record {
  request_id = 5;
  session_id = 6;
  client_pubkey = [];
  primary_peer_id = node_a;
  settlement_id = codes "free";
  max_price_nanox = 300;
  issued_at_ms = 1000;
  deadline_ms = 61500;
  coordinator_pubkey = [];
  node_x25519_pubkey = some (4 ∷ []);
  signature = [];
}

abbrev pub some_recruit : RecruitRequest
some_recruit = record {
  request_id = 5;
  primary_pubkey = [];
  model = codes "m";
  prompt_chunk = codes "p";
  max_price_nanox = 10;
  deadline_ms = 61500;
  signature = [];
}

abbrev bid_at : ℕ → ℕ → InferenceBid
bid_at price latency = record {
  request_id = 5;
  node_peer_id = node_a;
  price_per_1k = price;
  latency_ms = latency;
  reputation = 50;
  http_endpoint = [];
  payout_address = codes "0x1234";
  node_x25519_pubkey = none;
}

abbrev pub some_bid : InferenceBid
some_bid = bid_at 3 40

abbrev pub some_bids : List InferenceBid
some_bids = bid_at 3 40 ∷ bid_at 2 30 ∷ []

abbrev pub some_capabilities : NodeCapabilities
some_capabilities = record { peer_id = node_a; models = codes "m" ∷ []; max_concurrent_jobs = 1 }

abbrev pub some_entry : PeerEntry
some_entry = record {
  capabilities = some_capabilities;
  multiaddrs = codes "x" ∷ [];
  last_seen_ms = 1000;
}

abbrev pub some_registry : PeerRegistry
some_registry = record { inner = (node_a, some_entry) ∷ []; ttl = 60000 }

abbrev pub some_lines : List PayoutLine
some_lines =
    record { peer_id = node_a; sui_address = codes "0x1234"; amount_nanox = 300 }
    ∷ record { peer_id = codes "b"; sui_address = codes "0x99"; amount_nanox = 20 }
    ∷ []

abbrev pub due_row : PaymentRow
due_row = record {
  request_id = 5;
  payee_peer_id = node_a;
  payee_sui_address = codes "0x1234";
  amount_nanox = pos 300;
  status = pending;
  tx_digest = none;
}

abbrev pub paid_row : PaymentRow
paid_row = record due_row { status = confirmed; tx_digest = some (codes "d") }

abbrev pub some_job : DispatchJob
some_job = record {
  request_id = 5;
  primary_peer_id = node_a;
  dispatched_at_ms = 1000;
  deadline_ms = 61500;
  status = dispatched;
  escrow_handle_json = codes "{}";
}

abbrev pub job_row : JobRow
job_row = record {
  primary_peer_id = node_a;
  dispatched_at_ms = pos 1000;
  deadline_ms = pos 61500;
  status = codes "Dispatched";
  escrow_handle_json = codes "{}";
}

abbrev pub some_world : World
some_world = record {
  faults = [];
  next_id = 3;
  payments = (1, due_row) ∷ (2, paid_row) ∷ [];
  dispatch_jobs = (5, job_row) ∷ [];
  routing_receipts = [];
  sessions = [];
  node_session_cache = [];
  http_replies = answered true (codes "digest") ∷ [];
  http_sent = [];
  scheduled = [];
  refunds = [];
}

abbrev pub some_json : Json
some_json = record {
  receipt_to_string = λ r. some (codes "receipt");
  receipt_from_str = λ t. some some_receipt;
  settle_resp_from_str = some;
}

abbrev pub settlement_job : SettlementJob
settlement_job = record { request_id = 5; receipt_json = codes "receipt" }

abbrev pub no_escrow : Text → Option EscrowHandle
no_escrow t = none

abbrev pub some_mesh : MeshExternal
some_mesh = record {
  peer_id_to_string = λ p. p;
  local_peer_id = codes "self";
  with_p2p = λ p a. a;
  bid_from_slice = λ b. none;
  capabilities_from_slice = λ b. some some_capabilities;
  request_to_vec = λ r. some (codes "request");
  receipt_to_string = λ r. some (codes "receipt");
  receipt_to_value = λ r. r.timestamp_ms ∷ [];
}

abbrev pub some_loop : EventLoop
some_loop = record {
  bid_subscribers = (5, channel 64) ∷ [];
  peer_registry = some_registry;
  enclave_key = enclave_key;
  has_pg_pool = true;
  settlement_tx = some (channel 8);
  in_flight =
      (
        5,
        record { client_id = []; bid_set_hash = []; payout_addresses = addresses; session_id = 6 },
      )
      ∷ [];
  listen_addrs = [];
  ready_tx = none;
  pending_inference = [];
}
