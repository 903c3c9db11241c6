-- ===== src/Mesh.antt =====
-- src/coordinator/src/mesh/event_loop.rs: the state that the event loop owns, and what it takes
-- from the swarm and from serde_json. Its handlers are in Mesh/Ack and Mesh/Events.
pub mod Ack
pub mod Events
pub mod AckSteps
pub mod AckLaws
pub mod Warm
pub mod NextAuction
pub mod Sound
pub mod Untouched
pub mod Waiting
pub mod Reach
pub mod Replay
pub mod Delivery
pub mod Handles
pub mod Settled
pub mod Added
pub mod Bidding
use coordinator.Base.{
  ℕ, List, [], ◌∷◌, ◌++◌, Text, Bytes, Bool, true, false, Option, none, some, length, replicate,
  ltb, if◌then◌else◌,
}
use coordinator.Base.Map.{Map}
use coordinator.Protocol.Types.{Uuid, SessionId, InferenceBid, InferenceRequest, NodeCapabilities}
use coordinator.Protocol.Receipt.{RoutingReceipt}
use coordinator.Registry.{PeerId, PeerRegistry}
use coordinator.Registry.Addrs.{Multiaddr}
use coordinator.Settlement.Worker.{SettlementJob}

pub record InFlightMeta : Type 0 where
  pub client_id : Text
  pub bid_set_hash : Bytes
  pub payout_addresses : Map Text Text
  pub session_id : SessionId

-- A bounded mpsc channel, seen from its sender.
pub record Channel (A : Type 0) : Type 0 where
  pub capacity : ℕ
  pub queue : List A
  pub is_open : Bool

-- `mpsc::channel(capacity)`.
abbrev pub channel : {A : Type 0} → ℕ → Channel A
channel capacity = record { capacity = capacity; queue = []; is_open = true }

abbrev pub enqueue : {A : Type 0} → A → Channel A → Channel A
enqueue a c = record c { queue = c.queue ++ a ∷ [] }

-- `try_send` whose error is only logged: what finds the channel full or closed is dropped.
abbrev pub try_send : {A : Type 0} → A → Channel A → Channel A
try_send a c = if c.is_open then (if ltb (length c.queue) c.capacity then enqueue a c else c) else c

-- `send(..).await`: `none` while it waits for room.
abbrev pub send : {A : Type 0} → A → Channel A → Option (Channel A)
send a c =
    if c.is_open
    then (if ltb (length c.queue) c.capacity then some (enqueue a c) else none)
    else some c

-- The identifiers of libp2p's outbound requests, and of the waiting ends of oneshot channels.
abbrev pub OutboundRequestId : Type 0
OutboundRequestId = ℕ

abbrev pub ReplyTx : Type 0
ReplyTx = ℕ

pub record EventLoop : Type 0 where
  pub bid_subscribers : Map Uuid (Channel InferenceBid)
  pub peer_registry : PeerRegistry
  pub enclave_key : Bytes
  pub has_pg_pool : Bool
  pub settlement_tx : Option (Channel SettlementJob)
  pub in_flight : Map Uuid InFlightMeta
  pub listen_addrs : List Multiaddr
  pub ready_tx : Option ReplyTx
  pub pending_inference : Map OutboundRequestId ReplyTx

-- `with_pg_and_settlement`; the other constructors pass `None`.
unfoldable pub with_pg_and_settlement :
    PeerRegistry → ReplyTx → Bytes → Bool → Option (Channel SettlementJob) → EventLoop
with_pg_and_settlement registry ready_tx key has_pg_pool settlement_tx = record {
  bid_subscribers = [];
  peer_registry = registry;
  enclave_key = key;
  has_pg_pool = has_pg_pool;
  settlement_tx = settlement_tx;
  in_flight = [];
  listen_addrs = [];
  ready_tx = some ready_tx;
  pending_inference = [];
}

abbrev pub bid_channel_capacity : ℕ
bid_channel_capacity = 64

-- `[0u8; 32]`.
abbrev pub zeroes : Bytes
zeroes = replicate 32 0

-- libp2p's names and addresses, and serde_json at the types of the handlers.
pub record MeshExternal : Type 0 where
  pub peer_id_to_string : PeerId → Text
  pub local_peer_id : PeerId
  pub with_p2p : PeerId → Multiaddr → Multiaddr
  pub bid_from_slice : Bytes → Option InferenceBid
  pub capabilities_from_slice : Bytes → Option NodeCapabilities
  pub request_to_vec : InferenceRequest → Option Bytes
  pub receipt_to_string : RoutingReceipt → Option Text
  pub receipt_to_value : RoutingReceipt → Text
