-- ===== src/Mesh/Events.antt =====
-- The other handlers of src/coordinator/src/mesh/event_loop.rs, and its loop as a step relation.
use coordinator.Base.{
  ℕ, List, [], ◌∷◌, ◌++◌, Text, Bytes, Option, none, some, Outcome, ok, err, codes, nat_eq, text_eq,
  ◌≡◌,
}
use coordinator.Base.Map.{Map, get, insert, remove, modify}
use coordinator.Protocol.Types.{Uuid, InferenceRequest, InferenceBid, NodeCapabilities}
use coordinator.Protocol.External.{External}
use coordinator.Protocol.Completion.{CompletionAck}
use coordinator.Protocol.Dispatch.{
  InferenceDispatch, InferenceReply, Topic, bids, announce, inference_any, reputation,
}
use coordinator.Store.Defs.{World}
use coordinator.Registry.{PeerId, upsert, observe_addrs, evict_stale}
use coordinator.Registry.Addrs.{Multiaddr}
use coordinator.Mesh.{
  EventLoop, Channel, MeshExternal, OutboundRequestId, ReplyTx, channel, send, bid_channel_capacity,
  zeroes,
}
use coordinator.Mesh.Ack.{handle_completion_ack}

-- A gossipsub message: the author is `None` where the message is not signed.
pub record Message : Type 0 where
  pub source : Option PeerId
  pub payload : Bytes
  pub topic : Topic

pub data MeshCommand : Type 0 where
  publish : InferenceRequest → MeshCommand
  set_payout_addresses : Uuid → Map Text Text → MeshCommand
  dial : Multiaddr → MeshCommand
  listen_addrs : MeshCommand
  dispatch_inference : PeerId → InferenceDispatch → ReplyTx → MeshCommand

-- What goes to a oneshot channel. The receiver of bids is named by the request.
pub data Reply : Type 0 where
  published : Outcome Text Uuid → Reply
  dialed : Outcome Text (Unit {0}) → Reply
  listening_on : List Multiaddr → Reply
  inference : ReplyTx → Outcome Text InferenceReply → Reply
  ready : ReplyTx → Reply

-- What the swarm answers to the calls that a handler makes of it.
pub record Swarm : Type 0 where
  pub gossip_publish : Topic → Bytes → Outcome Text (Unit {0})
  pub dial_addr : Multiaddr → Outcome Text (Unit {0})
  pub send_request : PeerId → InferenceDispatch → OutboundRequestId

-- The swarm's events; a completion request is handled by `handle_completion_ack`.
pub data SwarmEvent : Type 0 where
  new_listen_addr : Multiaddr → SwarmEvent
  gossip_message : Message → SwarmEvent
  inference_response : OutboundRequestId → InferenceReply → SwarmEvent
  inference_failure : OutboundRequestId → Text → SwarmEvent
  identify_received : PeerId → List Multiaddr → SwarmEvent
  routing_updated : PeerId → List Multiaddr → SwarmEvent
  other_event : SwarmEvent

module _ (m : MeshExternal) where
  -- Each receiver of `publish` stands under its request in `bid_subscribers`.
  abbrev pub subscribed : InferenceRequest → EventLoop → EventLoop
  subscribed request l = record l {
    in_flight =
        insert request.request_id
          (record {
            client_id = [];
            bid_set_hash = zeroes;
            payout_addresses = [];
            session_id = request.session_id;
          })
          l.in_flight;
    bid_subscribers = insert request.request_id (channel bid_channel_capacity) l.bid_subscribers;
  }

  abbrev pub after_publish :
      Outcome Text (Unit {0}) → InferenceRequest → EventLoop → Outcome Text Uuid × EventLoop
  after_publish (err e) request l = (err (codes "gossipsub publish: " ++ e), l)
  after_publish (ok done) request l = (ok request.request_id, subscribed request l)

  abbrev pub publish_payload :
      Option Bytes → Swarm → InferenceRequest → EventLoop → Outcome Text Uuid × EventLoop
  publish_payload none s request l = (err (codes "serialize"), l)
  publish_payload (some payload) s request l =
      after_publish (s.gossip_publish inference_any payload) request l

  unfoldable pub publish_request :
      Swarm → InferenceRequest → EventLoop → Outcome Text Uuid × EventLoop
  publish_request s request l = publish_payload (m.request_to_vec request) s request l

  -- `SetPayoutAddresses` has no reply.
  unfoldable pub handle_command : Swarm → MeshCommand → EventLoop → List Reply × EventLoop
  handle_command s (publish request) l =
      let (result, l') = publish_request s request l in (published result ∷ [], l')
  handle_command s (set_payout_addresses request_id addresses) l = (
    [],
    record l {
      in_flight =
          modify request_id (λ meta. record meta { payout_addresses = addresses }) l.in_flight;
    },
  )
  handle_command s (dial addr) l = (dialed (s.dial_addr addr) ∷ [], l)
  handle_command s listen_addrs l = (listening_on l.listen_addrs ∷ [], l)
  handle_command s (dispatch_inference peer dispatch reply_tx) l = (
    [],
    record l {
      pending_inference = insert (s.send_request peer dispatch) reply_tx l.pending_inference;
    },
  )

  abbrev pub store_channel : Uuid → EventLoop → Option (Channel InferenceBid) → Option EventLoop
  store_channel q l none = none
  store_channel q l (some tx) = some (record l { bid_subscribers = insert q tx l.bid_subscribers })

  -- The bid goes to the auction that has published its request, if any.
  abbrev pub deliver_bid :
      InferenceBid → Option (Channel InferenceBid) → EventLoop → Option EventLoop
  deliver_bid bid none l = some l
  deliver_bid bid (some tx) l = store_channel bid.request_id l (send bid tx)

  abbrev pub on_bid : Option InferenceBid → EventLoop → Option EventLoop
  on_bid none l = some l
  on_bid (some bid) l = deliver_bid bid (get bid.request_id l.bid_subscribers) l

  abbrev pub on_announce : ℕ → Option PeerId → Option NodeCapabilities → EventLoop → EventLoop
  on_announce now_ms (some author) (some capabilities) l = record l {
    peer_registry = upsert now_ms author capabilities [] l.peer_registry;
  }
  on_announce now_ms none (some capabilities) l = l
  on_announce now_ms source none l = l

  abbrev pub on_topic : Topic → ℕ → Message → EventLoop → Option EventLoop
  on_topic bids now_ms message l = on_bid (m.bid_from_slice message.payload) l
  on_topic announce now_ms message l =
      some (on_announce now_ms message.source (m.capabilities_from_slice message.payload) l)
  on_topic inference_any now_ms message l = some l
  on_topic reputation now_ms message l = some l

  -- `none` while the handler waits for room in the channel of an auction.
  unfoldable pub handle_gossip_message : ℕ → Message → EventLoop → Option EventLoop
  handle_gossip_message now_ms message l = on_topic message.topic now_ms message l

  abbrev pub send_ready : Option ReplyTx → List Reply
  send_ready none = []
  send_ready (some tx) = ready tx ∷ []

  abbrev pub send_inference : Option ReplyTx → Outcome Text InferenceReply → List Reply
  send_inference none result = []
  send_inference (some tx) result = inference tx result ∷ []

  -- The reply goes to the waiting caller, who is forgotten.
  abbrev pub answer_inference :
      OutboundRequestId → Outcome Text InferenceReply → EventLoop → List Reply × EventLoop
  answer_inference request_id result l = (
    send_inference (get request_id l.pending_inference) result,
    record l { pending_inference = remove request_id l.pending_inference },
  )

  abbrev pub without_reply : Option EventLoop → Option (List Reply × EventLoop)
  without_reply none = none
  without_reply (some l) = some ([], l)

  -- The addresses that go to Kademlia's table are left out.
  unfoldable pub handle_swarm_event : ℕ → SwarmEvent → EventLoop → Option (List Reply × EventLoop)
  handle_swarm_event now_ms (new_listen_addr address) l = some (
    send_ready l.ready_tx,
    record l {
      listen_addrs = l.listen_addrs ++ m.with_p2p m.local_peer_id address ∷ [];
      ready_tx = none;
    },
  )
  handle_swarm_event now_ms (gossip_message message) l =
      without_reply (handle_gossip_message now_ms message l)
  handle_swarm_event now_ms (inference_response request_id response) l =
      some (answer_inference request_id (ok response) l)
  handle_swarm_event now_ms (inference_failure request_id error) l =
      some (answer_inference request_id (err (codes "inference outbound failure: " ++ error)) l)
  handle_swarm_event now_ms (identify_received peer addrs) l =
      some ([], record l { peer_registry = observe_addrs peer addrs l.peer_registry })
  handle_swarm_event now_ms (routing_updated peer addrs) l =
      some ([], record l { peer_registry = observe_addrs peer addrs l.peer_registry })
  handle_swarm_event now_ms other_event l = some ([], l)

  unfoldable pub on_evict_tick : ℕ → EventLoop → EventLoop
  on_evict_tick now_ms l = record l { peer_registry = evict_stale now_ms l.peer_registry }

  -- One turn of `run`: an event, an ack, a command or a tick, with whatever the swarm answers. Other
  -- tasks act between two turns: an auction takes bids from its channel and drops it at the end.
  pub data Step (x : External) : EventLoop × World → EventLoop × World → Type 0 where
    on_event :
        {l l' : EventLoop} {w : World} {replies : List Reply} (now_ms : ℕ) (e : SwarmEvent)
        → handle_swarm_event now_ms e l ≡ some (replies, l')
        → Step x (l, w) (l', w)
    on_ack :
        {l : EventLoop} {w : World} (now_ms : ℕ) (sender : PeerId) (ack : CompletionAck)
        → Step x (l, w) ((handle_completion_ack x m now_ms sender ack l w).1)
    on_command :
        {l : EventLoop} {w : World} (s : Swarm) (c : MeshCommand)
        → Step x (l, w) ((handle_command s c l).1, w)
    on_tick : {l : EventLoop} {w : World} (now_ms : ℕ) → Step x (l, w) (on_evict_tick now_ms l, w)
    receiver_moves :
        {l : EventLoop} {w : World} (q : Uuid) (f : Channel InferenceBid → Channel InferenceBid)
        → Step x (l, w) (record l { bid_subscribers = modify q f l.bid_subscribers }, w)
    database_moves : {l : EventLoop} {w w' : World} → Step x (l, w) (l, w')

  pub data Reachable (x : External) (start : EventLoop × World) : EventLoop × World → Type 0 where
    here : Reachable x start start
    step : {s t : EventLoop × World} → Reachable x start s → Step x s t → Reachable x start t
