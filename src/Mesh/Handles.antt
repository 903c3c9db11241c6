-- ===== src/Mesh/Handles.antt =====
-- src/coordinator/src/mesh/mod.rs and mesh/test_mesh.rs: the implementations of the trait `Mesh`. What
-- the receiver of a publication meets is the sequence of polls that the auction makes of it.
use coordinator.Base.{
  List, [], ◌∷◌, ◌++◌, Text, Bool, true, false, Option, none, some, Outcome, ok, err, codes,
}
use coordinator.Protocol.Types.{Uuid, InferenceBid, InferenceRequest}
use coordinator.Protocol.Dispatch.{InferenceDispatch, InferenceReply}
use coordinator.Auction.Defs.{Poll, received, closed}
use coordinator.Registry.{PeerId}
use coordinator.Registry.Addrs.{Multiaddr}

-- `NoopMesh`: the sender of the channel is dropped at once.
unfoldable pub noop_publish : InferenceRequest → Outcome Text (List Poll)
noop_publish request = ok (closed ∷ [])

-- The trait's own `dispatch_inference`, which `NoopMesh` keeps.
unfoldable pub default_dispatch : PeerId → InferenceDispatch → Outcome Text InferenceReply
default_dispatch peer dispatch = err (codes "dispatch_inference not implemented for this Mesh")

pub record InMemoryMesh : Type 0 where
  pub seeded : List InferenceBid

unfoldable pub seed_bids : List InferenceBid → InMemoryMesh → InMemoryMesh
seed_bids bids mesh = record mesh { seeded = bids }

abbrev pub rewritten : Uuid → List InferenceBid → List Poll
rewritten id [] = closed ∷ []
rewritten id (bid ∷ bids) = received (record bid { request_id = id }) ∷ rewritten id bids

-- The channel has room for every seeded bid, so no send waits.
unfoldable pub memory_publish : InferenceRequest → InMemoryMesh → Outcome Text (List Poll)
memory_publish request mesh = ok (rewritten request.request_id mesh.seeded)

unfoldable pub memory_dispatch :
    (PeerId → Text) → PeerId → InferenceDispatch → Outcome Text InferenceReply
memory_dispatch peer_id_to_string peer dispatch = ok (record {
  request_id = dispatch.dispatch_token.request_id;
  session_id = dispatch.dispatch_token.session_id;
  content = codes "mock-reply-from-" ++ peer_id_to_string peer;
  input_tokens = 10;
  output_tokens = 20;
  latency_ms = 5;
  error = none;
})

-- `Libp2pMesh`: a command that cannot be sent since the event loop has ended, a reply that is never
-- given, or the loop's own answer. `sent` and `reply` are what the two channels answer.
abbrev pub awaited : {A : Type 0} → Text → Option (Outcome Text A) → Outcome Text A
awaited context none = err context
awaited context (some result) = result

abbrev pub command : {A : Type 0} → Text → Text → Bool → Option (Outcome Text A) → Outcome Text A
command send_context reply_context false reply = err send_context
command send_context reply_context true reply = awaited reply_context reply

unfoldable pub dial : Bool → Option (Outcome Text (Unit {0})) → Outcome Text (Unit {0})
dial sent reply = command (codes "send dial command") (codes "dial reply") sent reply

unfoldable pub listen_addrs : Bool → Option (List Multiaddr) → List Multiaddr
listen_addrs false reply = []
listen_addrs true none = []
listen_addrs true (some addrs) = addrs

unfoldable pub libp2p_publish : Bool → Option (Outcome Text (List Poll)) → Outcome Text (List Poll)
libp2p_publish sent reply =
    command (codes "send publish command") (codes "publish reply") sent reply

unfoldable pub libp2p_dispatch :
    Bool → Option (Outcome Text InferenceReply) → Outcome Text InferenceReply
libp2p_dispatch sent reply =
    command (codes "send dispatch-inference command") (codes "dispatch-inference reply") sent reply
