-- ===== src/Api/Calls.antt =====
-- The handler's calls of the mesh as commands of the event loop: `Libp2pMesh` of
-- src/coordinator/src/mesh/mod.rs. Gossip messages arrive while the auction is open, which is between
-- the first call and the others.
use coordinator.Base.{ℕ, List, [], ◌∷◌, map, ◌++◌, Option, some, nat_eq, ◌≡◌, refl, ap}
use coordinator.Protocol.Types.{InferenceBid}
use coordinator.Auction.Defs.{Poll, received, elapsed, collect_bids}
use coordinator.Mesh.{EventLoop, MeshExternal, Channel, ReplyTx}
use coordinator.Mesh.Events
use coordinator.Mesh.Events.{
  Message, MeshCommand, Swarm, handle_command, handle_gossip_message, on_topic, on_bid, deliver_bid,
  store_channel, on_announce,
}
use coordinator.Mesh.Bidding.{handle_each, then_handle}
use coordinator.Api.Inference.{MeshCall, publish_request, set_payout_addresses, dispatch_inference}

-- The end of the oneshot channel on which the handler awaits a node's reply is `tx`.
unfoldable pub command_of : ReplyTx → MeshCall → MeshCommand
command_of tx (publish_request request) = Events.publish request
command_of tx (set_payout_addresses q addresses) = Events.set_payout_addresses q addresses
command_of tx (dispatch_inference peer dispatch) = Events.dispatch_inference peer dispatch tx

-- What an auction takes from its channel: all that is queued, until the deadline.
abbrev pub polls_of : Channel InferenceBid → List Poll
polls_of c = map received c.queue ++ elapsed ∷ []

pub collect_bids-polls_of : (c : Channel InferenceBid) → collect_bids (polls_of c) ≡ c.queue
unfolding collect_bids
collect_bids-polls_of c = all c.queue
  where
    all : (bs : List InferenceBid) → collect_bids (map received bs ++ elapsed ∷ []) ≡ bs
    all [] = refl
    all (b ∷ bs) = ap (λ r. b ∷ r) (all bs)

module _ (m : MeshExternal) (s : Swarm) (tx : ReplyTx) where
  abbrev pub perform : List MeshCall → EventLoop → EventLoop
  perform [] l = l
  perform (c ∷ cs) l = perform cs (handle_command m s (command_of tx c) l).1

  abbrev pub some_perform : List MeshCall → EventLoop → Option EventLoop
  some_perform cs l = some (perform cs l)

  -- The loop when it has done the calls, the messages `xs` having come after the first.
  abbrev pub serve : ℕ → List Message → List MeshCall → EventLoop → Option EventLoop
  serve now xs [] l = handle_each m now xs l
  serve now xs (c ∷ cs) l =
      then_handle m now (some_perform cs)
        (handle_each m now xs (handle_command m s (command_of tx c) l).1)
