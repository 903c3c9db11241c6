-- ===== src/Mesh/Reach.antt =====
-- What holds of the event loop at every point of a run of src/coordinator/src/mesh/event_loop.rs.
use coordinator.Base.{
  ℕ, List, [], Text, Bytes, Bool, true, false, ◌||◌, Option, none, some, Outcome, ok, err, nat_eq,
  text_eq, ◌==◌, ◌≡◌, refl, sym, ◌∙◌, arith,
}
use mathlib.Core.Path.{subst}
use coordinator.Base.Map.{get, has-insert, has-modify}
use coordinator.Protocol.Types.{Uuid, InferenceRequest, InferenceBid, NodeCapabilities}
use coordinator.Protocol.External.{External}
use coordinator.Protocol.Dispatch.{Topic, bids, announce, inference_any, reputation}
use coordinator.Store.Defs.{World}
use coordinator.Registry.{PeerId, PeerRegistry, observe_addrs}
use coordinator.Registry.Addrs.{Multiaddr}
use coordinator.Settlement.Worker.{SettlementJob}
use coordinator.Registry.Laws.{IsValid, upsert-IsValid, observe_addrs-IsValid, evict_stale-IsValid}
use coordinator.Mesh.{EventLoop, Channel, MeshExternal, ReplyTx, send, with_pg_and_settlement}
use coordinator.Mesh.Events.{
  Message, MeshCommand, SwarmEvent, Swarm, Reply, Step, Reachable, here, step, on_event, on_ack,
  on_command, on_tick, receiver_moves, database_moves, publish, set_payout_addresses, dial,
  listen_addrs, dispatch_inference, new_listen_addr, gossip_message, inference_response,
  inference_failure, identify_received, routing_updated, other_event, after_publish,
  publish_payload, store_channel, deliver_bid, on_bid, without_reply, publish_request,
  handle_command, handle_gossip_message, handle_swarm_event, on_evict_tick, on_announce, on_topic,
}
use coordinator.Mesh.Sound.{IsSound, Keeps-IsSound, handle_completion_ack-Keeps}

or_later : (b c d : Bool) → (c ≡ true → d ≡ true) → (b || c) ≡ true → (b || d) ≡ true
or_later true c d f h = refl
or_later false c d f h = f h

module _ (m : MeshExternal) where
  after_publish-IsSound :
      (o : Outcome Text (Unit {0})) (request : InferenceRequest) (l : EventLoop)
      → IsSound l
      → IsSound (after_publish m o request l).1
  after_publish-IsSound (err e) request l v = v
  after_publish-IsSound (ok done) request l v = record {
    registry = v.registry;
    subscribed = λ q h.
        has-insert request.request_id q _ l.bid_subscribers
        ∙ or_later (request.request_id == q) _ _ (v.subscribed q)
            (sym (has-insert request.request_id q _ l.in_flight) ∙ h);
  }

  publish_payload-IsSound :
      (o : Option Bytes) (s : Swarm) (request : InferenceRequest) (l : EventLoop)
      → IsSound l
      → IsSound (publish_payload m o s request l).1
  publish_payload-IsSound none s request l v = v
  publish_payload-IsSound (some payload) s request l v = after_publish-IsSound _ request l v

  handle_command-IsSound :
      (s : Swarm) (c : MeshCommand) (l : EventLoop) → IsSound l → IsSound (handle_command m s c l).1
  unfolding handle_command publish_request
  handle_command-IsSound s (publish request) l v = publish_payload-IsSound _ s request l v
  handle_command-IsSound s (set_payout_addresses q addresses) l v = record {
    registry = v.registry;
    subscribed = λ j h. v.subscribed j (sym (has-modify q j _ l.in_flight) ∙ h);
  }
  handle_command-IsSound s (dial addr) l v = v
  handle_command-IsSound s listen_addrs l v = v
  handle_command-IsSound s (dispatch_inference peer d tx) l v = record {
    registry = v.registry;
    subscribed = v.subscribed;
  }

  -- Where a handler has finished, what it leaves is sound.
  abbrev Sound? : Option EventLoop → Type 0
  Sound? none = Unit
  Sound? (some l) = IsSound l

  store_channel-Sound? :
      (q : Uuid) (l : EventLoop) (o : Option (Channel InferenceBid))
      → IsSound l
      → Sound? (store_channel m q l o)
  store_channel-Sound? q l none v = tt
  store_channel-Sound? q l (some c) v = record {
    registry = v.registry;
    subscribed = λ j h. ground (arith, has-insert q j c l.bid_subscribers, v.subscribed j h);
  }

  deliver_bid-Sound? :
      (bid : InferenceBid) (o : Option (Channel InferenceBid)) (l : EventLoop)
      → IsSound l
      → Sound? (deliver_bid m bid o l)
  deliver_bid-Sound? bid none l v = v
  deliver_bid-Sound? bid (some c) l v = store_channel-Sound? bid.request_id l (send bid c) v

  on_bid-Sound? : (o : Option InferenceBid) (l : EventLoop) → IsSound l → Sound? (on_bid m o l)
  on_bid-Sound? none l v = v
  on_bid-Sound? (some bid) l v = deliver_bid-Sound? bid (get bid.request_id l.bid_subscribers) l v

  on_announce-IsSound :
      (now_ms : ℕ) (o : Option PeerId) (c : Option NodeCapabilities) (l : EventLoop)
      → IsSound l
      → IsSound (on_announce m now_ms o c l)
  on_announce-IsSound now_ms (some p) (some c) l v = record {
    registry = upsert-IsValid now_ms p c [] l.peer_registry tt v.registry;
    subscribed = v.subscribed;
  }
  on_announce-IsSound now_ms none (some c) l v = v
  on_announce-IsSound now_ms (some p) none l v = v
  on_announce-IsSound now_ms none none l v = v

  on_topic-Sound? :
      (t : Topic) (now_ms : ℕ) (message : Message) (l : EventLoop)
      → IsSound l
      → Sound? (on_topic m t now_ms message l)
  on_topic-Sound? bids now_ms message l v = on_bid-Sound? _ l v
  on_topic-Sound? announce now_ms message l v = on_announce-IsSound now_ms _ _ l v
  on_topic-Sound? inference_any now_ms message l v = v
  on_topic-Sound? reputation now_ms message l v = v

  without_reply-IsSound :
      (o : Option EventLoop) (replies : List Reply) (l' : EventLoop)
      → Sound? o
      → without_reply m o ≡ some (replies, l')
      → IsSound l'
  without_reply-IsSound none replies l' v h = cc
  without_reply-IsSound (some l) replies l' v h = let e : l ≡ l' = cc in subst IsSound e v

  observed-IsSound :
      (p : PeerId) (addrs : List Multiaddr) (l : EventLoop)
      → IsSound l
      → IsSound (record l { peer_registry = observe_addrs p addrs l.peer_registry })
  observed-IsSound p addrs l v = record {
    registry = observe_addrs-IsValid p addrs l.peer_registry v.registry;
    subscribed = v.subscribed;
  }

  finished-IsSound :
      (a : List Reply × EventLoop) (replies : List Reply) (l' : EventLoop)
      → IsSound a.1
      → some a ≡ some (replies, l')
      → IsSound l'
  finished-IsSound a replies l' v h = let e : a.1 ≡ l' = cc in subst IsSound e v

  handle_swarm_event-IsSound :
      (now_ms : ℕ) (e : SwarmEvent) (l l' : EventLoop) (replies : List Reply)
      → IsSound l
      → handle_swarm_event m now_ms e l ≡ some (replies, l')
      → IsSound l'
  unfolding handle_swarm_event handle_gossip_message
  handle_swarm_event-IsSound now_ms (new_listen_addr a) l l' rs v h =
      finished-IsSound _ rs l' (record { registry = v.registry; subscribed = v.subscribed }) h
  handle_swarm_event-IsSound now_ms (gossip_message message) l l' rs v h =
      without_reply-IsSound _ rs l' (on_topic-Sound? message.topic now_ms message l v) h
  handle_swarm_event-IsSound now_ms (inference_response q r) l l' rs v h =
      finished-IsSound _ rs l' (record { registry = v.registry; subscribed = v.subscribed }) h
  handle_swarm_event-IsSound now_ms (inference_failure q e) l l' rs v h =
      finished-IsSound _ rs l' (record { registry = v.registry; subscribed = v.subscribed }) h
  handle_swarm_event-IsSound now_ms (identify_received p addrs) l l' rs v h =
      finished-IsSound _ rs l' (observed-IsSound p addrs l v) h
  handle_swarm_event-IsSound now_ms (routing_updated p addrs) l l' rs v h =
      finished-IsSound _ rs l' (observed-IsSound p addrs l v) h
  handle_swarm_event-IsSound now_ms other_event l l' rs v h = finished-IsSound _ rs l' v h

module _ (x : External) (m : MeshExternal) where
  Step-IsSound : {s t : EventLoop × World} → Step m x s t → IsSound s.0 → IsSound t.0
  unfolding on_evict_tick
  Step-IsSound (on_event now_ms e h) v = handle_swarm_event-IsSound m now_ms e _ _ _ v h
  Step-IsSound (on_ack {l} {w} now_ms sender ack) v =
      Keeps-IsSound ack.request_id l _ (handle_completion_ack-Keeps x m now_ms sender ack l w) v
  Step-IsSound (on_command s c) v = handle_command-IsSound m s c _ v
  Step-IsSound (on_tick {l} now_ms) v = record {
    registry = evict_stale-IsValid now_ms l.peer_registry v.registry;
    subscribed = v.subscribed;
  }
  Step-IsSound (receiver_moves {l} q f) v = record {
    registry = v.registry;
    subscribed = λ j h. has-modify q j f l.bid_subscribers ∙ v.subscribed j h;
  }
  Step-IsSound database_moves v = v

  -- From a loop that was just made on a well-formed registry, every run of events, acks, commands
  -- and ticks, in any order, keeps the registry well formed and a bid channel for every request that
  -- is in flight.
  pub Reachable-IsSound :
      (registry : PeerRegistry) (ready : ReplyTx) (key : Bytes) (pg : Bool)
      (settlement_tx : Option (Channel SettlementJob)) (w : World) {t : EventLoop × World}
      → IsValid registry
      → Reachable m x (with_pg_and_settlement registry ready key pg settlement_tx, w) t
      → IsSound t.0
  unfolding with_pg_and_settlement
  Reachable-IsSound registry ready key pg tx w v here = record {
    registry = v;
    subscribed = λ q h. cc;
  }
  Reachable-IsSound registry ready key pg tx w v (step r s) =
      Step-IsSound s (Reachable-IsSound registry ready key pg tx w v r)
