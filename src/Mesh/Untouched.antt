-- ===== src/Mesh/Untouched.antt =====
-- What no handler of src/coordinator/src/mesh/event_loop.rs changes: the key that signs the receipts;
-- and what only commands and acks change: the requests that are in flight.
use mathlib.Core.Path.{subst}
use mathlib.Core.Option.{some-injective}
use coordinator.Base.{
  ℕ, List, [], ◌∷◌, Text, Bytes, Option, none, some, Outcome, ok, err, nat_eq, text_eq, ◌≡◌, refl,
  ap, sym, ◌∙◌, inl, inr, Option-cases,
}
use coordinator.Base.Map.{get}
use coordinator.Protocol.Types.{InferenceRequest, InferenceBid, NodeCapabilities, Uuid}
use coordinator.Protocol.External.{External}
use coordinator.Protocol.Dispatch.{Topic, bids, announce, inference_any, reputation}
use coordinator.Store.Defs.{World}
use coordinator.Registry.{PeerId}
use coordinator.Mesh.{EventLoop, MeshExternal, Channel, send}
use coordinator.Mesh.Events.{
  Message, MeshCommand, SwarmEvent, Swarm, Reply, Step, Reachable, here, step, on_event, on_ack,
  on_command, on_tick, receiver_moves, database_moves, publish, set_payout_addresses, dial,
  listen_addrs, dispatch_inference, new_listen_addr, gossip_message, inference_response,
  inference_failure, identify_received, routing_updated, other_event, after_publish,
  publish_payload, store_channel, deliver_bid, on_bid, without_reply, publish_request,
  handle_command, handle_gossip_message, handle_swarm_event, on_evict_tick, on_announce, on_topic,
}
use coordinator.Mesh.Sound.{handle_completion_ack-Keeps}
use coordinator.Mesh.Bidding.{handle_each, then_handle}

-- The requests in flight, the key and the callers that wait for a reply are the same.
pub record Untouched (l l' : EventLoop) : Type 0 where
  in_flight : l'.in_flight ≡ l.in_flight
  enclave_key : l'.enclave_key ≡ l.enclave_key
  pub pending_inference : l'.pending_inference ≡ l.pending_inference

untouched : (l : EventLoop) → Untouched l l
untouched l = record { in_flight = refl; enclave_key = refl; pending_inference = refl }

-- So it is wherever a handler has finished.
abbrev pub Untouched? : EventLoop → Option EventLoop → Type 0
Untouched? l none = Unit
Untouched? l (some l') = Untouched l l'

module _ (m : MeshExternal) where
  store_channel-Untouched? :
      (q : Uuid) (l : EventLoop) (o : Option (Channel InferenceBid))
      → Untouched? l (store_channel m q l o)
  store_channel-Untouched? q l none = tt
  store_channel-Untouched? q l (some c) = record {
    in_flight = refl;
    enclave_key = refl;
    pending_inference = refl;
  }

  deliver_bid-Untouched? :
      (bid : InferenceBid) (o : Option (Channel InferenceBid)) (l : EventLoop)
      → Untouched? l (deliver_bid m bid o l)
  deliver_bid-Untouched? bid none l = untouched l
  deliver_bid-Untouched? bid (some c) l = store_channel-Untouched? bid.request_id l (send bid c)

  on_bid-Untouched? : (o : Option InferenceBid) (l : EventLoop) → Untouched? l (on_bid m o l)
  on_bid-Untouched? none l = untouched l
  on_bid-Untouched? (some bid) l =
      deliver_bid-Untouched? bid (get bid.request_id l.bid_subscribers) l

  on_announce-Untouched :
      (now : ℕ) (source : Option PeerId) (c : Option NodeCapabilities) (l : EventLoop)
      → Untouched l (on_announce m now source c l)
  on_announce-Untouched now (some p) (some c) l = record {
    in_flight = refl;
    enclave_key = refl;
    pending_inference = refl;
  }
  on_announce-Untouched now none (some c) l = untouched l
  on_announce-Untouched now source none l = untouched l

  on_topic-Untouched? :
      (t : Topic) (now : ℕ) (x : Message) (l : EventLoop) → Untouched? l (on_topic m t now x l)
  on_topic-Untouched? bids now x l = on_bid-Untouched? (m.bid_from_slice x.payload) l
  on_topic-Untouched? announce now x l = on_announce-Untouched now x.source _ l
  on_topic-Untouched? inference_any now x l = untouched l
  on_topic-Untouched? reputation now x l = untouched l

  pub handle_gossip_message-Untouched? :
      (now : ℕ) (x : Message) (l : EventLoop) → Untouched? l (handle_gossip_message m now x l)
  unfolding handle_gossip_message
  handle_gossip_message-Untouched? now x l = on_topic-Untouched? x.topic now x l

  pub handle_each-in_flight :
      (now : ℕ) (xs : List Message) (l l' : EventLoop)
      → handle_each m now xs l ≡ some l'
      → l'.in_flight ≡ l.in_flight
  handle_each-in_flight now [] l l' h =
      ap (λ (v : EventLoop). v.in_flight) (sym (some-injective l l' h))
  handle_each-in_flight now (x ∷ xs) l l' h =
      let kept = handle_gossip_message-Untouched? now x l in
      elim (Option-cases (handle_gossip_message m now x l)) [
        | inl e ↦
            let stuck : none ≡ some l' =
              sym (ap (then_handle m now (handle_each m now xs)) e) ∙ h in
            cc
        | inr (l₁, e) ↦
            handle_each-in_flight now xs l₁ l' (sym (rw e refl) ∙ h)
            ∙ (subst (Untouched? l) e kept).in_flight
      ]

  without_reply-key :
      (l : EventLoop) (o : Option EventLoop) (replies : List Reply) (l' : EventLoop)
      → Untouched? l o
      → without_reply m o ≡ some (replies, l')
      → l'.enclave_key ≡ l.enclave_key
  without_reply-key l none replies l' v h = cc
  without_reply-key l (some k) replies l' v h =
      let e : k ≡ l' = cc in (subst (Untouched l) e v).enclave_key

  finished-key :
      (l : EventLoop) (a : List Reply × EventLoop) (replies : List Reply) (l' : EventLoop)
      → a.1.enclave_key ≡ l.enclave_key
      → some a ≡ some (replies, l')
      → l'.enclave_key ≡ l.enclave_key
  finished-key l a replies l' k h =
      let e : a.1 ≡ l' = cc in ap (λ (v : EventLoop). v.enclave_key) (sym e) ∙ k

  handle_swarm_event-key :
      (now : ℕ) (e : SwarmEvent) (l l' : EventLoop) (replies : List Reply)
      → handle_swarm_event m now e l ≡ some (replies, l')
      → l'.enclave_key ≡ l.enclave_key
  unfolding handle_swarm_event
  handle_swarm_event-key now (new_listen_addr a) l l' rs h = finished-key l _ rs l' refl h
  handle_swarm_event-key now (gossip_message x) l l' rs h =
      without_reply-key l _ rs l' (handle_gossip_message-Untouched? now x l) h
  handle_swarm_event-key now (inference_response q r) l l' rs h = finished-key l _ rs l' refl h
  handle_swarm_event-key now (inference_failure q e) l l' rs h = finished-key l _ rs l' refl h
  handle_swarm_event-key now (identify_received p addrs) l l' rs h = finished-key l _ rs l' refl h
  handle_swarm_event-key now (routing_updated p addrs) l l' rs h = finished-key l _ rs l' refl h
  handle_swarm_event-key now other_event l l' rs h = finished-key l _ rs l' refl h

  after_publish-key :
      (o : Outcome Text (Unit {0})) (request : InferenceRequest) (l : EventLoop)
      → (after_publish m o request l).1.enclave_key ≡ l.enclave_key
  after_publish-key (err e) request l = refl
  after_publish-key (ok done) request l = refl

  publish_payload-key :
      (o : Option Bytes) (s : Swarm) (request : InferenceRequest) (l : EventLoop)
      → (publish_payload m o s request l).1.enclave_key ≡ l.enclave_key
  publish_payload-key none s request l = refl
  publish_payload-key (some payload) s request l = after_publish-key _ request l

  handle_command-key :
      (s : Swarm) (c : MeshCommand) (l : EventLoop)
      → (handle_command m s c l).1.enclave_key ≡ l.enclave_key
  unfolding handle_command publish_request
  handle_command-key s (publish request) l = publish_payload-key _ s request l
  handle_command-key s (set_payout_addresses q addresses) l = refl
  handle_command-key s (dial addr) l = refl
  handle_command-key s listen_addrs l = refl
  handle_command-key s (dispatch_inference peer d tx) l = refl

module _ (x : External) (m : MeshExternal) where
  Step-key : {s t : EventLoop × World} → Step m x s t → t.0.enclave_key ≡ s.0.enclave_key
  unfolding on_evict_tick
  Step-key (on_event now e h) = handle_swarm_event-key m now e _ _ _ h
  Step-key (on_ack {l} {w} now sender ack) =
      (handle_completion_ack-Keeps x m now sender ack l w).same_key
  Step-key (on_command s c) = handle_command-key m s c _
  Step-key (on_tick now) = refl
  Step-key (receiver_moves q f) = refl
  Step-key database_moves = refl

  -- No run of the loop exchanges the key.
  pub Reachable-key :
      {s t : EventLoop × World} → Reachable m x s t → t.0.enclave_key ≡ s.0.enclave_key
  Reachable-key here = refl
  Reachable-key (step r s) = Step-key s ∙ Reachable-key r
