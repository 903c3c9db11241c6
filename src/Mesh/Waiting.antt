-- ===== src/Mesh/Waiting.antt =====
-- Who waits for the reply to a dispatch in src/coordinator/src/mesh/event_loop.rs, and who gets it.
use coordinator.Base.{
  ℕ, List, [], ◌∷◌, ◌++◌, Text, Bytes, Bool, false, Option, none, some, Outcome, ok, err, codes,
  nat_eq, ◌==◌, ◌≡◌, refl, ap, sym, ◌∙◌,
}
use mathlib.Core.Path.{subst}
use coordinator.Base.Map.{get, remove, get-insert_self, get-insert, get-remove_self, get-remove}
use coordinator.Protocol.Types.{InferenceRequest}
use coordinator.Protocol.External.{External}
use coordinator.Protocol.Dispatch.{InferenceDispatch, InferenceReply}
use coordinator.Store.Defs.{World}
use coordinator.Registry.{PeerId}
use coordinator.Mesh.{EventLoop, MeshExternal, OutboundRequestId, ReplyTx}
use coordinator.Mesh.Events.{
  MeshCommand, SwarmEvent, Swarm, Reply, Step, on_event, on_ack, on_command, on_tick,
  receiver_moves, database_moves, publish, set_payout_addresses, dial, listen_addrs,
  dispatch_inference, new_listen_addr, gossip_message, inference_response, inference_failure,
  identify_received, routing_updated, other_event, inference, after_publish, publish_payload,
  without_reply, publish_request, handle_command, handle_swarm_event, on_evict_tick,
}
use coordinator.Mesh.Sound.{handle_completion_ack-Keeps}
use coordinator.Mesh.Untouched.{Untouched, Untouched?, handle_gossip_message-Untouched?}

-- The event is an answer to the dispatch `id`.
abbrev pub is_answer : OutboundRequestId → SwarmEvent → Bool
is_answer id (inference_response q reply) = q == id
is_answer id (inference_failure q error) = q == id
is_answer id (new_listen_addr a) = false
is_answer id (gossip_message x) = false
is_answer id (identify_received p addrs) = false
is_answer id (routing_updated p addrs) = false
is_answer id other_event = false

-- The command is a dispatch that libp2p gives the number `id`.
abbrev pub is_dispatch : Swarm → OutboundRequestId → MeshCommand → Bool
is_dispatch s id (dispatch_inference peer d tx) = s.send_request peer d == id
is_dispatch s id (publish request) = false
is_dispatch s id (set_payout_addresses q addresses) = false
is_dispatch s id (dial addr) = false
is_dispatch s id listen_addrs = false

module _ (m : MeshExternal) (x : External) (id : OutboundRequestId) where
  -- The step is neither an answer to the dispatch `id` nor another dispatch under that number.
  abbrev pub Spares : {s t : EventLoop × World} → Step m x s t → Type 0
  Spares (on_event now e h) = is_answer id e ≡ false
  Spares (on_ack now sender ack) = Unit
  Spares (on_command s c) = is_dispatch s id c ≡ false
  Spares (on_tick now) = Unit
  Spares (receiver_moves q f) = Unit
  Spares database_moves = Unit

  -- A run of any length, of any other steps.
  pub data Meanwhile (start : EventLoop × World) : EventLoop × World → Type 0 where
    at_once : Meanwhile start start
    after :
        {s t : EventLoop × World} (k : Step m x s t)
        → Spares k
        → Meanwhile start s
        → Meanwhile start t

abbrev pub waiting : OutboundRequestId → EventLoop → Option ReplyTx
waiting id l = get id l.pending_inference

module _ (m : MeshExternal) (id : OutboundRequestId) where
  finished-waiting :
      (l : EventLoop) (a : List Reply × EventLoop) (replies : List Reply) (l' : EventLoop)
      → waiting id a.1 ≡ waiting id l
      → some a ≡ some (replies, l')
      → waiting id l' ≡ waiting id l
  finished-waiting l a replies l' k h = let e : a.1 ≡ l' = cc in ap (waiting id) (sym e) ∙ k

  without_reply-waiting :
      (l : EventLoop) (o : Option EventLoop) (replies : List Reply) (l' : EventLoop)
      → Untouched? l o
      → without_reply m o ≡ some (replies, l')
      → waiting id l' ≡ waiting id l
  without_reply-waiting l none replies l' v h = cc
  without_reply-waiting l (some k) replies l' v h =
      let e : k ≡ l' = cc in ap (get id) (subst (Untouched l) e v).pending_inference

  removed-waiting :
      (q : OutboundRequestId) (l : EventLoop)
      → (q == id) ≡ false
      → get id (remove q l.pending_inference) ≡ waiting id l
  removed-waiting q l n = get-remove q id l.pending_inference ∙ rw n refl

  handle_swarm_event-waiting :
      (now : ℕ) (e : SwarmEvent) (l l' : EventLoop) (replies : List Reply)
      → is_answer id e ≡ false
      → handle_swarm_event m now e l ≡ some (replies, l')
      → waiting id l' ≡ waiting id l
  unfolding handle_swarm_event
  handle_swarm_event-waiting now (new_listen_addr a) l l' rs n h = finished-waiting l _ rs l' refl h
  handle_swarm_event-waiting now (gossip_message g) l l' rs n h =
      without_reply-waiting l _ rs l' (handle_gossip_message-Untouched? m now g l) h
  handle_swarm_event-waiting now (inference_response q r) l l' rs n h =
      finished-waiting l _ rs l' (removed-waiting q l n) h
  handle_swarm_event-waiting now (inference_failure q e) l l' rs n h =
      finished-waiting l _ rs l' (removed-waiting q l n) h
  handle_swarm_event-waiting now (identify_received p a) l l' rs n h =
      finished-waiting l _ rs l' refl h
  handle_swarm_event-waiting now (routing_updated p a) l l' rs n h =
      finished-waiting l _ rs l' refl h
  handle_swarm_event-waiting now other_event l l' rs n h = finished-waiting l _ rs l' refl h

  after_publish-waiting :
      (o : Outcome Text (Unit {0})) (request : InferenceRequest) (l : EventLoop)
      → waiting id (after_publish m o request l).1 ≡ waiting id l
  after_publish-waiting (err e) request l = refl
  after_publish-waiting (ok done) request l = refl

  publish_payload-waiting :
      (o : Option Bytes) (s : Swarm) (request : InferenceRequest) (l : EventLoop)
      → waiting id (publish_payload m o s request l).1 ≡ waiting id l
  publish_payload-waiting none s request l = refl
  publish_payload-waiting (some payload) s request l = after_publish-waiting _ request l

  handle_command-waiting :
      (s : Swarm) (c : MeshCommand) (l : EventLoop)
      → is_dispatch s id c ≡ false
      → waiting id (handle_command m s c l).1 ≡ waiting id l
  unfolding handle_command publish_request
  handle_command-waiting s (publish request) l n = publish_payload-waiting _ s request l
  handle_command-waiting s (set_payout_addresses q addresses) l n = refl
  handle_command-waiting s (dial addr) l n = refl
  handle_command-waiting s listen_addrs l n = refl
  handle_command-waiting s (dispatch_inference peer d tx) l n =
      get-insert (s.send_request peer d) id tx l.pending_inference ∙ rw n refl

  Step-waiting :
      (x : External) {s t : EventLoop × World} (k : Step m x s t)
      → Spares m x id k
      → waiting id t.0 ≡ waiting id s.0
  unfolding on_evict_tick
  Step-waiting x (on_event {l} {l'} now e h) n = handle_swarm_event-waiting now e l l' _ n h
  Step-waiting x (on_ack {l} {w} now sender ack) n =
      ap (get id) (handle_completion_ack-Keeps x m now sender ack l w).same_waiting
  Step-waiting x (on_command {l} s c) n = handle_command-waiting s c l n
  Step-waiting x (on_tick now) n = refl
  Step-waiting x (receiver_moves q f) n = refl
  Step-waiting x database_moves n = refl

  Meanwhile-waiting :
      (x : External) {s t : EventLoop × World}
      → Meanwhile m x id s t
      → waiting id t.0 ≡ waiting id s.0
  Meanwhile-waiting x at_once = refl
  Meanwhile-waiting x (after k n r) = Step-waiting x k n ∙ Meanwhile-waiting x r

-- The loop without the caller that waits for the reply to `id`.
abbrev pub forget : OutboundRequestId → EventLoop → EventLoop
forget id l = record l { pending_inference = remove id l.pending_inference }

pub replied_lem :
    (m : MeshExternal) (now : ℕ) (id : OutboundRequestId) (tx : ReplyTx) (reply : InferenceReply)
    (l : EventLoop)
    → waiting id l ≡ some tx
    → handle_swarm_event m now (inference_response id reply) l
      ≡ some (inference tx (ok reply) ∷ [], forget id l)
unfolding handle_swarm_event
replied_lem m now id tx reply l there = rw there refl

-- After a dispatch and whatever steps of the loop, none of them an answer to it or another dispatch
-- that libp2p gives the same number, the first answer, a reply or a failure, goes to the caller of the
-- dispatch. After whatever further steps of that kind a second answer goes to nobody.
pub dispatch_inference-answered_once :
    (m : MeshExternal) (x : External) (s : Swarm) (peer : PeerId) (d : InferenceDispatch)
    (tx : ReplyTx) (l l₂ l₃ : EventLoop) (w w₂ w₃ : World) (now later : ℕ)
    (reply reply' : InferenceReply) (e e' : Text)
    → Meanwhile m x
        (s.send_request peer d)
        ((handle_command m s (dispatch_inference peer d tx) l).1, w)
        (l₂, w₂)
    → Meanwhile m x (s.send_request peer d) (forget (s.send_request peer d) l₂, w₂) (l₃, w₃)
    → let id = s.send_request peer d in
      (handle_swarm_event m now (inference_response id reply) l₂
        ≡ some (inference tx (ok reply) ∷ [], forget id l₂))
      × (handle_swarm_event m now (inference_failure id e) l₂
          ≡ some
              (inference tx (err (codes "inference outbound failure: " ++ e)) ∷ [], forget id l₂))
      × (handle_swarm_event m later (inference_response id reply') l₃ ≡ some ([], forget id l₃))
      × (handle_swarm_event m later (inference_failure id e') l₃ ≡ some ([], forget id l₃))
unfolding handle_command handle_swarm_event
dispatch_inference-answered_once m x s peer d tx l l₂ l₃ w w₂ w₃ now later reply reply' e e' r r' =
    let id = s.send_request peer d in
    let there : waiting id l₂ ≡ some tx =
      Meanwhile-waiting m id x r ∙ get-insert_self id tx l.pending_inference in
    let gone : waiting id l₃ ≡ none =
      Meanwhile-waiting m id x r' ∙ get-remove_self id l₂.pending_inference in
    (replied_lem m now id tx reply l₂ there, rw there refl, rw gone refl, rw gone refl)
