-- ===== src/Checks/Mesh.antt =====
-- The theorems on bids and replies in the event loop, at concrete messages.
use coordinator.Base.{
  List, ◌+◌, ◌≤◌, length, sym, ap, true, Bool-cases, ◌==◌, inl, inr, arith, [], ◌∷◌, ◌++◌, none,
  some, ok, err, codes, nat_eq, ◌≡◌, ◌≢◌, refl,
}
use coordinator.Base.Map.{get}
use coordinator.Protocol.Types.{Uuid, InferenceBid, InferenceRequest, standard, new}
use coordinator.Protocol.Dispatch.{InferenceDispatch, InferenceReply, bids, announce}
use coordinator.Mesh.{EventLoop, MeshExternal, Channel, channel, bid_channel_capacity}
use coordinator.Mesh.Events.{
  Message, Swarm, inference, dispatch_inference, inference_response, inference_failure,
  handle_command, handle_swarm_event, publish_request, publish, on_evict_tick, on_command, on_tick,
}
use coordinator.Mesh.Added.{with_bids}
use coordinator.Mesh.Bidding.{HasRoom, handle_each, bids_for, publish_request-collects_all}
use mathlib.Core.Option.{some-injective}
use mathlib.Core.Path.{subst}
use coordinator.Mesh.Waiting.{at_once, after, forget, dispatch_inference-answered_once}
use coordinator.Checks.Toy.{toy}
use coordinator.Checks.Data.{node_a, some_token, some_mesh, some_loop, some_bid, some_world}

abbrev pub some_swarm : Swarm
some_swarm = record {
  gossip_publish = λ t b. ok tt;
  dial_addr = λ a. ok tt;
  send_request = λ p d. 11;
}

abbrev some_dispatch : InferenceDispatch
some_dispatch = record {
  dispatch_token = some_token;
  session_key = codes "k";
  new_user_message = codes "hi";
  memwal_context = none;
}

abbrev some_reply : InferenceReply
some_reply = record {
  request_id = 5;
  session_id = 6;
  content = codes "hello";
  input_tokens = 1;
  output_tokens = 2;
  latency_ms = 3;
  error = none;
}

abbrev pub some_request : InferenceRequest
some_request = record {
  request_id = 5;
  session_id = 6;
  model = codes "m";
  privacy = standard;
  session_intent = new;
}

-- The loop that has dispatched the job, and the one that has then published a request as well.
abbrev dispatched : EventLoop
dispatched =
    (handle_command some_mesh some_swarm (dispatch_inference node_a some_dispatch 4) some_loop).1

abbrev busy : EventLoop
busy = (handle_command some_mesh some_swarm (publish some_request) dispatched).1

abbrev idle : EventLoop
idle = on_evict_tick some_mesh 50000 (forget 11 busy)

dispatch_inference-answered_once_example :
    (handle_swarm_event some_mesh 1 (inference_response 11 some_reply) busy
      ≡ some (inference 4 (ok some_reply) ∷ [], forget 11 busy))
    × (handle_swarm_event some_mesh 1 (inference_failure 11 (codes "e")) busy
        ≡ some (
          inference 4 (err (codes "inference outbound failure: " ++ codes "e")) ∷ [],
          forget 11 busy,
        ))
    × (handle_swarm_event some_mesh 2 (inference_response 11 some_reply) idle
        ≡ some ([], forget 11 idle))
    × (handle_swarm_event some_mesh 2 (inference_failure 11 (codes "f")) idle
        ≡ some ([], forget 11 idle))
dispatch_inference-answered_once_example =
    dispatch_inference-answered_once some_mesh toy some_swarm node_a some_dispatch 4 some_loop busy
      idle some_world some_world some_world 1 2 some_reply some_reply (codes "e") (codes "f")
      (after (on_command some_swarm (publish some_request)) refl at_once)
      (after (on_tick 50000) tt at_once)

abbrev pub bid_mesh : MeshExternal
bid_mesh = record some_mesh { bid_from_slice = λ b. some some_bid }

abbrev bid_message : Message
bid_message = record { source = none; payload = codes "bid"; topic = bids }

abbrev announcement : Message
announcement = record { source = some node_a; payload = codes "caps"; topic = announce }

abbrev pub some_messages : List Message
some_messages = bid_message ∷ announcement ∷ bid_message ∷ []

pub some_messages-HasRoom :
    HasRoom bid_mesh 1 some_messages (publish_request bid_mesh some_swarm some_request some_loop).1
unfolding publish_request
some_messages-HasRoom q c g o = elim (Bool-cases (5 == q)) [
  | inl t ↦
      let e : 5 ≡ q = (nat_eq.beq_iff 5 q).0 t in
      let subs = (publish_request bid_mesh some_swarm some_request some_loop).1.bid_subscribers in
      let there : some (channel bid_channel_capacity) ≡ some c =
        subst (λ k. get k subs ≡ some c) (sym e) g in
      let n : length (bids_for bid_mesh 1 q some_messages) ≡ 2 =
        ap (λ k. length (bids_for bid_mesh 1 k some_messages)) (sym e) in
      subst
        (λ (d : Channel InferenceBid).
          length d.queue + length (bids_for bid_mesh 1 q some_messages) ≤ d.capacity)
        (some-injective _ _ there) (omega (arith, n))
  | inr f ↦ ground (arith, g, f)
]

publish_request-collects_all_example :
    let (result, l₁) = publish_request bid_mesh some_swarm some_request some_loop in
    let fresh : Channel InferenceBid = channel bid_channel_capacity in
    (result ≡ ok 5)
    × ((l' : EventLoop) × (handle_each bid_mesh 1 some_messages l₁ ≡ some l')
        × (get some_request.request_id l'.bid_subscribers
            ≡ some (with_bids fresh (bids_for bid_mesh 1 5 some_messages)))
        × ((q : Uuid) (c : Channel InferenceBid)
            → some_request.request_id ≢ q
            → get q some_loop.bid_subscribers ≡ some c
            → c.is_open ≡ true
            → get q l'.bid_subscribers ≡ some (with_bids c (bids_for bid_mesh 1 q some_messages))))
publish_request-collects_all_example =
    publish_request-collects_all bid_mesh 1 some_swarm some_request some_loop (codes "request")
      some_messages refl refl some_messages-HasRoom
