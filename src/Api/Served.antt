-- ===== src/Api/Served.antt =====
-- The event loop while it serves one chat completion: the publication, the messages that arrive, and
-- the commands that follow.
use coordinator.Base.{
  ℕ, List, [], ◌∷◌, Text, Bytes, some, Outcome, ok, nat_eq, text_eq, ◌≡◌, ap, ◌∙◌,
}
use coordinator.Base.Map.{Map, get, insert, remove, get-insert_self, get-modify_self}
use coordinator.Protocol.Types.{InferenceRequest}
use coordinator.Protocol.Dispatch.{InferenceDispatch, InferenceReply, inference_any}
use coordinator.Registry.{PeerId}
use coordinator.Mesh.{
  EventLoop, InFlightMeta, MeshExternal, ReplyTx, channel, bid_channel_capacity, zeroes,
}
use coordinator.Mesh.Added.{with_bids}
use coordinator.Mesh.Bidding.{
  bids_for, handle_each, then_handle, HasRoom, publish_request-collects_all,
}
use coordinator.Mesh.Delivery.{published_lem}
use coordinator.Mesh.Waiting.{replied_lem}
use coordinator.Mesh.Events.{
  Message, Swarm, inference, inference_response, handle_command, handle_swarm_event, publish,
}
use coordinator.Api.Inference.{publish_request, set_payout_addresses, dispatch_inference, MeshCall}
use coordinator.Api.Calls.{command_of, perform, some_perform, serve}
use coordinator.Mesh.Untouched.{handle_each-in_flight}

module _ (m : MeshExternal) (sw : Swarm) (tx : ReplyTx) (request : InferenceRequest)
    (l₀ : EventLoop) where
  -- The loop after the publication.
  abbrev pub opened : EventLoop
  opened = (handle_command m sw (publish request) l₀).1

  -- What it then has in flight for the request.
  abbrev pub flight : Map Text Text → InFlightMeta
  flight addresses = record {
    client_id = [];
    bid_set_hash = zeroes;
    payout_addresses = addresses;
    session_id = request.session_id;
  }

  pub filled :
      (now : ℕ) (xs : List Message) (payload : Bytes)
      → m.request_to_vec request ≡ some payload
      → sw.gossip_publish inference_any payload ≡ ok tt
      → HasRoom m now xs opened
      → (l : EventLoop) × (handle_each m now xs opened ≡ some l)
        × (l.in_flight ≡ insert request.request_id (flight []) l₀.in_flight)
        × (get request.request_id l.bid_subscribers
            ≡ some
                (with_bids (channel bid_channel_capacity) (bids_for m now request.request_id xs)))
  unfolding handle_command
  filled now xs payload p g room =
      let run = published_lem m sw request l₀ payload p g in
      let (_, (l, e, own, _)) =
        publish_request-collects_all m now sw request l₀ payload xs p g room in
      (
        l,
        e,
        handle_each-in_flight m now xs opened l e
            ∙ ap (λ (r : Outcome Text ℕ × EventLoop). r.1.in_flight) run,
        own,
      )

  -- The loop when the addresses are recorded and the job is dispatched, from the one after the
  -- messages.
  abbrev pub final : Map Text Text → PeerId → InferenceDispatch → EventLoop → EventLoop
  final addresses peer job l =
      perform m sw tx
        (set_payout_addresses request.request_id addresses ∷ dispatch_inference peer job ∷ []) l

  pub final-in_flight :
      (addresses : Map Text Text) (peer : PeerId) (job : InferenceDispatch) (l : EventLoop)
      → l.in_flight ≡ insert request.request_id (flight []) l₀.in_flight
      → get request.request_id (final addresses peer job l).in_flight ≡ some (flight addresses)
  unfolding handle_command command_of
  final-in_flight addresses peer job l h =
      get-modify_self request.request_id
        (λ (v : InFlightMeta). record v { payout_addresses = addresses }) (flight []) l.in_flight
        (ap (get request.request_id) h
          ∙ get-insert_self request.request_id (flight []) l₀.in_flight)

  -- The node's reply goes to the handler.
  pub final-answers :
      (addresses : Map Text Text) (peer : PeerId) (job : InferenceDispatch) (l : EventLoop)
      (now_ms : ℕ) (reply : InferenceReply)
      → let d = final addresses peer job l in
        let id = sw.send_request peer job in
        handle_swarm_event m now_ms (inference_response id reply) d
        ≡ some (
          inference tx (ok reply) ∷ [],
          record d { pending_inference = remove id d.pending_inference },
        )
  unfolding command_of handle_command
  final-answers addresses peer job l now_ms reply =
      let before = perform m sw tx (set_payout_addresses request.request_id addresses ∷ []) l in
      replied_lem m now_ms (sw.send_request peer job) tx reply _
        (get-insert_self (sw.send_request peer job) tx before.pending_inference)

  pub serve_lem :
      (now : ℕ) (xs : List Message) (cs : List MeshCall) (l : EventLoop)
      → handle_each m now xs opened ≡ some l
      → serve m sw tx now xs (publish_request request ∷ cs) l₀ ≡ some (perform m sw tx cs l)
  unfolding command_of
  serve_lem now xs cs l e = ap (then_handle m now (some_perform m sw tx cs)) e
