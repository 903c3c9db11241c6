-- ===== src/Mesh/Delivery.antt =====
-- How bids reach their auction through src/coordinator/src/mesh/event_loop.rs.
use coordinator.Base.{ℕ, Bytes, some, ok, nat_eq, ◌≡◌, ◌≢◌, refl, ap, ◌∙◌}
use coordinator.Base.Map.{get, insert, get-insert_self, get-insert_ne}
use coordinator.Protocol.Types.{Uuid, InferenceRequest, InferenceBid}
use coordinator.Protocol.Dispatch.{bids, inference_any}
use coordinator.Mesh.{
  EventLoop, MeshExternal, Channel, channel, enqueue, send, bid_channel_capacity,
}
use coordinator.Mesh.Events.{
  Message, Swarm, handle_gossip_message, publish_request, subscribed, store_channel,
}

module _ (m : MeshExternal) where
  pub published_lem :
      (s : Swarm) (request : InferenceRequest) (l : EventLoop) (payload : Bytes)
      → m.request_to_vec request ≡ some payload
      → s.gossip_publish inference_any payload ≡ ok tt
      → publish_request m s request l ≡ (ok request.request_id, subscribed m request l)
  unfolding publish_request
  published_lem s request l payload p g = rw (p, g) refl

  delivered_lem :
      (now : ℕ) (message : Message) (bid : InferenceBid) (l : EventLoop) (c : Channel InferenceBid)
      → message.topic ≡ bids
      → m.bid_from_slice message.payload ≡ some bid
      → get bid.request_id l.bid_subscribers ≡ some c
      → handle_gossip_message m now message l ≡ store_channel m bid.request_id l (send bid c)
  unfolding handle_gossip_message
  delivered_lem now message bid l c t b g = rw (t, b, g) refl

  -- Once a request is published, the first bid that names it stands in its channel, and the channels
  -- of all other requests are as they were before the publication.
  publish_request-collects :
      (s : Swarm) (request : InferenceRequest) (l : EventLoop) (payload : Bytes) (now : ℕ)
      (message : Message) (bid : InferenceBid)
      → m.request_to_vec request ≡ some payload
      → s.gossip_publish inference_any payload ≡ ok tt
      → message.topic ≡ bids
      → m.bid_from_slice message.payload ≡ some bid
      → bid.request_id ≡ request.request_id
      → let (result, l₁) = publish_request m s request l in
        (result ≡ ok request.request_id)
        × ((l₂ : EventLoop) × (handle_gossip_message m now message l₁ ≡ some l₂)
            × (get request.request_id l₂.bid_subscribers
                ≡ some (enqueue bid (channel bid_channel_capacity)))
            × ((q : Uuid)
                → request.request_id ≢ q
                → get q l₂.bid_subscribers ≡ get q l.bid_subscribers))
  publish_request-collects s request l payload now message bid p g t b q =
      let l₁ = subscribed m request l in
      let c = channel bid_channel_capacity in
      let full = enqueue bid c in
      let open_for : get bid.request_id l₁.bid_subscribers ≡ some c =
        ap (λ k. get k l₁.bid_subscribers) q
        ∙ get-insert_self request.request_id c l.bid_subscribers in
      rw (published_lem s request l payload p g) (
        refl,
        (
          record l₁ { bid_subscribers = insert bid.request_id full l₁.bid_subscribers },
          delivered_lem now message bid l₁ c t b open_for,
          ap (λ k. get request.request_id (insert k full l₁.bid_subscribers)) q
              ∙ get-insert_self request.request_id full l₁.bid_subscribers,
          (λ j h.
              ap (λ k. get j (insert k full l₁.bid_subscribers)) q
              ∙ get-insert_ne request.request_id j full l₁.bid_subscribers h
              ∙ get-insert_ne request.request_id j c l.bid_subscribers h),
        ),
      )
