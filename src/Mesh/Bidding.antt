-- ===== src/Mesh/Bidding.antt =====
-- What a sequence of gossip messages brings to the auctions, through the handler of
-- src/coordinator/src/mesh/event_loop.rs.
use mathlib.Core.Option.{some-injective}
use mathlib.Core.Path.{subst}
use coordinator.Base.{
  ℕ, ◌+◌, ◌≤◌, suc, List, [], ◌∷◌, ◌++◌, true, Option, none, some, nat_eq, Text, Outcome, ok, ◌≢◌,
  ==_refl, ◌≡◌, refl, sym, ap, ◌∙◌, length, length-append, arith, Bytes,
}
use coordinator.Base.Map.{get, get-insert_self, get-insert_ne}
use coordinator.Protocol.Types.{Uuid, InferenceBid, InferenceRequest, NodeCapabilities}
use coordinator.Protocol.Dispatch.{Topic, bids, announce, inference_any, reputation}
use coordinator.Mesh.{EventLoop, MeshExternal, Channel, channel, bid_channel_capacity}
use coordinator.Mesh.Delivery.{published_lem}
use coordinator.Mesh.Events.{
  Message, Swarm, publish_request, subscribed, handle_gossip_message, on_bid, on_topic, on_announce,
}
use coordinator.Registry.{PeerId}
use coordinator.Mesh.Added.{for_request, with_bids, Added, unchanged, deliver, Added-trans}

module _ (m : MeshExternal) (now : ℕ) where
  abbrev pub bid_at : Topic → Bytes → Option InferenceBid
  bid_at bids payload = m.bid_from_slice payload
  bid_at announce payload = none
  bid_at inference_any payload = none
  bid_at reputation payload = none

  abbrev pub bids_for : Uuid → List Message → List InferenceBid
  bids_for q [] = []
  bids_for q (x ∷ xs) = for_request q (bid_at x.topic x.payload) ++ bids_for q xs

  abbrev pub then_handle : (EventLoop → Option EventLoop) → Option EventLoop → Option EventLoop
  then_handle k none = none
  then_handle k (some l) = k l

  -- The messages handled one after the other.
  abbrev pub handle_each : List Message → EventLoop → Option EventLoop
  handle_each [] l = some l
  handle_each (x ∷ xs) l = then_handle (handle_each xs) (handle_gossip_message m now x l)

  -- Every auction that still listens has room for the bids that name its request.
  abbrev pub HasRoom : List Message → EventLoop → Type 0
  HasRoom xs l =
      (q : Uuid) (c : Channel InferenceBid)
      → get q l.bid_subscribers ≡ some c
      → c.is_open ≡ true
      → length c.queue + length (bids_for q xs) ≤ c.capacity

  on_announce-same :
      (source : Option PeerId) (capabilities : Option NodeCapabilities) (l : EventLoop)
      → (on_announce m now source capabilities l).bid_subscribers ≡ l.bid_subscribers
  on_announce-same (some author) (some capabilities) l = refl
  on_announce-same none (some capabilities) l = refl
  on_announce-same source none l = refl

  HasSpace : Option InferenceBid → EventLoop → Type 0
  HasSpace none l = Unit
  HasSpace (some bid) l =
      (c : Channel InferenceBid)
      → get bid.request_id l.bid_subscribers ≡ some c
      → c.is_open ≡ true
      → suc (length c.queue) ≤ c.capacity

  bid_lem :
      (bid : Option InferenceBid) (l : EventLoop)
      → HasSpace bid l
      → (l' : EventLoop) × (on_bid m bid l ≡ some l') × Added (λ q. for_request q bid) l l'
  unfolding HasSpace
  bid_lem none l room = (l, refl, unchanged _ l l (λ q. refl) (λ q c g o. refl))
  bid_lem (some bid) l room = deliver m bid l room

  topic_lem :
      (t : Topic) (x : Message) (l : EventLoop)
      → HasSpace (bid_at t x.payload) l
      → (l' : EventLoop) × (on_topic m t now x l ≡ some l')
        × Added (λ q. for_request q (bid_at t x.payload)) l l'
  topic_lem bids x l room = bid_lem (m.bid_from_slice x.payload) l room
  topic_lem announce x l room =
      let l' = on_announce m now x.source (m.capabilities_from_slice x.payload) l in
      let same = on_announce-same x.source (m.capabilities_from_slice x.payload) l in
      (l', refl, unchanged _ l l' (λ q. ap (get q) same) (λ q c g o. refl))
  topic_lem inference_any x l room = (l, refl, unchanged _ l l (λ q. refl) (λ q c g o. refl))
  topic_lem reputation x l room = (l, refl, unchanged _ l l (λ q. refl) (λ q c g o. refl))

  space_lem :
      (bid : Option InferenceBid) (x : Message) (xs : List Message) (l : EventLoop)
      → bid_at x.topic x.payload ≡ bid
      → HasRoom (x ∷ xs) l
      → HasSpace bid l
  unfolding HasSpace
  space_lem none x xs l e room = tt
  space_lem (some bid) x xs l e room = λ c g o.
      let own : bids_for bid.request_id (x ∷ xs) ≡ bid ∷ bids_for bid.request_id xs =
        rw (e, ==_refl bid.request_id) refl in
      let k = room bid.request_id c g o in
      omega (arith, subst (λ new. length c.queue + length new ≤ c.capacity) own k)

  room_left :
      (x : Message) (xs : List Message) (l l₁ : EventLoop)
      → HasRoom (x ∷ xs) l
      → Added (λ q. for_request q (bid_at x.topic x.payload)) l l₁
      → HasRoom xs l₁
  room_left x xs l l₁ room a = λ q c g o.
      let (d, h, p) = a.back q c g o in
      let new = for_request q (bid_at x.topic x.payload) in
      let same : with_bids d new ≡ c = some-injective _ _ (sym (a.forth q d h p) ∙ g) in
      let k = room q d h p in
      let n = length-append new (bids_for q xs) in
      let t = length-append d.queue new in
      subst (λ (y : Channel InferenceBid). length y.queue + length (bids_for q xs) ≤ y.capacity)
        same (omega (arith, k, n, t))

  handle_each_lem :
      (xs : List Message) (l : EventLoop)
      → HasRoom xs l
      → (l' : EventLoop) × (handle_each xs l ≡ some l') × Added (λ q. bids_for q xs) l l'
  unfolding handle_gossip_message
  handle_each_lem [] l room = (l, refl, unchanged _ l l (λ q. refl) (λ q c g o. refl))
  handle_each_lem (x ∷ xs) l room =
      let (l₁, e₁, a₁) = topic_lem x.topic x l (space_lem _ x xs l refl room) in
      let (l₂, e₂, a₂) = handle_each_lem xs l₁ (room_left x xs l l₁ room a₁) in
      (l₂, rw e₁ e₂, Added-trans _ (λ q. bids_for q xs) l l₁ l₂ a₁ a₂)

  -- Once a request is published, and where every auction that listens has room for the bids that name
  -- its request, the loop handles any sequence of gossip messages without waiting. The new auction's
  -- channel then holds the bids of the sequence that name the request, all of them and in order, and
  -- the channel of every other auction has its own behind what was there before the publication.
  pub publish_request-collects_all :
      (s : Swarm) (request : InferenceRequest) (l : EventLoop) (payload : Bytes) (xs : List Message)
      → m.request_to_vec request ≡ some payload
      → s.gossip_publish inference_any payload ≡ ok tt
      → HasRoom xs (publish_request m s request l).1
      → let (result, l₁) = publish_request m s request l in
        let fresh : Channel InferenceBid = channel bid_channel_capacity in
        (result ≡ ok request.request_id)
        × ((l' : EventLoop) × (handle_each xs l₁ ≡ some l')
            × (get request.request_id l'.bid_subscribers
                ≡ some (with_bids fresh (bids_for request.request_id xs)))
            × ((q : Uuid) (c : Channel InferenceBid)
                → request.request_id ≢ q
                → get q l.bid_subscribers ≡ some c
                → c.is_open ≡ true
                → get q l'.bid_subscribers ≡ some (with_bids c (bids_for q xs))))
  publish_request-collects_all s request l payload xs p g room =
      let l₁ = subscribed m request l in
      let c : Channel InferenceBid = channel bid_channel_capacity in
      let run = published_lem m s request l payload p g in
      let ready : HasRoom xs l₁ =
        subst (λ (r : Outcome Text Uuid × EventLoop). HasRoom xs r.1) run room in
      let (l', e, a) = handle_each_lem xs l₁ ready in
      rw run (
        refl,
        (
          l',
          e,
          a.forth request.request_id c (get-insert_self request.request_id c l.bid_subscribers)
              refl,
          (λ q d h k o.
              a.forth q d (get-insert_ne request.request_id q c l.bid_subscribers h ∙ k) o),
        ),
      )
