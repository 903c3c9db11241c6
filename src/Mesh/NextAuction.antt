-- ===== src/Mesh/NextAuction.antt =====
-- What an ack means for the next auction of its session: handle_completion_ack of
-- src/coordinator/src/mesh/event_loop.rs and fetch_warmth_map of
-- src/coordinator/src/marketplace/auction.rs.
use coordinator.Base.{
  ℕ, List, [], ◌∷◌, Text, true, false, some, ok, nat_eq, text_eq, if◌then◌else◌, ◌≡◌, refl, sym, ap,
  ◌∙◌, ◌⊎◌, inl, inr, Bool-cases,
}
use mathlib.Core.Path.{subst}
use coordinator.Base.Map.{get, has}
use coordinator.Protocol.External.{External, SignatureLaws}
use coordinator.Protocol.Completion.{
  CompletionAck, accepted_with, verify_primary, verify_all_proofs,
}
use coordinator.Protocol.Receipt.{RoutingReceipt}
use coordinator.Protocol.Types.{SessionId}
use coordinator.Auction.Float.{Float}
use coordinator.Store.Defs.{World, CacheRow}
use coordinator.Payments.Inserts.{IsFresh}
use coordinator.Registry.{PeerId}
use coordinator.Mesh.{EventLoop, InFlightMeta, MeshExternal}
use coordinator.Mesh.Ack.{handle_completion_ack, session_id_of}
use coordinator.Mesh.AckSteps.{warmed, cache_after}
use coordinator.Mesh.AckLaws.{handle_completion_ack-accepts}
use coordinator.Mesh.Warm.{
  IsUnique, has_peer, warmth_in, IsUnique-warmed, warmth_in-warmed, warmed_unknown,
}

-- The table after the ack of a session, seen by an auction of the session.
abbrev pub Warmed : Float → SessionId → List Text → World → List CacheRow → Type 0
Warmed f q peers w cache =
    ((has q w.sessions ≡ true)
      × ((p : Text)
          → warmth_in f p q cache ≡ (
              if has_peer p peers
              then some (f.literal 1 1)
              else warmth_in f p q w.node_session_cache)))
    ⊎ ((has q w.sessions ≡ false) × (cache ≡ w.node_session_cache))

warmed-Warmed :
    (f : Float) (q : SessionId) (peers : List Text) (w : World)
    → IsUnique w.node_session_cache
    → let cache = warmed (has q w.sessions) q peers w.node_session_cache in
      IsUnique cache × Warmed f q peers w cache
warmed-Warmed f q peers w u = elim (Bool-cases (has q w.sessions)) [
  | inl known ↦ rw known (
    IsUnique-warmed true q peers w.node_session_cache u,
    inl (refl, (λ p. warmth_in-warmed f p q peers w.node_session_cache u)),
  )
  | inr unknown ↦
      let e = warmed_unknown q peers w.node_session_cache in
      rw unknown (IsUnique-warmed false q peers w.node_session_cache u, inr (refl, e))
]

-- Take an ack that verifies, while there is a pool, the database answers, identifiers are fresh and no
-- two cache rows have one key. If the request in flight is of a session that has a row, then the next
-- auction of the session finds each node that the receipt names fully warm, and every other node as
-- warm as before; of a session without a row, the table stays as it was. Either way no two rows have
-- one key afterwards.
pub handle_completion_ack-Warmed :
    (x : External) (m : MeshExternal) (f : Float)
    → SignatureLaws x
    → (now_ms : ℕ) (sender : PeerId) (ack : CompletionAck) (l : EventLoop) (w : World)
      (meta : InFlightMeta)
    → verify_primary x ack ≡ ok tt
    → verify_all_proofs x ack ≡ ok tt
    → w.faults ≡ []
    → IsFresh w.next_id w.payments
    → l.has_pg_pool ≡ true
    → get ack.request_id l.in_flight ≡ some meta
    → IsUnique w.node_session_cache
    → let (response, (l', w')) = handle_completion_ack x m now_ms sender ack l w in
      (r : RoutingReceipt) × (response ≡ accepted_with r)
      × IsUnique w'.node_session_cache
      × Warmed f meta.session_id (r.primary_peer_id ∷ r.helper_peer_ids) w w'.node_session_cache
handle_completion_ack-Warmed x m f s now_ms sender ack l w meta p q h fresh pg g u =
    let a = handle_completion_ack-accepts x m s now_ms sender ack l w p q h fresh in
    let r = a.receipt in
    let peers : List Text = r.primary_peer_id ∷ r.helper_peer_ids in
    let w' = (handle_completion_ack x m now_ms sender ack l w).1.1 in
    let e : w'.node_session_cache
        ≡ warmed (has meta.session_id w.sessions) meta.session_id peers w.node_session_cache =
      a.warm
      ∙ ap (λ o. cache_after l.has_pg_pool (session_id_of o) r w) g
      ∙ ap (λ b. cache_after b (some meta.session_id) r w) pg in
    let (unique, next) = warmed-Warmed f meta.session_id peers w u in
    (
      r,
      a.answers,
      subst IsUnique (sym e) unique,
      subst (Warmed f meta.session_id peers w) (sym e) next,
    )
