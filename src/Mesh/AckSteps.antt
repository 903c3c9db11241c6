-- ===== src/Mesh/AckSteps.antt =====
-- The steps of `handle_completion_ack` that follow a stored receipt: the warm peers and the queue of
-- settlement jobs.
use coordinator.Base.{
  ◌+◌, List, [], ◌∷◌, ◌++◌, Text, Bool, true, false, Option, none, some, if◌then◌else◌, Outcome,
  nat_eq, text_eq, ◌≡◌, refl, ap, ◌∙◌, length, arith,
}
use mathlib.Core.List.{append-nil}
use coordinator.Base.Map.{has, insert, remove}
use coordinator.Protocol.Types.{SessionId}
use coordinator.Protocol.External.{External}
use coordinator.Protocol.Receipt.{RoutingReceipt}
use coordinator.Store.Columns.{Failure}
use coordinator.Store.Defs.{World, CacheRow, execute_lem}
use coordinator.Payments.Split.{PayoutLine}
use coordinator.Payments.Inserts.{IsFresh, numbered, insert_pending_lem}
use coordinator.Mesh.{EventLoop, Channel, MeshExternal}
use coordinator.Settlement.Worker.{SettlementJob}
use coordinator.Mesh.Ack.{
  enqueue_settlement, queue_payments, warm_peers, mark_warm, warm_row, upsert_cache, insert_warm,
}

-- The table once the peers are marked warm, where `known` says whether the session has a row.
abbrev pub warmed : Bool → SessionId → List Text → List CacheRow → List CacheRow
warmed known q [] cache = cache
warmed known q (p ∷ ps) cache =
    warmed known q ps (if known then upsert_cache (warm_row q p) cache else cache)

abbrev pub cache_after : Bool → Option SessionId → RoutingReceipt → World → List CacheRow
cache_after false q r w = w.node_session_cache
cache_after true none r w = w.node_session_cache
cache_after true (some q) r w =
    warmed (has q w.sessions) q (r.primary_peer_id ∷ r.helper_peer_ids) w.node_session_cache

-- It does not depend on the archive.
pub cache_after-put :
    (pg : Bool) (q : Option SessionId) (r : RoutingReceipt) (json : Text) (w : World)
    → cache_after pg q r
        (record w { routing_receipts = insert r.request_id json w.routing_receipts })
      ≡ cache_after pg q r w
cache_after-put false q r json w = refl
cache_after-put true none r json w = refl
cache_after-put true (some q) r json w = refl

mark_warm_lem :
    (q : SessionId) (peers : List Text) (w : World)
    → w.faults ≡ []
    → mark_warm q peers w
      ≡ record w { node_session_cache = warmed (has q w.sessions) q peers w.node_session_cache }
unfolding mark_warm
mark_warm_lem q [] w h = refl
mark_warm_lem q (p ∷ ps) w h =
    ap (λ (r : Outcome Failure (Unit {0}) × World). mark_warm q ps r.1)
      (execute_lem (insert_warm q p) w h)
    ∙ mark_warm_lem q ps (insert_warm q p w) h

pub warm_peers_lem :
    (pg : Bool) (q : Option SessionId) (r : RoutingReceipt) (w : World)
    → w.faults ≡ []
    → warm_peers pg q r w ≡ record w { node_session_cache = cache_after pg q r w }
warm_peers_lem false q r w h = refl
warm_peers_lem true none r w h = refl
warm_peers_lem true (some q) r w h = mark_warm_lem q (r.primary_peer_id ∷ r.helper_peer_ids) w h

-- The lines that are written: all where there is a pool, none where there is not.
abbrev pub written : Bool → List PayoutLine → List PayoutLine
written true lines = lines
written false lines = []

module _ (x : External) (m : MeshExternal) where
  -- The queue of settlement jobs once the payment rows were written: one more job where there are any.
  abbrev pub queue_after :
      Bool → List PayoutLine → RoutingReceipt → EventLoop → Option (Channel SettlementJob)
  queue_after false lines r l = l.settlement_tx
  queue_after true [] r l = l.settlement_tx
  queue_after true (line ∷ lines) r l = (enqueue_settlement x m r l).settlement_tx

  pub queue_payments_lem :
      (pg : Bool) (lines : List PayoutLine) (r : RoutingReceipt) (l : EventLoop) (w : World)
      → w.faults ≡ []
      → IsFresh w.next_id w.payments
      → let (l', w') = queue_payments x m pg lines r l w in
        let rows = w.payments ++ numbered r.request_id w.next_id (written pg lines) in
        (l'.in_flight ≡ l.in_flight)
        × (l'.settlement_tx ≡ queue_after pg lines r l)
        × (w' ≡ record w { next_id = w.next_id + length (written pg lines); payments = rows })
        × IsFresh w'.next_id w'.payments
  queue_payments_lem false lines r l w h f =
      let e : w.payments ++ [] ≡ w.payments = append-nil w.payments in
      let z : w.next_id + 0 ≡ w.next_id = omega arith in (refl, refl, rw (e, z) refl, f)
  queue_payments_lem true [] r l w h f =
      let e : w.payments ++ [] ≡ w.payments = append-nil w.payments in
      let z : w.next_id + 0 ≡ w.next_id = omega arith in (refl, refl, rw (e, z) refl, f)
  queue_payments_lem true (line ∷ lines) r l w h f =
      let (run, fresh) = insert_pending_lem r.request_id (line ∷ lines) w h f in
      rw run (refl, refl, refl, fresh)

  pub queue_after-same :
      (pg : Bool) (lines : List PayoutLine) (r : RoutingReceipt) (l : EventLoop)
      → queue_after pg lines r (record l { in_flight = remove r.request_id l.in_flight })
        ≡ queue_after pg lines r l
  queue_after-same false lines r l = refl
  queue_after-same true [] r l = refl
  queue_after-same true (line ∷ lines) r l = refl
