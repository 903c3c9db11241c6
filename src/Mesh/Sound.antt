-- ===== src/Mesh/Sound.antt =====
-- When the state of src/coordinator/src/mesh/event_loop.rs is sound, and what
-- handle_completion_ack keeps of it.
use coordinator.Base.{
  ℕ, List, [], ◌∷◌, Bool, true, false, Option, Outcome, ok, err, Outcome-cases, nat_eq, text_eq,
  ◌≡◌, refl, ap, sym, ◌∙◌, ◌⊎◌, inl, inr, arith,
}
use mathlib.Core.Path.{subst}
use coordinator.Base.Map.{has, remove, has-remove}
use coordinator.Protocol.Types.{Uuid}
use coordinator.Protocol.External.{External}
use coordinator.Protocol.Completion.{CompletionAck, verify_primary, verify_all_proofs}
use coordinator.Protocol.Receipt.{RoutingReceipt}
use coordinator.Store.Columns.{Failure}
use coordinator.Store.Defs.{World}
use coordinator.Payments.Split.{PayoutLine}
use coordinator.Registry.{PeerId}
use coordinator.Registry.Laws.{IsValid}
use coordinator.Mesh.{EventLoop, MeshExternal}
use coordinator.Mesh.Ack.{handle_completion_ack, after_put, queue_payments, after_insert}

-- The registry is well formed, and whoever is in flight has a channel for its bids.
pub record IsSound (l : EventLoop) : Type 0 where
  pub registry : IsValid l.peer_registry
  pub subscribed : (q : Uuid) → has q l.in_flight ≡ true → has q l.bid_subscribers ≡ true

-- What an ack does to the key, to who waits for a reply, and to the parts of the loop that the invariant reads.
pub record Keeps (q : Uuid) (l l' : EventLoop) : Type 0 where
  pub same_key : l'.enclave_key ≡ l.enclave_key
  pub same_waiting : l'.pending_inference ≡ l.pending_inference
  same_registry : l'.peer_registry ≡ l.peer_registry
  same_subscribers : l'.bid_subscribers ≡ l.bid_subscribers
  in_flight_or_less : (l'.in_flight ≡ l.in_flight) ⊎ (l'.in_flight ≡ remove q l.in_flight)

pub Keeps-IsSound : (q : Uuid) (l l' : EventLoop) → Keeps q l l' → IsSound l → IsSound l'
Keeps-IsSound q l l' k v = record {
  registry = subst IsValid (sym k.same_registry) v.registry;
  subscribed = λ j h.
      ap (has j) k.same_subscribers
      ∙ v.subscribed j (elim k.in_flight_or_less [
        | inl e ↦ sym (ap (has j) e) ∙ h
        | inr e ↦ ground (arith, has-remove q j l.in_flight, sym (ap (has j) e) ∙ h)
      ]);
}

module _ (x : External) (m : MeshExternal) where
  after_insert-Keeps :
      (q : Uuid) (r : RoutingReceipt) (l l' : EventLoop)
      (result : Outcome Failure (Unit {0}) × World)
      → Keeps q l l'
      → Keeps q l (after_insert x m r l' result).0
  after_insert-Keeps q r l l' (ok done, w) k = record {
    same_key = k.same_key;
    same_waiting = k.same_waiting;
    same_registry = k.same_registry;
    same_subscribers = k.same_subscribers;
    in_flight_or_less = k.in_flight_or_less;
  }
  after_insert-Keeps q r l l' (err e, w) k = k

  queue_payments-Keeps :
      (q : Uuid) (pg : Bool) (lines : List PayoutLine) (r : RoutingReceipt) (l l' : EventLoop)
      (w : World)
      → Keeps q l l'
      → Keeps q l (queue_payments x m pg lines r l' w).0
  queue_payments-Keeps q false lines r l l' w k = k
  queue_payments-Keeps q true [] r l l' w k = k
  queue_payments-Keeps q true (line ∷ lines) r l l' w k = after_insert-Keeps q r l l' _ k

  after_put-Keeps :
      (q : Uuid) (lines : List PayoutLine) (r : RoutingReceipt) (l l' : EventLoop) (o : Option Uuid)
      (result : Outcome Failure (Unit {0}) × World)
      → Keeps q l l'
      → Keeps q l (after_put x m o lines r l' result).1.0
  after_put-Keeps q lines r l l' o (err e, w) k = k
  after_put-Keeps q lines r l l' o (ok done, w) k =
      queue_payments-Keeps q l'.has_pg_pool lines r l l' _ k

  pub handle_completion_ack-Keeps :
      (now_ms : ℕ) (sender : PeerId) (ack : CompletionAck) (l : EventLoop) (w : World)
      → Keeps ack.request_id l (handle_completion_ack x m now_ms sender ack l w).1.0
  unfolding handle_completion_ack
  handle_completion_ack-Keeps now_ms sender ack l w = elim (Outcome-cases (verify_primary x ack)) [
    | inr (e, p) ↦ rw p same
    | inl (done, p) ↦ elim (Outcome-cases (verify_all_proofs x ack)) [
      | inr (e, q) ↦ rw (p, q) same
      | inl (all, q) ↦
          rw (p, q)
            (after_put-Keeps ack.request_id _ _ l _ _ _ (record {
              same_key = refl;
              same_waiting = refl;
              same_registry = refl;
              same_subscribers = refl;
              in_flight_or_less = inr refl;
            }))
    ]
  ]
    where
      same : Keeps ack.request_id l l
      same = record {
        same_key = refl;
        same_waiting = refl;
        same_registry = refl;
        same_subscribers = refl;
        in_flight_or_less = inl refl;
      }
