-- ===== src/Checks/Runs.antt =====
-- The theorems on the auction, the registry and the event loop, at concrete states.
use coordinator.Base.{
  ◌+◌, ◌≤◌, [], ◌∷◌, true, false, none, some, ok, codes, All, ◌≡◌, ◌↔◌, ◌⊎◌, refl, nat_eq, text_eq,
  arith,
}
use coordinator.Protocol.Types.{InferenceBid}
use coordinator.Protocol.Proof
use coordinator.Protocol.Completion
use coordinator.Protocol.Completion.{rejected, accepted_with}
use coordinator.Store.Defs.{World}
use coordinator.Auction.Defs.{pick_winner_with_warmth}
use coordinator.Auction.Winner.{Wins, pick_winner_with_warmth-Wins}
use coordinator.Registry.{find_peer, evict_stale}
use coordinator.Registry.Laws.{IsValid, find_peer-evict_stale}
use coordinator.Mesh.{with_pg_and_settlement}
use coordinator.Mesh.Ack.{handle_completion_ack}
use coordinator.Mesh.AckLaws.{
  Accepted, handle_completion_ack-accepts, handle_completion_ack-rejects,
}
use coordinator.Mesh.Replay.{PaysNobody, replayed_ack-loses_payouts, storage_error-consumes_request}
use coordinator.Mesh.Events.{on_evict_tick, here, step, on_tick}
use coordinator.Mesh.Sound.{IsSound}
use coordinator.Mesh.Reach.{Reachable-IsSound}
use coordinator.Checks.Toy.{toy, toy-signs, toy_float, toy_float-laws}
use coordinator.Checks.Data.{
  node_a, node_key, enclave_key, some_proof, some_ack, signed_ack, some_bids, some_entry,
  some_registry, some_world, some_mesh, some_loop,
}

pick_winner_with_warmth-Wins_example :
    ((some_bids ≡ []) × (pick_winner_with_warmth toy_float some_bids [] ≡ none))
    ⊎ ((w : InferenceBid) × (pick_winner_with_warmth toy_float some_bids [] ≡ some w)
        × Wins toy_float toy_float-laws [] w some_bids)
pick_winner_with_warmth-Wins_example =
    pick_winner_with_warmth-Wins toy_float toy_float-laws [] some_bids (refl, (refl, tt))

some_registry-IsValid : IsValid some_registry
some_registry-IsValid = record { keyed = (refl, tt); distinct = ((refl, tt), tt) }

find_peer-evict_stale_example :
    (find_peer node_a (evict_stale 50000 some_registry) ≡ some some_entry)
    ↔ ((find_peer node_a some_registry ≡ some some_entry) × (50000 ≤ 1000 + 60000))
find_peer-evict_stale_example =
    find_peer-evict_stale 50000 some_registry node_a some_entry some_registry-IsValid

pub primary_verifies : Completion.verify_primary toy signed_ack ≡ ok tt
primary_verifies = Completion.verify_primary-sign toy toy-signs node_key some_ack

pub proofs_verify : Completion.verify_all_proofs toy signed_ack ≡ ok tt
unfolding Completion.sign
proofs_verify =
    (Completion.verify_all_proofs-All toy signed_ack).1
      (Proof.verify-sign toy toy-signs node_key some_proof, tt)

handle_completion_ack-accepts_example :
    Accepted toy some_mesh node_a signed_ack some_loop some_world
      (handle_completion_ack toy some_mesh 90 node_a signed_ack some_loop some_world)
handle_completion_ack-accepts_example =
    handle_completion_ack-accepts toy some_mesh toy-signs 90 node_a signed_ack some_loop some_world
      primary_verifies proofs_verify refl (omega arith, (omega arith, tt))

-- The unsigned ack: the verification that fails is the primary's.
handle_completion_ack-rejects_example :
    let (response, after) =
      handle_completion_ack toy some_mesh 90 node_a some_ack some_loop some_world in
    ((Completion.verify_primary toy some_ack ≡ ok tt)
      × All (λ p. Proof.verify toy p ≡ ok tt) some_ack.proofs)
    ⊎ ((response.accepted ≡ false)
        × (response.routing_receipt ≡ none)
        × (after ≡ (some_loop, some_world)))
handle_completion_ack-rejects_example =
    handle_completion_ack-rejects toy some_mesh 90 node_a some_ack some_loop some_world

replayed_ack-loses_payouts_example :
    let (response, (l', w')) =
      handle_completion_ack toy some_mesh 90 node_a signed_ack some_loop some_world in
    let (again, (l'', w'')) = handle_completion_ack toy some_mesh 95 node_a signed_ack l' w' in
    (response.accepted ≡ true) × PaysNobody toy some_mesh signed_ack w'.payments w'' again
replayed_ack-loses_payouts_example =
    replayed_ack-loses_payouts toy some_mesh toy-signs 90 95 node_a node_a signed_ack some_loop
      some_world primary_verifies proofs_verify refl (omega arith, (omega arith, tt))

abbrev failing_world : World
failing_world = record some_world { faults = true ∷ [] }

storage_error-consumes_request_example :
    let (response, (l', w')) =
      handle_completion_ack toy some_mesh 90 node_a signed_ack some_loop failing_world in
    let (again, (l'', w'')) = handle_completion_ack toy some_mesh 95 node_a signed_ack l' w' in
    (response ≡ rejected (codes "storage error"))
    × (w' ≡ some_world)
    × PaysNobody toy some_mesh signed_ack failing_world.payments w'' again
storage_error-consumes_request_example =
    storage_error-consumes_request toy some_mesh toy-signs 90 95 node_a node_a signed_ack some_loop
      failing_world primary_verifies proofs_verify refl (omega arith, (omega arith, tt))

Reachable-IsSound_example :
    IsSound
      (on_evict_tick some_mesh 50000 (with_pg_and_settlement some_registry 1 enclave_key true none))
Reachable-IsSound_example =
    Reachable-IsSound toy some_mesh some_registry 1 enclave_key true none some_world
      some_registry-IsValid (step here (on_tick 50000))
