-- ===== src/Checks/Trust.antt =====
-- The theorem on the signing key, at a coordinator that was started and has run for a while.
use coordinator.Base.{
  Bytes, Option, none, ap, sym, [], ◌∷◌, true, some, ok, nat_eq, ◌≡◌, refl, arith,
}
use coordinator.Attestation
use coordinator.Attestation.{AttestationDoc, Nsm, NsmResponse, given, rejected, unexpected}
use coordinator.Api.Health
use coordinator.Api.Health.{enclave_health}
use coordinator.App.Trust.{IsCertifying, Vouched, attest_with, handle_completion_ack-Vouched}
use coordinator.App.State.{while_at}
use coordinator.Mesh.{EventLoop}
use coordinator.Mesh.Events.{
  handle_command, publish, on_evict_tick, Reachable, here, step, on_command, on_tick,
}
use coordinator.Mesh.Ack.{handle_completion_ack}
use coordinator.Checks.Toy.{toy, toy-signs}
use coordinator.Checks.Data.{some_mesh, enclave_key, node_a, signed_ack, some_world}
use coordinator.Checks.Runs.{primary_verifies, proofs_verify}
use coordinator.Checks.Mesh.{some_swarm, some_request}
use coordinator.Checks.Web.{toy_crypto}
use coordinator.Checks.Boot.{some_crates, some_env, some_started, some_run}

abbrev some_nsm : Nsm
some_nsm = record {
  opens = true;
  attest = λ nonce key. given (7 ∷ key);
  describe_pcr = λ i. given (i ∷ []);
}

-- Its documents are the key, behind one byte.
abbrev key_in : Bytes → Option Bytes
key_in [] = none
key_in (b ∷ key) = some key

some_nsm-IsCertifying : IsCertifying key_in some_nsm
some_nsm-IsCertifying = record { certifies = λ u key d h. ap key_of (sym h) }
  where
    key_of : NsmResponse → Option Bytes
    key_of (given d) = key_in d
    key_of rejected = none
    key_of unexpected = none

abbrev attested_doc : AttestationDoc
attested_doc = record {
  pcr0 = toy_crypto.hex_encode (0 ∷ []);
  pcr1 = toy_crypto.hex_encode (1 ∷ []);
  pcr2 = toy_crypto.hex_encode (2 ∷ []);
  public_key = toy_crypto.hex_encode enclave_key;
  timestamp_ms = 6;
  raw_cbor_hex = toy_crypto.hex_encode (7 ∷ enclave_key);
}

-- The loop once it has published a request and evicted the stale peers.
abbrev later_loop : EventLoop
later_loop =
    on_evict_tick some_mesh 7
      (handle_command some_mesh some_swarm (publish some_request) some_started.event_loop).1

is_attested :
    Health.get_attestation toy
      (attest_with toy toy_crypto key_in some_nsm 6)
      (while_at later_loop some_started.state)
    ≡ ok attested_doc
unfolding Health.get_attestation Attestation.get_attestation
is_attested = refl

later_run : Reachable some_mesh toy (some_started.event_loop, some_world) (later_loop, some_world)
later_run = step (step here (on_command some_swarm (publish some_request))) (on_tick 7)

handle_completion_ack-Vouched_example :
    Vouched toy toy_crypto key_in some_mesh signed_ack
      (enclave_health toy toy_crypto some 9 (while_at later_loop some_started.state)).public_key_hex
      attested_doc
      (handle_completion_ack toy some_mesh 90 node_a signed_ack later_loop some_world)
handle_completion_ack-Vouched_example =
    handle_completion_ack-Vouched toy toy_crypto key_in some_mesh toy-signs some_crates some_env
      some_started later_loop some_world some_world 90 node_a signed_ack some some_nsm 6 9
      attested_doc some_nsm-IsCertifying some_run later_run is_attested primary_verifies
      proofs_verify refl (omega arith, (omega arith, tt))
