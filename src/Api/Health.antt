-- ===== src/Api/Health.antt =====
-- src/coordinator/src/api/health.rs and api/nodes.rs: liveness, the enclave's keys, its attestation
-- and the peers.
use coordinator.Base.{
  ℕ, List, [], map, Text, Bytes, Option, none, some, Outcome, ok, err, codes, ◌++◌,
}
use coordinator.Protocol.External.{External}
use coordinator.Registry.{PeerId, PeerEntry, snapshot}
use coordinator.Registry.Addrs.{Multiaddr}
use coordinator.Api.Crypto.{CryptoExternal, x25519_public_key}
use coordinator.Api.Admin.{RegisteredEnclave}
use coordinator.Api.Errors.{AppError, internal}
use coordinator.App.State.{AppState, uptime_ms}
use coordinator.Attestation.{AttestationDoc}

unfoldable pub health : Text
health = codes "ok"

pub record EnclaveHealthResponse : Type 0 where
  pub public_key_hex : Text
  pub x25519_pubkey_hex : Text
  pub peer_id : Option Text
  pub uptime_ms : ℕ
  pub enclave_object_id : Option Text
  pub sui_tx_digest : Option Text
  pub tls_cert_fingerprint : Option Text

abbrev pub object_id_of : Option RegisteredEnclave → Option Text
object_id_of none = none
object_id_of (some r) = some r.enclave_object_id

abbrev pub digest_of : Option RegisteredEnclave → Option Text
digest_of none = none
digest_of (some r) = some r.tx_digest

-- `peer_id_of` is libp2p's derivation of a peer id from a public key.
unfoldable pub enclave_health :
    External → CryptoExternal → (Bytes → Option Text) → ℕ → AppState → EnclaveHealthResponse
enclave_health x c peer_id_of now_ms s =
    let pubkey = x.verifying_key s.enclave_key in
    record {
      public_key_hex = c.hex_encode pubkey;
      x25519_pubkey_hex = c.hex_encode (x25519_public_key x c s.enclave_key);
      peer_id = peer_id_of pubkey;
      uptime_ms = uptime_ms now_ms s;
      enclave_object_id = object_id_of s.on_chain;
      sui_tx_digest = digest_of s.on_chain;
      tls_cert_fingerprint = s.tls_cert_fingerprint;
    }

abbrev pub attested : Outcome Text AttestationDoc → Outcome AppError AttestationDoc
attested (ok doc) = ok doc
attested (err e) = err (internal (codes "attestation: " ++ e))

-- `attest` is `get_attestation` of the key and the empty nonce.
unfoldable pub get_attestation :
    External
    → (Bytes → Bytes → Outcome Text AttestationDoc)
    → AppState
    → Outcome AppError AttestationDoc
get_attestation x attest s = attested (attest (x.verifying_key s.enclave_key) [])

pub record NodeSnapshot : Type 0 where
  pub peer_id : Text
  pub models : List Text
  pub max_concurrent_jobs : ℕ
  pub multiaddrs : List Text
  pub last_seen_ms : ℕ

abbrev pub node_snapshot : (PeerId → Text) → (Multiaddr → Text) → PeerId × PeerEntry → NodeSnapshot
node_snapshot peer_id_to_string addr_to_string (peer_id, entry) = record {
  peer_id = peer_id_to_string peer_id;
  models = entry.capabilities.models;
  max_concurrent_jobs = entry.capabilities.max_concurrent_jobs;
  multiaddrs = map addr_to_string entry.multiaddrs;
  last_seen_ms = entry.last_seen_ms;
}

unfoldable pub list_nodes : (PeerId → Text) → (Multiaddr → Text) → AppState → List NodeSnapshot
list_nodes peer_id_to_string addr_to_string s =
    map (node_snapshot peer_id_to_string addr_to_string) (snapshot s.peer_registry)
