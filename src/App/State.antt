-- ===== src/App/State.antt =====
-- src/coordinator/src/app/state.rs: what the HTTP handlers share.
use coordinator.Base.{ℕ, ◌-◌, [], Text, Bytes, Bool, true, false, Option, none, some}
use coordinator.Registry
use coordinator.Registry.{PeerRegistry}
use coordinator.Store.Receipts.{InMemoryReceiptArchive}
use coordinator.Mesh.{EventLoop}
use coordinator.Mesh.Handles.{InMemoryMesh}
use coordinator.Api.Admin.{RegisteredEnclave}

-- The implementations of the traits `Mesh` and `ReceiptArchive`.
pub data Mesh : Type 0 where
  noop libp2p : Mesh
  in_memory : InMemoryMesh → Mesh

pub data ReceiptArchive : Type 0 where
  memory : InMemoryReceiptArchive → ReceiptArchive
  postgres : ReceiptArchive

-- The key is its secret; of the pool, whether it is there.
pub record AppState : Type 0 where
  pub enclave_key : Bytes
  pub mesh : Mesh
  pub peer_registry : PeerRegistry
  pub receipt_archive : ReceiptArchive
  pub on_chain : Option RegisteredEnclave
  pub has_pg_pool : Bool
  pub started_at_ms : ℕ
  pub tls_cert_fingerprint : Option Text

abbrev pub default_peer_ttl : ℕ
default_peer_ttl = 600000

unfoldable pub with_full_archive_and_chain :
    ℕ → Bytes → Mesh → PeerRegistry → ReceiptArchive → Option RegisteredEnclave → AppState
with_full_archive_and_chain now_ms enclave_key mesh peer_registry receipt_archive on_chain =
    record {
      enclave_key = enclave_key;
      mesh = mesh;
      peer_registry = peer_registry;
      receipt_archive = receipt_archive;
      on_chain = on_chain;
      has_pg_pool = false;
      started_at_ms = now_ms;
      tls_cert_fingerprint = none;
    }

unfoldable pub with_full_archive : ℕ → Bytes → Mesh → PeerRegistry → ReceiptArchive → AppState
with_full_archive now_ms enclave_key mesh peer_registry receipt_archive =
    with_full_archive_and_chain now_ms enclave_key mesh peer_registry receipt_archive none

unfoldable pub with_full : ℕ → Bytes → Mesh → PeerRegistry → AppState
with_full now_ms enclave_key mesh peer_registry =
    with_full_archive now_ms enclave_key mesh peer_registry (memory (record { receipts = [] }))

-- The other constructors, at the key that they generate.
unfoldable pub with_mesh_and_registry : ℕ → Bytes → Mesh → PeerRegistry → AppState
with_mesh_and_registry now_ms generated mesh peer_registry =
    with_full now_ms generated mesh peer_registry

unfoldable pub with_mesh : ℕ → Bytes → Mesh → AppState
with_mesh now_ms generated mesh = with_full now_ms generated mesh (Registry.new default_peer_ttl)

unfoldable pub new : ℕ → Bytes → AppState
new now_ms generated = with_full now_ms generated noop (Registry.new default_peer_ttl)

unfoldable pub set_pg_pool : AppState → AppState
set_pg_pool s = record s { has_pg_pool = true }

unfoldable pub set_tls_cert_fingerprint : Text → AppState → AppState
set_tls_cert_fingerprint fingerprint s = record s { tls_cert_fingerprint = some fingerprint }

-- `saturating_sub` is the subtraction of ℕ.
unfoldable pub uptime_ms : ℕ → AppState → ℕ
uptime_ms now_ms s = now_ms - s.started_at_ms

-- `peer_registry` is one `Arc` that the mesh and the handlers share: a handler that runs while the event
-- loop is in the state `l` reads the loop's registry as it is then.
abbrev pub while_at : EventLoop → AppState → AppState
while_at l s = record s { peer_registry = l.peer_registry }
