-- ===== src/Registry.antt =====
-- src/coordinator/src/mesh/peer_registry.rs: who is on the network. Each operation runs under the
-- lock, so it is one step on the state; the clock is an argument.
pub mod Addrs
pub mod Laws
use coordinator.Base.{
  ℕ, ◌-◌, List, [], ◌∷◌, Text, Bool, Option, none, some, leb, text_eq, length, null,
}
use coordinator.Base.Map.{Map, get, insert, retain}
use coordinator.Protocol.Types.{NodeCapabilities}
use Addrs.{Multiaddr, merge_addrs}

-- A libp2p peer id, by its bytes.
abbrev pub PeerId : Type 0
PeerId = Text

pub record PeerEntry : Type 0 where
  pub capabilities : NodeCapabilities
  pub multiaddrs : List Multiaddr
  pub last_seen_ms : ℕ

-- What the lock holds. The `Arc` around it is shared by the event loop and the handlers; the model has
-- it in the loop, which alone changes it, and App.State.while_at says what the handlers read of it.
pub record PeerRegistry : Type 0 where
  pub inner : Map PeerId PeerEntry
  pub ttl : ℕ

unfoldable pub new : ℕ → PeerRegistry
new ttl = record { inner = []; ttl = ttl }

-- `and_modify` where the peer has an entry, `or_insert_with` where it has none.
abbrev pub upserted : ℕ → NodeCapabilities → List Multiaddr → Option PeerEntry → PeerEntry
upserted now_ms capabilities addrs (some e) = record {
  capabilities = capabilities;
  multiaddrs = merge_addrs e.multiaddrs addrs;
  last_seen_ms = now_ms;
}
upserted now_ms capabilities addrs none = record {
  capabilities = capabilities;
  multiaddrs = addrs;
  last_seen_ms = now_ms;
}

unfoldable pub upsert : ℕ → PeerId → NodeCapabilities → List Multiaddr → PeerRegistry → PeerRegistry
upsert now_ms peer capabilities addrs r = record r {
  inner = insert peer (upserted now_ms capabilities addrs (get peer r.inner)) r.inner;
}

unfoldable pub observe_addrs : PeerId → List Multiaddr → PeerRegistry → PeerRegistry
observe_addrs peer addrs r = elim (get peer r.inner) [
  | none ↦ r
  | some e ↦ record r {
    inner = insert peer (record e { multiaddrs = merge_addrs e.multiaddrs addrs }) r.inner;
  }
]

unfoldable pub find_peer : PeerId → PeerRegistry → Option PeerEntry
find_peer peer r = get peer r.inner

unfoldable pub snapshot : PeerRegistry → List (PeerId × PeerEntry)
snapshot r = r.inner

unfoldable pub len : PeerRegistry → ℕ
len r = length r.inner

unfoldable pub is_empty : PeerRegistry → Bool
unfolding len
is_empty r = null r.inner

-- `saturating_sub` is the subtraction of ℕ.
unfoldable pub evict_stale : ℕ → PeerRegistry → PeerRegistry
evict_stale now_ms r =
    let cutoff : ℕ = now_ms - r.ttl in
    record r { inner = retain (λ e. leb cutoff e.last_seen_ms) r.inner }
