-- ===== src/Registry/Laws.antt =====
-- What the registry promises: its invariant, and what each operation does to each peer.
use coordinator.Base.{
  ℕ, ◌+◌, ◌-◌, ◌≤◌, ◌≡◌, refl, ◌≢◌, List, Option, none, some, Option-cases, inl, inr, leb, contains,
  text_eq, ◌||◌, ◌↔◌, arith,
}
use coordinator.Base.Map.{
  get, IsKeyed, Values, insert-IsKeyed, insert-Values, Values-get, retain-IsKeyed, retain-Values,
  get-retain, get-insert_self, get-insert_ne,
}
use coordinator.Protocol.Types.{NodeCapabilities}
use coordinator.Registry.{
  PeerId, PeerEntry, PeerRegistry, new, upserted, upsert, observe_addrs, find_peer, evict_stale,
}
use coordinator.Registry.Addrs.{Multiaddr, IsDistinct, merge_addrs-IsDistinct, contains-merge_addrs}

-- A peer has one entry, and an entry lists an address once.
pub record IsValid (r : PeerRegistry) : Type 0 where
  pub keyed : IsKeyed r.inner
  pub distinct : Values (λ e. IsDistinct e.multiaddrs) r.inner

pub new-IsValid : (ttl : ℕ) → IsValid (new ttl)
unfolding new
new-IsValid ttl = record { keyed = tt; distinct = tt }

upserted-IsDistinct :
    (now_ms : ℕ) (c : NodeCapabilities) (addrs : List Multiaddr) (r : PeerRegistry) (p : PeerId)
    (o : Option PeerEntry)
    → get p r.inner ≡ o
    → IsDistinct addrs
    → IsValid r
    → IsDistinct (upserted now_ms c addrs o).multiaddrs
upserted-IsDistinct now_ms c addrs r p none e d v = d
upserted-IsDistinct now_ms c addrs r p (some h) e d v =
    merge_addrs-IsDistinct h.multiaddrs addrs
      (Values-get (λ e. IsDistinct e.multiaddrs) p h r.inner v.distinct e)

pub upsert-IsValid :
    (now_ms : ℕ) (p : PeerId) (c : NodeCapabilities) (addrs : List Multiaddr) (r : PeerRegistry)
    → IsDistinct addrs
    → IsValid r
    → IsValid (upsert now_ms p c addrs r)
unfolding upsert
upsert-IsValid now_ms p c addrs r d v = record {
  keyed = insert-IsKeyed p _ r.inner v.keyed;
  distinct =
      insert-Values (λ e. IsDistinct e.multiaddrs) p _ r.inner
        (upserted-IsDistinct now_ms c addrs r p _ refl d v) v.distinct;
}

pub observe_addrs-IsValid :
    (p : PeerId) (addrs : List Multiaddr) (r : PeerRegistry)
    → IsValid r
    → IsValid (observe_addrs p addrs r)
unfolding observe_addrs
observe_addrs-IsValid p addrs r v = elim (Option-cases (get p r.inner)) [
  | inl e ↦ rw (e, observe_addrs) v
  | inr (h, e) ↦
      rw (e, observe_addrs)
        (record {
          keyed = insert-IsKeyed p _ r.inner v.keyed;
          distinct =
              insert-Values (λ e. IsDistinct e.multiaddrs) p _ r.inner
                (merge_addrs-IsDistinct h.multiaddrs addrs
                  (Values-get (λ e. IsDistinct e.multiaddrs) p h r.inner v.distinct e))
                v.distinct;
        })
]

pub evict_stale-IsValid :
    (now_ms : ℕ) (r : PeerRegistry) → IsValid r → IsValid (evict_stale now_ms r)
unfolding evict_stale
evict_stale-IsValid now_ms r v = record {
  keyed = retain-IsKeyed _ r.inner v.keyed;
  distinct = retain-Values (λ e. IsDistinct e.multiaddrs) _ r.inner v.distinct;
}

-- In a well-formed registry, eviction keeps an entry, unchanged, exactly when it was heard of within
-- the time to live.
pub find_peer-evict_stale :
    (now_ms : ℕ) (r : PeerRegistry) (p : PeerId) (e : PeerEntry)
    → IsValid r
    → (find_peer p (evict_stale now_ms r) ≡ some e)
      ↔ ((find_peer p r ≡ some e) × (now_ms ≤ e.last_seen_ms + r.ttl))
unfolding find_peer evict_stale
find_peer-evict_stale now_ms r p e v =
    ground (arith, get-retain (λ e. leb (now_ms - r.ttl) e.last_seen_ms) p r.inner v.keyed)

-- After an announcement the peer has the capabilities announced, the time of the announcement and
-- every address known before or announced, and the other peers are as they were.
find_peer-upsert :
    (now_ms : ℕ) (p q : PeerId) (c : NodeCapabilities) (addrs : List Multiaddr) (r : PeerRegistry)
    → ((e : PeerEntry) × (find_peer p (upsert now_ms p c addrs r) ≡ some e)
        × (e.capabilities ≡ c)
        × (e.last_seen_ms ≡ now_ms)
        × ((old : PeerEntry) (a : Multiaddr)
            → find_peer p r ≡ some old
            → contains e.multiaddrs a ≡ (contains old.multiaddrs a || contains addrs a)))
      × (p ≢ q → find_peer q (upsert now_ms p c addrs r) ≡ find_peer q r)
unfolding find_peer upsert
find_peer-upsert now_ms p q c addrs r = (
  (
    upserted now_ms c addrs (get p r.inner),
    get-insert_self p _ r.inner,
    ground arith,
    ground arith,
    (λ old a h. rw (h, upserted) (contains-merge_addrs old.multiaddrs addrs a)),
  ),
  (λ h. get-insert_ne p q _ r.inner h),
)
