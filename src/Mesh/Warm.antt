-- ===== src/Mesh/Warm.antt =====
-- From an ack to the next auction of its session: the rows of node_session_cache that the event loop
-- writes, read by fetch_warmth_map of src/coordinator/src/marketplace/auction.rs.
use coordinator.Base.{
  List, [], ◌∷◌, Text, Bool, true, false, Option, none, some, codes, ◌==◌, ◌&&◌, ◌||◌, ==_refl,
  nat_eq, text_eq, if◌then◌else◌, ◌≡◌, refl, sym, ◌∙◌, arith, Bool-cases, inl, inr,
}
use coordinator.Base.Map.{get, insert, get-insert}
use coordinator.Protocol.Types.{F32, SessionId}
use coordinator.Auction.Float.{Float}
use coordinator.Auction.Defs.{WarmthMap, warmth_for_tier, collect_rows, fetch_warmth_map}
use coordinator.Store.Defs.{CacheRow}
use coordinator.Mesh.Ack.{warm_row, upsert_cache}
use coordinator.Mesh.AckSteps.{warmed}

-- `SELECT node_peer_id, cache_tier .. WHERE session_id = $1`.
abbrev pub rows_of : SessionId → List CacheRow → List (Text × Text)
rows_of q [] = []
rows_of q (c ∷ cs) =
    if c.session_id == q then (c.node_peer_id, c.cache_tier) ∷ rows_of q cs else rows_of q cs

abbrev has_key : Text → SessionId → CacheRow → Bool
has_key p q c = c.node_peer_id == p && c.session_id == q

abbrev pub has_row : Text → SessionId → List CacheRow → Bool
has_row p q [] = false
has_row p q (c ∷ cs) = has_key p q c || has_row p q cs

-- The primary key (node_peer_id, session_id).
abbrev pub IsUnique : List CacheRow → Type 0
IsUnique [] = Unit
IsUnique (c ∷ cs) = (has_row c.node_peer_id c.session_id cs ≡ false) × IsUnique cs

abbrev pub has_peer : Text → List Text → Bool
has_peer p [] = false
has_peer p (x ∷ xs) = x == p || has_peer p xs

has_row-upsert :
    (p : Text) (q : SessionId) (row : CacheRow) (cs : List CacheRow)
    → has_row p q (upsert_cache row cs) ≡ (has_key p q row || has_row p q cs)
has_row-upsert p q row [] = refl
has_row-upsert p q row (c ∷ cs) = ground (
  arith,
  has_row-upsert p q row cs,
  text_eq.beq_iff c.node_peer_id row.node_peer_id,
  nat_eq.beq_iff c.session_id row.session_id,
)

IsUnique-upsert :
    (row : CacheRow) (cs : List CacheRow) → IsUnique cs → IsUnique (upsert_cache row cs)
IsUnique-upsert row [] u = (refl, tt)
IsUnique-upsert row (c ∷ cs) u = ground (
  arith,
  IsUnique-upsert row cs u.1,
  has_row-upsert c.node_peer_id c.session_id row cs,
  text_eq.beq_iff c.node_peer_id row.node_peer_id,
  nat_eq.beq_iff c.session_id row.session_id,
  text_eq.beq_iff row.node_peer_id c.node_peer_id,
  nat_eq.beq_iff row.session_id c.session_id,
)

abbrev pub tier_at : Text → SessionId → List CacheRow → Option Text
tier_at p q [] = none
tier_at p q (c ∷ cs) = if has_key p q c then some c.cache_tier else tier_at p q cs

tier_at-upsert :
    (p : Text) (q : SessionId) (row : CacheRow) (cs : List CacheRow)
    → tier_at p q (upsert_cache row cs)
      ≡ (if has_key p q row then some row.cache_tier else tier_at p q cs)
tier_at-upsert p q row [] = refl
tier_at-upsert p q row (c ∷ cs) = ground (
  arith,
  tier_at-upsert p q row cs,
  text_eq.beq_iff c.node_peer_id row.node_peer_id,
  text_eq.beq_iff c.node_peer_id p,
  text_eq.beq_iff row.node_peer_id p,
  nat_eq.beq_iff c.session_id row.session_id,
)

pub IsUnique-warmed :
    (known : Bool) (q : SessionId) (ps : List Text) (cs : List CacheRow)
    → IsUnique cs
    → IsUnique (warmed known q ps cs)
IsUnique-warmed known q [] cs u = u
IsUnique-warmed true q (p ∷ ps) cs u =
    IsUnique-warmed true q ps _ (IsUnique-upsert (warm_row q p) cs u)
IsUnique-warmed false q (p ∷ ps) cs u = IsUnique-warmed false q ps cs u

tier_at-warmed :
    (p : Text) (q : SessionId) (ps : List Text) (cs : List CacheRow)
    → tier_at p q (warmed true q ps cs)
      ≡ (if has_peer p ps then some (codes "gpu") else tier_at p q cs)
tier_at-warmed p q [] cs = refl
tier_at-warmed p q (x ∷ xs) cs = ground (
  arith,
  tier_at-warmed p q xs (upsert_cache (warm_row q x) cs),
  tier_at-upsert p q (warm_row q x) cs,
  ==_refl q,
)

pub warmed_unknown :
    (q : SessionId) (ps : List Text) (cs : List CacheRow) → warmed false q ps cs ≡ cs
warmed_unknown q [] cs = refl
warmed_unknown q (p ∷ ps) cs = warmed_unknown q ps cs

module _ (f : Float) where
  -- The warmth of a node in a table, for the next auction of the session.
  abbrev pub warmth_in : Text → SessionId → List CacheRow → Option F32
  warmth_in p q cs = get p (fetch_warmth_map f (some (rows_of q cs)))

  get-collect_rows_none :
      (p : Text) (q : SessionId) (cs : List CacheRow) (m : WarmthMap)
      → has_row p q cs ≡ false
      → get p (collect_rows f (rows_of q cs) m) ≡ get p m
  get-collect_rows_none p q [] m h = refl
  get-collect_rows_none p q (c ∷ cs) m h =
      let w = warmth_for_tier f c.cache_tier in
      ground (
        arith,
        get-collect_rows_none p q cs m,
        get-collect_rows_none p q cs (insert c.node_peer_id w m),
        get-insert c.node_peer_id p w m,
      )

  abbrev warmth_or : Option Text → Option F32 → Option F32
  warmth_or none o = o
  warmth_or (some t) o = some (warmth_for_tier f t)

  get-collect_rows :
      (p : Text) (q : SessionId) (cs : List CacheRow) (m : WarmthMap)
      → IsUnique cs
      → get p (collect_rows f (rows_of q cs) m) ≡ warmth_or (tier_at p q cs) (get p m)
  get-collect_rows p q [] m u = refl
  get-collect_rows p q (c ∷ cs) m u =
      let w = warmth_for_tier f c.cache_tier in
      ground (
        arith,
        get-collect_rows p q cs m u.1,
        get-collect_rows p q cs (insert c.node_peer_id w m) u.1,
        get-collect_rows_none p q cs (insert c.node_peer_id w m),
        text_eq.beq_iff c.node_peer_id p,
        nat_eq.beq_iff c.session_id q,
        get-insert c.node_peer_id p w m,
        u.0,
      )

  pub warmth_in-warmed :
      (p : Text) (q : SessionId) (ps : List Text) (cs : List CacheRow)
      → IsUnique cs
      → warmth_in p q (warmed true q ps cs)
        ≡ (if has_peer p ps then some (f.literal 1 1) else warmth_in p q cs)
  unfolding fetch_warmth_map warmth_for_tier
  warmth_in-warmed p q ps cs u =
      let new = get-collect_rows p q (warmed true q ps cs) [] (IsUnique-warmed true q ps cs u) in
      let old = get-collect_rows p q cs [] u in
      new
      ∙ rw (tier_at-warmed p q ps cs)
          (elim (Bool-cases (has_peer p ps)) [ inl t ↦ rw t refl | inr t ↦ rw t (sym old) ])
