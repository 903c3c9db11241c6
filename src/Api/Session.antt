-- ===== src/Api/Session.antt =====
-- `session_status` of src/coordinator/src/api/admin.rs: a chat session with its turns and warm nodes.
use coordinator.Base.{
  ℕ, List, [], ◌∷◌, map, keep, take, Text, Bool, Option, none, some, Outcome, ok, err, codes, ◌==◌,
  nat_eq, leb, if◌then◌else◌,
}
use coordinator.Base.Map.{get}
use coordinator.Protocol.Types.{Uuid}
use coordinator.Store.Columns.{ℤ, Failure}
use coordinator.Store.Defs.{World, CacheRow, SessionRow, fetch}
use coordinator.Api.Admin.{Refusal, check_secret}
use coordinator.Api.Listings.{AdminExternal, guarded}

-- A row of `turns`, a table that other programs write.
pub record TurnRow : Type 0 where
  pub turn_id : Uuid
  pub session_id : Uuid
  pub request_id : Text
  pub node_peer_id : Option Text
  pub input_tokens : Option ℤ
  pub output_tokens : Option ℤ
  pub latency_ms : Option ℤ
  pub created_at : ℕ

-- `served_at` is the column `last_served_at` of the cache rows.
pub record Context : Type 0 where
  pub turns : List TurnRow
  pub served_at : CacheRow → ℕ

pub record SessionTurnRow : Type 0 where
  pub turn_id : Text
  pub request_id : Text
  pub node_peer_id : Option Text
  pub input_tokens : Option ℤ
  pub output_tokens : Option ℤ
  pub latency_ms : Option ℤ
  pub created_at : Text

pub record WarmNodeRow : Type 0 where
  pub node_peer_id : Text
  pub cache_tier : Text
  pub last_served_at : Text

pub record SessionStatusResp : Type 0 where
  pub session_id : Text
  pub user_address : Text
  pub model_id : Text
  pub turn_count : ℤ
  pub total_tokens : ℤ
  pub walrus_blob_id : Option Text
  pub prev_blob_id : Option Text
  pub last_updated : Text
  pub turns : List SessionTurnRow
  pub warm_nodes : List WarmNodeRow

-- `ORDER BY .. DESC`, as an insertion sort.
abbrev pub insert_newest {ℓ} : {A : Type ℓ} → (A → ℕ) → A → List A → List A
insert_newest time a [] = a ∷ []
insert_newest time a (b ∷ bs) =
    if leb (time b) (time a) then a ∷ b ∷ bs else b ∷ insert_newest time a bs

abbrev pub newest_first {ℓ} : {A : Type ℓ} → (A → ℕ) → List A → List A
newest_first time [] = []
newest_first time (a ∷ as') = insert_newest time a (newest_first time as')

-- The rows of a query whose failure counts as no rows.
abbrev pub rows_or_none : {A : Type 0} → Outcome Failure (List A) → List A
rows_or_none (ok rows) = rows
rows_or_none (err e) = []

module _ (x : AdminExternal) where
  abbrev pub turn_row : TurnRow → SessionTurnRow
  turn_row r = record {
    turn_id = x.uuid_to_string r.turn_id;
    request_id = r.request_id;
    node_peer_id = r.node_peer_id;
    input_tokens = r.input_tokens;
    output_tokens = r.output_tokens;
    latency_ms = r.latency_ms;
    created_at = x.time_to_string r.created_at;
  }

  abbrev pub warm_node : (CacheRow → ℕ) → CacheRow → WarmNodeRow
  warm_node served_at r = record {
    node_peer_id = r.node_peer_id;
    cache_tier = r.cache_tier;
    last_served_at = x.time_to_string (served_at r);
  }

  -- `LIMIT 50` of the session's turns, newest first.
  abbrev pub select_turns : Uuid → Context → List TurnRow
  select_turns sid c = take 50 (
      newest_first (λ (r : TurnRow). r.created_at)
        (keep (λ (r : TurnRow). r.session_id == sid) c.turns))

  abbrev pub select_warm : Uuid → Context → World → List CacheRow
  select_warm sid c w =
      newest_first c.served_at (keep (λ (r : CacheRow). r.session_id == sid) w.node_session_cache)

  abbrev pub with_rows :
      Text
      → SessionRow
      → Context
      → Outcome Failure (List TurnRow)
      → Outcome Failure (List CacheRow)
      → SessionStatusResp
  with_rows session_id session c turns warm = record {
    session_id = session_id;
    user_address = session.user_address;
    model_id = session.model_id;
    turn_count = session.turn_count;
    total_tokens = session.total_tokens;
    walrus_blob_id = session.walrus_blob_id;
    prev_blob_id = session.prev_blob_id;
    last_updated = x.time_to_string session.last_updated;
    turns = map turn_row (rows_or_none turns);
    warm_nodes = map (warm_node c.served_at) (rows_or_none warm);
  }

  abbrev pub with_session :
      Text
      → Uuid
      → Context
      → Outcome Failure (Option SessionRow)
      → World
      → Outcome Refusal SessionStatusResp × World
  with_session session_id sid c (err e) w = (err (500, codes "query sessions: "), w)
  with_session session_id sid c (ok none) w = (err (404, codes "session not found"), w)
  with_session session_id sid c (ok (some session)) w =
      let (turns, w₁) = fetch (λ v. select_turns sid c) w in
      let (warm, w₂) = fetch (select_warm sid c) w₁ in
      (ok (with_rows session_id session c turns warm), w₂)

  abbrev pub query_session :
      Text → Context → Uuid → World → Outcome Refusal SessionStatusResp × World
  query_session session_id c sid w =
      let (r, w') = fetch (λ v. get sid v.sessions) w in with_session session_id sid c r w'

  unfoldable pub session_status :
      Option Text
      → Option Text
      → Bool
      → Text
      → Context
      → World
      → Outcome Refusal SessionStatusResp × World
  session_status env header pool session_id c w =
      guarded (check_secret env header) (codes "session_id is not a uuid") (x.parse_uuid session_id)
        pool (query_session session_id c) w
