-- ===== src/Store/Schema.antt =====
-- The statements of `run_migrations` in src/coordinator/src/persistence/postgres.rs, and the loop that
-- runs them. Column types, defaults and the order of columns are left out; an index names the columns
-- that it reads, and a table the primary keys that it declares behind its columns.
use coordinator.Base.{
  List, [], ◌∷◌, ◌++◌, map, Text, Bool, true, false, Option, none, some, Outcome, ok, err, codes,
}

-- `references` is the table and the column of a foreign key.
pub record Column : Type 0 where
  pub name : Text
  pub primary : Bool
  pub references : Option (Text × Text)

pub data Statement : Type 0 where
  create_table : Text → List Column → List (List Text) → Statement
  add_column : Text → Column → Statement
  create_index : Text → Text → List Text → Statement

abbrev plain : Text → Column
plain name = record { name = name; primary = false; references = none }

abbrev key : Text → Column
key name = record { name = name; primary = true; references = none }

abbrev of_session : Text → Column
of_session name = record {
  name = name;
  primary = false;
  references = some (codes "sessions", codes "session_id");
}

unfoldable pub receipt_tables : List Statement
receipt_tables =
    create_table (codes "routing_receipts")
      (key (codes "request_id")
        ∷ plain (codes "receipt_json")
        ∷ plain (codes "stored_at")
        ∷ plain (codes "walrus_blob_id")
        ∷ plain (codes "created_at")
        ∷ [])
      []
    ∷ add_column (codes "routing_receipts") (plain (codes "walrus_blob_id"))
    ∷ add_column (codes "routing_receipts") (plain (codes "created_at"))
    ∷ []

unfoldable pub job_tables : List Statement
job_tables =
    create_table (codes "dispatch_jobs")
      (key (codes "request_id")
        ∷ map plain (
            codes "primary_peer_id"
            ∷ codes "dispatched_at_ms"
            ∷ codes "deadline_ms"
            ∷ codes "status"
            ∷ codes "escrow_handle_json"
            ∷ []))
      []
    ∷ []

unfoldable pub payment_tables : List Statement
payment_tables =
    create_table (codes "payments")
      (key (codes "id")
        ∷ map plain (
            codes "request_id"
            ∷ codes "payee_peer_id"
            ∷ codes "payee_sui_address"
            ∷ codes "amount_nanox"
            ∷ codes "status"
            ∷ codes "tx_digest"
            ∷ codes "created_at"
            ∷ codes "submitted_at"
            ∷ codes "confirmed_at"
            ∷ []))
      []
    ∷ create_index (codes "payments_status_idx") (codes "payments") (codes "status" ∷ [])
    ∷ create_index (codes "payments_request_idx") (codes "payments") (codes "request_id" ∷ [])
    ∷ []

unfoldable pub session_tables : List Statement
session_tables =
    create_table (codes "sessions")
      (key (codes "session_id")
        ∷ map plain (
            codes "user_address"
            ∷ codes "model_id"
            ∷ codes "title"
            ∷ codes "created_at"
            ∷ codes "last_updated"
            ∷ codes "turn_count"
            ∷ codes "total_tokens"
            ∷ codes "total_cost_nanox"
            ∷ codes "walrus_blob_id"
            ∷ codes "prev_blob_id"
            ∷ codes "status"
            ∷ []))
      []
    ∷ create_table (codes "turns")
        (key (codes "turn_id")
          ∷ of_session (codes "session_id")
          ∷ map plain (
              codes "user_address"
              ∷ codes "request_id"
              ∷ codes "node_peer_id"
              ∷ codes "input_tokens"
              ∷ codes "output_tokens"
              ∷ codes "latency_ms"
              ∷ codes "cost_nanox"
              ∷ codes "kv_token_hash"
              ∷ codes "proof_hash"
              ∷ codes "node_signature"
              ∷ codes "settlement_status"
              ∷ codes "sui_tx_digest"
              ∷ codes "created_at"
              ∷ []))
        []
    ∷ create_table (codes "user_facts")
        (key (codes "fact_id")
          ∷ of_session (codes "source_session")
          ∷ map plain (
              codes "user_address"
              ∷ codes "fact"
              ∷ codes "confidence"
              ∷ codes "created_at"
              ∷ codes "updated_at"
              ∷ codes "is_active"
              ∷ []))
        []
    ∷ create_table (codes "session_summaries")
        (key (codes "summary_id")
          ∷ of_session (codes "session_id")
          ∷ map plain (
              codes "user_address"
              ∷ codes "summary_text"
              ∷ codes "messages_covered"
              ∷ codes "token_count"
              ∷ codes "created_at"
              ∷ []))
        []
    ∷ create_table (codes "node_session_cache")
        (plain (codes "node_peer_id")
          ∷ of_session (codes "session_id")
          ∷ plain (codes "last_served_at")
          ∷ plain (codes "cache_tier")
          ∷ [])
        ((codes "node_peer_id" ∷ codes "session_id" ∷ []) ∷ [])
    ∷ create_table (codes "kv_cache_index")
        (key (codes "token_hash")
          ∷ of_session (codes "session_id")
          ∷ map plain (
              codes "walrus_blob_id"
              ∷ codes "node_peer_id"
              ∷ codes "size_bytes"
              ∷ codes "created_at"
              ∷ codes "expires_at"
              ∷ []))
        []
    ∷ []

unfoldable pub session_indexes : List Statement
session_indexes =
    create_index (codes "idx_sessions_user") (codes "sessions") (codes "user_address" ∷ [])
    ∷ create_index (codes "idx_turns_session") (codes "turns") (codes "session_id" ∷ [])
    ∷ create_index (codes "idx_facts_user") (codes "user_facts")
        (codes "user_address" ∷ codes "is_active" ∷ [])
    ∷ create_index (codes "idx_node_cache_session") (codes "node_session_cache")
        (codes "session_id" ∷ [])
    ∷ create_index (codes "idx_summaries_user") (codes "session_summaries")
        (codes "user_address" ∷ [])
    ∷ []

unfoldable pub statements : List Statement
unfolding receipt_tables job_tables payment_tables session_tables session_indexes
statements =
    receipt_tables ++ (job_tables ++ (payment_tables ++ (session_tables ++ session_indexes)))

-- The database behind a pool: what it has, and what it answers to a statement.
pub data Fact : Type 0 where
  table : Text → Fact
  column : Text → Text → Fact
  unique : Text → List Text → Fact

pub record Sql (D : Type 0) : Type 0 where
  pub has : Fact → D → Bool
  pub execute : Statement → D → Outcome Text (Unit {0}) × D

-- The loop: the first statement that fails ends it.
abbrev pub then_migrate :
    {D : Type 0}
    → (D → Outcome Text (Unit {0}) × D)
    → Outcome Text (Unit {0})
    → D
    → Outcome Text (Unit {0}) × D
then_migrate k (ok done) d = k d
then_migrate k (err e) d = (err e, d)

unfoldable pub migrate : {D : Type 0} → Sql D → List Statement → D → Outcome Text (Unit {0}) × D
migrate sql [] d = (ok tt, d)
migrate sql (s ∷ ss) d =
    let (result, d') = sql.execute s d in then_migrate (migrate sql ss) result d'
