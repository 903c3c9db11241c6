-- ===== src/Api/Router.antt =====
-- `build_router` of src/coordinator/src/lib.rs: the table of the routes, which axum matches requests
-- against; a segment in braces is a hole.
use coordinator.Base.{List, [], ◌∷◌, Text, text_eq, codes}

pub data Method : Type 0 where
  get post : Method

pub data Handler : Type 0 where
  health enclave_health get_attestation chat_completions list_models list_nodes get_proof : Handler
  set_enclave_id settlement_status session_status : Handler

pub data Segment : Type 0 where
  fixed : Text → Segment
  hole : Segment

pub record Route : Type 0 where
  pub path : List Segment
  pub method : Method
  pub handler : Handler

abbrev pub route : List Segment → Method → Handler → Route
route path method handler = record { path = path; method = method; handler = handler }

abbrev pub v1 : List Segment → List Segment
v1 path = fixed (codes "v1") ∷ path

abbrev pub admin : List Segment → List Segment
admin path = v1 (fixed (codes "admin") ∷ path)

unfoldable pub build_router : List Route
build_router =
    route (fixed (codes "health") ∷ []) get health
    ∷ route (fixed (codes "enclave_health") ∷ []) get enclave_health
    ∷ route (fixed (codes "get_attestation") ∷ []) get get_attestation
    ∷ route (v1 (fixed (codes "chat") ∷ fixed (codes "completions") ∷ [])) post chat_completions
    ∷ route (v1 (fixed (codes "models") ∷ [])) get list_models
    ∷ route (v1 (fixed (codes "nodes") ∷ [])) get list_nodes
    ∷ route (v1 (fixed (codes "proofs") ∷ hole ∷ [])) get get_proof
    ∷ route (admin (fixed (codes "set-enclave-id") ∷ [])) post set_enclave_id
    ∷ route (admin (fixed (codes "settlements") ∷ hole ∷ [])) get settlement_status
    ∷ route (admin (fixed (codes "sessions") ∷ hole ∷ [])) get session_status
    ∷ []
