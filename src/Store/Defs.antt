-- ===== src/Store/Defs.antt =====
-- The world that the coordinator's actions read and write: the tables of
-- src/coordinator/src/persistence/postgres.rs that the program uses, and the sidecar's HTTP port.
use coordinator.Base.{
  ◌≡◌, ap, ℕ, List, [], ◌∷◌, Text, Bytes, Bool, true, false, Option, Outcome, ok, err, nat_eq,
  text_eq,
}
use coordinator.Base.Map.{Map}
use coordinator.Protocol.Types.{Uuid, NodePeerId}
use coordinator.Protocol.Receipt.{Payout}
use coordinator.Settlement.Adapter.{EscrowHandle}
use coordinator.Jobs.Job.{DispatchJob}
use coordinator.Store.Columns.{ℤ, Failure, database}

pub data PaymentStatus : Type 0 where
  pending submitted confirmed failed : PaymentStatus

-- A row of `payments`; its id is the key. The time stamps are left out: rows stand in the order of
-- insertion, which is that of `created_at`.
pub record PaymentRow : Type 0 where
  pub request_id : Uuid
  pub payee_peer_id : Text
  pub payee_sui_address : Text
  pub amount_nanox : ℤ
  pub status : PaymentStatus
  pub tx_digest : Option Text

-- A row of `dispatch_jobs`, keyed by its request; `status` is the text that is stored.
pub record JobRow : Type 0 where
  pub primary_peer_id : NodePeerId
  pub dispatched_at_ms : ℤ
  pub deadline_ms : ℤ
  pub status : Text
  pub escrow_handle_json : Text

-- A row of `node_session_cache`, with the primary key (node_peer_id, session_id).
pub record CacheRow : Type 0 where
  pub node_peer_id : Text
  pub session_id : Uuid
  pub cache_tier : Text

-- A row of `sessions`, which other programs write: nothing of the coordinator does.
pub record SessionRow : Type 0 where
  pub user_address : Text
  pub model_id : Text
  pub turn_count : ℤ
  pub total_tokens : ℤ
  pub walrus_blob_id : Option Text
  pub prev_blob_id : Option Text
  pub last_updated : ℕ

-- The body of a settle request to the sidecar (src/coordinator/src/onchain/sui.rs).
pub record SettleReq : Type 0 where
  pub request_id : Uuid
  pub payee_sui_address : Text
  pub amount_nanox : ℕ
  pub timestamp_ms : ℕ
  pub aggregated_output_hash : Bytes
  pub payouts : List Payout
  pub signature : Bytes

-- What comes back over HTTP: nothing, or whether the status is a success, and the body.
pub data HttpReply : Type 0 where
  unreachable : HttpReply
  answered : Bool → Text → HttpReply

-- `routing_receipts` holds JSONB values, each as its text.
-- `faults` says of each statement to come whether it fails; when it has run out, none does.
-- `scheduled` is the queue of apalis, each job with the second at which it is due, and `refunds`
-- lists the calls of `refund_funds`. `next_id` stands for `Uuid::new_v4`, which never gives an identifier twice.
pub record World : Type 0 where
  pub faults : List Bool
  pub next_id : Uuid
  pub payments : Map Uuid PaymentRow
  pub dispatch_jobs : Map Uuid JobRow
  pub routing_receipts : Map Uuid Text
  pub sessions : Map Uuid SessionRow
  pub node_session_cache : List CacheRow
  pub http_replies : List HttpReply
  pub http_sent : List SettleReq
  pub scheduled : List (DispatchJob × ℤ)
  pub refunds : List EscrowHandle

abbrev pub Action : Type 0 → Type 0
Action A = World → Outcome Failure A × World

infixl 5 ◌>>=◌ ◌>>◌
abbrev pub ◌>>=◌ : {A B : Type 0} → Action A → (A → Action B) → Action B
◌>>=◌ m f w = let (r, w') = m w in elim r [ ok a ↦ f a w' | err e ↦ (err e, w') ]

abbrev pub ◌>>◌ : {B : Type 0} → Action (Unit {0}) → Action B → Action B
m >> k = m >>= λ _. k

abbrev pub pure : {A : Type 0} → A → Action A
pure a w = (ok a, w)

abbrev pub raise : {A : Type 0} → Failure → Action A
raise e w = (err e, w)

-- `execute(pool)` of one statement.
abbrev pub statement_at : {A : Type 0} → List Bool → (World → A × World) → Action A
statement_at [] run w = let (a, w') = run w in (ok a, w')
statement_at (true ∷ rest) run w = (err database, record w { faults = rest })
statement_at (false ∷ rest) run w = let (a, w') = run (record w { faults = rest }) in (ok a, w')

abbrev pub statement : {A : Type 0} → (World → A × World) → Action A
statement run w = statement_at w.faults run w

abbrev pub execute : (World → World) → Action (Unit {0})
execute f = statement (λ w. (tt, f w))

abbrev pub fetch : {A : Type 0} → (World → A) → Action A
fetch f = statement (λ w. (f w, w))

-- Where no statement fails, `execute` runs its update and `fetch` its query.
pub execute_lem : (f : World → World) (w : World) → w.faults ≡ [] → execute f w ≡ (ok tt, f w)
execute_lem f w h = ap (λ (fs : List Bool). statement_at fs (λ v. (tt, f v)) w) h

pub fetch_lem : {A : Type 0} (f : World → A) (w : World) → w.faults ≡ [] → fetch f w ≡ (ok (f w), w)
fetch_lem f w h = ap (λ (fs : List Bool). statement_at fs (λ v. (f v, v)) w) h

pub fetch_then :
    {A B : Type 0} (f : World → A) (k : A → Action B) (w : World)
    → w.faults ≡ []
    → (fetch f >>= k) w ≡ k (f w) w
fetch_then f k w h = ap (λ (fs : List Bool). (statement_at fs (λ v. (f v, v)) >>= k) w) h
