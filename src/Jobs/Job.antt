-- ===== src/Jobs/Job.antt =====
-- src/coordinator/src/jobs/dispatch_job.rs, and how a stored status is read back (jobs/store.rs).
use coordinator.Base.{ℕ, Text, codes, Option, none, some, ◌==◌, text_eq, if◌then◌else◌, ◌≡◌, refl}
use coordinator.Protocol.Types.{RequestId, NodePeerId}

pub data JobStatus : Type 0 where
  dispatched acked completed timed_out refunded : JobStatus

unfoldable pub as_str : JobStatus → Text
as_str dispatched = codes "Dispatched"
as_str acked = codes "Acked"
as_str completed = codes "Completed"
as_str timed_out = codes "TimedOut"
as_str refunded = codes "Refunded"

-- The `match` of `get_status`.
unfoldable pub parse_status : Text → Option JobStatus
parse_status s =
    if s == codes "Dispatched"
    then some dispatched
    else if s == codes "Acked"
    then some acked
    else if s == codes "Completed"
    then some completed
    else if s == codes "TimedOut"
    then some timed_out
    else if s == codes "Refunded"
    then some refunded
    else none

pub record DispatchJob : Type 0 where
  pub request_id : RequestId
  pub primary_peer_id : NodePeerId
  pub dispatched_at_ms : ℕ
  pub deadline_ms : ℕ
  pub status : JobStatus
  pub escrow_handle_json : Text

-- Every status is read back from the text that is stored for it.
pub parse_status-as_str : (s : JobStatus) → parse_status (as_str s) ≡ some s
unfolding parse_status as_str
parse_status-as_str dispatched = refl
parse_status-as_str acked = refl
parse_status-as_str completed = refl
parse_status-as_str timed_out = refl
parse_status-as_str refunded = refl
