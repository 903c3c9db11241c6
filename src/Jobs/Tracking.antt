-- ===== src/Jobs/Tracking.antt =====
-- src/coordinator/src/jobs/store.rs: `PgJobStore`.
use coordinator.Base.{◌/◌, Option, none, some, nat_eq, [], ◌∷◌, ◌++◌, Text, codes, ok, ◌≡◌}
use coordinator.Base.Map.{get, modify, insert}
use coordinator.Protocol.Types.{Uuid}
use coordinator.Store.Defs.{World, Action, ◌>>=◌, ◌>>◌, pure, execute, fetch, execute_lem, JobRow}
use coordinator.Payments.Amount.{as_i64}
use coordinator.Jobs.Job.{DispatchJob, JobStatus, dispatched, completed, as_str, parse_status}

abbrev pub tracking_row : DispatchJob → JobRow
tracking_row job = record {
  primary_peer_id = job.primary_peer_id;
  dispatched_at_ms = as_i64 job.dispatched_at_ms;
  deadline_ms = as_i64 job.deadline_ms;
  status = as_str dispatched;
  escrow_handle_json = job.escrow_handle_json;
}

-- `ON CONFLICT (request_id) DO NOTHING`.
abbrev pub insert_job : DispatchJob → World → World
insert_job job w = record w {
  dispatch_jobs = elim (get job.request_id w.dispatch_jobs) [
    | none ↦ insert job.request_id (tracking_row job) w.dispatch_jobs
    | some _ ↦ w.dispatch_jobs
  ];
}

-- `schedule_request` at the deadline's second, a statement of apalis.
abbrev pub schedule : DispatchJob → World → World
schedule job w = record w { scheduled = w.scheduled ++ (job, as_i64 (job.deadline_ms / 1000)) ∷ [] }

unfoldable pub push : DispatchJob → Action (Unit {0})
push job = do execute (insert_job job); execute (schedule job)

abbrev pub with_status : Text → JobRow → JobRow
with_status status row = record row { status = status }

abbrev pub set_status : Uuid → Text → World → World
set_status request_id status w = record w {
  dispatch_jobs = modify request_id (with_status status) w.dispatch_jobs;
}

unfoldable pub mark_completed : Uuid → Action (Unit {0})
unfolding as_str
mark_completed request_id = execute (set_status request_id (as_str completed))

abbrev pub row_status : Option JobRow → Option Text
row_status none = none
row_status (some row) = some row.status

abbrev pub status_of : Uuid → World → Option Text
status_of request_id w = row_status (get request_id w.dispatch_jobs)

abbrev pub parse_row : Option Text → Option JobStatus
parse_row none = none
parse_row (some s) = parse_status s

unfoldable pub get_status : Uuid → Action (Option JobStatus)
unfolding parse_status
get_status request_id = do row ← fetch (status_of request_id); pure (parse_row row)

pub mark_completed_lem :
    (q : Uuid) (w : World)
    → w.faults ≡ []
    → mark_completed q w ≡ (ok tt, set_status q (codes "Completed") w)
unfolding mark_completed
mark_completed_lem q w h = execute_lem _ w h

pub get_status_lem :
    (q : Uuid) (w : World) → w.faults ≡ [] → get_status q w ≡ (ok (parse_row (status_of q w)), w)
unfolding get_status
get_status_lem q w h = rw h
