-- ===== src/Jobs/Laws.antt =====
-- The life of a tracked job across calls: completion, the refund, and when the watcher runs.
use coordinator.Base.{
  ℕ, ◌*◌, ◌/◌, ◌%◌, ◌≡◌, ◌≢◌, refl, ap, ◌∙◌, Text, true, Option, some, codes, Outcome, ok, [], ◌∷◌,
  ◌++◌, nat_eq, ltb, lt→ltb, Bool-cases, inl, inr, arith,
}
use coordinator.Base.Map.{get, get-modify_self}
use coordinator.Settlement.Adapter.{EscrowHandle, SettlementAdapter}
use coordinator.Store.Columns.{Failure}
use coordinator.Store.Defs.{World, JobRow}
use coordinator.Payments.Amount.{as_i64}
use coordinator.Jobs.Job.{DispatchJob, JobStatus, completed, parse_status}
use coordinator.Jobs.Tracking.{
  push, mark_completed, get_status, mark_completed_lem, get_status_lem, row_status, parse_row,
  set_status, status_of, with_status,
}
use coordinator.Jobs.Timeout.{
  handle_dispatch_timeout, is_done, escrow_handle, fire_refund, fire_refund_ok,
}

module _ (settlement : SettlementAdapter) (escrow_from_str : Text → Option EscrowHandle) where
  skips_done :
      (now_ms : ℕ) (job : DispatchJob) (w : World)
      → w.faults ≡ []
      → is_done (status_of job.request_id w) ≡ true
      → handle_dispatch_timeout settlement escrow_from_str now_ms job w ≡ (ok tt, w)
  unfolding handle_dispatch_timeout
  skips_done now_ms job w h d = elim (Bool-cases (ltb now_ms job.deadline_ms)) [
    | inl early ↦ rw early
    | inr late ↦ rw late (rw h (rw d))
  ]

  -- Where the database answers, a tracked job that was marked completed reads back as completed, and
  -- its watcher refunds nothing, whenever it runs.
  pub mark_completed-stops_refund :
      (now_ms : ℕ) (job : DispatchJob) (row : JobRow) (w : World)
      → w.faults ≡ []
      → get job.request_id w.dispatch_jobs ≡ some row
      → let w' = (mark_completed job.request_id w).1 in
        ((mark_completed job.request_id w).0 ≡ ok tt)
        × ((get_status job.request_id w').0 ≡ ok (some completed))
        × (handle_dispatch_timeout settlement escrow_from_str now_ms job w' ≡ (ok tt, w'))
  unfolding parse_status
  mark_completed-stops_refund now_ms job row w h g = rw (mark_completed_lem job.request_id w h) (
    refl,
    ap (λ (r : Outcome Failure (Option JobStatus) × World). r.0)
          (get_status_lem job.request_id marked h)
        ∙ ap (λ (o : Option JobRow). ok (parse_row (row_status o))) stored,
    skips_done now_ms job marked h (ap (λ (o : Option JobRow). is_done (row_status o)) stored),
  )
    where
      marked : World
      marked = set_status job.request_id (codes "Completed") w

      stored : get job.request_id marked.dispatch_jobs ≡ some (with_status (codes "Completed") row)
      stored =
          get-modify_self job.request_id (with_status (codes "Completed")) row w.dispatch_jobs g

  -- Where the database answers and the adapter refunds, a tracked job is refunded once: after a run
  -- that refunded it, a further run changes nothing.
  pub fire_refund-once :
      (now_ms : ℕ) (job : DispatchJob) (row : JobRow) (w : World)
      → w.faults ≡ []
      → get job.request_id w.dispatch_jobs ≡ some row
      → settlement.refund_funds (escrow_handle settlement escrow_from_str job) ≡ ok tt
      → let (result, w') = fire_refund settlement escrow_from_str job w in
        (result ≡ ok tt)
        × (w'.refunds ≡ w.refunds ++ escrow_handle settlement escrow_from_str job ∷ [])
        × (handle_dispatch_timeout settlement escrow_from_str now_ms job w' ≡ (ok tt, w'))
  fire_refund-once now_ms job row w h g e =
      rw (fire_refund_ok settlement escrow_from_str job w h e) (
        refl,
        refl,
        skips_done now_ms job marked h (ap (λ (o : Option JobRow). is_done (row_status o)) stored),
      )
    where
      marked : World
      marked =
          set_status job.request_id (codes "Refunded")
            (record w { refunds = w.refunds ++ escrow_handle settlement escrow_from_str job ∷ [] })

      stored : get job.request_id marked.dispatch_jobs ≡ some (with_status (codes "Refunded") row)
      stored = get-modify_self job.request_id (with_status (codes "Refunded")) row w.dispatch_jobs g

  -- Where the database answers, the watcher is scheduled at the deadline's whole second; and for a
  -- deadline that is not on a whole second, a run at the scheduled second ends the job with no
  -- refund.
  pub push-runs_early :
      (job : DispatchJob) (w v : World)
      → w.faults ≡ []
      → job.deadline_ms % 1000 ≢ 0
      → ((push job w).1.scheduled ≡ w.scheduled ++ (job, as_i64 (job.deadline_ms / 1000)) ∷ [])
        × (handle_dispatch_timeout settlement escrow_from_str (job.deadline_ms / 1000 * 1000) job v
            ≡ (ok tt, v))
  unfolding push handle_dispatch_timeout
  push-runs_early job w v h m =
      (rw h, ground (arith, lt→ltb (job.deadline_ms / 1000 * 1000) job.deadline_ms (omega arith)))
