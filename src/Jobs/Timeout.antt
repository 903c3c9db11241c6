-- ===== src/Jobs/Timeout.antt =====
-- `handle_dispatch_timeout` of src/coordinator/src/jobs/worker.rs. `now_ms` is the clock, the
-- adapter is the one that the worker was given, and `escrow_from_str` is serde_json.
use coordinator.Base.{
  ℕ, ◌<◌, ◌≤◌, ◌≡◌, ap, ◌∙◌, Bool, true, false, ◌||◌, ◌==◌, text_eq, nat_eq, Text, codes, Option,
  none, some, [], ◌∷◌, ◌++◌, Outcome, ok, err, ltb, if◌then◌else◌, Bool-cases, Outcome-cases,
  ltb→lt, inl, inr, ◌⊎◌, arith,
}
use coordinator.Protocol.Types.{Uuid}
use coordinator.Settlement.Adapter.{EscrowHandle, SettlementAdapter}
use coordinator.Store.Columns.{Failure, settlement_error}
use coordinator.Store.Defs.{World, Action, ◌>>=◌, ◌>>◌, pure, raise, execute, fetch}
use coordinator.Jobs.Job.{DispatchJob}
use coordinator.Jobs.Tracking.{set_status, status_of}

abbrev pub is_done : Option Text → Bool
is_done none = false
is_done (some s) = s == codes "Completed" || s == codes "Refunded"

-- The handle that is refunded where the job's text does not parse.
abbrev pub fallback_handle : Uuid → EscrowHandle
fallback_handle request_id = record {
  settlement_id = codes "free";
  request_id = request_id;
  amount_nanox = 0;
  chain_tx_id = none;
  payload_json = codes "{}";
}

abbrev pub handle_of : Option EscrowHandle → Uuid → EscrowHandle
handle_of none request_id = fallback_handle request_id
handle_of (some handle) request_id = handle

-- `settlement.refund_funds(&handle)`, logged, with its error mapped.
abbrev refunded_with : Outcome Failure (Unit {0}) → Action (Unit {0})
refunded_with (ok _) = pure tt
refunded_with (err e) = raise settlement_error

abbrev pub refund : SettlementAdapter → EscrowHandle → Action (Unit {0})
refund settlement handle w =
    refunded_with (settlement.refund_funds handle) (record w { refunds = w.refunds ++ handle ∷ [] })

module _ (settlement : SettlementAdapter) (escrow_from_str : Text → Option EscrowHandle) where
  abbrev pub escrow_handle : DispatchJob → EscrowHandle
  escrow_handle job = handle_of (escrow_from_str job.escrow_handle_json) job.request_id

  unfoldable pub fire_refund : DispatchJob → Action (Unit {0})
  fire_refund job = do
    refund settlement (escrow_handle job)
    execute (set_status job.request_id (codes "Refunded"))

  abbrev unless_done : DispatchJob → Bool → Action (Unit {0})
  unless_done job true = pure tt
  unless_done job false = fire_refund job

  abbrev at_deadline : DispatchJob → Action (Unit {0})
  at_deadline job = do status ← fetch (status_of job.request_id); unless_done job (is_done status)

  unfoldable pub handle_dispatch_timeout : ℕ → DispatchJob → Action (Unit {0})
  unfolding fire_refund
  handle_dispatch_timeout now_ms job =
      if ltb now_ms job.deadline_ms then pure tt else at_deadline job

  refund_then :
      (job : DispatchJob) (r : Outcome Failure (Unit {0})) (w : World)
      → settlement.refund_funds (escrow_handle job) ≡ r
      → fire_refund job w
        ≡ (refunded_with r >> execute (set_status job.request_id (codes "Refunded")))
            (record w { refunds = w.refunds ++ escrow_handle job ∷ [] })
  unfolding fire_refund
  refund_then job r w e =
      ap
        (λ (o : Outcome Failure (Unit {0})).
          (refunded_with o >> execute (set_status job.request_id (codes "Refunded")))
            (record w { refunds = w.refunds ++ escrow_handle job ∷ [] }))
        e

  pub fire_refund_ok :
      (job : DispatchJob) (w : World)
      → w.faults ≡ []
      → settlement.refund_funds (escrow_handle job) ≡ ok tt
      → fire_refund job w ≡ (
        ok tt,
        set_status job.request_id
            (codes "Refunded")
            (record w { refunds = w.refunds ++ escrow_handle job ∷ [] }),
      )
  unfolding fire_refund
  fire_refund_ok job w h e = refund_then job (ok tt) w e ∙ rw h

  fire_refund_err :
      (job : DispatchJob) (w : World) (x : Failure)
      → settlement.refund_funds (escrow_handle job) ≡ err x
      → fire_refund job w
        ≡ (err settlement_error, record w { refunds = w.refunds ++ escrow_handle job ∷ [] })
  unfolding fire_refund
  fire_refund_err job w x e = refund_then job (err x) w e

  timeout_late :
      (now_ms : ℕ) (job : DispatchJob) (w : World)
      → w.faults ≡ []
      → ltb now_ms job.deadline_ms ≡ false
      → is_done (status_of job.request_id w) ≡ false
      → handle_dispatch_timeout now_ms job w ≡ fire_refund job w
  unfolding handle_dispatch_timeout
  timeout_late now_ms job w h late open_job = rw late (rw h (rw open_job))

  -- When the database answers: before the deadline, and for a job that is completed or refunded,
  -- nothing happens; otherwise the job's escrow is refunded by one call, and where that succeeds
  -- the job is marked refunded, and where it fails the job is left as it was with an error.
  pub handle_dispatch_timeout_cases :
      (now_ms : ℕ) (job : DispatchJob) (w : World)
      → w.faults ≡ []
      → let fired = record w { refunds = w.refunds ++ escrow_handle job ∷ [] } in
        let run = handle_dispatch_timeout now_ms job w in
        (((now_ms < job.deadline_ms) ⊎ (is_done (status_of job.request_id w) ≡ true))
          × (run ≡ (ok tt, w)))
        ⊎ ((job.deadline_ms ≤ now_ms)
            × (is_done (status_of job.request_id w) ≡ false)
            × (((settlement.refund_funds (escrow_handle job) ≡ ok tt)
                  × (run ≡ (ok tt, set_status job.request_id (codes "Refunded") fired)))
                ⊎ ((e : Failure) × (settlement.refund_funds (escrow_handle job) ≡ err e)
                    × (run ≡ (err settlement_error, fired)))))
  unfolding handle_dispatch_timeout
  handle_dispatch_timeout_cases now_ms job w h = elim (Bool-cases (ltb now_ms job.deadline_ms)) [
    | inl early ↦ inl (inl (ltb→lt _ _ early), rw early)
    | inr late ↦ elim (Bool-cases (is_done (status_of job.request_id w))) [
      | inl done ↦ inl (inr done, rw (late, h, done))
      | inr open_job ↦
          rw (timeout_late now_ms job w h late open_job) (inr (ground arith, open_job, fires))
    ]
  ]
    where
      fires :
          ((settlement.refund_funds (escrow_handle job) ≡ ok tt)
            × (fire_refund job w ≡ (
              ok tt,
              set_status job.request_id
                  (codes "Refunded")
                  (record w { refunds = w.refunds ++ escrow_handle job ∷ [] }),
            )))
          ⊎ ((e : Failure) × (settlement.refund_funds (escrow_handle job) ≡ err e)
              × (fire_refund job w ≡ (
                err settlement_error,
                record w { refunds = w.refunds ++ escrow_handle job ∷ [] },
              )))
      fires = elim (Outcome-cases (settlement.refund_funds (escrow_handle job))) [
        | inl (u, e) ↦ inl (e, fire_refund_ok job w h e)
        | inr (x, e) ↦ inr (x, e, fire_refund_err job w x e)
      ]
