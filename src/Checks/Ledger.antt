-- ===== src/Checks/Ledger.antt =====
-- The theorems on payments, jobs and the archives, at concrete rows.
use coordinator.Base.{
  ◌+◌, ◌<◌, ◌≤◌, [], ◌∷◌, ◌++◌, map, Text, Option, none, true, false, some, ok, err, codes, All,
  ◌≡◌, ◌⊎◌, refl, nat_eq, arith,
}
use coordinator.Base.Map.{get}
use coordinator.Protocol.Types.{Uuid}
use coordinator.Protocol.Receipt.{RoutingReceipt}
use coordinator.Store.Columns.{Failure, settlement_error}
use coordinator.Store.Defs.{PaymentRow}
use coordinator.Settlement.Once.{handle_settlement-settles_once}
use coordinator.Store.Archives.{last_put, put_each, archives-last_put}
use coordinator.Store.Archive.{memory_archive, postgres_archive}
use coordinator.Store.Receipts.{InMemoryReceiptArchive, memory_get}
use coordinator.Payments.Split.{
  IsDue, compute_payouts, compute_payouts-IsDue, total_paid, total_addressed, total_unaddressed,
  total_declared,
}
use coordinator.Payments.Amount.{as_i64}
use coordinator.Payments.Ledger.{pending_rows}
use coordinator.Settlement.Adapter.{free_settlement}
use coordinator.Settlement.Worker.{handle_settlement}
use coordinator.Settlement.Pending.{due}
use coordinator.Settlement.Drain.{request_for, IsSettled, reply_to, handle_settlement-drains}
use coordinator.Jobs.Job.{completed}
use coordinator.Jobs.Tracking.{push, mark_completed, get_status, set_status, status_of}
use coordinator.Jobs.Timeout.{
  is_done, escrow_handle, handle_dispatch_timeout, handle_dispatch_timeout_cases, fire_refund,
}
use coordinator.Jobs.Laws.{mark_completed-stops_refund, fire_refund-once, push-runs_early}
use coordinator.Checks.Data.{
  addresses, some_ack, some_world, some_json, settlement_job, some_receipt, some_job, job_row,
  no_escrow,
}

compute_payouts-IsDue_example :
    All (IsDue addresses some_ack.proofs) (compute_payouts some_ack addresses)
    × (total_paid (compute_payouts some_ack addresses) ≡ total_addressed addresses some_ack.proofs)
    × (total_paid (compute_payouts some_ack addresses) + total_unaddressed addresses some_ack.proofs
        ≡ total_declared addresses some_ack.proofs)
compute_payouts-IsDue_example = compute_payouts-IsDue addresses some_ack

handle_settlement-drains_example :
    let (result, w') = handle_settlement some_json settlement_job some_world in
    (result ≡ ok tt)
    × (w'.http_sent ≡ [] ++ map (request_for some_receipt) (pending_rows 5 some_world.payments))
    × ((i : Uuid) (row : PaymentRow)
        → get i some_world.payments ≡ some row
        → ((due 5 row ≡ true)
            × ((row' : PaymentRow) × (get i w'.payments ≡ some row')
                × IsSettled some_json
                    (reply_to i (pending_rows 5 some_world.payments) some_world.http_replies)
                    row
                    row'))
          ⊎ ((due 5 row ≡ false) × (get i w'.payments ≡ some row)))
handle_settlement-drains_example =
    handle_settlement-drains some_json settlement_job some_receipt some_world refl
      (refl, (refl, tt)) refl

handle_settlement-settles_once_example :
    let w' = (handle_settlement some_json settlement_job some_world).1 in
    (pending_rows 5 w'.payments ≡ [])
    × (handle_settlement some_json settlement_job w' ≡ (ok tt, w'))
handle_settlement-settles_once_example =
    handle_settlement-settles_once some_json settlement_job some_receipt some_world refl
      (refl, (refl, tt)) refl

-- Receipts that differ in their time stamp alone.
abbrev stamp_of : RoutingReceipt → Text
stamp_of r = r.timestamp_ms ∷ []

abbrev stamped : Text → Option RoutingReceipt
stamped [] = none
stamped (t ∷ rest) = some (record some_receipt { timestamp_ms = t })

archives-last_put_example :
    let a : InMemoryReceiptArchive = record { receipts = [] } in
    let puts = some_receipt ∷ record some_receipt { timestamp_ms = 91 } ∷ [] in
    let held = last_put 5 puts (memory_get 5 a) in
    let archive = postgres_archive stamp_of stamped in
    ((memory_archive.get_by_request 5 (put_each memory_archive puts a)).0 ≡ ok held)
    × ((archive.get_by_request 5 (put_each archive puts some_world)).0 ≡ ok held)
unfolding memory_get
archives-last_put_example =
    archives-last_put stamp_of stamped 5
      (some_receipt ∷ record some_receipt { timestamp_ms = 91 } ∷ []) (record { receipts = [] })
      some_world (refl, (refl, tt)) refl (λ q json h. cc) refl

handle_dispatch_timeout_cases_example :
    let handle = escrow_handle free_settlement no_escrow some_job in
    let fired = record some_world { refunds = handle ∷ [] } in
    let run = handle_dispatch_timeout free_settlement no_escrow 62000 some_job some_world in
    (((62000 < 61500) ⊎ (is_done (status_of 5 some_world) ≡ true)) × (run ≡ (ok tt, some_world)))
    ⊎ ((61500 ≤ 62000)
        × (is_done (status_of 5 some_world) ≡ false)
        × (((free_settlement.refund_funds handle ≡ ok tt)
              × (run ≡ (ok tt, set_status 5 (codes "Refunded") fired)))
            ⊎ ((e : Failure) × (free_settlement.refund_funds handle ≡ err e)
                × (run ≡ (err settlement_error, fired)))))
handle_dispatch_timeout_cases_example =
    handle_dispatch_timeout_cases free_settlement no_escrow 62000 some_job some_world refl

mark_completed-stops_refund_example :
    let w' = (mark_completed 5 some_world).1 in
    ((mark_completed 5 some_world).0 ≡ ok tt)
    × ((get_status 5 w').0 ≡ ok (some completed))
    × (handle_dispatch_timeout free_settlement no_escrow 62000 some_job w' ≡ (ok tt, w'))
mark_completed-stops_refund_example =
    mark_completed-stops_refund free_settlement no_escrow 62000 some_job job_row some_world refl
      refl

fire_refund-once_example :
    let (result, w') = fire_refund free_settlement no_escrow some_job some_world in
    (result ≡ ok tt)
    × (w'.refunds ≡ [] ++ escrow_handle free_settlement no_escrow some_job ∷ [])
    × (handle_dispatch_timeout free_settlement no_escrow 62000 some_job w' ≡ (ok tt, w'))
unfolding free_settlement
fire_refund-once_example =
    fire_refund-once free_settlement no_escrow 62000 some_job job_row some_world refl refl refl

push-runs_early_example :
    ((push some_job some_world).1.scheduled ≡ [] ++ (some_job, as_i64 61) ∷ [])
    × (handle_dispatch_timeout free_settlement no_escrow 61000 some_job some_world
        ≡ (ok tt, some_world))
push-runs_early_example =
    push-runs_early free_settlement no_escrow some_job some_world some_world refl (omega arith)
