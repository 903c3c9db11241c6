-- ===== src/Settlement/Worker.antt =====
-- `handle_settlement` of src/coordinator/src/jobs/settlement_worker.rs. An error ends the job, and
-- the job queue (apalis) decides whether it runs again.
use coordinator.Base.{[], ◌∷◌, Text, Option, none, some, Outcome, ok, err}
use coordinator.Base.Map.{Map}
use coordinator.Protocol.Types.{Uuid}
use coordinator.Protocol.Receipt.{RoutingReceipt}
use coordinator.Store.Columns.{Failure, deserialize}
use coordinator.Store.Defs.{Action, ◌>>=◌, ◌>>◌, pure, raise, PaymentRow}
use coordinator.Payments.Amount.{as_u64}
use coordinator.Payments.Ledger.{pending_for_request, mark_submitted, mark_failed}
use coordinator.Settlement.Sidecar.{settle}

pub record SettlementJob : Type 0 where
  pub request_id : Uuid
  pub receipt_json : Text

-- serde_json: the receipt in a job, and the digest in a reply of the sidecar.
pub record Json : Type 0 where
  pub receipt_to_string : RoutingReceipt → Option Text
  pub receipt_from_str : Text → Option RoutingReceipt
  pub settle_resp_from_str : Text → Option Text

module _ (json : Json) where
  -- What is written for a row, by how the settle call ended.
  unfoldable pub record_outcome : Uuid → Outcome Failure Text → Action (Unit {0})
  record_outcome id (ok digest) = mark_submitted id digest
  record_outcome id (err e) = mark_failed id

  -- The loop over the rows.
  unfoldable pub settle_rows : RoutingReceipt → Map Uuid PaymentRow → Action (Unit {0})
  unfolding record_outcome
  settle_rows receipt [] = pure tt
  settle_rows receipt ((id, row) ∷ rows) = do
    outcome ←
        settle json.settle_resp_from_str receipt row.payee_sui_address (as_u64 row.amount_nanox)
    record_outcome id outcome
    settle_rows receipt rows

  abbrev pub settle_parsed : Option RoutingReceipt → Map Uuid PaymentRow → Action (Unit {0})
  settle_parsed none rows = raise deserialize
  settle_parsed (some receipt) rows = settle_rows receipt rows

  -- No pending row: nothing is read from the job. Otherwise the receipt is parsed first.
  unfoldable pub settle_pending : SettlementJob → Map Uuid PaymentRow → Action (Unit {0})
  unfolding settle_rows
  settle_pending job [] = pure tt
  settle_pending job (row ∷ rows) =
      settle_parsed (json.receipt_from_str job.receipt_json) (row ∷ rows)

  unfoldable pub handle_settlement : SettlementJob → Action (Unit {0})
  unfolding settle_pending
  handle_settlement job = pending_for_request job.request_id >>= settle_pending job
