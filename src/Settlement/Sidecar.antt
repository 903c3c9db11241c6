-- ===== src/Settlement/Sidecar.antt =====
-- `SidecarClient::settle` of src/coordinator/src/onchain/sui.rs: one HTTP request for one payee.
-- `decode` is serde_json at `SettleResp`. The client's secret and base URL do not change.
use coordinator.Base.{
  ℕ, List, [], ◌∷◌, ◌++◌, Text, true, false, Option, none, some, Outcome, ok, err,
}
use coordinator.Protocol.Receipt.{RoutingReceipt}
use coordinator.Store.Columns.{Failure, sidecar_error}
use coordinator.Store.Defs.{Action, SettleReq, HttpReply, unreachable, answered}

abbrev pub settle_request : RoutingReceipt → Text → ℕ → SettleReq
settle_request receipt payee_sui_address amount_nanox = record {
  request_id = receipt.request_id;
  payee_sui_address = payee_sui_address;
  amount_nanox = amount_nanox;
  timestamp_ms = receipt.timestamp_ms;
  aggregated_output_hash = receipt.aggregated_output_hash;
  payouts = receipt.payouts;
  signature = receipt.signature;
}

-- How the reply is read: the status first, then the body.
unfoldable pub read_reply : (Text → Option Text) → HttpReply → Outcome Failure Text
read_reply decode unreachable = err sidecar_error
read_reply decode (answered false body) = err sidecar_error
read_reply decode (answered true body) = elim (decode body) [
  | none ↦ err sidecar_error
  | some tx_digest ↦ ok tx_digest
]

abbrev pub next_reply : List HttpReply → HttpReply × List HttpReply
next_reply [] = (unreachable, [])
next_reply (r ∷ rs) = (r, rs)

-- The request is logged, the next reply is taken and read. The result does not end the action: the
-- callers look at it.
unfoldable pub settle :
    (Text → Option Text) → RoutingReceipt → Text → ℕ → Action (Outcome Failure Text)
unfolding read_reply
settle decode receipt payee amount w =
    let (reply, rest) = next_reply w.http_replies in
    (
      ok (read_reply decode reply),
      record w {
        http_replies = rest;
        http_sent = w.http_sent ++ settle_request receipt payee amount ∷ [];
      },
    )
