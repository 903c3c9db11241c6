-- ===== src/Settlement/Adapter.antt =====
-- src/coordinator/src/settlement: the escrow types, the adapter interface and its two adapters.
-- Neither moves value; they differ in the name that a handle carries.
use coordinator.Base.{Text, Option, none, Outcome, ok, codes}
use coordinator.Protocol.Types.{Uuid, NanoX}
use coordinator.Protocol.Proof.{ProofOfInference}
use coordinator.Store.Columns.{Failure}

pub record EscrowParams : Type 0 where
  pub request_id : Uuid
  pub amount_nanox : NanoX
  pub client_address : Text
  pub node_address : Text
  pub token_id : Option Text

pub record EscrowHandle : Type 0 where
  pub settlement_id : Text
  pub request_id : Uuid
  pub amount_nanox : NanoX
  pub chain_tx_id : Option Text
  pub payload_json : Text

pub record SettlementAdapter : Type 0 where
  pub id : Text
  pub lock_funds : EscrowParams → Outcome Failure EscrowHandle
  pub release_funds : EscrowHandle → ProofOfInference → Outcome Failure (Unit {0})
  pub refund_funds : EscrowHandle → Outcome Failure (Unit {0})

abbrev handle_for : Text → EscrowParams → EscrowHandle
handle_for id params = record {
  settlement_id = id;
  request_id = params.request_id;
  amount_nanox = params.amount_nanox;
  chain_tx_id = none;
  payload_json = codes "{}";
}

unfoldable pub free_settlement : SettlementAdapter
free_settlement = record {
  id = codes "free";
  lock_funds = λ params. ok (handle_for (codes "free") params);
  release_funds = λ handle proof. ok tt;
  refund_funds = λ handle. ok tt;
}

unfoldable pub receipt_settlement : SettlementAdapter
receipt_settlement = record {
  id = codes "receipt";
  lock_funds = λ params. ok (handle_for (codes "receipt") params);
  release_funds = λ handle proof. ok tt;
  refund_funds = λ handle. ok tt;
}
