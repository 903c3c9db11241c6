-- ===== src/Mesh/Settled.antt =====
-- An ack and its settlement: src/coordinator/src/mesh/event_loop.rs writes the payment rows and
-- queues the job that src/coordinator/src/jobs/settlement_worker.rs then runs.
use mathlib.Core.Path.{subst}
use mathlib.Core.List.{append-nil}
use mathlib.Core.Option.{some-injective}
use coordinator.Base.{
  ℕ, ◌≤◌, length, ltb, suc, ◌^◌, ◌<◌, List, [], ◌∷◌, ◌++◌, map, true, none, some, ok, nat_eq,
  ==_refl, ◌≡◌, refl, sym, ap, ◌∙◌, arith, All,
}
use coordinator.Base.Map.{Map, get, IsKeyed}
use coordinator.Protocol.Types.{Uuid}
use coordinator.Protocol.External.{External, SignatureLaws}
use coordinator.Protocol.Completion.{
  CompletionAck, CompletionResponse, accepted_with, verify_primary, verify_all_proofs,
}
use coordinator.Protocol.Receipt.{RoutingReceipt}
use coordinator.Store.Defs.{World, PaymentRow, SettleReq}
use coordinator.Payments.Amount.{as_u64-as_i64}
use coordinator.Payments.Ledger.{pending_rows}
use coordinator.Payments.Split.{PayoutLine, compute_payouts}
use coordinator.Payments.Inserts.{IsFresh, numbered}
use coordinator.Settlement.Sidecar.{settle_request}
use coordinator.Settlement.Worker.{SettlementJob, Json, handle_settlement}
use coordinator.Settlement.Drain.{request_for, handle_settlement-drains}
use coordinator.Registry.{PeerId}
use coordinator.Mesh.{EventLoop, Channel, MeshExternal}
use coordinator.Mesh.Ack.{handle_completion_ack, payout_addresses_of, settlement_job}
use coordinator.Mesh.AckSteps.{written, queue_after}
use coordinator.Mesh.AckLaws.{Accepted, handle_completion_ack-accepts}

pending_rows-append :
    (q : Uuid) (xs ys : Map Uuid PaymentRow)
    → pending_rows q (xs ++ ys) ≡ pending_rows q xs ++ pending_rows q ys
pending_rows-append q [] ys = refl
pending_rows-append q ((i, r) ∷ xs) ys = ground (arith, pending_rows-append q xs ys)

pending_rows-numbered :
    (q n : ℕ) (lines : List PayoutLine) → pending_rows q (numbered q n lines) ≡ numbered q n lines
pending_rows-numbered q n [] = refl
pending_rows-numbered q n (l ∷ ls) = rw (==_refl q, pending_rows-numbered q (suc n) ls) refl

get-numbered : (i q n : ℕ) (lines : List PayoutLine) → i < n → get i (numbered q n lines) ≡ none
get-numbered i q n [] h = refl
get-numbered i q n (l ∷ ls) h = ground (arith, get-numbered i q (suc n) ls, h)

numbered-IsKeyed : (q n : ℕ) (lines : List PayoutLine) → IsKeyed (numbered q n lines)
numbered-IsKeyed q n [] = tt
numbered-IsKeyed q n (l ∷ ls) =
    (get-numbered n q (suc n) ls (omega arith), numbered-IsKeyed q (suc n) ls)

get-append :
    (i : Uuid) (xs ys : Map Uuid PaymentRow)
    → get i xs ≡ none
    → get i ys ≡ none
    → get i (xs ++ ys) ≡ none
get-append i [] ys h g = g
get-append i ((j, r) ∷ xs) ys h g = ground (arith, get-append i xs ys)

append-IsKeyed :
    (q n : ℕ) (lines : List PayoutLine) (rows : Map Uuid PaymentRow)
    → IsFresh n rows
    → IsKeyed rows
    → IsKeyed (rows ++ numbered q n lines)
append-IsKeyed q n lines [] f k = numbered-IsKeyed q n lines
append-IsKeyed q n lines ((i, r) ∷ rows) (f, fs) (k, ks) = (
  get-append i rows (numbered q n lines) k (get-numbered i q n lines f),
  append-IsKeyed q n lines rows fs ks,
)

-- What the sidecar is asked for a payout line.
abbrev pub payment_of : RoutingReceipt → PayoutLine → SettleReq
payment_of receipt line = settle_request receipt line.sui_address line.amount_nanox

requests-numbered :
    (receipt : RoutingReceipt) (q n : ℕ) (lines : List PayoutLine)
    → All (λ (line : PayoutLine). line.amount_nanox < 2 ^ 64) lines
    → map (request_for receipt) (numbered q n lines) ≡ map (payment_of receipt) lines
requests-numbered receipt q n [] h = refl
requests-numbered receipt q n (l ∷ ls) (h, hs) =
    rw (as_u64-as_i64 l.amount_nanox h, requests-numbered receipt q (suc n) ls hs) refl

abbrev pub lines_of : CompletionAck → EventLoop → List PayoutLine
lines_of ack l = compute_payouts ack (payout_addresses_of (get ack.request_id l.in_flight))

-- The job that an ack leaves, if it has anything to pay.
abbrev pub jobs_for :
    MeshExternal → External → List PayoutLine → RoutingReceipt → List SettlementJob
jobs_for m x [] receipt = []
jobs_for m x (line ∷ lines) receipt = settlement_job x m receipt ∷ []

queue_after-jobs_for :
    (x : External) (m : MeshExternal) (lines : List PayoutLine) (receipt : RoutingReceipt)
    (l : EventLoop) (tx : Channel SettlementJob)
    → l.settlement_tx ≡ some tx
    → tx.is_open ≡ true
    → suc (length tx.queue) ≤ tx.capacity
    → queue_after x m true lines receipt l
      ≡ some (record tx { queue = tx.queue ++ jobs_for m x lines receipt })
queue_after-jobs_for x m [] receipt l tx e o room =
    e ∙ ap (λ jobs. some (record tx { queue = jobs })) (sym (append-nil tx.queue))
queue_after-jobs_for x m (line ∷ lines) receipt l tx e o room =
    let space : ltb (length tx.queue) tx.capacity ≡ true = ground (arith, room) in
    rw (e, o, space) refl

-- What the worker's run on the job of a receipt does in the state that an ack left.
pub record Settled (x : External) (m : MeshExternal) (json : Json) (ack : CompletionAck)
    (l : EventLoop) (w : World) (after : CompletionResponse × (EventLoop × World))
    (receipt : RoutingReceipt) (tx : Channel SettlementJob) : Type 0 where
  pub queued :
      after.1.0.settlement_tx
      ≡ some (record tx { queue = tx.queue ++ jobs_for m x (lines_of ack l) receipt })
  pub succeeds : (handle_settlement json (settlement_job x m receipt) after.1.1).0 ≡ ok tt
  pub asks :
      (handle_settlement json (settlement_job x m receipt) after.1.1).1.http_sent
      ≡ w.http_sent ++ map (payment_of receipt) (lines_of ack l)

settled_lem :
    (x : External) (m : MeshExternal) (json : Json) (sender : PeerId) (ack : CompletionAck)
    (l : EventLoop) (w : World) (after : CompletionResponse × (EventLoop × World))
    (a : Accepted x m sender ack l w after) (tx : Channel SettlementJob)
    → IsFresh w.next_id w.payments
    → IsKeyed w.payments
    → l.has_pg_pool ≡ true
    → l.settlement_tx ≡ some tx
    → tx.is_open ≡ true
    → suc (length tx.queue) ≤ tx.capacity
    → pending_rows ack.request_id w.payments ≡ []
    → All (λ (line : PayoutLine). line.amount_nanox < 2 ^ 64) (lines_of ack l)
    → json.receipt_from_str (settlement_job x m a.receipt).receipt_json ≡ some a.receipt
    → Settled x m json ack l w after a.receipt tx
settled_lem x m json sender ack l w after a tx f k pool sender_there is_open room none_due amounts
      j =
    let lines = lines_of ack l in
    let w' = after.1.1 in
    let new = numbered ack.request_id w.next_id lines in
    let rows : w'.payments ≡ w.payments ++ new =
      a.inserted
      ∙ ap (λ b. w.payments ++ numbered ack.request_id w.next_id (written b lines)) pool in
    let keyed : IsKeyed w'.payments =
      rw rows (append-IsKeyed ack.request_id w.next_id lines w.payments f k) in
    let (done, sent, each) =
      handle_settlement-drains json (settlement_job x m a.receipt) a.receipt w' a.healthy keyed j in
    let due : pending_rows a.receipt.request_id w'.payments ≡ new =
      rw (a.request, rows, pending_rows-append ack.request_id w.payments new, none_due)
        (pending_rows-numbered ack.request_id w.next_id lines) in
    record {
      queued =
          a.queued
          ∙ ap (λ b. queue_after x m b lines a.receipt l) pool
          ∙ queue_after-jobs_for x m lines a.receipt l tx sender_there is_open room;
      succeeds = done;
      asks =
          sent
          ∙ ap (λ due_rows. w'.http_sent ++ map (request_for a.receipt) due_rows) due
          ∙ ap (λ asked. w'.http_sent ++ asked)
              (requests-numbered a.receipt ack.request_id w.next_id lines amounts)
          ∙ ap (λ before. before ++ map (payment_of a.receipt) lines) a.sent;
    }

-- The whole way of a payment. Where an ack is accepted with a receipt, the database answers, there is
-- a pool, and the channel to the settlement worker is open and has room, the job with that receipt is
-- queued in it, last, if the ack has payout lines, and nothing is if it has none; and a run of the settlement worker on that
-- job, from the state that the ack left, ends well and asks the sidecar for exactly the payout lines
-- of the ack, in their order, each at the address on record and for the price of its proof. This is for an ack
-- whose signatures verify and whose request has no pending rows from before, identifiers of payment
-- rows that are fresh and distinct, amounts below 2 ^ 64, and a receipt that serde_json reads back.
pub handle_completion_ack-Settled :
    (x : External) (m : MeshExternal) (json : Json)
    → SignatureLaws x
    → (now_ms : ℕ) (sender : PeerId) (ack : CompletionAck) (l : EventLoop) (w : World)
      (receipt : RoutingReceipt) (tx : Channel SettlementJob)
    → verify_primary x ack ≡ ok tt
    → verify_all_proofs x ack ≡ ok tt
    → w.faults ≡ []
    → IsFresh w.next_id w.payments
    → IsKeyed w.payments
    → l.has_pg_pool ≡ true
    → l.settlement_tx ≡ some tx
    → tx.is_open ≡ true
    → suc (length tx.queue) ≤ tx.capacity
    → pending_rows ack.request_id w.payments ≡ []
    → All (λ (line : PayoutLine). line.amount_nanox < 2 ^ 64) (lines_of ack l)
    → (handle_completion_ack x m now_ms sender ack l w).0 ≡ accepted_with receipt
    → json.receipt_from_str (settlement_job x m receipt).receipt_json ≡ some receipt
    → Settled x m json ack l w (handle_completion_ack x m now_ms sender ack l w) receipt tx
handle_completion_ack-Settled x m json s now_ms sender ack l w receipt tx p q h f k pool
      sender_there is_open room none_due amounts answered j =
    let a = handle_completion_ack-accepts x m s now_ms sender ack l w p q h f in
    let after = handle_completion_ack x m now_ms sender ack l w in
    let same : receipt ≡ a.receipt =
      some-injective _ _
        (ap (λ (r : CompletionResponse). r.routing_receipt) (sym answered ∙ a.answers)) in
    let read =
      subst (λ r. json.receipt_from_str (settlement_job x m r).receipt_json ≡ some r) same j in
    subst (λ r. Settled x m json ack l w after r tx) (sym same)
      (settled_lem x m json sender ack l w after a tx f k pool sender_there is_open room none_due
        amounts read)
