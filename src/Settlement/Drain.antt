-- ===== src/Settlement/Drain.antt =====
-- What one run of the settlement worker does when the database answers: every pending row of its
-- request is sent to the sidecar once and leaves `pending`, and no other row changes.
use coordinator.Base.{
  ◌≡◌, refl, sym, ◌∙◌, List, if◌then◌else◌, [], ◌∷◌, ◌++◌, map, Text, true, false, ◌==◌, nat_eq,
  none, some, Outcome, ok, err, ◌⊎◌, inl, inr, Bool-cases, arith,
}
use mathlib.Core.List.{append-nil, append_assoc}
use coordinator.Base.Map.{Map, get, modify, IsKeyed, get-modify_self, get-modify_ne}
use coordinator.Protocol.Types.{Uuid}
use coordinator.Protocol.Receipt.{RoutingReceipt}
use coordinator.Store.Columns.{Failure}
use coordinator.Store.Defs.{
  World, Action, ◌>>◌, PaymentRow, submitted, failed, SettleReq, HttpReply, unreachable,
}
use coordinator.Payments.Amount.{as_u64}
use coordinator.Payments.Ledger.{
  pending_rows, pending_for_request, set_submitted, set_status, mark_submitted, mark_failed,
}
use coordinator.Settlement.Sidecar.{settle_request, read_reply, next_reply, settle}
use coordinator.Settlement.Worker.{
  SettlementJob, Json, record_outcome, settle_rows, settle_pending, handle_settlement,
}
use coordinator.Settlement.Pending.{due, pending_rows-IsKeyed, get-pending_rows}

-- The row as a settle call leaves it.
abbrev pub outcome_row : Outcome Failure Text → PaymentRow → PaymentRow
outcome_row (ok digest) row = set_submitted digest row
outcome_row (err e) row = set_status failed row

-- The reply was a digest, and the row is submitted under it; or it was none, and the row is failed.
abbrev pub IsSettled : Json → HttpReply → PaymentRow → PaymentRow → Type 0
IsSettled json reply row row' =
    ((digest : Text) × (read_reply json.settle_resp_from_str reply ≡ ok digest)
      × (row' ≡ record row { status = submitted; tx_digest = some digest }))
    ⊎ ((e : Failure) × (read_reply json.settle_resp_from_str reply ≡ err e)
        × (row' ≡ record row { status = failed }))

-- The reply to the request for a row: the replies come in the order of the rows.
abbrev pub reply_to : Uuid → Map Uuid PaymentRow → List HttpReply → HttpReply
reply_to i [] replies = unreachable
reply_to i ((j, row) ∷ rows) replies =
    if j == i then (next_reply replies).0 else reply_to i rows (next_reply replies).1

outcome_row-IsSettled :
    (json : Json) (reply : HttpReply) (o : Outcome Failure Text) (row : PaymentRow)
    → read_reply json.settle_resp_from_str reply ≡ o
    → IsSettled json reply row (outcome_row o row)
outcome_row-IsSettled json reply (ok digest) row h = inl (digest, h, refl)
outcome_row-IsSettled json reply (err e) row h = inr (e, h, refl)

record_outcome_then :
    (json : Json) (i : Uuid) (o : Outcome Failure Text) (k : Action (Unit {0})) (w : World)
    → w.faults ≡ []
    → (record_outcome json i o >> k) w
      ≡ k (record w { payments = modify i (outcome_row o) w.payments })
unfolding record_outcome mark_submitted mark_failed
record_outcome_then json i (ok digest) k w h = rw h
record_outcome_then json i (err e) k w h = rw h

abbrev pub request_for : RoutingReceipt → Uuid × PaymentRow → SettleReq
request_for receipt (_, row) =
    settle_request receipt row.payee_sui_address (as_u64 row.amount_nanox)

-- The world when the first row has been dealt with.
abbrev pub after_row : Json → RoutingReceipt → Uuid → PaymentRow → World → World
after_row json receipt i row w =
    let (reply, rest) = next_reply w.http_replies in
    record w {
      payments = modify i (outcome_row (read_reply json.settle_resp_from_str reply)) w.payments;
      http_replies = rest;
      http_sent = w.http_sent ++ request_for receipt (i, row) ∷ [];
    }

pub settle_rows_step :
    (json : Json) (receipt : RoutingReceipt) (i : Uuid) (row : PaymentRow)
    (rows : Map Uuid PaymentRow) (w : World)
    → w.faults ≡ []
    → settle_rows json receipt ((i, row) ∷ rows) w
      ≡ settle_rows json receipt rows (after_row json receipt i row w)
unfolding settle_rows settle
settle_rows_step json receipt i row rows w h =
    record_outcome_then json i (read_reply json.settle_resp_from_str (next_reply w.http_replies).0)
      (settle_rows json receipt rows) _ h

-- What the loop has done with the rows `todo`.
record Drained (json : Json) (receipt : RoutingReceipt) (todo : Map Uuid PaymentRow) (w w' : World)
    : Type 0 where
  sent : w'.http_sent ≡ w.http_sent ++ map (request_for receipt) todo
  others : (i : Uuid) → get i todo ≡ none → get i w'.payments ≡ get i w.payments
  each :
      (i : Uuid) (row row₀ : PaymentRow)
      → get i todo ≡ some row₀
      → get i w.payments ≡ some row
      → (row' : PaymentRow) × (get i w'.payments ≡ some row')
        × IsSettled json (reply_to i todo w.http_replies) row row'

module _ (json : Json) (receipt : RoutingReceipt) (j : Uuid) (r : PaymentRow)
    (todo : Map Uuid PaymentRow) (w w' : World) (new : get j todo ≡ none)
    (d : Drained json receipt todo (after_row json receipt j r w) w') where
  outcome : Outcome Failure Text
  outcome = read_reply json.settle_resp_from_str (next_reply w.http_replies).0

  cons-others : (i : Uuid) → get i ((j, r) ∷ todo) ≡ none → get i w'.payments ≡ get i w.payments
  unfolding outcome
  cons-others i e =
      ground
        (arith, nat_eq.beq_iff j i, d.others i, get-modify_ne j i (outcome_row outcome) w.payments)

  cons-each :
      (i : Uuid) (row row₀ : PaymentRow)
      → get i ((j, r) ∷ todo) ≡ some row₀
      → get i w.payments ≡ some row
      → (row' : PaymentRow) × (get i w'.payments ≡ some row')
        × IsSettled json (reply_to i ((j, r) ∷ todo) w.http_replies) row row'
  unfolding outcome
  cons-each i row row₀ e g = elim (Bool-cases (j == i)) [
    | inl same ↦
        let eq : j ≡ i = (nat_eq.beq_iff j i).0 same in
        (
          outcome_row outcome row,
          ground (
            arith,
            d.others i (rw (← eq) new),
            get-modify_self i (outcome_row outcome) row w.payments g,
          ),
          rw same (outcome_row-IsSettled json (next_reply w.http_replies).0 outcome row refl),
        )
    | inr other ↦
        let later : get i (after_row json receipt j r w).payments ≡ some row =
          ground (arith, nat_eq.beq_iff j i, get-modify_ne j i (outcome_row outcome) w.payments) in
        let (row', found, s) = d.each i row row₀ (ground arith) later in (row', found, rw other s)
  ]

  Drained-cons : Drained json receipt ((j, r) ∷ todo) w w'
  Drained-cons = record {
    sent = d.sent ∙ append_assoc w.http_sent _ _;
    others = cons-others;
    each = cons-each;
  }

settle_rows-Drained :
    (json : Json) (receipt : RoutingReceipt) (todo : Map Uuid PaymentRow) (w : World)
    → w.faults ≡ []
    → IsKeyed todo
    → ((settle_rows json receipt todo w).0 ≡ ok tt)
      × Drained json receipt todo w (settle_rows json receipt todo w).1
unfolding settle_rows
settle_rows-Drained json receipt [] w h k = (
  refl,
  record { sent = sym (append-nil w.http_sent); others = λ i e. refl; each = λ i row r e g. cc },
)
settle_rows-Drained json receipt ((j, r) ∷ todo) w h k =
    let w₁ = after_row json receipt j r w in
    rw (settle_rows_step json receipt j r todo w h) (
      let (done, d) = settle_rows-Drained json receipt todo w₁ h k.1 in
      (done, Drained-cons json receipt j r todo w _ k.0 d))

settle_pending-Drained :
    (json : Json) (job : SettlementJob) (receipt : RoutingReceipt) (todo : Map Uuid PaymentRow)
    (w : World)
    → w.faults ≡ []
    → IsKeyed todo
    → json.receipt_from_str job.receipt_json ≡ some receipt
    → ((settle_pending json job todo w).0 ≡ ok tt)
      × Drained json receipt todo w (settle_pending json job todo w).1
unfolding settle_pending
settle_pending-Drained json job receipt [] w h k e = settle_rows-Drained json receipt [] w h k
settle_pending-Drained json job receipt (x ∷ todo) w h k e =
    rw e (settle_rows-Drained json receipt (x ∷ todo) w h k)

pub handle_settlement_step :
    (json : Json) (job : SettlementJob) (w : World)
    → w.faults ≡ []
    → handle_settlement json job w
      ≡ settle_pending json job (pending_rows job.request_id w.payments) w
unfolding handle_settlement pending_for_request
handle_settlement_step json job w h = rw h

-- A run whose statements all succeed and whose receipt parses, on a table with no id twice, asks
-- the sidecar once for each pending row of the request, in order, at the row's payee and amount;
-- afterwards each of these rows is submitted under the digest where the reply to its own request was
-- a success with a digest, and failed where it was not, and every other row is as it was.
pub handle_settlement-drains :
    (json : Json) (job : SettlementJob) (receipt : RoutingReceipt) (w : World)
    → w.faults ≡ []
    → IsKeyed w.payments
    → json.receipt_from_str job.receipt_json ≡ some receipt
    → let (result, w') = handle_settlement json job w in
      (result ≡ ok tt)
      × (w'.http_sent
          ≡ w.http_sent ++ map (request_for receipt) (pending_rows job.request_id w.payments))
      × ((i : Uuid) (row : PaymentRow)
          → get i w.payments ≡ some row
          → ((due job.request_id row ≡ true)
              × ((row' : PaymentRow) × (get i w'.payments ≡ some row')
                  × IsSettled json
                      (reply_to i (pending_rows job.request_id w.payments) w.http_replies)
                      row
                      row'))
            ⊎ ((due job.request_id row ≡ false) × (get i w'.payments ≡ some row)))
handle_settlement-drains json job receipt w h k e =
    rw (handle_settlement_step json job w h) (done, d.sent, each)
  where
    q : Uuid
    q = job.request_id

    run : Outcome Failure (Unit {0}) × World
    run = settle_pending json job (pending_rows q w.payments) w

    drained : (run.0 ≡ ok tt) × Drained json receipt (pending_rows q w.payments) w run.1
    drained = settle_pending-Drained json job receipt _ w h (pending_rows-IsKeyed q w.payments k) e

    done : run.0 ≡ ok tt
    done = drained.0

    d : Drained json receipt (pending_rows q w.payments) w run.1
    d = drained.1

    each :
        (i : Uuid) (row : PaymentRow)
        → get i w.payments ≡ some row
        → ((due q row ≡ true)
            × ((row' : PaymentRow) × (get i run.1.payments ≡ some row')
                × IsSettled json (reply_to i (pending_rows q w.payments) w.http_replies) row row'))
          ⊎ ((due q row ≡ false) × (get i run.1.payments ≡ some row))
    each i row g = elim (get-pending_rows q i row w.payments k g) [
      | inl (is_due, found) ↦ inl (is_due, d.each i row row found g)
      | inr (not_due, missing) ↦ inr (not_due, d.others i missing ∙ g)
    ]
