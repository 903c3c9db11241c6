-- ===== src/Settlement/Once.antt =====
-- A settlement job that runs twice, which apalis may do, pays nothing twice.
use mathlib.Core.Path.{subst}
use mathlib.Core.Option.{some-injective}
use coordinator.Base.{
  ◌≡◌, refl, sym, ap, ◌∙◌, [], ◌∷◌, Bool, true, false, none, some, ok, nat_eq, ◌==◌, ◌&&◌, ==_refl,
  inl, inr, arith, Option-cases,
}
use coordinator.Base.Map.{Map, get, IsKeyed, get-modify-none, modify-IsKeyed}
use coordinator.Protocol.Types.{Uuid}
use coordinator.Protocol.Receipt.{RoutingReceipt}
use coordinator.Store.Defs.{World, PaymentRow, HttpReply}
use coordinator.Payments.Ledger.{pending_rows}
use coordinator.Settlement.Worker.{
  SettlementJob, Json, settle_rows, settle_pending, handle_settlement,
}
use coordinator.Settlement.Pending.{due}
use coordinator.Settlement.Drain.{
  IsSettled, after_row, settle_rows_step, handle_settlement_step, handle_settlement-drains,
}

-- Where no row is due, the query finds none.
pending_rows-nil :
    (q : Uuid) (rows : Map Uuid PaymentRow)
    → IsKeyed rows
    → ((i : Uuid) (row : PaymentRow) → get i rows ≡ some row → due q row ≡ false)
    → pending_rows q rows ≡ []
pending_rows-nil q [] k h = refl
pending_rows-nil q ((j, r) ∷ rows) (k, ks) h =
    let idle : due q r ≡ false = h j r (ground (arith, ==_refl j)) in
    let later = λ (i : Uuid) (row : PaymentRow) (g : get i rows ≡ some row).
      h i row (ground (arith, nat_eq.beq_iff j i, k, g)) in
    rw idle (pending_rows-nil q rows ks later)

and_false : (b : Bool) → (b && false) ≡ false
and_false true = refl
and_false false = refl

IsSettled-due :
    (json : Json) (reply : HttpReply) (q : Uuid) (row row' : PaymentRow)
    → IsSettled json reply row row'
    → due q row' ≡ false
IsSettled-due json reply q row row' (inl (digest, h, e)) = rw e (and_false (row.request_id == q))
IsSettled-due json reply q row row' (inr (f, h, e)) = rw e (and_false (row.request_id == q))

-- What a run keeps: a database that answers, ids that stand once, and no new id.
record Kept (w w' : World) : Type 0 where
  healthy : w'.faults ≡ []
  keyed : IsKeyed w'.payments
  missing : (i : Uuid) → get i w.payments ≡ none → get i w'.payments ≡ none

settle_rows-Kept :
    (json : Json) (receipt : RoutingReceipt) (todo : Map Uuid PaymentRow) (w : World)
    → w.faults ≡ []
    → IsKeyed w.payments
    → Kept w (settle_rows json receipt todo w).1
unfolding settle_rows
settle_rows-Kept json receipt [] w h k = record { healthy = h; keyed = k; missing = λ i g. g }
settle_rows-Kept json receipt ((j, r) ∷ todo) w h k =
    let w₁ = after_row json receipt j r w in
    let k₁ : IsKeyed w₁.payments = modify-IsKeyed j _ w.payments k in
    let rest = settle_rows-Kept json receipt todo w₁ h k₁ in
    rw (settle_rows_step json receipt j r todo w h) (record {
      healthy = rest.healthy;
      keyed = rest.keyed;
      missing = λ i g. rest.missing i (get-modify-none j i _ w.payments g);
    })

settle_pending-Kept :
    (json : Json) (job : SettlementJob) (receipt : RoutingReceipt) (todo : Map Uuid PaymentRow)
    (w : World)
    → w.faults ≡ []
    → IsKeyed w.payments
    → json.receipt_from_str job.receipt_json ≡ some receipt
    → Kept w (settle_pending json job todo w).1
unfolding settle_pending
settle_pending-Kept json job receipt [] w h k e = settle_rows-Kept json receipt [] w h k
settle_pending-Kept json job receipt (x ∷ todo) w h k e =
    rw e (settle_rows-Kept json receipt (x ∷ todo) w h k)

idle_job :
    (json : Json) (job : SettlementJob) (w : World)
    → w.faults ≡ []
    → pending_rows job.request_id w.payments ≡ []
    → handle_settlement json job w ≡ (ok tt, w)
unfolding settle_pending
idle_job json job w h e =
    handle_settlement_step json job w h ∙ ap (λ rows. settle_pending json job rows w) e

-- No row of the job's request is due after a run.
settled_rows :
    (json : Json) (job : SettlementJob) (receipt : RoutingReceipt) (w : World)
    → w.faults ≡ []
    → IsKeyed w.payments
    → json.receipt_from_str job.receipt_json ≡ some receipt
    → Kept w (handle_settlement json job w).1
    → (i : Uuid) (row' : PaymentRow) → get i (handle_settlement json job w).1.payments ≡ some row'
    → due job.request_id row' ≡ false
settled_rows json job receipt w h k e kept i row' g =
    let (done, sent, each) = handle_settlement-drains json job receipt w h k e in
    elim (Option-cases (get i w.payments)) [
      | inl missing ↦ let gone = kept.missing i missing in cc
      | inr (row, there) ↦ elim (each i row there) [
        | inl (was_due, (settled, found, s)) ↦
            subst (λ r. due job.request_id r ≡ false) (some-injective _ _ (sym found ∙ g))
              (IsSettled-due json _ job.request_id row settled s)
        | inr (not_due, same) ↦
            subst (λ r. due job.request_id r ≡ false) (some-injective _ _ (sym same ∙ g)) not_due
      ]
    ]

-- Where the statements of a run succeed, its receipt parses and no id stands twice, no row of the
-- job's request is pending afterwards; a further run of the same job ends well, asks the sidecar for
-- nothing and changes nothing.
pub handle_settlement-settles_once :
    (json : Json) (job : SettlementJob) (receipt : RoutingReceipt) (w : World)
    → w.faults ≡ []
    → IsKeyed w.payments
    → json.receipt_from_str job.receipt_json ≡ some receipt
    → let w' = (handle_settlement json job w).1 in
      (pending_rows job.request_id w'.payments ≡ []) × (handle_settlement json job w' ≡ (ok tt, w'))
handle_settlement-settles_once json job receipt w h k e =
    let w' = (handle_settlement json job w).1 in
    let kept : Kept w w' =
      rw (handle_settlement_step json job w h) (settle_pending-Kept json job receipt _ w h k e) in
    let none_left =
      pending_rows-nil job.request_id w'.payments kept.keyed
        (settled_rows json job receipt w h k e kept) in
    (none_left, idle_job json job w' kept.healthy none_left)
