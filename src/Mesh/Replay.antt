-- ===== src/Mesh/Replay.antt =====
-- Acks that come twice, and acks whose receipt could not be stored.
use coordinator.Base.{
  ℕ, List, [], ◌∷◌, ◌++◌, map, Bool, true, false, none, some, ok, codes, nat_eq, text_eq, ◌≡◌, refl,
  ap, ◌∙◌, filter_map,
}
use mathlib.Core.List.{append-nil}
use coordinator.Base.Map.{Map, get, remove, get-remove_self}
use coordinator.Protocol.External.{External, SignatureLaws}
use coordinator.Protocol.Proof.{ProofOfInference}
use coordinator.Protocol.Completion.{
  CompletionAck, CompletionResponse, accepted_with, rejected, verify_primary, verify_all_proofs,
}
use coordinator.Protocol.Receipt
use coordinator.Protocol.Receipt.{RoutingReceipt}
use coordinator.Store.Defs.{World, PaymentRow}
use coordinator.Protocol.Types.{Uuid}
use coordinator.Store.Receipts.{put}
use coordinator.Payments.Split.{payout_line, compute_payouts}
use coordinator.Payments.Inserts.{IsFresh, numbered}
use coordinator.Registry.{PeerId}
use coordinator.Mesh.{EventLoop, MeshExternal}
use coordinator.Mesh.Ack.{handle_completion_ack, payout_of, payout_addresses_of}
use coordinator.Mesh.AckSteps.{written}
use coordinator.Mesh.AckLaws.{Accepted, handle-verified, handle_completion_ack-accepts}

no_lines : (ps : List ProofOfInference) → filter_map (payout_line []) ps ≡ []
no_lines [] = refl
no_lines (p ∷ ps) = no_lines ps

no_payouts : (ack : CompletionAck) → compute_payouts ack [] ≡ []
unfolding compute_payouts
no_payouts ack = no_lines ack.proofs

written-nil : (pg : Bool) → written pg [] ≡ []
written-nil true = refl
written-nil false = refl

module _ (x : External) (m : MeshExternal) where
  -- An accepted ack of a request that is not in flight pays nobody.
  forgotten :
      (sender : PeerId) (ack : CompletionAck) (l : EventLoop) (w : World)
      (after : CompletionResponse × (EventLoop × World)) (a : Accepted x m sender ack l w after)
      → get ack.request_id l.in_flight ≡ none
      → (a.receipt.payouts ≡ []) × (after.1.1.payments ≡ w.payments)
  forgotten sender ack l w after a gone =
      let q = ack.request_id in
      let none_left : compute_payouts ack (payout_addresses_of (get q l.in_flight)) ≡ [] =
        ap (λ o. compute_payouts ack (payout_addresses_of o)) gone ∙ no_payouts ack in
      (
        a.payouts ∙ ap (map payout_of) none_left,
        a.inserted
            ∙ ap (λ ls. w.payments ++ numbered q w.next_id (written l.has_pg_pool ls)) none_left
            ∙ ap (λ ls. w.payments ++ numbered q w.next_id ls) (written-nil l.has_pg_pool)
            ∙ append-nil w.payments,
      )

  -- What is left of a request after an ack of it that is answered like `response`: a receipt that is
  -- archived, in place of any earlier one, and verifies, but has no payouts; and no new payment row.
  pub record PaysNobody (ack : CompletionAck) (rows : Map Uuid PaymentRow) (after : World)
      (response : CompletionResponse) : Type 0 where
    pub receipt : RoutingReceipt
    pub answers : response ≡ accepted_with receipt
    pub archived : get ack.request_id after.routing_receipts ≡ some (m.receipt_to_value receipt)
    pub verifies : Receipt.verify x receipt ≡ ok tt
    pub no_payouts : receipt.payouts ≡ []
    pub no_rows : after.payments ≡ rows

  Accepted-PaysNobody :
      (sender : PeerId) (ack : CompletionAck) (l : EventLoop) (w : World)
      (after : CompletionResponse × (EventLoop × World))
      → Accepted x m sender ack l w after
      → get ack.request_id l.in_flight ≡ none
      → PaysNobody ack w.payments after.1.1 after.0
  Accepted-PaysNobody sender ack l w after a gone =
      let (unpaid, same) = forgotten sender ack l w after a gone in
      record {
        receipt = a.receipt;
        answers = a.answers;
        archived = a.archived;
        verifies = a.verifies;
        no_payouts = unpaid;
        no_rows = same;
      }

  -- A verified ack that is handled twice, by whichever senders and at whatever times, while the
  -- database answers and the identifiers of payment rows are fresh, is accepted both times. The second
  -- time adds no payment row, and it is answered with a receipt that verifies and has no payouts, which
  -- the archive then holds in place of the first.
  pub replayed_ack-loses_payouts :
      SignatureLaws x
      → (now later : ℕ) (sender sender' : PeerId) (ack : CompletionAck) (l : EventLoop) (w : World)
      → verify_primary x ack ≡ ok tt
      → verify_all_proofs x ack ≡ ok tt
      → w.faults ≡ []
      → IsFresh w.next_id w.payments
      → let (response, (l', w')) = handle_completion_ack x m now sender ack l w in
        let (again, (l'', w'')) = handle_completion_ack x m later sender' ack l' w' in
        (response.accepted ≡ true) × PaysNobody ack w'.payments w'' again
  replayed_ack-loses_payouts s now later sender sender' ack l w p q h f =
      let (l', w') = (handle_completion_ack x m now sender ack l w).1 in
      let a = handle_completion_ack-accepts x m s now sender ack l w p q h f in
      let b = handle_completion_ack-accepts x m s later sender' ack l' w' p q a.healthy a.fresh in
      (
        ap (λ (r : CompletionResponse). r.accepted) a.answers,
        Accepted-PaysNobody sender' ack l' w' _ b a.consumed,
      )

  rejected_lem :
      (now : ℕ) (sender : PeerId) (ack : CompletionAck) (l : EventLoop) (w : World)
      → verify_primary x ack ≡ ok tt
      → verify_all_proofs x ack ≡ ok tt
      → w.faults ≡ true ∷ []
      → handle_completion_ack x m now sender ack l w ≡ (
        rejected (codes "storage error"),
        (record l { in_flight = remove ack.request_id l.in_flight }, record w { faults = [] }),
      )
  unfolding put
  rejected_lem now sender ack l w p q h = handle-verified x m now sender ack l w p q ∙ rw h refl

  -- Where the receipt of a verified ack cannot be stored, the ack is rejected and no table changes,
  -- yet the request is forgotten: the node's retry, at whatever time and while the database answers and
  -- the identifiers of payment rows are fresh, is accepted with a receipt that verifies, is archived
  -- and has no payouts, and it adds no payment row.
  pub storage_error-consumes_request :
      SignatureLaws x
      → (now later : ℕ) (sender sender' : PeerId) (ack : CompletionAck) (l : EventLoop) (w : World)
      → verify_primary x ack ≡ ok tt
      → verify_all_proofs x ack ≡ ok tt
      → w.faults ≡ true ∷ []
      → IsFresh w.next_id w.payments
      → let (response, (l', w')) = handle_completion_ack x m now sender ack l w in
        let (again, (l'', w'')) = handle_completion_ack x m later sender' ack l' w' in
        (response ≡ rejected (codes "storage error"))
        × (w' ≡ record w { faults = [] })
        × PaysNobody ack w.payments w'' again
  storage_error-consumes_request s now later sender sender' ack l w p q h f =
      let l' : EventLoop = record l { in_flight = remove ack.request_id l.in_flight } in
      let w' : World = record w { faults = [] } in
      let b = handle_completion_ack-accepts x m s later sender' ack l' w' p q refl f in
      rw (rejected_lem now sender ack l w p q h) (
        refl,
        refl,
        Accepted-PaysNobody sender' ack l' w' _ b (get-remove_self ack.request_id l.in_flight),
      )
