-- ===== src/Mesh/AckLaws.antt =====
-- What `handle_completion_ack` does on each of its paths.
use coordinator.Base.{
  ℕ, List, [], ◌++◌, map, Bytes, false, Option, none, some, ok, nat_eq, text_eq, ◌≡◌, refl, ap, sym,
  ◌∙◌, ◌⊎◌, inl, inr, All, Outcome-cases,
}
use mathlib.Core.Path.{subst}
use coordinator.Base.Map.{get, insert, remove, get-remove_self, get-insert_self}
use coordinator.Protocol.External.{External, SignatureLaws}
use coordinator.Protocol.Proof
use coordinator.Protocol.Completion.{
  CompletionAck, CompletionResponse, accepted_with, proof_ids, verify_primary, verify_all_proofs,
  verify_all_proofs-All,
}
use coordinator.Protocol.Receipt
use coordinator.Protocol.Receipt.{RoutingReceipt, Payout, verify-sign}
use coordinator.Store.Defs.{World, execute_lem}
use coordinator.Store.Receipts.{put}
use coordinator.Payments.Split.{PayoutLine, compute_payouts}
use coordinator.Payments.Inserts.{IsFresh, numbered}
use coordinator.Registry.{PeerId}
use coordinator.Mesh.{EventLoop, InFlightMeta, MeshExternal}
use coordinator.Mesh.Ack.{
  handle_completion_ack, settle_ack, after_put, queue_payments, build_receipt, payout_of,
  payout_addresses_of, session_id_of,
}
use coordinator.Mesh.AckSteps.{
  cache_after, cache_after-put, warm_peers_lem, written, queue_after, queue_payments_lem,
  queue_after-same,
}

module _ (x : External) (m : MeshExternal) where
  -- What holds after an ack was accepted: the answer `a`, the loop and the world afterwards.
  pub record Accepted (sender : PeerId) (ack : CompletionAck) (l : EventLoop) (w : World)
      (a : CompletionResponse × (EventLoop × World)) : Type 0 where
    pub receipt : RoutingReceipt
    pub answers : a.0 ≡ accepted_with receipt
    pub verifies : Receipt.verify x receipt ≡ ok tt
    pub signer : receipt.coordinator_pubkey ≡ x.verifying_key l.enclave_key
    pub request : receipt.request_id ≡ ack.request_id
    pub proofs : receipt.proof_ids ≡ proof_ids x ack
    pub payouts :
        receipt.payouts
        ≡ map payout_of (compute_payouts ack (payout_addresses_of (get ack.request_id l.in_flight)))
    pub archived : get ack.request_id a.1.1.routing_receipts ≡ some (m.receipt_to_value receipt)
    pub consumed : get ack.request_id a.1.0.in_flight ≡ none
    pub queued :
        a.1.0.settlement_tx
        ≡ queue_after x m l.has_pg_pool
            (compute_payouts ack (payout_addresses_of (get ack.request_id l.in_flight)))
            receipt
            l
    pub sent : a.1.1.http_sent ≡ w.http_sent
    pub warm :
        a.1.1.node_session_cache
        ≡ cache_after l.has_pg_pool (session_id_of (get ack.request_id l.in_flight)) receipt w
    pub inserted :
        a.1.1.payments
        ≡ w.payments
          ++ numbered ack.request_id w.next_id (
              written l.has_pg_pool
                (compute_payouts ack (payout_addresses_of (get ack.request_id l.in_flight))))
    pub fresh : IsFresh a.1.1.next_id a.1.1.payments
    pub healthy : a.1.1.faults ≡ []

  build_receipt-fields :
      (now_ms : ℕ) (sender : PeerId) (ack : CompletionAck) (meta : Option InFlightMeta)
      (lines : List PayoutLine) (key : Bytes)
      → let r = build_receipt x m now_ms sender ack meta lines key in
        (r.request_id ≡ ack.request_id)
        × (r.proof_ids ≡ proof_ids x ack)
        × (r.payouts ≡ map payout_of lines)
        × (r.coordinator_pubkey ≡ x.verifying_key key)
  unfolding build_receipt Receipt.sign
  build_receipt-fields now_ms sender ack meta lines key = (refl, refl, refl, refl)

  build_receipt-verifies :
      SignatureLaws x
      → (now_ms : ℕ) (sender : PeerId) (ack : CompletionAck) (meta : Option InFlightMeta)
        (lines : List PayoutLine) (key : Bytes)
      → Receipt.verify x (build_receipt x m now_ms sender ack meta lines key) ≡ ok tt
  unfolding build_receipt
  build_receipt-verifies s now_ms sender ack meta lines key = verify-sign x s key _

  pub handle-verified :
      (now_ms : ℕ) (sender : PeerId) (ack : CompletionAck) (l : EventLoop) (w : World)
      → verify_primary x ack ≡ ok tt
      → verify_all_proofs x ack ≡ ok tt
      → handle_completion_ack x m now_ms sender ack l w
        ≡ settle_ack x m now_ms sender ack (get ack.request_id l.in_flight) l w
  unfolding handle_completion_ack
  handle-verified now_ms sender ack l w p q = rw (p, q) refl

  -- `after_put`, once the receipt is stored.
  after_put-accepts :
      SignatureLaws x
      → (now_ms : ℕ) (sender : PeerId) (ack : CompletionAck) (l : EventLoop) (w : World)
      → w.faults ≡ []
      → IsFresh w.next_id w.payments
      → Accepted sender ack l w
          (settle_ack x m now_ms sender ack (get ack.request_id l.in_flight) l w)
  unfolding put build_receipt Receipt.sign
  after_put-accepts s now_ms sender ack l w h f =
      let meta = get ack.request_id l.in_flight in
      let lines = compute_payouts ack (payout_addresses_of meta) in
      let r = build_receipt x m now_ms sender ack meta lines l.enclave_key in
      let (request, ids, paid, signer) =
        build_receipt-fields now_ms sender ack meta lines l.enclave_key in
      let json = m.receipt_to_value r in
      let w₁ : World = record w {
        routing_receipts = insert r.request_id json w.routing_receipts;
      } in
      let l₁ : EventLoop = record l { in_flight = remove ack.request_id l.in_flight } in
      let c = cache_after l.has_pg_pool (session_id_of meta) r w₁ in
      let warm = warm_peers_lem l.has_pg_pool (session_id_of meta) r w₁ h in
      let w₂ : World = record w₁ { node_session_cache = c } in
      let (kept, queued, effect, fresh) = queue_payments_lem x m l.has_pg_pool lines r l₁ w₂ h f in
      let run : settle_ack x m now_ms sender ack meta l w
          ≡ (accepted_with r, queue_payments x m l.has_pg_pool lines r l₁ w₂) =
        ap (after_put x m (session_id_of meta) lines r l₁) (execute_lem _ w h)
        ∙ ap (λ v. (accepted_with r, queue_payments x m l.has_pg_pool lines r l₁ v)) warm in
      subst (Accepted sender ack l w) (sym run) (record {
        receipt = r;
        answers = refl;
        signer = signer;
        verifies = build_receipt-verifies s now_ms sender ack meta lines l.enclave_key;
        request = request;
        proofs = ids;
        payouts = paid;
        archived =
            ap (λ (v : World). get ack.request_id v.routing_receipts) effect
            ∙ get-insert_self ack.request_id json w.routing_receipts;
        consumed = ap (get ack.request_id) kept ∙ get-remove_self ack.request_id l.in_flight;
        queued = queued ∙ queue_after-same x m l.has_pg_pool lines r l;
        sent = ap (λ (v : World). v.http_sent) effect;
        warm =
            ap (λ (v : World). v.node_session_cache) effect
            ∙ cache_after-put l.has_pg_pool (session_id_of meta) r json w;
        inserted = ap (λ (v : World). v.payments) effect;
        fresh = fresh;
        healthy = ap (λ (v : World). v.faults) effect ∙ h;
      })

  -- An ack whose primary signature and proofs verify is accepted where the database answers and the
  -- identifiers of payment rows are fresh. The answer carries a receipt that verifies under the
  -- protocol's own check, names the request and the ack's proofs, and has the payouts that are computed
  -- from the addresses on record for the request. The JSON of that receipt is what the archive then holds under the request; the request is no longer
  -- in flight; and, where there is a pool, one new pending row per payout stands in `payments`.
  pub handle_completion_ack-accepts :
      SignatureLaws x
      → (now_ms : ℕ) (sender : PeerId) (ack : CompletionAck) (l : EventLoop) (w : World)
      → verify_primary x ack ≡ ok tt
      → verify_all_proofs x ack ≡ ok tt
      → w.faults ≡ []
      → IsFresh w.next_id w.payments
      → Accepted sender ack l w (handle_completion_ack x m now_ms sender ack l w)
  handle_completion_ack-accepts s now_ms sender ack l w p q h f =
      rw (handle-verified now_ms sender ack l w p q) (after_put-accepts s now_ms sender ack l w h f)

  -- An ack is answered with a receipt only if its primary signature and every one of its proofs
  -- verify; an ack that fails a verification is answered without a receipt, and the loop and the
  -- database stay as they were.
  pub handle_completion_ack-rejects :
      (now_ms : ℕ) (sender : PeerId) (ack : CompletionAck) (l : EventLoop) (w : World)
      → let (response, after) = handle_completion_ack x m now_ms sender ack l w in
        ((verify_primary x ack ≡ ok tt) × All (λ p. Proof.verify x p ≡ ok tt) ack.proofs)
        ⊎ ((response.accepted ≡ false) × (response.routing_receipt ≡ none) × (after ≡ (l, w)))
  unfolding handle_completion_ack
  handle_completion_ack-rejects now_ms sender ack l w =
      elim (Outcome-cases (verify_primary x ack)) [
        | inr (e, p) ↦ inr (rw p (refl, refl, refl))
        | inl (done, p) ↦ elim (Outcome-cases (verify_all_proofs x ack)) [
          | inr (e, q) ↦ inr (rw (p, q) (refl, refl, refl))
          | inl (all, q) ↦ inl (p, (verify_all_proofs-All x ack).0 q)
        ]
      ]
