-- ===== src/Api/Listed.antt =====
-- What the listing of src/coordinator/src/api/admin.rs shows of an accepted ack.
use coordinator.Base.{
  ℕ, suc, List, [], ◌∷◌, ◌++◌, map, Text, true, Option, some, ok, nat_eq, ==_refl, ◌≡◌, refl, ap,
  ◌∙◌, arith,
}
use coordinator.Base.Map.{Map, get}
use coordinator.Protocol.Types.{Uuid}
use coordinator.Protocol.External.{External, SignatureLaws}
use coordinator.Protocol.Completion.{CompletionAck, verify_primary, verify_all_proofs}
use coordinator.Store.Defs
use coordinator.Store.Defs.{World, fetch_lem}
use coordinator.Payments.Split.{PayoutLine, compute_payouts}
use coordinator.Payments.Inserts.{IsFresh, numbered}
use coordinator.Registry.{PeerId}
use coordinator.Mesh.{EventLoop, MeshExternal}
use coordinator.Mesh.Ack.{handle_completion_ack, payout_addresses_of}
use coordinator.Mesh.AckSteps.{written}
use coordinator.Mesh.AckLaws.{handle_completion_ack-accepts}
use coordinator.Api.Admin.{check_secret}
use coordinator.Api.Listings.{AdminExternal, rows_of, payment_row, settlement_status}

rows_of-append :
    (q : Uuid) (xs ys : Map Uuid Defs.PaymentRow)
    → rows_of q (xs ++ ys) ≡ rows_of q xs ++ rows_of q ys
rows_of-append q [] ys = refl
rows_of-append q ((i, r) ∷ xs) ys = ground (arith, rows_of-append q xs ys)

rows_of-numbered :
    (q n : ℕ) (lines : List PayoutLine) → rows_of q (numbered q n lines) ≡ numbered q n lines
rows_of-numbered q n [] = refl
rows_of-numbered q n (l ∷ ls) = rw (==_refl q, rows_of-numbered q (suc n) ls) refl

settlement_status_lem :
    (x : AdminExternal) (env header : Option Text) (secret id : Text) (q : Uuid) (w : World)
    → check_secret env header ≡ ok secret
    → x.parse_uuid id ≡ some q
    → w.faults ≡ []
    → settlement_status x env header true id w
      ≡ (ok (record { request_id = id; payments = map (payment_row x) (rows_of q w.payments) }), w)
unfolding settlement_status
settlement_status_lem x env header secret id q w s p h =
    rw (s, p, fetch_lem (λ v. rows_of q v.payments) w h) refl

-- Once a verified ack was handled while the database answers and the identifiers of payment rows are
-- fresh, an operator with the secret reads the rows of its request: those that were there before the
-- ack, and then one pending row for each payout line of the ack, in the order of the lines.
pub settlement_status-after_ack :
    (x : External) (m : MeshExternal) (a : AdminExternal)
    → SignatureLaws x
    → (env header : Option Text) (secret id : Text) (now_ms : ℕ) (sender : PeerId)
      (ack : CompletionAck) (l : EventLoop) (w : World)
    → verify_primary x ack ≡ ok tt
    → verify_all_proofs x ack ≡ ok tt
    → w.faults ≡ []
    → IsFresh w.next_id w.payments
    → check_secret env header ≡ ok secret
    → a.parse_uuid id ≡ some ack.request_id
    → l.has_pg_pool ≡ true
    → let w' = (handle_completion_ack x m now_ms sender ack l w).1.1 in
      let lines = compute_payouts ack (payout_addresses_of (get ack.request_id l.in_flight)) in
      let rows = rows_of ack.request_id w.payments ++ numbered ack.request_id w.next_id lines in
      settlement_status a env header true id w'
      ≡ (ok (record { request_id = id; payments = map (payment_row a) rows }), w')
settlement_status-after_ack x m a s env header secret id now_ms sender ack l w p q h f k u pool =
    let done = handle_completion_ack-accepts x m s now_ms sender ack l w p q h f in
    let w' = (handle_completion_ack x m now_ms sender ack l w).1.1 in
    let lines = compute_payouts ack (payout_addresses_of (get ack.request_id l.in_flight)) in
    let rows : rows_of ack.request_id w'.payments
        ≡ rows_of ack.request_id w.payments ++ numbered ack.request_id w.next_id lines =
      ap (rows_of ack.request_id) (
        done.inserted
        ∙ ap (λ b. w.payments ++ numbered ack.request_id w.next_id (written b lines)) pool)
      ∙ rows_of-append ack.request_id w.payments (numbered ack.request_id w.next_id lines)
      ∙ ap (λ r. rows_of ack.request_id w.payments ++ r)
          (rows_of-numbered ack.request_id w.next_id lines) in
    settlement_status_lem a env header secret id ack.request_id w' k u done.healthy
    ∙ ap (λ r. (ok (record { request_id = id; payments = map (payment_row a) r }), w')) rows
