-- ===== src/Checks/Listing.antt =====
-- The theorems on the listings of the admin endpoints and on the whole way of a payment.
use mathlib.Core.List.{Permᴰ}
use coordinator.Base.{
  ℕ, ◌++◌, List, [], ◌∷◌, map, keep, true, Text, Option, none, some, ok, sym, ◌∙◌, codes, All, ◌==◌,
  ◌≡◌, refl, ap, arith, nat_eq,
}
use coordinator.Base.Map.{get}
use coordinator.Protocol.Proof
use coordinator.Protocol.Completion
use coordinator.Protocol.Completion.{CompletionResponse, accepted_with}
use coordinator.Api.Admin.{check_secret, constant_time_eq, accumulate}
use coordinator.Mesh.{EventLoop, channel}
use coordinator.Mesh.AckLaws.{handle-verified}
use coordinator.Store.Receipts.{put}
use coordinator.Protocol.Receipt
use coordinator.Protocol.Receipt.{RoutingReceipt}
use coordinator.Api.Proofs.{get_proof, get_proof-after_ack}
use coordinator.Store.Columns.{pos}
use coordinator.Store.Defs.{SessionRow, World}
use coordinator.Payments.Split.{compute_payouts}
use coordinator.Payments.Inserts.{numbered}
use coordinator.Settlement.Worker.{Json}
use coordinator.Mesh.Ack.{handle_completion_ack, payout_addresses_of, build_receipt}
use coordinator.Mesh.Settled.{Settled, lines_of, handle_completion_ack-Settled}
use coordinator.Api.Listings.{AdminExternal, rows_of, payment_row, settlement_status}
use coordinator.Api.Session.{TurnRow, Context, select_turns, select_warm, with_rows, session_status}
use coordinator.Api.Listed.{settlement_status-after_ack}
use coordinator.Api.Turns.{IsNewestFirst, turn_time, Cut, session_status-Newest}
use coordinator.Checks.Toy.{toy, toy-signs}
use coordinator.Checks.Data.{
  node_a, enclave_key, signed_ack, paid_row, some_world, some_json, some_mesh, some_loop,
}
use coordinator.Checks.Runs.{primary_verifies, proofs_verify}

abbrev some_admin : AdminExternal
some_admin = record {
  parse_uuid = λ t. some 5;
  uuid_to_string = λ q. q ∷ [];
  time_to_string = λ t. t ∷ [];
  payment_times = λ q. record { created_at = q; submitted_at = none; confirmed_at = none };
}

settlement_status-after_ack_example :
    let w' = (handle_completion_ack toy some_mesh 90 node_a signed_ack some_loop some_world).1.1 in
    let lines =
      compute_payouts signed_ack
        (payout_addresses_of (get signed_ack.request_id some_loop.in_flight)) in
    let rows = rows_of 5 some_world.payments ++ numbered 5 some_world.next_id lines in
    settlement_status some_admin (some (codes "s")) (some (codes "s")) true (codes "5") w'
    ≡ (ok (record { request_id = codes "5"; payments = map (payment_row some_admin) rows }), w')
unfolding Completion.sign check_secret constant_time_eq accumulate
settlement_status-after_ack_example =
    settlement_status-after_ack toy some_mesh some_admin toy-signs (some (codes "s"))
      (some (codes "s")) (codes "s") (codes "5") 90 node_a signed_ack some_loop some_world
      primary_verifies proofs_verify refl (omega arith, (omega arith, tt)) refl refl refl

abbrev old_session : SessionRow
old_session = record {
  user_address = [];
  model_id = codes "m";
  turn_count = pos 2;
  total_tokens = pos 30;
  walrus_blob_id = none;
  prev_blob_id = none;
  last_updated = 9;
}

abbrev turn_at : ℕ → TurnRow
turn_at t = record {
  turn_id = t;
  session_id = 5;
  request_id = codes "r";
  node_peer_id = none;
  input_tokens = none;
  output_tokens = none;
  latency_ms = none;
  created_at = t;
}

abbrev some_context : Context
some_context = record { turns = turn_at 3 ∷ turn_at 7 ∷ []; served_at = λ r. 0 }

abbrev pub session_world : World
session_world = record some_world { sessions = (5, old_session) ∷ (6, old_session) ∷ [] }

session_status-Newest_example :
    let shown = select_turns some_admin 5 some_context in
    (session_status some_admin
        (some (codes "s"))
        (some (codes "s"))
        true
        (codes "5")
        some_context
        session_world
      ≡ (
        ok (
            with_rows some_admin
              (codes "5")
              old_session
              some_context
              (ok shown)
              (ok (select_warm some_admin 5 some_context session_world))),
        session_world,
      ))
    × All (λ (r : TurnRow). r.session_id ≡ 5) shown
    × IsNewestFirst turn_time shown
    × ((rest : List TurnRow) × Permᴰ
          (keep (λ (r : TurnRow). r.session_id == 5) some_context.turns)
          (shown ++ rest)
        × Cut turn_time 50 shown rest)
unfolding check_secret constant_time_eq accumulate
session_status-Newest_example =
    session_status-Newest some_admin (some (codes "s")) (some (codes "s")) (codes "s") (codes "5") 5
      old_session some_context session_world refl refl refl refl

-- The receipt that the ack is answered with.
abbrev made_receipt : RoutingReceipt
made_receipt =
    let meta = get signed_ack.request_id some_loop.in_flight in
    build_receipt toy some_mesh 90 node_a signed_ack meta (lines_of signed_ack some_loop)
      enclave_key

abbrev paid_world : World
paid_world = record some_world { payments = (2, paid_row) ∷ [] }

abbrev made_json : Json
made_json = record some_json { receipt_from_str = λ t. some made_receipt }

made_receipt_answers :
    (handle_completion_ack toy some_mesh 90 node_a signed_ack some_loop paid_world).0
    ≡ accepted_with made_receipt
unfolding put
made_receipt_answers =
    ap (λ (r : CompletionResponse × (EventLoop × World)). r.0)
      (handle-verified toy some_mesh 90 node_a signed_ack some_loop paid_world primary_verifies
        proofs_verify)

handle_completion_ack-Settled_example :
    Settled toy some_mesh made_json signed_ack some_loop paid_world
      (handle_completion_ack toy some_mesh 90 node_a signed_ack some_loop paid_world)
      made_receipt
      (channel 8)
unfolding Completion.sign compute_payouts Proof.sign
handle_completion_ack-Settled_example =
    handle_completion_ack-Settled toy some_mesh made_json toy-signs 90 node_a signed_ack some_loop
      paid_world made_receipt (channel 8) primary_verifies proofs_verify refl (omega arith, tt)
      (refl, tt) refl refl refl (omega arith) refl (omega arith, tt) made_receipt_answers refl

read_receipt : Text → Option RoutingReceipt
read_receipt json = some made_receipt

made_receipt_given :
    (r : RoutingReceipt)
    → (handle_completion_ack toy some_mesh 90 node_a signed_ack some_loop paid_world).0
      ≡ accepted_with r
    → read_receipt (some_mesh.receipt_to_value r) ≡ some r
unfolding read_receipt
made_receipt_given r e =
    ap (λ (a : CompletionResponse). a.routing_receipt) (sym made_receipt_answers ∙ e)

get_proof-after_ack_example :
    let (response, (l', w')) =
      handle_completion_ack toy some_mesh 90 node_a signed_ack some_loop paid_world in
    (receipt : RoutingReceipt) × (response ≡ accepted_with receipt)
    × ((get_proof read_receipt signed_ack.request_id w').0 ≡ ok receipt)
    × (Receipt.verify toy receipt ≡ ok tt)
    × (receipt.request_id ≡ signed_ack.request_id)
get_proof-after_ack_example =
    get_proof-after_ack toy some_mesh read_receipt toy-signs 90 node_a signed_ack some_loop
      paid_world primary_verifies proofs_verify refl (omega arith, tt) made_receipt_given
