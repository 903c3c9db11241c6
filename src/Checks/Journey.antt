-- ===== src/Checks/Journey.antt =====
-- The theorem on a whole chat completion, at a concrete request.
use coordinator.Protocol.Completion
use coordinator.Base.{nat_eq, [], ◌∷◌, ok, codes, Text, text_eq, ◌≡◌, refl, ap, ◌∙◌, arith}
use mathlib.Core.Option.{some-injective}
use coordinator.Auction.Defs.{collect_bids, pick_winner_with_warmth, received, elapsed}
use coordinator.Base.Map.{get}
use coordinator.Checks.Runs.{primary_verifies, proofs_verify}
use coordinator.Mesh.{EventLoop}
use coordinator.Mesh.Events.{publish_request, handle_command, handle_gossip_message}
use coordinator.Mesh.Bidding.{HasRoom}
use coordinator.Protocol.Types.{InferenceBid}
use coordinator.Api.Messages.{
  ChatCompletionResult, decrypt_messages_if_encrypted, decode_hex_pubkey,
}
use coordinator.Api.Inference.{
  collect_addresses, Surroundings, chat_completions, last_user_message, inference_request,
}
use coordinator.Api.Calls.{polls_of}
use coordinator.Payments.Split.{compute_payouts}
use coordinator.Api.Reordered.{Reordered, book_of, compute_payouts-Reordered}
use coordinator.Api.Owed.{address_of}
use coordinator.Api.Served.{opened}
use coordinator.Api.Journey.{Journey, Listens, chat_completions-Journey}
use coordinator.Checks.Toy.{toy, toy-signs, toy_float}
use coordinator.Checks.Data.{
  some_mesh, addresses, enclave_key, node_a, signed_ack, some_bid, some_loop, some_world,
}
use coordinator.Protocol.Receipt.{RoutingReceipt}
use coordinator.Protocol.Completion.{accepted_with}
use coordinator.Mesh.Ack.{handle_completion_ack}
use coordinator.Mesh.Warm.{IsUnique}
use coordinator.Mesh.NextAuction.{Warmed, handle_completion_ack-Warmed}
use coordinator.Checks.Listing.{session_world}
use coordinator.Checks.Mesh.{some_swarm, bid_mesh, some_messages, some_messages-HasRoom}
use coordinator.Checks.Web.{toy_crypto, plain_request, some_surroundings}

abbrev two_bids : Surroundings
two_bids = record some_surroundings {
  published = ok (received some_bid ∷ received some_bid ∷ elapsed ∷ []);
}

abbrev some_result : ChatCompletionResult
some_result = record {
  request_id = 5;
  session_id = 6;
  content = codes "hello";
  session_key = codes "k";
  input_tokens = 1;
  output_tokens = 2;
  latency_ms = 3;
}

two_bids-Listens :
    Listens toy toy_crypto toy_float enclave_key two_bids plain_request bid_mesh 1 some_swarm 4
      some_messages some_loop
unfolding handle_command publish_request handle_gossip_message
two_bids-Listens l ch e g =
    let o = ap (λ (v : EventLoop). v.bid_subscribers) (some-injective _ _ e) in
    let own = ap (get 5) o ∙ g in ap (λ c. ok (polls_of c)) (some-injective _ _ own)

succeeds :
    (chat_completions toy toy_crypto toy_float enclave_key two_bids plain_request).1
    ≡ ok some_result
unfolding chat_completions decrypt_messages_if_encrypted last_user_message pick_winner_with_warmth
    collect_bids decode_hex_pubkey
succeeds = refl

some_messages-fit : HasRoom bid_mesh 1 some_messages (
    opened bid_mesh some_swarm 4
      (inference_request toy toy_crypto toy_float enclave_key two_bids plain_request)
      some_loop)
unfolding handle_command publish_request
some_messages-fit = some_messages-HasRoom

chat_completions-Journey_example :
    Journey toy toy_crypto toy_float enclave_key two_bids plain_request bid_mesh 1 some_swarm 4
      some_messages some_loop some_result 90 node_a signed_ack some_world
unfolding Completion.sign
chat_completions-Journey_example =
    chat_completions-Journey toy toy_crypto toy_float enclave_key two_bids plain_request bid_mesh 1
      some_swarm 4 some_messages some_loop toy-signs (codes "request") some_result 90 node_a
      signed_ack some_world refl refl some_messages-fit two_bids-Listens succeeds refl
      primary_verifies proofs_verify refl (omega arith, (omega arith, tt))

abbrev other_bid : InferenceBid
other_bid = record some_bid { node_peer_id = []; payout_address = codes "0x9" }

compute_payouts-Reordered_example :
    (book_of (some_bid ∷ other_bid ∷ some_bid ∷ [])
      ≡ book_of (other_bid ∷ some_bid ∷ some_bid ∷ []))
    × (compute_payouts signed_ack (collect_addresses (some_bid ∷ other_bid ∷ some_bid ∷ []) [])
        ≡ compute_payouts signed_ack (collect_addresses (other_bid ∷ some_bid ∷ some_bid ∷ []) []))
    × ((peer : Text)
        → get peer (collect_addresses (some_bid ∷ other_bid ∷ some_bid ∷ []) [])
          ≡ address_of peer (some_bid ∷ other_bid ∷ some_bid ∷ []))
    × ((peer : Text)
        → get peer (collect_addresses (some_bid ∷ other_bid ∷ some_bid ∷ []) [])
          ≡ address_of peer (other_bid ∷ some_bid ∷ some_bid ∷ []))
compute_payouts-Reordered_example =
    compute_payouts-Reordered signed_ack (some_bid ∷ other_bid ∷ some_bid ∷ [])
      (other_bid ∷ some_bid ∷ some_bid ∷ [])
      (Reordered.swap some_bid other_bid (some_bid ∷ []) (λ e. cc))

handle_completion_ack-Warmed_example :
    let (response, (l', w')) =
      handle_completion_ack toy some_mesh 90 node_a signed_ack some_loop session_world in
    (r : RoutingReceipt) × (response ≡ accepted_with r)
    × IsUnique w'.node_session_cache
    × Warmed toy_float 6 (r.primary_peer_id ∷ r.helper_peer_ids) session_world w'.node_session_cache
unfolding Completion.sign
handle_completion_ack-Warmed_example =
    handle_completion_ack-Warmed toy some_mesh toy_float toy-signs 90 node_a signed_ack some_loop
      session_world
      (record { client_id = []; bid_set_hash = []; payout_addresses = addresses; session_id = 6 })
      primary_verifies proofs_verify refl (omega arith, (omega arith, tt)) refl refl tt
