-- ===== src/Api/Journey.antt =====
-- A chat completion from the request to the receipt: `chat_completions` of
-- src/coordinator/src/api/inference.rs, its calls as commands of the event loop, and the ack that
-- follows.
use coordinator.Base.{
  ℕ, List, ok-injective, [], ◌∷◌, map, Bytes, some, ok, nat_eq, text_eq, ◌≡◌, sym, ap, ◌∙◌, inl,
  inr,
}
use coordinator.Base.Map.{get, remove}
use coordinator.Protocol.External.{External, SignatureLaws}
use coordinator.Protocol.Types.{InferenceBid, InferenceRequest}
use coordinator.Protocol.Completion.{
  CompletionAck, accepted_with, verify_primary, verify_all_proofs,
}
use coordinator.Protocol.Receipt
use coordinator.Protocol.Receipt.{RoutingReceipt}
use coordinator.Protocol.Dispatch.{InferenceDispatch, InferenceReply, inference_any}
use coordinator.Auction.Float.{Float}
use coordinator.Auction.Defs.{pick_winner_with_warmth, fetch_warmth_map, Poll, collect_bids}
use coordinator.Registry.{PeerId}
use coordinator.Store.Defs.{World}
use coordinator.Payments.Inserts.{IsFresh}
use coordinator.Payments.Split.{compute_payouts}
use coordinator.Mesh.{EventLoop, MeshExternal, Channel, ReplyTx, channel, bid_channel_capacity}
use coordinator.Mesh.Ack.{handle_completion_ack, payout_addresses_of, payout_of}
use coordinator.Mesh.AckLaws.{handle_completion_ack-accepts}
use coordinator.Mesh.Added.{with_bids}
use coordinator.Mesh.Bidding.{bids_for, handle_each, HasRoom}
use coordinator.Mesh.Events.{Message, Swarm, inference, inference_response, handle_swarm_event}
use coordinator.Api.Crypto.{CryptoExternal}
use coordinator.Api.Messages.{ChatCompletionRequest, ChatCompletionResult}
use coordinator.Api.Inference.{
  Surroundings, Answer, chat_completions, inference_request, addresses_call, collect_addresses,
  publish_request, dispatch_inference,
}
use coordinator.Api.Stages.{Stage, Dispatches, chat_completions-Stage}
use coordinator.Api.Owed.{owed, compute_payouts-owed}
use coordinator.Api.Served.{
  opened, flight, filled, final, final-in_flight, final-answers, serve_lem,
}
use coordinator.Api.Calls.{command_of, polls_of, collect_bids-polls_of, serve}

module _ (x : External) (c : CryptoExternal) (f : Float) (key : Bytes) (s : Surroundings)
    (req : ChatCompletionRequest) where
  Stage-succeeds :
      (a : Answer) (result : ChatCompletionResult)
      → Stage x c f key s req a
      → a.1 ≡ ok result
      → Dispatches x c f key s req a
  Stage-succeeds a result (inl (_, (e, r, _))) h = cc
  Stage-succeeds a result (inr (inl (_, (e, r, _)))) h = cc
  Stage-succeeds a result (inr (inr (inl (_, _, (e, r, _))))) h = cc
  Stage-succeeds a result (inr (inr (inr d))) h = d

  module _ (m : MeshExternal) (now : ℕ) (sw : Swarm) (tx : ReplyTx) (xs : List Message)
      (l₀ : EventLoop) where
    abbrev request : InferenceRequest
    request = inference_request x c f key s req

    -- What arrives while the auction is open.
    abbrev pub all_bids : List InferenceBid
    all_bids = bids_for m now s.new_request_id xs

    -- The auction's polls are of the channel that the loop filled.
    abbrev pub Listens : Type 0
    Listens =
        (l : EventLoop) (ch : Channel InferenceBid)
        → handle_each m now xs (opened m sw tx request l₀) ≡ some l
        → get s.new_request_id l.bid_subscribers ≡ some ch
        → s.published ≡ ok (polls_of ch)

    -- The whole way: the winner among all bids that named the request got the job, its reply went to
    -- the client, and the ack of the work was answered with a receipt that pays what is owed.
    pub record Journey (result : ChatCompletionResult) (now_ms : ℕ) (sender : PeerId)
        (ack : CompletionAck) (w : World) : Type 0 where
      pub winner : InferenceBid
      pub peer : PeerId
      pub job : InferenceDispatch
      pub reply : InferenceReply
      pub dispatched : EventLoop
      pub answered : EventLoop
      pub receipt : RoutingReceipt
      pub wins : pick_winner_with_warmth f all_bids (fetch_warmth_map f s.warm_rows) ≡ some winner
      pub parses : s.parse_peer_id winner.node_peer_id ≡ ok peer
      pub runs : serve m sw tx now xs (chat_completions x c f key s req).0 l₀ ≡ some dispatched
      pub replied : s.replied job ≡ ok reply
      pub answers :
          handle_swarm_event m now_ms
            (inference_response (sw.send_request peer job) reply)
            dispatched
          ≡ some (inference tx (ok reply) ∷ [], answered)
      pub content : result.content ≡ reply.content
      pub accepts :
          (handle_completion_ack x m now_ms sender ack answered w).0 ≡ accepted_with receipt
      pub verifies : Receipt.verify x receipt ≡ ok tt
      pub pays : receipt.payouts ≡ owed all_bids ack.proofs

    runs_lem :
        (a : Answer) (l : EventLoop) (polls : List Poll) (peer : PeerId) (job : InferenceDispatch)
        → a.0
          ≡ publish_request request
            ∷ addresses_call x c f key s req (collect_bids polls)
            ∷ dispatch_inference peer job
            ∷ []
        → collect_bids polls ≡ all_bids
        → handle_each m now xs (opened m sw tx request l₀) ≡ some l
        → serve m sw tx now xs a.0 l₀
          ≡ some (final m sw tx request l₀ (collect_addresses all_bids []) peer job l)
    runs_lem a l polls peer job calls all e =
        let rest = λ (bs : List InferenceBid).
          addresses_call x c f key s req bs ∷ dispatch_inference peer job ∷ [] in
        ap (λ cs. serve m sw tx now xs cs l₀)
          (calls ∙ ap (λ bs. publish_request request ∷ rest bs) all)
        ∙ serve_lem m sw tx request l₀ now xs (rest all_bids) l e

    -- What an ack for the request is paid from, on a loop that still has it in flight.
    pays_lem :
        (ack : CompletionAck) (l : EventLoop)
        → ack.request_id ≡ s.new_request_id
        → get s.new_request_id l.in_flight
          ≡ some (flight m sw tx request l₀ (collect_addresses all_bids []))
        → map payout_of (compute_payouts ack (payout_addresses_of (get ack.request_id l.in_flight)))
          ≡ owed all_bids ack.proofs
    pays_lem ack l same kept =
        ap (λ o. map payout_of (compute_payouts ack (payout_addresses_of o)))
          (ap (λ k. get k l.in_flight) same ∙ kept)
        ∙ compute_payouts-owed ack all_bids

    -- Let a chat completion succeed over an event loop that publishes its request, let messages arrive
    -- while its auction is open, for which every auction that listens has room, and let the auction's
    -- polls be those of the request's channel. Then the winner is chosen among all bids of the messages
    -- that name the request; the handler's calls run on the loop and dispatch a job to the peer of that
    -- winner; the reply to the job, when it comes, goes to the handler and gives the client its
    -- content. An ack for the request that comes next and verifies, while the database answers and
    -- identifiers of payment rows are fresh, is answered with a receipt that verifies and pays the
    -- price of each of the ack's proofs to the address that the proof's node last bid with, and
    -- nothing for a node that bid without one.
    pub chat_completions-Journey :
        SignatureLaws x
        → (payload : Bytes) (result : ChatCompletionResult) (now_ms : ℕ) (sender : PeerId)
          (ack : CompletionAck) (w : World)
        → m.request_to_vec request ≡ some payload
        → sw.gossip_publish inference_any payload ≡ ok tt
        → HasRoom m now xs (opened m sw tx request l₀)
        → Listens
        → (chat_completions x c f key s req).1 ≡ ok result
        → ack.request_id ≡ s.new_request_id
        → verify_primary x ack ≡ ok tt
        → verify_all_proofs x ack ≡ ok tt
        → w.faults ≡ []
        → IsFresh w.next_id w.payments
        → Journey result now_ms sender ack w
    unfolding command_of
    chat_completions-Journey signs payload result now_ms sender ack w p g room listens success same
          v₁ v₂ healthy fresh =
        let a = chat_completions x c f key s req in
        let d = Stage-succeeds a result (chat_completions-Stage x c f key s req signs) success in
        let (l, e, sent, own) = filled m sw tx request l₀ now xs payload p g room in
        let ch : Channel InferenceBid = with_bids (channel bid_channel_capacity) all_bids in
        let polls : d.polls ≡ polls_of ch =
          ok-injective _ _ (sym d.published ∙ listens l ch e own) in
        let all : collect_bids d.polls ≡ all_bids =
          ap collect_bids polls ∙ collect_bids-polls_of ch in
        let paid = collect_addresses all_bids [] in
        let l₃ = final m sw tx request l₀ paid d.peer d.job l in
        let done = runs_lem a l d.polls d.peer d.job d.calls all e in
        let kept = final-in_flight m sw tx request l₀ paid d.peer d.job l sent in
        elim d.ends [
          | inl (e, r, _) ↦ cc
          | inr (reply, result', replied, _, r, _, content) ↦
              let l₄ = record l₃ {
                pending_inference = remove (sw.send_request d.peer d.job) l₃.pending_inference;
              } in
              let acc =
                handle_completion_ack-accepts x m signs now_ms sender ack l₄ w v₁ v₂ healthy
                  fresh in
              record {
                winner = d.winner;
                peer = d.peer;
                job = d.job;
                reply = reply;
                dispatched = l₃;
                answered = l₄;
                receipt = acc.receipt;
                wins =
                    ap (λ bs. pick_winner_with_warmth f bs (fetch_warmth_map f s.warm_rows))
                      (sym all)
                    ∙ d.wins;
                parses = d.parses;
                runs = done;
                replied = replied;
                answers = final-answers m sw tx request l₀ paid d.peer d.job l now_ms reply;
                content =
                    ap (λ (o : ChatCompletionResult). o.content)
                      (ok-injective _ _ (sym success ∙ r))
                    ∙ content;
                accepts = acc.answers;
                verifies = acc.verifies;
                pays = acc.payouts ∙ pays_lem ack l₄ same kept;
              }
        ]
