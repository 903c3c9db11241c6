-- ===== src/Api/Stages.antt =====
-- How far a run of `chat_completions` gets, by the calls that it makes of the mesh.
use coordinator.Base.{
  ℕ, List, [], ◌∷◌, Text, Bytes, Option, none, some, Outcome, ok, err, codes, nat_eq, text_eq, ◌≡◌,
  refl, ◌⊎◌, inl, inr, ◌||◌, contains_text, Bool-cases,
}
use coordinator.Protocol.External.{External, SignatureLaws}
use coordinator.Protocol.Types.{InferenceBid}
use coordinator.Protocol.Token
use coordinator.Protocol.Token.{DispatchToken, verify-sign}
use coordinator.Protocol.Dispatch.{InferenceDispatch, InferenceReply}
use coordinator.Auction.Float.{Float}
use coordinator.Auction.Defs.{Poll, collect_bids, pick_winner_with_warmth, fetch_warmth_map}
use coordinator.Registry.{PeerId}
use coordinator.Api.Errors.{AppError, status_code}
use coordinator.Api.Crypto.{CryptoExternal}
use coordinator.Api.Messages.{
  ChatMessage, ChatCompletionRequest, ChatCompletionResult, decrypt_messages_if_encrypted,
  decode_hex_pubkey,
}
use coordinator.Api.Inference.{
  publish_request, dispatch_inference, Surroundings, Answer, chat_completions, on_messages,
  on_message, run_auction, on_winner, with_client_key, on_reply, reply_error, inference_request,
  addresses_call, last_user_message, publish_error, make_token, session_key,
}
use coordinator.Api.Dispatching.{Only400, decode_hex_pubkey-Only400, by_mode-Only400}

-- An error with one of two status codes.
abbrev pub FailsWith : ℕ → ℕ → Outcome AppError ChatCompletionResult → Type 0
FailsWith m n r = (e : AppError) × (r ≡ err e) × ((status_code e ≡ m) ⊎ (status_code e ≡ n))

publish_error-503_or_500 :
    (e : Text) → (status_code (publish_error e) ≡ 503) ⊎ (status_code (publish_error e) ≡ 500)
unfolding status_code
publish_error-503_or_500 e =
    elim (Bool-cases (
      contains_text (codes "NoPeersSubscribed") e || contains_text (codes "InsufficientPeers") e)) [
        | inl h ↦ inl (rw h refl)
        | inr h ↦ inr (rw h refl)
      ]

module _ (x : External) (c : CryptoExternal) (f : Float) (key : Bytes) (s : Surroundings)
    (req : ChatCompletionRequest) where
  -- The job went out: a dispatch to the winner of the auction over the bids that were received, with
  -- a token that verifies and names the request and the winner, and then the node's answer.
  pub record Dispatches (a : Answer) : Type 0 where
    pub polls : List Poll
    pub winner : InferenceBid
    pub peer : PeerId
    pub job : InferenceDispatch
    pub published : s.published ≡ ok polls
    pub wins :
        pick_winner_with_warmth f (collect_bids polls) (fetch_warmth_map f s.warm_rows)
        ≡ some winner
    pub parses : s.parse_peer_id winner.node_peer_id ≡ ok peer
    pub verifies : Token.verify x job.dispatch_token ≡ ok tt
    pub names_request : job.dispatch_token.request_id ≡ s.new_request_id
    pub names_winner : job.dispatch_token.primary_peer_id ≡ winner.node_peer_id
    pub calls :
        a.0
        ≡ publish_request (inference_request x c f key s req)
          ∷ addresses_call x c f key s req (collect_bids polls)
          ∷ dispatch_inference peer job
          ∷ []
    pub ends :
        FailsWith 502 502 a.1
        ⊎ ((reply : InferenceReply) × (result : ChatCompletionResult) × (s.replied job ≡ ok reply)
            × (reply.error ≡ none)
            × (a.1 ≡ ok result)
            × (result.request_id ≡ s.new_request_id)
            × (result.content ≡ reply.content))

  abbrev pub Stage : Answer → Type 0
  Stage a =
      ((a.0 ≡ []) × FailsWith 400 400 a.1)
      ⊎ (((a.0 ≡ publish_request (inference_request x c f key s req) ∷ []) × FailsWith 503 500 a.1)
          ⊎ (((bids : List InferenceBid) × (a.0
                  ≡ publish_request (inference_request x c f key s req)
                    ∷ addresses_call x c f key s req bids
                    ∷ [])
                × FailsWith 400 500 a.1)
              ⊎ Dispatches a))

  reply_error-ends :
      (o : Option Text) (r : InferenceReply)
      → FailsWith 502 502 (reply_error x c f key s req o r)
        ⊎ ((o ≡ none)
            × ((result : ChatCompletionResult) × (reply_error x c f key s req o r ≡ ok result)
                × (result.request_id ≡ s.new_request_id)
                × (result.content ≡ r.content)))
  unfolding status_code
  reply_error-ends (some e) r = inl (_, refl, inl refl)
  reply_error-ends none r = inr (refl, (_, refl, refl, refl))

  on_reply-ends :
      (o : Outcome Text InferenceReply)
      → FailsWith 502 502 (on_reply x c f key s req o)
        ⊎ ((reply : InferenceReply) × (result : ChatCompletionResult) × (o ≡ ok reply)
            × (reply.error ≡ none)
            × (on_reply x c f key s req o ≡ ok result)
            × (result.request_id ≡ s.new_request_id)
            × (result.content ≡ reply.content))
  unfolding status_code
  on_reply-ends (err e) = inl (_, refl, inl refl)
  on_reply-ends (ok reply) = elim (reply_error-ends reply.error reply) [
    | inl h ↦ inl h
    | inr (e, (result, p, q, t)) ↦ inr (reply, result, refl, e, p, q, t)
  ]

  make_token-fields :
      (winner : InferenceBid) (k : Bytes)
      → let t = make_token x c f key s req winner k in
        (t.request_id ≡ s.new_request_id) × (t.primary_peer_id ≡ winner.node_peer_id)
  unfolding make_token Token.sign
  make_token-fields winner k = (refl, refl)

  make_token-verifies :
      SignatureLaws x
      → (winner : InferenceBid) (k : Bytes)
      → Token.verify x (make_token x c f key s req winner k) ≡ ok tt
  unfolding make_token
  make_token-verifies l winner k = verify-sign x l key _

  module _ (l : SignatureLaws x) (polls : List Poll) (message : Text)
      (p : s.published ≡ ok polls) where
    with_client_key-Stage :
        (winner : InferenceBid) (r : Outcome AppError Bytes) (o : Outcome Text PeerId)
        → Only400 r
        → s.parse_peer_id winner.node_peer_id ≡ o
        → pick_winner_with_warmth f (collect_bids polls) (fetch_warmth_map f s.warm_rows)
          ≡ some winner
        → Stage (
            with_client_key x c f key s req
              (publish_request (inference_request x c f key s req)
                ∷ addresses_call x c f key s req (collect_bids polls)
                ∷ [])
              message
              winner
              r)
    unfolding status_code
    with_client_key-Stage winner (err e) o h q w =
        inr (inr (inl (collect_bids polls, refl, (e, refl, inl h))))
    with_client_key-Stage winner (ok k) (err e) h q w =
        rw q (inr (inr (inl (collect_bids polls, refl, (_, refl, inr refl)))))
    with_client_key-Stage winner (ok k) (ok peer) h q w =
        let (request, names) = make_token-fields winner k in
        rw q (
          inr (
            inr (
              inr (record {
                polls = polls;
                winner = winner;
                peer = peer;
                job = record {
                  dispatch_token = make_token x c f key s req winner k;
                  session_key = session_key x c f key s req;
                  new_user_message = message;
                  memwal_context = req.memwal_context;
                };
                published = p;
                wins = w;
                parses = q;
                verifies = make_token-verifies l winner k;
                names_request = request;
                names_winner = names;
                calls = refl;
                ends = on_reply-ends _;
              }))))

    on_winner-Stage :
        (o : Option InferenceBid)
        → pick_winner_with_warmth f (collect_bids polls) (fetch_warmth_map f s.warm_rows) ≡ o
        → Stage (on_winner x c f key s req message (collect_bids polls) o)
    unfolding status_code
    on_winner-Stage none w = inr (inl (refl, (_, refl, inl refl)))
    on_winner-Stage (some winner) w =
        with_client_key-Stage winner (decode_hex_pubkey x req.client_pubkey_hex)
          (s.parse_peer_id winner.node_peer_id) (decode_hex_pubkey-Only400 x req.client_pubkey_hex)
          refl w

  run_auction-Stage :
      SignatureLaws x
      → (message : Text) (o : Outcome Text (List Poll)) → s.published ≡ o
      → Stage (run_auction x c f key s req message o)
  run_auction-Stage l message (err e) p = inr (inl (refl, (_, refl, publish_error-503_or_500 e)))
  run_auction-Stage l message (ok polls) p = on_winner-Stage l polls message p _ refl

  on_message-Stage : SignatureLaws x → (o : Option Text) → Stage (on_message x c f key s req o)
  unfolding status_code
  on_message-Stage l none = inl (refl, (_, refl, inl refl))
  on_message-Stage l (some message) = run_auction-Stage l message s.published refl

  on_messages-Stage :
      SignatureLaws x
      → (r : Outcome AppError (List ChatMessage)) → Only400 r
      → Stage (on_messages x c f key s req r)
  on_messages-Stage l (err e) h = inl (refl, (e, refl, inl h))
  on_messages-Stage l (ok messages) h = on_message-Stage l (last_user_message messages)

  -- A run ends in one of four ways. It fails on the messages with status 400 before it calls the
  -- mesh. It publishes the request and fails with 503 or 500. It also records the payout addresses
  -- and fails with 400 or 500. Or it then dispatches one job, to the peer of the auction's winner
  -- and with a token that verifies and names the request and that winner, and ends with 502 or with
  -- the content of the node's reply, which carried no error.
  pub chat_completions-Stage : SignatureLaws x → Stage (chat_completions x c f key s req)
  unfolding chat_completions decrypt_messages_if_encrypted
  chat_completions-Stage l = on_messages-Stage l _ (
      by_mode-Only400 x c s.messages_from_slice key req.messages req.client_x25519_pubkey_hex
        req.messages_encrypted req.messages_nonce)
