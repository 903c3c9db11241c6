-- ===== src/Api/Inference.antt =====
-- `chat_completions` of src/coordinator/src/api/inference.rs. The mesh is another task: what it
-- answers is part of `Surroundings`, and the handler's calls of it are listed in order.
use coordinator.Base.{
  ℕ, ◌+◌, ◌%◌, ◌^◌, ◌-◌, List, [], ◌∷◌, ◌++◌, reverse, null, Text, Bytes, Option, none, some,
  Outcome, ok, err, codes, find, contains_text, ◌==◌, ◌||◌, text_eq, if◌then◌else◌,
}
use coordinator.Base.Map.{Map, insert}
use coordinator.Protocol.Types.{
  Uuid, SessionId, InferenceRequest, InferenceBid, ClientSessionIntent, new, continue,
}
use coordinator.Protocol.External.{External}
use coordinator.Protocol.Token
use coordinator.Protocol.Token.{DispatchToken}
use coordinator.Protocol.Dispatch.{InferenceDispatch, InferenceReply}
use coordinator.Auction.Float.{Float}
use coordinator.Auction.Defs.{Poll, collect_bids, pick_winner_with_warmth, fetch_warmth_map}
use coordinator.Registry.{PeerId}
use coordinator.Mesh.{zeroes}
use coordinator.Api.Errors.{AppError, bad_request, no_nodes, upstream, internal}
use coordinator.Api.Crypto.{CryptoExternal}
use coordinator.Api.Messages.{
  ChatMessage, ChatCompletionRequest, ChatCompletionResult, parse_privacy, decode_hex_pubkey,
  decrypt_messages_if_encrypted,
}

abbrev pub dispatch_deadline_ms : ℕ
dispatch_deadline_ms = 60000

-- A call of the trait `Mesh`.
pub data MeshCall : Type 0 where
  publish_request : InferenceRequest → MeshCall
  set_payout_addresses : Uuid → Map Text Text → MeshCall
  dispatch_inference : PeerId → InferenceDispatch → MeshCall

-- What the handler meets: two fresh identifiers, the outcome of the publication (the polls of the
-- bid receiver), the rows of the warmth query, the clock, 32 random bytes in base64, and the
-- reply to a dispatch. serde_json and libp2p read messages and peer ids.
pub record Surroundings : Type 0 where
  pub new_request_id : Uuid
  pub new_session_id : Uuid
  pub published : Outcome Text (List Poll)
  pub warm_rows : Option (List (Text × Text))
  pub now_ms : ℕ
  pub random_key : Text
  pub replied : InferenceDispatch → Outcome Text InferenceReply
  pub messages_from_slice : Bytes → Option (List ChatMessage)
  pub parse_peer_id : Text → Outcome Text PeerId

abbrev pub Answer : Type 0
Answer = List MeshCall × Outcome AppError ChatCompletionResult

-- The last message of the user.
abbrev content_of : Option ChatMessage → Option Text
content_of none = none
content_of (some m) = some m.content

unfoldable pub last_user_message : List ChatMessage → Option Text
last_user_message messages =
    content_of (find (λ (m : ChatMessage). m.role == codes "user") (reverse messages))

abbrev pub session_of : Option SessionId → Uuid → SessionId × ClientSessionIntent
session_of (some id) fresh = (id, continue)
session_of none fresh = (fresh, new)

-- The map of the payout addresses: a later bid of the same peer replaces an earlier one.
abbrev pub collect_addresses : List InferenceBid → Map Text Text → Map Text Text
collect_addresses [] m = m
collect_addresses (b ∷ bids) m =
    collect_addresses bids
      (if null b.payout_address then m else insert b.node_peer_id b.payout_address m)

abbrev pub publish_error : Text → AppError
publish_error msg =
    if contains_text (codes "NoPeersSubscribed") msg
      || contains_text (codes "InsufficientPeers") msg
    then no_nodes (codes "no GPU nodes subscribed to this model topic")
    else internal (codes "mesh publish: " ++ msg)

abbrev pub price_or_max : Option ℕ → ℕ
price_or_max none = 2 ^ 64 - 1
price_or_max (some p) = p

abbrev pub key_or_random : Option Text → Text → Text
key_or_random none random = random
key_or_random (some k) random = k

module _ (x : External) (c : CryptoExternal) (f : Float) (key : Bytes) (s : Surroundings)
    (req : ChatCompletionRequest) where
  abbrev pub session_id : SessionId
  session_id = (session_of req.session_id s.new_session_id).0

  abbrev pub inference_request : InferenceRequest
  inference_request = record {
    request_id = s.new_request_id;
    session_id = session_id;
    model = req.model;
    privacy = parse_privacy req.privacy;
    session_intent = (session_of req.session_id s.new_session_id).1;
  }

  abbrev pub session_key : Text
  session_key = key_or_random req.session_key s.random_key

  unfoldable pub make_token : InferenceBid → Bytes → DispatchToken
  make_token winner client_pubkey = Token.sign x key (record {
    request_id = s.new_request_id;
    session_id = session_id;
    client_pubkey = client_pubkey;
    primary_peer_id = winner.node_peer_id;
    settlement_id = codes "free";
    max_price_nanox = price_or_max req.max_price_nanox;
    issued_at_ms = s.now_ms;
    deadline_ms = (s.now_ms + dispatch_deadline_ms) % 2 ^ 64;
    coordinator_pubkey = zeroes;
    node_x25519_pubkey = winner.node_x25519_pubkey;
    signature = [];
  })

  -- A reply that carries an error is an error.
  abbrev pub reply_error : Option Text → InferenceReply → Outcome AppError ChatCompletionResult
  reply_error (some e) reply = err (upstream (codes "node returned an error: " ++ e))
  reply_error none reply = ok (record {
    request_id = s.new_request_id;
    session_id = session_id;
    content = reply.content;
    session_key = session_key;
    input_tokens = reply.input_tokens;
    output_tokens = reply.output_tokens;
    latency_ms = reply.latency_ms;
  })

  abbrev pub on_reply : Outcome Text InferenceReply → Outcome AppError ChatCompletionResult
  on_reply (err e) = err (upstream (codes "node dispatch failed: " ++ e))
  on_reply (ok reply) = reply_error reply.error reply

  abbrev pub send_job : List MeshCall → Outcome Text PeerId → InferenceDispatch → Answer
  send_job calls (err e) dispatch =
      (calls, err (internal (codes "winning bid has invalid peer_id: " ++ e)))
  send_job calls (ok peer) dispatch =
      (calls ++ dispatch_inference peer dispatch ∷ [], on_reply (s.replied dispatch))

  abbrev pub with_client_key : List MeshCall → Text → InferenceBid → Outcome AppError Bytes → Answer
  with_client_key calls message winner (err e) = (calls, err e)
  with_client_key calls message winner (ok client_pubkey) =
      send_job calls (s.parse_peer_id winner.node_peer_id) (record {
        dispatch_token = make_token winner client_pubkey;
        session_key = session_key;
        new_user_message = message;
        memwal_context = req.memwal_context;
      })

  abbrev pub addresses_call : List InferenceBid → MeshCall
  addresses_call bids = set_payout_addresses s.new_request_id (collect_addresses bids [])

  abbrev pub on_winner : Text → List InferenceBid → Option InferenceBid → Answer
  on_winner message bids none =
      (publish_request inference_request ∷ [], err (no_nodes (codes "auction closed with no bids")))
  on_winner message bids (some winner) =
      with_client_key (publish_request inference_request ∷ addresses_call bids ∷ []) message winner
        (decode_hex_pubkey x req.client_pubkey_hex)

  abbrev pub run_auction : Text → Outcome Text (List Poll) → Answer
  run_auction message (err e) = (publish_request inference_request ∷ [], err (publish_error e))
  run_auction message (ok polls) =
      let bids : List InferenceBid = collect_bids polls in
      on_winner message bids (pick_winner_with_warmth f bids (fetch_warmth_map f s.warm_rows))

  abbrev pub on_message : Option Text → Answer
  on_message none = ([], err (bad_request (codes "messages must include a user turn")))
  on_message (some message) = run_auction message s.published

  abbrev pub on_messages : Outcome AppError (List ChatMessage) → Answer
  on_messages (err e) = ([], err e)
  on_messages (ok messages) = on_message (last_user_message messages)

  unfoldable pub chat_completions : Answer
  chat_completions = on_messages (decrypt_messages_if_encrypted x c s.messages_from_slice key req)
