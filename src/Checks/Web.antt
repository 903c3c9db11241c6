-- ===== src/Checks/Web.antt =====
-- The theorems on the HTTP handlers, at concrete requests.
use coordinator.Base.{
  List, [], ◌∷◌, ◌++◌, Bytes, Option, none, some, ok, codes, replicate, map, ◌≡◌, ◌↔◌, refl,
}
use coordinator.Auction.Defs.{received, elapsed}
use coordinator.Api.Crypto.{CryptoExternal, CryptoLaws}
use coordinator.Api.Messages.{
  ChatMessage, ChatCompletionRequest, decrypt_messages_if_encrypted,
  decrypt_messages_if_encrypted-encrypted,
}
use coordinator.Api.Inference.{Surroundings, chat_completions}
use coordinator.Api.Stages.{Stage, chat_completions-Stage}
use coordinator.Api.Admin.{check_secret, supplied_by}
use coordinator.Api.Secret.{check_secret_iff}
use coordinator.Registry.{snapshot}
use coordinator.Api.Models.{list_models}
use coordinator.Api.Offers.{Ascending, IsDistinct, nodes_at, offers, list_models-offers}
use coordinator.Checks.Toy.{toy, toy-signs, toy_float}
use coordinator.Checks.Data.{enclave_key, node_key, some_bids, some_registry}

-- One group element of 32 bytes, and a cipher that keeps the text.
abbrev pub toy_crypto : CryptoExternal
toy_crypto = record {
  sha512 = λ b. b;
  x25519_public = λ a. replicate 32 1;
  diffie_hellman = λ a b. b;
  aes_encrypt = λ k n t. t;
  aes_decrypt = λ k n t. some t;
  hex_encode = λ b. b;
  base64_encode = λ b. b;
  base64_decode = some;
}

toy_crypto-laws : CryptoLaws toy toy_crypto
toy_crypto-laws = record {
  diffie_hellman-agrees = λ a b. refl;
  length-x25519_public = λ a. refl;
  aes_decrypt-aes_encrypt = λ k n t. refl;
  hex_decode-hex_encode = λ b. refl;
  base64_decode-base64_encode = λ b. refl;
}

abbrev some_messages : List ChatMessage
some_messages = record { role = codes "user"; content = codes "hi" } ∷ []

abbrev parse : Bytes → Option (List ChatMessage)
parse b = some some_messages

abbrev pub plain_request : ChatCompletionRequest
plain_request = record {
  model = codes "m";
  messages = some_messages;
  client_pubkey_hex = replicate 32 1;
  max_price_nanox = none;
  privacy = some (codes "Private");
  session_id = none;
  client_x25519_pubkey_hex = none;
  messages_encrypted = none;
  messages_nonce = none;
  session_key = none;
  memwal_context = none;
}

abbrev encrypted_request : ChatCompletionRequest
encrypted_request = record plain_request {
  messages = [];
  client_x25519_pubkey_hex = some (replicate 32 1);
  messages_encrypted = some (codes "[..]");
  messages_nonce = some (replicate 12 0);
}

abbrev pub some_surroundings : Surroundings
some_surroundings = record {
  new_request_id = 5;
  new_session_id = 6;
  published = ok (map received some_bids ++ elapsed ∷ []);
  warm_rows = none;
  now_ms = 1000;
  random_key = codes "k";
  replied = λ d. ok (record {
    request_id = 5;
    session_id = 6;
    content = codes "hello";
    input_tokens = 1;
    output_tokens = 2;
    latency_ms = 3;
    error = none;
  });
  messages_from_slice = parse;
  parse_peer_id = ok;
}

decrypt_messages_if_encrypted-encrypted_example :
    decrypt_messages_if_encrypted toy toy_crypto parse enclave_key encrypted_request
    ≡ ok some_messages
decrypt_messages_if_encrypted-encrypted_example =
    decrypt_messages_if_encrypted-encrypted toy toy_crypto parse toy_crypto-laws enclave_key
      node_key (replicate 12 0) (codes "[..]") some_messages encrypted_request refl refl refl refl
      refl

chat_completions-Stage_example :
    Stage toy toy_crypto toy_float enclave_key some_surroundings plain_request
      (chat_completions toy toy_crypto toy_float enclave_key some_surroundings plain_request)
chat_completions-Stage_example =
    chat_completions-Stage toy toy_crypto toy_float enclave_key some_surroundings plain_request
      toy-signs

abbrev sent : Bytes
sent = 1 ∷ 7 ∷ []

abbrev stored : Bytes
stored = 1 ∷ 6 ∷ []

-- A blank secret, and a request without the header.
check_secret_iff_example : (check_secret (some (codes " ")) none ≡ ok []) ↔ (supplied_by none ≡ [])
check_secret_iff_example = check_secret_iff (codes " ") none tt tt

list_models-offers_example :
    Ascending (list_models some_registry)
    × IsDistinct (list_models some_registry)
    × (nodes_at (codes "m") (list_models some_registry)
        ≡ offers (codes "m") (snapshot some_registry))
list_models-offers_example = list_models-offers some_registry (codes "m")
