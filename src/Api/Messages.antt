-- ===== src/Api/Messages.antt =====
-- The request of src/coordinator/src/api/inference.rs and how its messages are read, in plain text
-- or encrypted for the enclave.
use coordinator.Base.{
  ℕ, List, Text, Bytes, Option, none, some, Outcome, ok, err, ◌>>=◌, ok_or, ensure, codes, length,
  nat_eq, ◌==◌, ◌≡◌, refl, sym,
}
use coordinator.Protocol.Types.{
  NanoX, SessionId, PrivacyLevel, standard, private, fragmented, maximum,
}
use coordinator.Protocol.External.{External}
use coordinator.Base.{to_ascii_lowercase, text_eq, if◌then◌else◌}
use coordinator.Api.Errors.{AppError, bad_request}
use coordinator.Api.Crypto.{
  CryptoExternal, CryptoLaws, ecdh, derive_aes_key, x25519_public_key, ed25519_seed_to_x25519,
}

pub record ChatMessage : Type 0 where
  pub role : Text
  pub content : Text

pub record ChatCompletionRequest : Type 0 where
  pub model : Text
  pub messages : List ChatMessage
  pub client_pubkey_hex : Text
  pub max_price_nanox : Option NanoX
  pub privacy : Option Text
  pub session_id : Option SessionId
  pub client_x25519_pubkey_hex : Option Text
  pub messages_encrypted : Option Text
  pub messages_nonce : Option Text
  pub session_key : Option Text
  pub memwal_context : Option Text

pub record ChatCompletionResult : Type 0 where
  pub request_id : ℕ
  pub session_id : SessionId
  pub content : Text
  pub session_key : Text
  pub input_tokens : ℕ
  pub output_tokens : ℕ
  pub latency_ms : ℕ

abbrev privacy_of : Text → PrivacyLevel
privacy_of s =
    if s == codes "private"
    then private
    else if s == codes "fragmented"
    then fragmented
    else if s == codes "maximum"
    then maximum
    else standard

unfoldable pub parse_privacy : Option Text → PrivacyLevel
parse_privacy none = privacy_of (to_ascii_lowercase (codes "standard"))
parse_privacy (some s) = privacy_of (to_ascii_lowercase s)

-- `try_into` an array of 32 bytes.
abbrev pub exactly_32 : AppError → Bytes → Outcome AppError Bytes
exactly_32 e b = if length b == 32 then ok b else err e

module _ (x : External) where
  unfoldable pub decode_hex_pubkey : Text → Outcome AppError Bytes
  decode_hex_pubkey s =
      ok_or (x.hex_decode s) (bad_request (codes "client_pubkey_hex must be hex"))
      >>= exactly_32 (bad_request (codes "client_pubkey_hex must be 32 bytes"))

abbrev mixed : AppError
mixed = bad_request (
    codes
      "encrypted mode requires all three fields: client_x25519_pubkey_hex, messages_encrypted, messages_nonce")

-- `messages_from_slice` is serde_json.
module _ (x : External) (c : CryptoExternal)
    (messages_from_slice : Bytes → Option (List ChatMessage)) where
  unfoldable pub decrypt_messages : Bytes → Text → Text → Text → Outcome AppError (List ChatMessage)
  decrypt_messages seed x25519_hex enc_b64 nonce_b64 = do
    client_pub_bytes ←
        ok_or (x.hex_decode x25519_hex)
          (bad_request (codes "client_x25519_pubkey_hex must be valid hex"))
    client_pub ←
        exactly_32 (bad_request (codes "client_x25519_pubkey_hex must be exactly 32 bytes"))
          client_pub_bytes
    ciphertext ←
        ok_or (c.base64_decode enc_b64)
          (bad_request (codes "messages_encrypted must be valid base64"))
    nonce_bytes ←
        ok_or (c.base64_decode nonce_b64)
          (bad_request (codes "messages_nonce must be valid base64"))
    checked ←
        ensure (length nonce_bytes == 12)
          (bad_request (codes "messages_nonce must decode to exactly 12 bytes"))
    plaintext ←
        ok_or (c.aes_decrypt (derive_aes_key x c (ecdh x c seed client_pub)) nonce_bytes ciphertext)
          (bad_request (codes "prompt decryption failed"))
    ok_or (messages_from_slice plaintext)
        (bad_request (codes "decrypted payload is not a valid JSON messages array"))

  abbrev pub by_mode :
      Bytes
      → List ChatMessage
      → Option Text
      → Option Text
      → Option Text
      → Outcome AppError (List ChatMessage)
  by_mode seed messages (some x25519_hex) (some enc_b64) (some nonce_b64) =
      decrypt_messages seed x25519_hex enc_b64 nonce_b64
  by_mode seed messages none none none = ok messages
  by_mode seed messages none none (some _) = err mixed
  by_mode seed messages none (some _) other = err mixed
  by_mode seed messages (some _) none other = err mixed
  by_mode seed messages (some _) (some _) none = err mixed

  unfoldable pub decrypt_messages_if_encrypted :
      Bytes → ChatCompletionRequest → Outcome AppError (List ChatMessage)
  decrypt_messages_if_encrypted seed req =
      by_mode seed req.messages req.client_x25519_pubkey_hex req.messages_encrypted
        req.messages_nonce

  -- What a client encrypted for the enclave is what the handler reads: under the key that the client
  -- derives from its own secret and the enclave's published key, with any nonce of 12 bytes, and
  -- sent with the client's public key in hex and the rest in base64.
  pub decrypt_messages_if_encrypted-encrypted :
      CryptoLaws x c
      → (seed client_secret nonce plaintext : Bytes) (messages : List ChatMessage)
        (req : ChatCompletionRequest)
      → length nonce ≡ 12
      → messages_from_slice plaintext ≡ some messages
      → let key =
          derive_aes_key x c (c.diffie_hellman client_secret (x25519_public_key x c seed)) in
        req.client_x25519_pubkey_hex ≡ some (c.hex_encode (c.x25519_public client_secret))
        → req.messages_encrypted ≡ some (c.base64_encode (c.aes_encrypt key nonce plaintext))
        → req.messages_nonce ≡ some (c.base64_encode nonce)
        → decrypt_messages_if_encrypted seed req ≡ ok messages
  unfolding decrypt_messages_if_encrypted decrypt_messages ecdh x25519_public_key
  decrypt_messages_if_encrypted-encrypted l seed s nonce plaintext messages req n p h e f =
      let agree = l.diffie_hellman-agrees s (ed25519_seed_to_x25519 x c seed) in
      let key = derive_aes_key x c (c.diffie_hellman s (x25519_public_key x c seed)) in
      rw
        (
          h,
          e,
          f,
          l.hex_decode-hex_encode (c.x25519_public s),
          l.length-x25519_public s,
          l.base64_decode-base64_encode (c.aes_encrypt key nonce plaintext),
          l.base64_decode-base64_encode nonce,
          n,
          sym agree,
          l.aes_decrypt-aes_encrypt key nonce plaintext,
          p,
        )
        refl
