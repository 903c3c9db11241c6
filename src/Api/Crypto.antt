-- ===== src/Api/Crypto.antt =====
-- src/nautilus-enclave/src/crypto.rs: the key agreement that encrypted prompts rest on.
use coordinator.Base.{Text, Bytes, Option, some, codes, ◌++◌, take, length, ◌≡◌}
use coordinator.Protocol.External.{External}

-- x25519-dalek, SHA-512, AES-256-GCM, and the encodings hex and base64. `aes_encrypt` is the
-- client's; both take a key, a nonce and a text.
pub record CryptoExternal : Type 0 where
  pub sha512 : Bytes → Bytes
  pub x25519_public : Bytes → Bytes
  pub diffie_hellman : Bytes → Bytes → Bytes
  pub aes_encrypt : Bytes → Bytes → Bytes → Bytes
  pub aes_decrypt : Bytes → Bytes → Bytes → Option Bytes
  pub hex_encode : Bytes → Text
  pub base64_encode : Bytes → Text
  pub base64_decode : Text → Option Bytes

-- The two sides agree on a secret, a public key has 32 bytes, what was encrypted decrypts, and
-- what was encoded decodes.
pub record CryptoLaws (x : External) (c : CryptoExternal) : Type 0 where
  pub diffie_hellman-agrees :
      (a b : Bytes)
      → c.diffie_hellman a (c.x25519_public b) ≡ c.diffie_hellman b (c.x25519_public a)
  pub length-x25519_public : (a : Bytes) → length (c.x25519_public a) ≡ 32
  pub aes_decrypt-aes_encrypt :
      (key nonce text : Bytes) → c.aes_decrypt key nonce (c.aes_encrypt key nonce text) ≡ some text
  pub hex_decode-hex_encode : (b : Bytes) → x.hex_decode (c.hex_encode b) ≡ some b
  pub base64_decode-base64_encode : (b : Bytes) → c.base64_decode (c.base64_encode b) ≡ some b

module _ (x : External) (c : CryptoExternal) where
  -- The first 32 bytes of the digest; x25519-dalek clamps them.
  unfoldable pub ed25519_seed_to_x25519 : Bytes → Bytes
  ed25519_seed_to_x25519 seed = take 32 (c.sha512 seed)

  unfoldable pub x25519_public_key : Bytes → Bytes
  x25519_public_key seed = c.x25519_public (ed25519_seed_to_x25519 seed)

  unfoldable pub ecdh : Bytes → Bytes → Bytes
  ecdh seed client_pub = c.diffie_hellman (ed25519_seed_to_x25519 seed) client_pub

  unfoldable pub derive_aes_key : Bytes → Bytes
  derive_aes_key shared_secret = x.sha256 (codes "pinaivu-aes-key-v1" ++ shared_secret)
