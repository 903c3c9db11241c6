-- ===== src/Protocol/Signing.antt =====
-- The three checks that every `verify` of the protocol makes, and what a signature made by a key
-- says of them.
use coordinator.Base.{Bytes, Outcome, ok, ensure, ◌>>◌, ◌≡◌, true, arith}
use coordinator.Protocol.Types.{
  VerifyError, invalid_public_key, invalid_signature_bytes, signature_mismatch,
}
use coordinator.Protocol.External.{External, SignatureLaws, BindingLaws}

module _ (x : External) where
  -- The body of `verify` at a key, a signature and a message.
  unfoldable pub verify_bytes : Bytes → Bytes → Bytes → Outcome VerifyError (Unit {0})
  verify_bytes key signature msg = do
    ensure (x.is_verifying_key key) invalid_public_key
    ensure (x.is_signature signature) invalid_signature_bytes
    ensure (x.verifies key msg signature) signature_mismatch

  -- It accepts exactly a well-formed key with a well-formed signature that fits the message.
  pub verify_bytes-ok :
      (key signature msg : Bytes)
      → verify_bytes key signature msg ≡ ok tt
      → (x.is_verifying_key key ≡ true)
        × (x.is_signature signature ≡ true)
        × (x.verifies key msg signature ≡ true)
  unfolding verify_bytes
  verify_bytes-ok key signature msg h = ground arith

  pub verify_bytes-sign :
      SignatureLaws x
      → (k msg : Bytes) → verify_bytes (x.verifying_key k) (x.sign_bytes k msg) msg ≡ ok tt
  unfolding verify_bytes
  verify_bytes-sign l k msg =
      ground (
        arith,
        l.verifying_key-is_valid k,
        l.sign_bytes-is_valid k msg,
        l.verifies-sign_bytes k msg,
      )

  -- A signature that is accepted for a message was made for it.
  pub verify_bytes-binds :
      BindingLaws x
      → (k msg key signature other : Bytes) → key ≡ x.verifying_key k
      → signature ≡ x.sign_bytes k msg
      → verify_bytes key signature other ≡ ok tt
      → other ≡ msg
  verify_bytes-binds l k msg key signature other e f h =
      l.sign_bytes-binds k msg other (rw (e, f) at (verify_bytes-ok key signature other h).2)
