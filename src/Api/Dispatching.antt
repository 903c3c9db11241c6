-- ===== src/Api/Dispatching.antt =====
-- How far `chat_completions` gets: the calls of the mesh, the error's status, and what a success
-- rests on.
use coordinator.Base.{
  List, Text, Bytes, Bool, true, false, Option, none, some, Outcome, ok, err, ◌>>=◌, ok_or, ensure,
  length, ◌==◌, nat_eq, text_eq, ◌≡◌, refl, inl, inr, Bool-cases,
}
use coordinator.Protocol.External.{External}
use coordinator.Api.Errors.{AppError, bad_request, status_code}
use coordinator.Api.Crypto.{CryptoExternal}
use coordinator.Api.Messages.{ChatMessage, decrypt_messages, by_mode, exactly_32, decode_hex_pubkey}

-- Whatever error comes out is answered with the status 400.
abbrev pub Only400 : {A : Type 0} → Outcome AppError A → Type 0
Only400 (ok a) = Unit
Only400 (err e) = status_code e ≡ 400

Only400-bind :
    {A B : Type 0} (r : Outcome AppError A) (k : A → Outcome AppError B)
    → Only400 r
    → ((a : A) → Only400 (k a))
    → Only400 (r >>= k)
Only400-bind (ok a) k h g = g a
Only400-bind (err e) k h g = h

Only400-ok_or : {A : Type 0} (o : Option A) (t : Text) → Only400 (ok_or o (bad_request t))
unfolding status_code
Only400-ok_or none t = refl
Only400-ok_or (some a) t = tt

Only400-ensure : (b : Bool) (t : Text) → Only400 (ensure b (bad_request t))
unfolding status_code
Only400-ensure true t = tt
Only400-ensure false t = refl

Only400-exactly_32 : (t : Text) (b : Bytes) → Only400 (exactly_32 (bad_request t) b)
unfolding status_code
Only400-exactly_32 t b = elim (Bool-cases (length b == 32)) [ inl h ↦ rw h tt | inr h ↦ rw h refl ]

pub decode_hex_pubkey-Only400 : (x : External) (t : Text) → Only400 (decode_hex_pubkey x t)
unfolding decode_hex_pubkey
decode_hex_pubkey-Only400 x t =
    Only400-bind _ _ (Only400-ok_or (x.hex_decode t) _) (Only400-exactly_32 _)

module _ (x : External) (c : CryptoExternal) (parse : Bytes → Option (List ChatMessage))
    (seed : Bytes) where
  decrypt_messages-Only400 : (h e n : Text) → Only400 (decrypt_messages x c parse seed h e n)
  unfolding decrypt_messages
  decrypt_messages-Only400 h e n = Only400-bind _ _ (Only400-ok_or (x.hex_decode h) _) λ b.
      Only400-bind _ _ (Only400-exactly_32 _ b) λ client_pub.
        Only400-bind _ _ (Only400-ok_or (c.base64_decode e) _) λ ciphertext.
          Only400-bind _ _ (Only400-ok_or (c.base64_decode n) _) λ nonce.
            Only400-bind _ _ (Only400-ensure (length nonce == 12) _) λ checked.
              Only400-bind _ _ (Only400-ok_or _ _) λ plaintext. Only400-ok_or (parse plaintext) _

  pub by_mode-Only400 :
      (messages : List ChatMessage) (h e n : Option Text)
      → Only400 (by_mode x c parse seed messages h e n)
  unfolding status_code
  by_mode-Only400 messages (some h) (some e) (some n) = decrypt_messages-Only400 h e n
  by_mode-Only400 messages none none none = tt
  by_mode-Only400 messages none none (some n) = refl
  by_mode-Only400 messages none (some e) none = refl
  by_mode-Only400 messages none (some e) (some n) = refl
  by_mode-Only400 messages (some h) none none = refl
  by_mode-Only400 messages (some h) none (some n) = refl
  by_mode-Only400 messages (some h) (some e) none = refl
