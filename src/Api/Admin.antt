-- ===== src/Api/Admin.antt =====
-- src/coordinator/src/api/admin.rs: the shared secret, and the endpoint that sets the enclave's
-- object id. `env` is the variable SIDECAR_SECRET, `header` the request's header where it is a text.
use Prim.Native.Nat.{bit_or, bit_xor}
use coordinator.Base.{
  ℕ, ◌+◌, ◌/◌, ◌%◌, [], ◌∷◌, ◌++◌, Text, Bytes, Bool, false, not, ◌||◌, Option, none, some, Outcome,
  ok, err, trim, length, null, codes, ltb, ◌==◌, nat_eq, if◌then◌else◌,
}

-- `diff |= x ^ y` over the zipped bytes.
unfoldable pub accumulate : ℕ → Bytes → Bytes → ℕ
accumulate diff [] b = diff
accumulate diff (x ∷ a) [] = diff
accumulate diff (x ∷ a) (y ∷ b) = accumulate (bit_or diff (bit_xor x y)) a b

unfoldable pub constant_time_eq : Bytes → Bytes → Bool
constant_time_eq a b = if not (length a == length b) then false else accumulate 0 a b == 0

-- UTF-8, for `as_bytes`.
abbrev pub utf8_char : ℕ → Bytes
utf8_char c =
    if ltb c 128
    then c ∷ []
    else if ltb c 2048
    then (192 + c / 64) ∷ (128 + c % 64) ∷ []
    else if ltb c 65536
    then (224 + c / 4096) ∷ (128 + c / 64 % 64) ∷ (128 + c % 64) ∷ []
    else (240 + c / 262144) ∷ (128 + c / 4096 % 64) ∷ (128 + c / 64 % 64) ∷ (128 + c % 64) ∷ []

abbrev pub as_bytes : Text → Bytes
as_bytes [] = []
as_bytes (c ∷ s) = utf8_char c ++ as_bytes s

-- A status code and the `error` of the body.
abbrev pub Refusal : Type 0
Refusal = ℕ × Text

abbrev pub supplied_by : Option Text → Text
supplied_by none = []
supplied_by (some v) = trim v

abbrev pub compare_secret : Text → Text → Outcome Refusal Text
compare_secret expected supplied =
    if not (length (as_bytes supplied) == length (as_bytes expected))
      || not (constant_time_eq (as_bytes supplied) (as_bytes expected))
    then err (401, codes "bad or missing X-Sidecar-Secret")
    else ok expected

unfoldable pub check_secret : Option Text → Option Text → Outcome Refusal Text
check_secret none header = err (503, codes "SIDECAR_SECRET not configured")
check_secret (some raw) header = compare_secret (trim raw) (supplied_by header)

-- src/coordinator/src/onchain/sui.rs.
pub record RegisteredEnclave : Type 0 where
  pub tx_digest : Text
  pub enclave_object_id : Text

pub record SetEnclaveIdReq : Type 0 where
  pub enclave_object_id : Text
  pub tx_digest : Option Text

pub record SetEnclaveIdResp : Type 0 where
  pub enclave_object_id : Text
  pub forwarded_to_sidecar : Bool

abbrev pub digest_or_empty : Option Text → Text
digest_or_empty none = []
digest_or_empty (some d) = d

-- `forward secret id` says whether the sidecar took the id over HTTP.
module _ (forward : Text → Text → Bool) where
  abbrev pub store_id :
      Text
      → Text
      → SetEnclaveIdReq
      → Option RegisteredEnclave
      → Outcome Refusal SetEnclaveIdResp × Option RegisteredEnclave
  store_id secret id req on_chain =
      if null id then (err (400, codes "enclave_object_id required"), on_chain) else (
        ok (record { enclave_object_id = id; forwarded_to_sidecar = forward secret id }),
        some (record { tx_digest = digest_or_empty req.tx_digest; enclave_object_id = id }),
      )

  abbrev pub with_secret :
      Outcome Refusal Text
      → SetEnclaveIdReq
      → Option RegisteredEnclave
      → Outcome Refusal SetEnclaveIdResp × Option RegisteredEnclave
  with_secret (err e) req on_chain = (err e, on_chain)
  with_secret (ok secret) req on_chain = store_id secret (trim req.enclave_object_id) req on_chain

  unfoldable pub set_enclave_id :
      Option Text
      → Option Text
      → SetEnclaveIdReq
      → Option RegisteredEnclave
      → Outcome Refusal SetEnclaveIdResp × Option RegisteredEnclave
  set_enclave_id env header req on_chain = with_secret (check_secret env header) req on_chain
