-- ===== src/Protocol/Recruit.antt =====
-- src/pinaivu-protocol/src/mesh/recruit_proto.rs: how a primary node recruits a helper.
use coordinator.Base.{
  ℕ, Text, Bytes, Bool, true, false, Option, none, some, Outcome, ok, ◌≡◌, arith,
}
use coordinator.Protocol.Types.{RequestId, VerifyError}
use coordinator.Protocol.External.{External, SignatureLaws, BindingLaws, RecruitCanonical}
use coordinator.Protocol.Signing.{verify_bytes, verify_bytes-sign, verify_bytes-binds}
use coordinator.Protocol.Proof.{ProofOfInference}

pub record RecruitRequest : Type 0 where
  pub request_id : RequestId
  pub primary_pubkey : Bytes
  pub model : Text
  pub prompt_chunk : Text
  pub max_price_nanox : ℕ
  pub deadline_ms : ℕ
  pub signature : Bytes

pub record RecruitResponse : Type 0 where
  pub accepted : Bool
  pub proof : Option ProofOfInference
  pub reason : Option Text

abbrev pub accept : ProofOfInference → RecruitResponse
accept p = record { accepted = true; proof = some p; reason = none }

abbrev pub reject : Text → RecruitResponse
reject reason = record { accepted = false; proof = none; reason = some reason }

abbrev pub canonical : RecruitRequest → RecruitCanonical
canonical r = record {
  request_id = r.request_id;
  primary_pubkey = r.primary_pubkey;
  model = r.model;
  prompt_chunk = r.prompt_chunk;
  max_price_nanox = r.max_price_nanox;
  deadline_ms = r.deadline_ms;
}

module _ (x : External) where
  unfoldable pub canonical_bytes : RecruitRequest → Bytes
  canonical_bytes r = x.recruit_json (canonical r)

  unfoldable pub sign : Bytes → RecruitRequest → RecruitRequest
  sign key r =
      let q = record r { primary_pubkey = x.verifying_key key } in
      record q { signature = x.sign_bytes key (canonical_bytes q) }

  unfoldable pub verify : RecruitRequest → Outcome VerifyError (Unit {0})
  verify r = verify_bytes x r.primary_pubkey r.signature (canonical_bytes r)

  -- What the primary signs verifies, and a request that verifies under that key and signature is
  -- the one that was signed.
  pub sign_iff-verify :
      SignatureLaws x
      → BindingLaws x
      → (key : Bytes) (r q : RecruitRequest) → q.primary_pubkey ≡ (sign key r).primary_pubkey
      → q.signature ≡ (sign key r).signature
      → (verify (sign key r) ≡ ok tt) × (verify q ≡ ok tt → q ≡ sign key r)
  unfolding verify sign canonical_bytes
  sign_iff-verify s l key r q k f = (verify_bytes-sign x s key _, bound)
    where
      bound : verify q ≡ ok tt → q ≡ sign key r
      bound h =
          let same : canonical q ≡ canonical (sign key r) =
            l.recruit_json-injective _ _ (verify_bytes-binds x l key _ _ _ _ k f h) in
          ground (arith, same)
