-- ===== src/Protocol/Completion.antt =====
-- src/pinaivu-protocol/src/mesh/completion_proto.rs: what the primary node reports when a job is
-- done, and the coordinator's answer.
use coordinator.Base.{
  List, [], ◌∷◌, map, Text, Bytes, Bool, true, false, Option, none, some, Outcome, ok, ◌>>◌, ◌≡◌,
  refl, ◌↔◌, All, Outcome-cases, inl, inr,
}
use coordinator.Protocol.Types.{RequestId, VerifyError}
use coordinator.Protocol.External.{External, SignatureLaws, BindingLaws, AckCanonical}
use coordinator.Protocol.Signing.{verify_bytes, verify_bytes-sign, verify_bytes-binds}
use coordinator.Protocol.Proof
use coordinator.Protocol.Proof.{ProofOfInference}
use coordinator.Protocol.Receipt.{RoutingReceipt}

pub record CompletionAck : Type 0 where
  pub request_id : RequestId
  pub proofs : List ProofOfInference
  pub aggregated_output_hash : Bytes
  pub primary_pubkey : Bytes
  pub signature : Bytes

pub record CompletionResponse : Type 0 where
  pub accepted : Bool
  pub routing_receipt : Option RoutingReceipt
  pub reason : Option Text

-- `CompletionResponse::ok`.
abbrev pub accepted_with : RoutingReceipt → CompletionResponse
accepted_with r = record { accepted = true; routing_receipt = some r; reason = none }

abbrev pub rejected : Text → CompletionResponse
rejected reason = record { accepted = false; routing_receipt = none; reason = some reason }

module _ (x : External) where
  abbrev pub proof_ids : CompletionAck → List Bytes
  proof_ids a = map (Proof.id x) a.proofs

  abbrev pub canonical : CompletionAck → AckCanonical
  canonical a = record {
    request_id = a.request_id;
    proof_ids = proof_ids a;
    aggregated_output_hash = a.aggregated_output_hash;
    primary_pubkey = a.primary_pubkey;
  }

  unfoldable pub canonical_bytes : CompletionAck → Bytes
  canonical_bytes a = x.ack_json (canonical a)

  unfoldable pub sign : Bytes → CompletionAck → CompletionAck
  sign key a =
      let q = record a { primary_pubkey = x.verifying_key key } in
      record q { signature = x.sign_bytes key (canonical_bytes q) }

  unfoldable pub verify_primary : CompletionAck → Outcome VerifyError (Unit {0})
  verify_primary a = verify_bytes x a.primary_pubkey a.signature (canonical_bytes a)

  -- The loop of `verify_all_proofs`.
  unfoldable pub verify_proofs : List ProofOfInference → Outcome VerifyError (Unit {0})
  verify_proofs [] = ok tt
  verify_proofs (p ∷ ps) = Proof.verify x p >> verify_proofs ps

  unfoldable pub verify_all_proofs : CompletionAck → Outcome VerifyError (Unit {0})
  unfolding verify_proofs
  verify_all_proofs a = verify_proofs a.proofs

  pub verify_proofs-All :
      (ps : List ProofOfInference)
      → (verify_proofs ps ≡ ok tt) ↔ All (λ p. Proof.verify x p ≡ ok tt) ps
  unfolding verify_proofs
  verify_proofs-All [] = ((λ h. tt), (λ h. refl))
  verify_proofs-All (p ∷ ps) = elim (Outcome-cases (Proof.verify x p)) [
    | inl (tt, e) ↦
        rw e ((λ h. (refl, (verify_proofs-All ps).0 h)), (λ h. (verify_proofs-All ps).1 h.1))
    | inr (f, e) ↦ rw e ((λ h. cc), (λ h. cc))
  ]

  -- The ack's proofs pass exactly when each of them does.
  pub verify_all_proofs-All :
      (a : CompletionAck)
      → (verify_all_proofs a ≡ ok tt) ↔ All (λ p. Proof.verify x p ≡ ok tt) a.proofs
  unfolding verify_all_proofs
  verify_all_proofs-All a = verify_proofs-All a.proofs

  pub verify_primary-sign :
      SignatureLaws x → (key : Bytes) (a : CompletionAck) → verify_primary (sign key a) ≡ ok tt
  unfolding verify_primary sign canonical_bytes
  verify_primary-sign l key a = verify_bytes-sign x l key _

  -- The same proofs, up to the proofs' own signatures.
  abbrev pub SameProofs : List ProofOfInference → List ProofOfInference → Type 0
  SameProofs [] [] = Unit
  SameProofs (p ∷ ps) (q ∷ qs) = (q ≡ record p { signature = q.signature }) × SameProofs ps qs
  SameProofs [] (q ∷ qs) = ⊥
  SameProofs (p ∷ ps) [] = ⊥

  ids-bind :
      BindingLaws x
      → (ps qs : List ProofOfInference) → map (Proof.id x) ps ≡ map (Proof.id x) qs
      → SameProofs ps qs
  ids-bind l [] [] h = tt
  ids-bind l [] (q ∷ qs) h = cc
  ids-bind l (p ∷ ps) [] h = cc
  ids-bind l (p ∷ ps) (q ∷ qs) h = (Proof.id-binds x l p q (cc), ids-bind l ps qs (cc))

  -- An ack that verifies under the key and the signature of a signed ack has its request, its
  -- output hash, and its proofs in number, order and every field but their signatures.
  verify_primary-binds :
      BindingLaws x
      → (key : Bytes) (a b : CompletionAck) → b.primary_pubkey ≡ (sign key a).primary_pubkey
      → b.signature ≡ (sign key a).signature
      → verify_primary b ≡ ok tt
      → (b.request_id ≡ a.request_id)
        × (b.aggregated_output_hash ≡ a.aggregated_output_hash)
        × SameProofs a.proofs b.proofs
  unfolding verify_primary sign canonical_bytes
  verify_primary-binds l key a b k s h =
      let same : canonical b ≡ canonical (sign key a) =
        l.ack_json-injective _ _ (verify_bytes-binds x l key _ _ _ _ k s h) in
      (cc, cc, ids-bind l a.proofs b.proofs (cc))
