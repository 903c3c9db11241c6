-- ===== src/Checks/Toy.antt =====
-- A model of the interfaces `External` and `Float` with their laws: signatures that carry the
-- key and the message, a hash that is the identity, and numbers in place of floats.
use Prim.Native.Nat.{compare}
use coordinator.Base.{
  ℕ, ◌+◌, ◌*◌, ◌/◌, List, [], ◌∷◌, Bytes, true, some, text_eq, ◌==◌, ==_refl, ◌≡◌, refl, arith,
}
use coordinator.Protocol.External.{
  External, SignatureLaws, BindingLaws, ProofCanonical, TokenCanonical, AckCanonical,
  RecruitCanonical, PayoutBcs, IntentMessage,
}
use coordinator.Auction.Float.{Float, FloatLaws}
use coordinator.Checks.Encoding.{frame, frame-injective, of_option, of_option-injective}

abbrev one : ℕ → Bytes
one n = n ∷ []

abbrev proof_fields : ProofCanonical → List Bytes
proof_fields c =
    one c.request_id
    ∷ one c.session_id
    ∷ c.node_peer_id
    ∷ c.client_address
    ∷ c.model_id
    ∷ one c.input_tokens
    ∷ one c.output_tokens
    ∷ one c.latency_ms
    ∷ one c.price_paid_nanox
    ∷ one c.timestamp
    ∷ c.input_hash
    ∷ c.output_hash
    ∷ c.settlement_id
    ∷ of_option c.escrow_tx_id
    ∷ c.node_pubkey
    ∷ []

abbrev token_fields : TokenCanonical → List Bytes
token_fields c =
    one c.request_id
    ∷ one c.session_id
    ∷ c.client_pubkey
    ∷ c.primary_peer_id
    ∷ c.settlement_id
    ∷ one c.max_price_nanox
    ∷ one c.issued_at_ms
    ∷ one c.deadline_ms
    ∷ c.coordinator_pubkey
    ∷ of_option c.node_x25519_pubkey
    ∷ []

abbrev ack_fields : AckCanonical → List Bytes
ack_fields c =
    one c.request_id ∷ frame c.proof_ids ∷ c.aggregated_output_hash ∷ c.primary_pubkey ∷ []

abbrev recruit_fields : RecruitCanonical → List Bytes
recruit_fields c =
    one c.request_id
    ∷ c.primary_pubkey
    ∷ c.model
    ∷ c.prompt_chunk
    ∷ one c.max_price_nanox
    ∷ one c.deadline_ms
    ∷ []

abbrev payout_fields : List PayoutBcs → List Bytes
payout_fields [] = []
payout_fields (p ∷ ps) = p.sui_address ∷ one p.amount ∷ payout_fields ps

abbrev intent_fields : IntentMessage → List Bytes
intent_fields i =
    one i.intent
    ∷ one i.timestamp_ms
    ∷ i.payload.request_id
    ∷ i.payload.aggregated_output_hash
    ∷ payout_fields i.payload.payouts

abbrev signature : Bytes → Bytes → Bytes
signature k m = frame (k ∷ m ∷ [])

-- `hex_decode` accepts every text and keeps it.
abbrev pub toy : External
toy = record {
  verifying_key = λ k. k;
  is_verifying_key = λ k. true;
  is_signature = λ s. true;
  sign_bytes = signature;
  verifies = λ k m s. s == signature k m;
  sha256 = λ b. b;
  hex_decode = some;
  uuid_as_bytes = one;
  proof_json = λ c. frame (proof_fields c);
  token_json = λ c. frame (token_fields c);
  ack_json = λ c. frame (ack_fields c);
  recruit_json = λ c. frame (recruit_fields c);
  intent_bcs = λ i. frame (intent_fields i);
}

pub toy-signs : SignatureLaws toy
toy-signs = record {
  verifying_key-is_valid = λ k. refl;
  sign_bytes-is_valid = λ k m. refl;
  verifies-sign_bytes = λ k m. ==_refl (signature k m);
}

proof_fields-injective : (a b : ProofCanonical) → proof_fields a ≡ proof_fields b → a ≡ b
proof_fields-injective a b h =
    let e : a.escrow_tx_id ≡ b.escrow_tx_id = of_option-injective _ _ (cc) in ground (arith, h, e)

token_fields-injective : (a b : TokenCanonical) → token_fields a ≡ token_fields b → a ≡ b
token_fields-injective a b h =
    let e : a.node_x25519_pubkey ≡ b.node_x25519_pubkey = of_option-injective _ _ (cc) in
    ground (arith, h, e)

ack_fields-injective : (a b : AckCanonical) → ack_fields a ≡ ack_fields b → a ≡ b
ack_fields-injective a b h =
    let e : a.proof_ids ≡ b.proof_ids = frame-injective _ _ (cc) in ground (arith, h, e)

recruit_fields-injective : (a b : RecruitCanonical) → recruit_fields a ≡ recruit_fields b → a ≡ b
recruit_fields-injective a b h = ground (arith, h)

payout_fields-injective : (ps qs : List PayoutBcs) → payout_fields ps ≡ payout_fields qs → ps ≡ qs
payout_fields-injective [] [] h = refl
payout_fields-injective [] (q ∷ qs) h = cc
payout_fields-injective (p ∷ ps) [] h = cc
payout_fields-injective (p ∷ ps) (q ∷ qs) h =
    let e : p ≡ q = ground (arith, h) in let g : ps ≡ qs = payout_fields-injective ps qs (cc) in cc

intent_fields-injective : (a b : IntentMessage) → intent_fields a ≡ intent_fields b → a ≡ b
intent_fields-injective a b h =
    let e : a.payload.payouts ≡ b.payload.payouts = payout_fields-injective _ _ (cc) in
    ground (arith, h, e)

pub toy-binds : BindingLaws toy
toy-binds = record {
  sign_bytes-binds = λ k m n h.
      let e : k ∷ m ∷ [] ≡ k ∷ n ∷ [] = frame-injective _ _ ((text_eq.beq_iff _ _).0 h) in cc;
  sha256-injective = λ a b h. h;
  uuid_as_bytes-injective = λ a b h. cc;
  proof_json-injective = λ a b h. proof_fields-injective a b (frame-injective _ _ h);
  token_json-injective = λ a b h. token_fields-injective a b (frame-injective _ _ h);
  ack_json-injective = λ a b h. ack_fields-injective a b (frame-injective _ _ h);
  recruit_json-injective = λ a b h. recruit_fields-injective a b (frame-injective _ _ h);
  intent_bcs-injective = λ a b h. intent_fields-injective a b (frame-injective _ _ h);
}

-- Numbers in place of floats.
abbrev pub toy_float : Float
toy_float = record {
  of_int = λ n. n;
  literal = λ n d. n;
  add = λ a b. a + b;
  mul = λ a b. a * b;
  div = λ a b. a / b;
  partial_cmp = λ a b. some (compare a b);
}

abbrev pub toy_float-laws : FloatLaws toy_float
toy_float-laws = record { is_number = λ a. true; rank = λ a. a; partial_cmp-rank = λ a b h k. refl }
