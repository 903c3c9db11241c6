-- ===== src/App/Trust.antt =====
-- Whose key signs the receipts: from the key that src/coordinator/src/main.rs generates to what a client
-- sees of it in src/coordinator/src/api/health.rs.
use mathlib.Core.Path.{subst}
use coordinator.Base.{
  ℕ, [], Bytes, Text, Option, some, Outcome, ok, err, codes, Bool-cases, nat_eq, ok-injective,
  text_eq, ◌≡◌, refl, sym, ap, ◌∙◌, inl, inr,
}
use coordinator.Base.Map.{get}
use coordinator.Protocol.External.{External, SignatureLaws}
use coordinator.Protocol.Completion.{
  CompletionAck, CompletionResponse, accepted_with, verify_primary, verify_all_proofs,
}
use coordinator.Protocol.Receipt
use coordinator.Protocol.Receipt.{RoutingReceipt}
use coordinator.Store.Defs.{World}
use coordinator.Payments.Inserts.{IsFresh}
use coordinator.Registry.{PeerId}
use coordinator.Mesh.{EventLoop, MeshExternal}
use coordinator.Mesh.Events.{Reachable}
use coordinator.Mesh.Ack.{handle_completion_ack}
use coordinator.Mesh.AckLaws.{handle_completion_ack-accepts}
use coordinator.Mesh.Untouched.{Reachable-key}
use coordinator.Api.Crypto.{CryptoExternal}
use coordinator.Api.Health
use coordinator.Api.Health.{enclave_health, attested}
use coordinator.Attestation
use coordinator.Attestation.{
  AttestationDoc, Nsm, NsmResponse, given, rejected, unexpected, read_pcr, with_pcrs, with_document,
}
use coordinator.Init.Setup.{Environment}
use coordinator.App.State.{AppState, while_at}
use coordinator.App.Startup.{Crates, Started, run}
use coordinator.App.Wiring.{run-Wired}

-- What is documented of the security module: the document that it gives for a key names that key.
-- `key_in` reads the key from a document.
pub record IsCertifying (key_in : Bytes → Option Bytes) (nsm : Nsm) : Type 0 where
  pub certifies :
      (user_data : Option Bytes) (key document : Bytes)
      → nsm.attest user_data key ≡ given document
      → key_in document ≡ some key

module _ (x : External) (c : CryptoExternal) (key_in : Bytes → Option Bytes) where
  -- The key stands in the answer, and in the document of the security module that the answer holds.
  abbrev pub Attests : Bytes → AttestationDoc → Type 0
  Attests key doc =
      (doc.public_key ≡ c.hex_encode key)
      × ((document : Bytes) × (doc.raw_cbor_hex ≡ c.hex_encode document)
          × (key_in document ≡ some key))

  with_pcrs-Attests :
      (key : Bytes) (now : ℕ) (d : Bytes) (r0 r1 r2 : Outcome Text Text) (doc : AttestationDoc)
      → key_in d ≡ some key
      → (with_pcrs x c key now d r0 r1 r2).0 ≡ ok doc
      → Attests key doc
  with_pcrs-Attests key now d (err e) r1 r2 doc k h = cc
  with_pcrs-Attests key now d (ok p0) (err e) r2 doc k h = cc
  with_pcrs-Attests key now d (ok p0) (ok p1) (err e) doc k h = cc
  with_pcrs-Attests key now d (ok p0) (ok p1) (ok p2) doc k h =
      subst (Attests key) (ok-injective _ _ h) (refl, (d, refl, k))

  with_document-Attests :
      (nsm : Nsm) (key : Bytes) (now : ℕ) (a : NsmResponse) (doc : AttestationDoc)
      → ((d : Bytes) → a ≡ given d → key_in d ≡ some key)
      → (with_document x c nsm key now a).0 ≡ ok doc
      → Attests key doc
  with_document-Attests nsm key now (given d) doc k h =
      with_pcrs-Attests key now d _ _ _ doc (k d refl) h
  with_document-Attests nsm key now rejected doc k h = cc
  with_document-Attests nsm key now unexpected doc k h = cc

  -- `get_attestation` of the security module, without what becomes of its device.
  abbrev pub attest_with : Nsm → ℕ → Bytes → Bytes → Outcome Text AttestationDoc
  attest_with nsm now key nonce = (Attestation.get_attestation x c nsm now key nonce).0

  attest_with-Attests :
      (nsm : Nsm) (now : ℕ) (key nonce : Bytes) (doc : AttestationDoc)
      → IsCertifying key_in nsm
      → attest_with nsm now key nonce ≡ ok doc
      → Attests key doc
  unfolding Attestation.get_attestation
  attest_with-Attests nsm now key nonce doc k h = elim (Bool-cases nsm.opens) [
    | inl o ↦ with_document-Attests nsm key now _ doc (λ d. k.certifies _ key d) (rw o at h)
    | inr o ↦ let closed : err (codes "NSM device open failed") ≡ ok doc = rw o at h in cc
  ]

  attested-ok :
      (o : Outcome Text AttestationDoc) (doc : AttestationDoc) → attested o ≡ ok doc → o ≡ ok doc
  attested-ok (ok d) doc h = ap ok (ok-injective _ _ h)
  attested-ok (err e) doc h = cc

  get_attestation-Attests :
      (nsm : Nsm) (now : ℕ) (s : AppState) (doc : AttestationDoc)
      → IsCertifying key_in nsm
      → Health.get_attestation x (attest_with nsm now) s ≡ ok doc
      → Attests (x.verifying_key s.enclave_key) doc
  unfolding Health.get_attestation
  get_attestation-Attests nsm now s doc k h =
      attest_with-Attests nsm now _ [] doc k (attested-ok _ doc h)

module _ (x : External) (c : CryptoExternal) (key_in : Bytes → Option Bytes)
    (m : MeshExternal) where
  -- What a client can check of an accepted ack: the answer's receipt is archived, verifies, and names as
  -- its signer the key that is shown in `shown` and that `doc` attests.
  pub record Vouched (ack : CompletionAck) (shown : Text) (doc : AttestationDoc)
      (a : CompletionResponse × (EventLoop × World)) : Type 0 where
    pub receipt : RoutingReceipt
    pub answers : a.0 ≡ accepted_with receipt
    pub archived : get ack.request_id a.1.1.routing_receipts ≡ some (m.receipt_to_value receipt)
    pub verifies : Receipt.verify x receipt ≡ ok tt
    pub is_shown : c.hex_encode receipt.coordinator_pubkey ≡ shown
    pub is_attested : Attests x c key_in receipt.coordinator_pubkey doc

  -- Where `run` has started a coordinator, whatever events, acks, commands and ticks its loop has had
  -- since, in any order, an ack that verifies is answered, while the database answers and the
  -- identifiers of payment rows are fresh, with a receipt that is archived, that verifies, and whose
  -- signing key is the one that enclave_health shows and that get_attestation attests: the answer names
  -- that key, and so does the security module's own document in it, if the module puts the key that
  -- it is asked about into the document, as is documented of it.
  pub handle_completion_ack-Vouched :
      SignatureLaws x
      → (crates : Crates) (env : Environment) (s : Started) (l : EventLoop) (w₀ w : World)
        (now_ms : ℕ) (sender : PeerId) (ack : CompletionAck) (peer_id_of : Bytes → Option Text)
        (nsm : Nsm) (asked shown_at : ℕ) (doc : AttestationDoc)
      → IsCertifying key_in nsm
      → run x c crates env ≡ ok s
      → Reachable m x (s.event_loop, w₀) (l, w)
      → Health.get_attestation x (attest_with x c key_in nsm asked) (while_at l s.state) ≡ ok doc
      → verify_primary x ack ≡ ok tt
      → verify_all_proofs x ack ≡ ok tt
      → w.faults ≡ []
      → IsFresh w.next_id w.payments
      → Vouched ack
          (enclave_health x c peer_id_of shown_at (while_at l s.state)).public_key_hex
          doc
          (handle_completion_ack x m now_ms sender ack l w)
  unfolding enclave_health
  handle_completion_ack-Vouched signs crates env s l w₀ w now_ms sender ack peer_id_of nsm asked
        shown_at doc certifying e r d p q h f =
      let a = handle_completion_ack-accepts x m signs now_ms sender ack l w p q h f in
      let key : a.receipt.coordinator_pubkey ≡ x.verifying_key s.state.enclave_key =
        a.signer
        ∙ ap x.verifying_key (Reachable-key x m r ∙ (run-Wired x c crates env s e).one_key) in
      record {
        receipt = a.receipt;
        answers = a.answers;
        archived = a.archived;
        verifies = a.verifies;
        is_shown = ap c.hex_encode key;
        is_attested =
            subst (λ k. Attests x c key_in k doc) (sym key)
              (get_attestation-Attests x c key_in nsm asked (while_at l s.state) doc certifying d);
      }
