-- ===== src/Attestation.antt =====
-- `get_attestation` of src/nautilus-enclave/src/nsm.rs, with the security module and without it.
use coordinator.Base.{
  ℕ, ◌++◌, [], Text, Bytes, Bool, true, false, null, Option, none, some, Outcome, ok, err, codes,
  replicate, if◌then◌else◌,
}
use coordinator.Protocol.External.{External}
use coordinator.Api.Crypto.{CryptoExternal}

pub record AttestationDoc : Type 0 where
  pub pcr0 : Text
  pub pcr1 : Text
  pub pcr2 : Text
  pub public_key : Text
  pub timestamp_ms : ℕ
  pub raw_cbor_hex : Text

-- What the module answers to a request: the document or the register, an error, or something else.
pub data NsmResponse : Type 0 where
  given : Bytes → NsmResponse
  rejected unexpected : NsmResponse

-- The module: whether its device opens, the attestation of user data and a key, and the registers.
pub record Nsm : Type 0 where
  pub opens : Bool
  pub attest : Option Bytes → Bytes → NsmResponse
  pub describe_pcr : ℕ → NsmResponse

module _ (x : External) (c : CryptoExternal) where
  abbrev pub read_pcr : NsmResponse → Outcome Text Text
  read_pcr (given register) = ok (c.hex_encode register)
  read_pcr rejected = err (codes "read PCR rejected")
  read_pcr unexpected = err (codes "unexpected PCR response")

  -- The result, and whether the device is still open: a register that cannot be read ends the
  -- function before `nsm_exit`.
  abbrev pub with_pcrs :
      Bytes
      → ℕ
      → Bytes
      → Outcome Text Text
      → Outcome Text Text
      → Outcome Text Text
      → Outcome Text AttestationDoc × Bool
  with_pcrs key now document (err e) r1 r2 = (err e, true)
  with_pcrs key now document (ok p0) (err e) r2 = (err e, true)
  with_pcrs key now document (ok p0) (ok p1) (err e) = (err e, true)
  with_pcrs key now document (ok p0) (ok p1) (ok p2) = (
    ok (record {
      pcr0 = p0;
      pcr1 = p1;
      pcr2 = p2;
      public_key = c.hex_encode key;
      timestamp_ms = now;
      raw_cbor_hex = c.hex_encode document;
    }),
    false,
  )

  abbrev pub with_document : Nsm → Bytes → ℕ → NsmResponse → Outcome Text AttestationDoc × Bool
  with_document nsm key now (given document) =
      with_pcrs key now document (read_pcr (nsm.describe_pcr 0)) (read_pcr (nsm.describe_pcr 1))
        (read_pcr (nsm.describe_pcr 2))
  with_document nsm key now rejected = (err (codes "NSM attestation rejected"), false)
  with_document nsm key now unexpected = (err (codes "unexpected NSM response"), false)

  unfoldable pub get_attestation : Nsm → ℕ → Bytes → Bytes → Outcome Text AttestationDoc × Bool
  get_attestation nsm now public_key nonce =
      if nsm.opens
      then with_document nsm public_key now
          (nsm.attest (if null nonce then none else some nonce) public_key)
      else (err (codes "NSM device open failed"), false)

  abbrev pub mk_pcr : Text → Bytes → Bytes → Text
  mk_pcr tag public_key nonce =
      c.hex_encode (x.sha256 (tag ++ public_key ++ nonce) ++ replicate 16 0)

  -- Without the feature `aws`.
  unfoldable pub mock_attestation : ℕ → Bytes → Bytes → AttestationDoc
  mock_attestation now public_key nonce = record {
    pcr0 = mk_pcr (codes "pcr0") public_key nonce;
    pcr1 = mk_pcr (codes "pcr1") public_key nonce;
    pcr2 = mk_pcr (codes "pcr2") public_key nonce;
    public_key = c.hex_encode public_key;
    timestamp_ms = now;
    raw_cbor_hex = [];
  }
