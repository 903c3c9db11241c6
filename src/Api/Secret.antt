-- ===== src/Api/Secret.antt =====
-- Who passes the secret of src/coordinator/src/api/admin.rs, and what only they can change.
use Prim.Native.Nat.{bit_or, bit_xor, bit_or-bitwise, bit_xor-bitwise, digits, differ}
use mathlib.Core.Path.{subst}
use coordinator.Base.{
  ℕ, zero, suc, ◌/◌, ◌%◌, ◌≤◌, ◌<◌, max, [], ◌∷◌, Text, Bytes, Bool, true, false, Option, some, ok,
  err, trim, length, null, lt→ltb, All, ==_refl, ◌==◌, nat_eq, Bool-cases, Outcome-cases, ◌≡◌, refl,
  sym, ap, ◌∙◌, ◌↔◌, ◌⊎◌, inl, inr, arith,
}
use coordinator.Api.Admin.{
  accumulate, constant_time_eq, as_bytes, Refusal, supplied_by, compare_secret, check_secret,
  RegisteredEnclave, SetEnclaveIdReq, digest_or_empty, set_enclave_id,
}

differ-zero : (m n : ℕ) → differ m n ≡ 0 → m ≡ n
differ-zero zero n h = sym h
differ-zero (suc m) zero h = h
differ-zero (suc m) (suc n) h = ap suc (differ-zero m n h)

differ_refl : (m : ℕ) → differ m m ≡ 0
differ_refl zero = refl
differ_refl (suc m) = differ_refl m

digits_xor-zero : (n a b : ℕ) → a ≤ n → digits (λ c. c) differ n a b ≡ 0 → a ≡ b
digits_xor-zero zero zero b l h = sym h
digits_xor-zero zero (suc a) b l h = omega arith
digits_xor-zero (suc n) zero b l h = sym h
digits_xor-zero (suc n) (suc a) b l h =
    let high = digits_xor-zero n (suc a / 2) (b / 2) (omega arith) (omega arith) in
    let low = differ-zero (suc a % 2) (b % 2) (omega arith) in omega arith

digits_xor_refl : (n a : ℕ) → a ≤ n → digits (λ c. c) differ n a a ≡ 0
digits_xor_refl zero zero l = refl
digits_xor_refl zero (suc a) l = omega arith
digits_xor_refl (suc n) zero l = refl
digits_xor_refl (suc n) (suc a) l =
    let high = digits_xor_refl n (suc a / 2) (omega arith) in
    let low = differ_refl (suc a % 2) in omega arith

xor-digits : (a b : ℕ) → bit_xor a b ≡ digits (λ c. c) differ a a b
xor-digits a b = λ i. bit_xor-bitwise a b i

or-digits : (a b : ℕ) → bit_or a b ≡ digits (λ c. c) max a a b
or-digits a b = λ i. bit_or-bitwise a b i

bit_xor-zero : (a b : ℕ) → bit_xor a b ≡ 0 → a ≡ b
bit_xor-zero a b h = digits_xor-zero a a b (omega arith) (sym (xor-digits a b) ∙ h)

bit_xor_refl : (a : ℕ) → bit_xor a a ≡ 0
bit_xor_refl a = xor-digits a a ∙ digits_xor_refl a a (omega arith)

max-zero : (m n : ℕ) → max m n ≡ 0 → (m ≡ 0) × (n ≡ 0)
max-zero m n h = (omega arith, omega arith)

digits_or-zero : (n a b : ℕ) → a ≤ n → digits (λ c. c) max n a b ≡ 0 → (a ≡ 0) × (b ≡ 0)
digits_or-zero zero zero b l h = (refl, h)
digits_or-zero zero (suc a) b l h = omega arith
digits_or-zero (suc n) zero b l h = (refl, h)
digits_or-zero (suc n) (suc a) b l h =
    let (high, high') = digits_or-zero n (suc a / 2) (b / 2) (omega arith) (omega arith) in
    let (low, low') = max-zero (suc a % 2) (b % 2) (omega arith) in (omega arith, omega arith)

bit_or-zero : (a b : ℕ) → bit_or a b ≡ 0 → (a ≡ 0) × (b ≡ 0)
bit_or-zero a b h = digits_or-zero a a b (omega arith) (sym (or-digits a b) ∙ h)

accumulate-zero :
    (d : ℕ) (a b : Bytes) → length a ≡ length b → accumulate d a b ≡ 0 → (d ≡ 0) × (a ≡ b)
unfolding accumulate
accumulate-zero d [] [] l h = (h, refl)
accumulate-zero d [] (y ∷ b) l h = cc
accumulate-zero d (x ∷ a) [] l h = cc
accumulate-zero d (x ∷ a) (y ∷ b) l h =
    let (o, e) = accumulate-zero (bit_or d (bit_xor x y)) a b (omega arith) h in
    let (z, xor) = bit_or-zero d (bit_xor x y) o in
    let same : x ≡ y = bit_xor-zero x y xor in (z, cc)

accumulate_refl : (a : Bytes) → accumulate 0 a a ≡ 0
unfolding accumulate
accumulate_refl [] = refl
accumulate_refl (x ∷ a) = rw (bit_xor_refl x) (accumulate_refl a)

constant_time_eq_refl : (a : Bytes) → constant_time_eq a a ≡ true
unfolding constant_time_eq
constant_time_eq_refl a = rw (==_refl (length a), accumulate_refl a) refl

-- The comparison, which looks at every byte, holds exactly between equal byte strings.
pub constant_time_eq_iff : (a b : Bytes) → (constant_time_eq a b ≡ true) ↔ (a ≡ b)
unfolding constant_time_eq
constant_time_eq_iff a b = (
  (λ h. elim (Bool-cases (length a == length b)) [
    | inl e ↦
        (accumulate-zero 0 a b ((nat_eq.beq_iff _ _).0 e)
          ((nat_eq.beq_iff _ _).0 (sym (rw e refl) ∙ h))).1
    | inr e ↦ ground (arith, e, h)
  ]),
  (λ h. subst (λ c. constant_time_eq a c ≡ true) h (constant_time_eq_refl a)),
)

abbrev pub IsAscii : Text → Type 0
IsAscii = All (λ c. c < 128)

as_bytes-IsAscii : (s : Text) → IsAscii s → as_bytes s ≡ s
as_bytes-IsAscii [] h = refl
as_bytes-IsAscii (c ∷ s) (h, hs) = rw (lt→ltb c 128 h) (ap (◌∷◌ c) (as_bytes-IsAscii s hs))

compare_secret-same : (s : Text) → compare_secret s s ≡ ok s
compare_secret-same s = rw (==_refl (length (as_bytes s)), constant_time_eq_refl (as_bytes s)) refl

compare_secret-bytes :
    (expected supplied : Text)
    → compare_secret expected supplied ≡ ok expected
    → as_bytes supplied ≡ as_bytes expected
compare_secret-bytes expected supplied h =
    elim (Bool-cases (constant_time_eq (as_bytes supplied) (as_bytes expected))) [
      | inl e ↦ (constant_time_eq_iff _ _).0 e
      | inr e ↦ ground (arith, e, h)
    ]

-- With a secret configured, a request passes exactly when its header, trimmed, is the trimmed
-- secret, a missing header counting as empty; both are taken to be ASCII. So a secret of blanks
-- lets a request without the header pass.
pub check_secret_iff :
    (raw : Text) (header : Option Text)
    → IsAscii (trim raw)
    → IsAscii (supplied_by header)
    → (check_secret (some raw) header ≡ ok (trim raw)) ↔ (supplied_by header ≡ trim raw)
unfolding check_secret
check_secret_iff raw header a b = (
  (λ h.
      sym (as_bytes-IsAscii (supplied_by header) b)
      ∙ compare_secret-bytes (trim raw) (supplied_by header) h
      ∙ as_bytes-IsAscii (trim raw) a),
  (λ h.
      subst (λ t. compare_secret (trim raw) t ≡ ok (trim raw)) (sym h)
        (compare_secret-same (trim raw))),
)

module _ (forward : Text → Text → Bool) where
  -- The enclave id that the coordinator shows changes only when the request passes the check of the
  -- secret and names an id that is not blank; it is then that id, trimmed. In every other case the
  -- request is refused, and the id stays as it was.
  set_enclave_id-guarded :
      (env header : Option Text) (req : SetEnclaveIdReq) (on_chain : Option RegisteredEnclave)
      → let (response, after) = set_enclave_id forward env header req on_chain in
        ((secret : Text) × (e : RegisteredEnclave) × (check_secret env header ≡ ok secret)
          × (null (trim req.enclave_object_id) ≡ false)
          × (after ≡ some e)
          × (e.enclave_object_id ≡ trim req.enclave_object_id))
        ⊎ ((refusal : Refusal) × (response ≡ err refusal) × (after ≡ on_chain))
  unfolding set_enclave_id
  set_enclave_id-guarded env header req on_chain = elim (Outcome-cases (check_secret env header)) [
    | inr (e, h) ↦ inr (rw h (e, refl, refl))
    | inl (secret, h) ↦ elim (Bool-cases (null (trim req.enclave_object_id))) [
      | inl blank ↦ inr (rw (h, blank) (_, refl, refl))
      | inr named ↦ inl (
        secret,
        record {
          tx_digest = digest_or_empty req.tx_digest;
          enclave_object_id = trim req.enclave_object_id;
        },
        h,
        named,
        rw (h, named) refl,
        refl,
      )
    ]
  ]
