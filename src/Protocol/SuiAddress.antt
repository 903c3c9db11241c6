-- ===== src/Protocol/SuiAddress.antt =====
-- `parse_sui_address` of src/pinaivu-protocol/src/routing_receipt.rs.
use coordinator.Base.{
  ℕ, zero, suc, ◌-◌, ◌≤◌, ◌<◌, ◌≡◌, refl, Text, Bytes, Option, none, some, Bool-cases, leb→le, inl,
  inr, ◌⊎◌, ◌++◌, length, length-append, length-replicate, replicate, drop, trim, trim_0x, leb,
  if◌then◌else◌, arith,
}
use coordinator.Protocol.External.{External}

-- `out[32 - bytes.len()..].copy_from_slice(&bytes)` on an array of zeros.
abbrev pub left_pad : Bytes → Bytes
left_pad bytes = replicate (32 - length bytes) 0 ++ bytes

-- The `match` on `hex::decode` and the copy into the array behind it.
unfoldable pub from_decoded : Option Bytes → Bytes
from_decoded none = replicate 32 0
from_decoded (some b) = if leb (length b) 32 then left_pad b else replicate 32 0

length-left_pad : (b : Bytes) → length b ≤ 32 → length (left_pad b) ≡ 32
length-left_pad b h = omega (
  arith,
  length-append (replicate (32 - length b) 0) b,
  length-replicate {A = ℕ} (32 - length b) 0,
)

drop-replicate : (n : ℕ) (b : Bytes) → drop n (replicate n 0 ++ b) ≡ b
drop-replicate zero b = refl
drop-replicate (suc n) b = drop-replicate n b

length-from_decoded : (o : Option Bytes) → length (from_decoded o) ≡ 32
unfolding from_decoded
length-from_decoded none = refl
length-from_decoded (some b) = elim (Bool-cases (leb (length b) 32)) [
  | inl e ↦ rw e (length-left_pad b (leb→le _ _ e))
  | inr e ↦ rw e refl
]

module _ (x : External) where
  unfoldable pub parse_sui_address : Text → Bytes
  unfolding from_decoded
  parse_sui_address s = from_decoded (x.hex_decode (trim_0x (trim s)))

  -- The address is 32 bytes long for every text: bcs writes it with no length prefix.
  pub length-parse_sui_address : (s : Text) → length (parse_sui_address s) ≡ 32
  unfolding parse_sui_address
  length-parse_sui_address s = length-from_decoded (x.hex_decode (trim_0x (trim s)))

  -- A text that decodes to at most 32 bytes stands for those bytes behind zeros, and they can be
  -- read back. Any other text stands for the zero address.
  pub parse_sui_address_cases :
      (s : Text) (o : Option Bytes)
      → x.hex_decode (trim_0x (trim s)) ≡ o
      → ((b : Bytes) × (o ≡ some b)
          × (length b ≤ 32)
          × (parse_sui_address s ≡ replicate (32 - length b) 0 ++ b)
          × (drop (32 - length b) (parse_sui_address s) ≡ b))
        ⊎ (((b : Bytes) → o ≡ some b → 32 < length b) × (parse_sui_address s ≡ replicate 32 0))
  unfolding parse_sui_address
  parse_sui_address_cases s none e = inr ((λ b h. cc), rw e refl)
  parse_sui_address_cases s (some b) e = elim (Bool-cases (leb (length b) 32)) [
    | inl t ↦ rw e (rw t (inl (b, refl, leb→le _ _ t, refl, drop-replicate (32 - length b) b)))
    | inr t ↦ rw e (rw t (inr ((λ c h. ground arith), refl)))
  ]
