-- ===== src/Checks/Messages.antt =====
-- The theorems on the signed messages, at concrete messages.
use coordinator.Base.{
  ◌-◌, ◌<◌, ◌≤◌, ◌++◌, Bytes, some, ok, codes, length, drop, replicate, ◌≡◌, ◌↔◌, ◌⊎◌, refl,
}
use coordinator.Protocol.Receipt
use coordinator.Protocol.SuiAddress.{parse_sui_address, parse_sui_address_cases}
use coordinator.Checks.Toy.{toy, toy-signs, toy-binds}
use coordinator.Checks.Data.{enclave_key, some_receipt}

verify_iff-SameSettlement_example :
    (Receipt.verify toy (Receipt.sign toy enclave_key some_receipt) ≡ ok tt)
    ↔ Receipt.SameSettlement toy (Receipt.sign toy enclave_key some_receipt) some_receipt
verify_iff-SameSettlement_example =
    Receipt.verify_iff-SameSettlement toy toy-signs toy-binds enclave_key some_receipt
      (Receipt.sign toy enclave_key some_receipt) refl refl

parse_sui_address_cases_example :
    let s = codes " 0x12 " in
    ((b : Bytes) × (some (codes "12") ≡ some b)
      × (length b ≤ 32)
      × (parse_sui_address toy s ≡ replicate (32 - length b) 0 ++ b)
      × (drop (32 - length b) (parse_sui_address toy s) ≡ b))
    ⊎ (((b : Bytes) → some (codes "12") ≡ some b → 32 < length b)
        × (parse_sui_address toy s ≡ replicate 32 0))
parse_sui_address_cases_example =
    parse_sui_address_cases toy (codes " 0x12 ") (some (codes "12")) refl
