-- ===== src/Payments/Amount.antt =====
-- The casts `amount_nanox as i64` and `as u64` between a u64 and a BIGINT column.
use coordinator.Base.{ℕ, suc, ◌-◌, ◌^◌, ◌<◌, ◌≡◌, ltb, if◌then◌else◌, arith}
use coordinator.Store.Columns.{ℤ, pos, negsuc}

unfoldable pub as_i64 : ℕ → ℤ
as_i64 n = if ltb n (2 ^ 63) then pos n else negsuc (2 ^ 64 - n - 1)

unfoldable pub as_u64 : ℤ → ℕ
as_u64 (pos n) = n
as_u64 (negsuc n) = 2 ^ 64 - suc n

-- An amount below 2 ^ 64 comes back from the ledger as it went in, also where the column holds it
-- as negative.
pub as_u64-as_i64 : (n : ℕ) → n < 2 ^ 64 → as_u64 (as_i64 n) ≡ n
unfolding as_u64 as_i64
as_u64-as_i64 n h = ground arith
