-- ===== src/Store/Columns.antt =====
-- Column types, and the failures that end an action.
use coordinator.Base.{ℕ}

-- A BIGINT column; `negsuc n` is -(n + 1).
pub data ℤ : Type 0 where
  pos : ℕ → ℤ
  negsuc : ℕ → ℤ

pub data Failure : Type 0 where
  database deserialize sidecar_error settlement_error : Failure
