-- ===== src/Auction/Float.antt =====
-- The `f32` operations that the scoring uses. They are the hardware's: values are bit patterns,
-- `literal n d` is the constant n / d of the source, and `rank` orders the values that are numbers.
use Prim.Native.Nat.{compare, Ordering}
use coordinator.Base.{ℕ, Bool, true, false, Option, none, some, ◌≡◌, if◌then◌else◌}
use coordinator.Protocol.Types.{F32}

pub record Float : Type 0 where
  pub of_int : ℕ → F32
  pub literal : ℕ → ℕ → F32
  pub add : F32 → F32 → F32
  pub mul : F32 → F32 → F32
  pub div : F32 → F32 → F32
  pub partial_cmp : F32 → F32 → Option Ordering

-- The values that are not NaN compare as a total order, in which equal values share their rank.
pub record FloatLaws (f : Float) : Type 0 where
  pub is_number : F32 → Bool
  pub rank : F32 → ℕ
  pub partial_cmp-rank :
      (a b : F32)
      → is_number a ≡ true
      → is_number b ≡ true
      → f.partial_cmp a b ≡ some (compare (rank a) (rank b))

module _ (f : Float) where
  -- `a < b` and `a > b`: false where a side is NaN.
  abbrev pub less : F32 → F32 → Bool
  less a b = elim (f.partial_cmp a b) [
    | none ↦ false
    | some o ↦ elim o [ Ordering.lt ↦ true | _ ↦ false ]
  ]

  abbrev pub greater : F32 → F32 → Bool
  greater a b = elim (f.partial_cmp a b) [
    | none ↦ false
    | some o ↦ elim o [ Ordering.gt ↦ true | _ ↦ false ]
  ]

  -- `f32::clamp`.
  abbrev pub clamp : F32 → F32 → F32 → F32
  clamp x lo hi = if less x lo then lo else if greater x hi then hi else x
