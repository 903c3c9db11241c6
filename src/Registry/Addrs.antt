-- ===== src/Registry/Addrs.antt =====
-- The loop that adds the addresses which an entry does not hold yet.
use coordinator.Base.{
  List, [], ◌∷◌, ◌++◌, Text, text_eq, contains, false, Bool-cases, inl, inr, ◌≡◌, refl,
  if◌then◌else◌, ◌||◌, arith,
}

abbrev pub Multiaddr : Type 0
Multiaddr = Text

unfoldable pub merge_addrs : List Multiaddr → List Multiaddr → List Multiaddr
merge_addrs held [] = held
merge_addrs held (a ∷ addrs) = merge_addrs (if contains held a then held else held ++ a ∷ []) addrs

-- No address stands twice.
abbrev pub IsDistinct : List Multiaddr → Type 0
IsDistinct [] = Unit
IsDistinct (a ∷ as') = (contains as' a ≡ false) × IsDistinct as'

contains-append :
    (xs ys : List Multiaddr) (a : Multiaddr)
    → contains (xs ++ ys) a ≡ (contains xs a || contains ys a)
contains-append [] ys a = refl
contains-append (x ∷ xs) ys a = ground (arith, contains-append xs ys a)

IsDistinct-snoc :
    (xs : List Multiaddr) (a : Multiaddr)
    → contains xs a ≡ false
    → IsDistinct xs
    → IsDistinct (xs ++ a ∷ [])
IsDistinct-snoc [] a h d = (refl, tt)
IsDistinct-snoc (x ∷ xs) a h d = ground (
  arith,
  IsDistinct-snoc xs a,
  contains-append xs (a ∷ []) x,
  text_eq.beq_iff a x,
  text_eq.beq_iff x a,
)

pub merge_addrs-IsDistinct :
    (held addrs : List Multiaddr) → IsDistinct held → IsDistinct (merge_addrs held addrs)
unfolding merge_addrs
merge_addrs-IsDistinct held [] d = d
merge_addrs-IsDistinct held (a ∷ addrs) d = elim (Bool-cases (contains held a)) [
  | inl e ↦ rw e (merge_addrs-IsDistinct held addrs d)
  | inr e ↦ rw e (merge_addrs-IsDistinct (held ++ a ∷ []) addrs (IsDistinct-snoc held a e d))
]

-- An address is held afterwards exactly when it was held before or was added.
pub contains-merge_addrs :
    (held addrs : List Multiaddr) (b : Multiaddr)
    → contains (merge_addrs held addrs) b ≡ (contains held b || contains addrs b)
unfolding merge_addrs
contains-merge_addrs held [] b = ground arith
contains-merge_addrs held (a ∷ addrs) b = elim (Bool-cases (contains held a)) [
  | inl e ↦ rw e (ground (arith, contains-merge_addrs held addrs b, text_eq.beq_iff a b))
  | inr e ↦ rw e (
      ground
        (arith, contains-merge_addrs (held ++ a ∷ []) addrs b, contains-append held (a ∷ []) b))
]
