-- ===== src/Checks/Encoding.antt =====
-- An injective encoding of lists of byte strings: each string behind its length.
use coordinator.Base.{List, [], ◌∷◌, ◌++◌, Bytes, Option, none, some, length, ◌≡◌, refl, arith}

abbrev pub frame : List Bytes → Bytes
frame [] = []
frame (x ∷ xs) = length x ∷ x ++ frame xs

split-append : (x y s t : Bytes) → length x ≡ length y → x ++ s ≡ y ++ t → (x ≡ y) × (s ≡ t)
split-append [] [] s t l h = (refl, h)
split-append [] (b ∷ y) s t l h = cc
split-append (a ∷ x) [] s t l h = cc
split-append (a ∷ x) (b ∷ y) s t l h =
    let (e, f) = split-append x y s t (omega arith) (cc) in (cc, f)

pub frame-injective : (xs ys : List Bytes) → frame xs ≡ frame ys → xs ≡ ys
frame-injective [] [] h = refl
frame-injective [] (y ∷ ys) h = cc
frame-injective (x ∷ xs) [] h = cc
frame-injective (x ∷ xs) (y ∷ ys) h =
    let (e, f) = split-append x y (frame xs) (frame ys) (cc) (cc) in
    let g : xs ≡ ys = frame-injective xs ys f in cc

abbrev pub of_option : Option Bytes → Bytes
of_option none = []
of_option (some b) = 1 ∷ b

pub of_option-injective : (o p : Option Bytes) → of_option o ≡ of_option p → o ≡ p
of_option-injective none none h = refl
of_option-injective none (some b) h = cc
of_option-injective (some a) none h = cc
of_option-injective (some a) (some b) h = cc
