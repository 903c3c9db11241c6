-- ===== src/System/Entropy.antt =====
-- How much `get_entropy` of src/aws/src/lib.rs returns.
use coordinator.Base.{
  ℕ, ◌+◌, ◌≤◌, ◌<◌, List, [], ◌∷◌, ◌++◌, Text, Bytes, true, false, Option, some, Outcome, ok,
  length, map, ltb, All, ◌≡◌, refl, arith, length-append, Bool-cases, inl, inr,
}
use coordinator.System.{fill_from, get_entropy}

-- A chunk of the security module holds something, and at most what the buffer takes.
abbrev pub IsChunk : Bytes → Type 0
IsChunk chunk = (1 ≤ length chunk) × (length chunk ≤ 256)

-- The loop ended with at least what was asked for, and less than a buffer more.
abbrev pub Filled : ℕ → Option (Outcome Text Bytes) → Type 0
Filled size r =
    (bytes : Bytes) × (r ≡ some (ok bytes)) × (size ≤ length bytes) × (length bytes < size + 256)

fill_from-Filled :
    (size : ℕ) (out : Bytes) (chunks : List Bytes)
    → length out < size + 256
    → size ≤ length out + length chunks
    → All IsChunk chunks
    → Filled size (fill_from size out (map some chunks))
fill_from-Filled size out [] b e h =
    let full : ltb (length out) size ≡ false = ground (arith, e) in
    (out, rw full refl, omega arith, b)
fill_from-Filled size out (chunk ∷ chunks) b e ((l, u), hs) =
    elim (Bool-cases (ltb (length out) size)) [
      | inl t ↦
          let n = length-append out chunk in
          let (bytes, r, k, m) =
            fill_from-Filled size (out ++ chunk) chunks (ground (arith, t, n, u))
              (omega (arith, n, l, e)) hs in
          (bytes, rw t r, k, m)
      | inr t ↦ (out, rw t refl, ground (arith, t), b)
    ]

-- Where the module opens and its answers are chunks of 1 to 256 bytes, `get_entropy` ends after at
-- most as many of them as bytes were asked for; it returns that many bytes, or up to 255 more.
pub get_entropy-Filled :
    (size : ℕ) (chunks : List Bytes)
    → All IsChunk chunks
    → size ≤ length chunks
    → Filled size (get_entropy true size (map some chunks))
unfolding get_entropy
get_entropy-Filled size chunks h e =
    fill_from-Filled size [] chunks (omega arith) (omega (arith, e)) h
