-- ===== src/App/Tls.antt =====
-- What the TLS set-up of src/coordinator/src/lib.rs and main.rs reads from texts: the first certificate
-- of a PEM text, and the addresses that a generated certificate is for.
use coordinator.Base.{
  ℕ, List, [], ◌∷◌, ◌++◌, keep, null, not, Text, Bytes, Bool, Option, codes, text_eq, starts_with,
  nat_beq, if◌then◌else◌,
}
use coordinator.Init.Config.{lines}
use coordinator.App.Config.{var_or}

abbrev pub skip_while : (Text → Bool) → List Text → List Text
skip_while p [] = []
skip_while p (l ∷ ls) = if p l then skip_while p ls else l ∷ ls

abbrev pub take_while : (Text → Bool) → List Text → List Text
take_while p [] = []
take_while p (l ∷ ls) = if p l then l ∷ take_while p ls else []

abbrev pub skip_one : List Text → List Text
skip_one [] = []
skip_one (l ∷ ls) = ls

abbrev pub concat : List Text → Text
concat [] = []
concat (l ∷ ls) = l ++ concat ls

abbrev pub begin_line : Text
begin_line = codes "-----BEGIN CERTIFICATE-----"

abbrev pub end_line : Text
end_line = codes "-----END CERTIFICATE-----"

-- The text of a certificate between its two lines.
unfoldable pub first_block : Text → Text
first_block text = concat (
    take_while (λ l. not (starts_with end_line l))
      (skip_one (skip_while (λ l. not (starts_with begin_line l)) (lines text))))

-- The parts of a text between the delimiters.
abbrev pub prepend : ℕ → List Text → List Text
prepend c [] = (c ∷ []) ∷ []
prepend c (part ∷ parts) = (c ∷ part) ∷ parts

abbrev pub split : ℕ → Text → List Text
split d [] = [] ∷ []
split d (c ∷ s) = if nat_beq c d then [] ∷ split d s else prepend c (split d s)

unfoldable pub san_ips : Option Text → List Text
san_ips var = keep (λ s. not (null s)) (split b',' (var_or var []))

-- A TLS configuration: of an operator's certificate and key, or of a generated one: the names that
-- it is for, and its DER.
pub data Tls : Type 0 where
  operator : Text → Text → Tls
  self_signed : List Text → Bytes → Tls
