-- ===== src/Init/Parsing.antt =====
-- What src/init/src/config.rs makes of the lines of an env file that was written from pairs.
use mathlib.Core.Path.{subst}
use mathlib.Core.List.{append_assoc, append-nil, reverse-append, reverse-cons, reverse-reverse}
use coordinator.Base.{
  ℕ, List, [], ◌∷◌, ◌++◌, reverse, map, Text, Bool, true, false, some, null, nat_beq, trim_matches,
  trim_start_by, is_whitespace, starts_with, split_once, All, All-append, ◌≡◌, refl, ap, ◌∙◌, arith,
  codes, length, ◌≤◌, Bool-cases, inl, inr,
}
use coordinator.Init.Config.{chomp, lines_from, lines, read_line, read_config}

-- Nothing that the test holds of stands at either end.
abbrev pub IsBare : (ℕ → Bool) → Text → Type 0
IsBare p s = (trim_start_by p s ≡ s) × (trim_start_by p (reverse s) ≡ reverse s)

trim_matches-IsBare : (p : ℕ → Bool) (s : Text) → IsBare p s → trim_matches p s ≡ s
trim_matches-IsBare p s (a, b) = rw (a, b) (reverse-reverse s)

abbrev pub Lacks : ℕ → Text → Type 0
Lacks d s = All (λ c. nat_beq c d ≡ false) s

split_once-Lacks :
    (d : ℕ) (k v : Text) → Lacks d k → nat_beq d d ≡ true → split_once d (k ++ d ∷ v) ≡ some (k, v)
split_once-Lacks d [] v h r = rw r refl
split_once-Lacks d (c ∷ k) v (h, hs) r = rw (h, split_once-Lacks d k v hs r) refl

-- The pair of a printed line: its key is a name, its value has neither blanks nor quotes around it.
pub record IsPlain (pair : Text × Text) : Type 0 where
  pub key_named : null pair.0 ≡ false
  pub key_bare : IsBare is_whitespace pair.0
  pub key_single : Lacks b'=' pair.0
  pub one_line : Lacks 10 pair.0 × Lacks 10 pair.1
  pub not_comment : starts_with (codes "#") pair.0 ≡ false
  pub value_bare : IsBare is_whitespace pair.1
  pub value_unquoted : IsBare (nat_beq b'"') pair.1

abbrev pub print_pair : Text × Text → Text
print_pair (k, v) = k ++ b'=' ∷ v

length-trim_start_by : (p : ℕ → Bool) (s : Text) → length (trim_start_by p s) ≤ length s
length-trim_start_by p [] = omega arith
length-trim_start_by p (c ∷ s) = ground (arith, length-trim_start_by p s)

-- A text whose front is bare starts with a character that the test does not hold of.
bare_head : (p : ℕ → Bool) (c : ℕ) (s : Text) → trim_start_by p (c ∷ s) ≡ c ∷ s → p c ≡ false
bare_head p c s h = elim (Bool-cases (p c)) [
  | inl t ↦
      let e : length (trim_start_by p (c ∷ s)) ≡ length (c ∷ s) = ap length h in
      let short = length-trim_start_by p s in ground (arith, e, short, t)
  | inr f ↦ f
]

front-append :
    (p : ℕ → Bool) (s t : Text)
    → null s ≡ false
    → trim_start_by p s ≡ s
    → trim_start_by p (s ++ t) ≡ s ++ t
front-append p [] t n h = cc
front-append p (c ∷ s) t n h = rw (bare_head p c s h) refl

middle_append :
    (p : ℕ → Bool) (s t : Text) (d : ℕ)
    → p d ≡ false
    → trim_start_by p s ≡ s
    → trim_start_by p (s ++ d ∷ t) ≡ s ++ d ∷ t
middle_append p [] t d h b = rw h refl
middle_append p (c ∷ s) t d h b = front-append p (c ∷ s) (d ∷ t) refl b

reverse-middle : (k v : Text) (d : ℕ) → reverse (k ++ d ∷ v) ≡ reverse v ++ d ∷ reverse k
reverse-middle k v d =
    reverse-append k (d ∷ v)
    ∙ ap (λ r. r ++ reverse k) (reverse-cons d v)
    ∙ append_assoc (reverse v) (d ∷ []) (reverse k)

-- The back of a text is that of the part after the delimiter, or the delimiter.
back-append :
    (p : ℕ → Bool) (k v : Text) (d : ℕ)
    → p d ≡ false
    → trim_start_by p (reverse v) ≡ reverse v
    → trim_start_by p (reverse (k ++ d ∷ v)) ≡ reverse (k ++ d ∷ v)
back-append p k v d h b = rw (reverse-middle k v d) (middle_append p (reverse v) (reverse k) d h b)

print_pair-IsBare : (pair : Text × Text) → IsPlain pair → IsBare is_whitespace (print_pair pair)
print_pair-IsBare (k, v) h = (
  front-append is_whitespace k (b'=' ∷ v) h.key_named h.key_bare.0,
  back-append is_whitespace k v b'=' refl h.value_bare.1,
)

starts_with-append :
    (d : ℕ) (s t : Text) → null s ≡ false → starts_with (d ∷ []) (s ++ t) ≡ starts_with (d ∷ []) s
starts_with-append d [] t h = cc
starts_with-append d (c ∷ s) t h = ground arith

null-middle : (k v : Text) (d : ℕ) → null (k ++ d ∷ v) ≡ false
null-middle [] v d = refl
null-middle (c ∷ k) v d = refl

read_line-print_pair :
    (pair : Text × Text) (rest : List (Text × Text))
    → IsPlain pair
    → read_line (print_pair pair) rest ≡ pair ∷ rest
unfolding read_line
read_line-print_pair (k, v) rest h =
    let t = trim_matches-IsBare is_whitespace (print_pair (k, v)) (print_pair-IsBare (k, v) h) in
    rw
      (
        t,
        null-middle k v b'=',
        starts_with-append b'#' k (b'=' ∷ v) h.key_named,
        h.not_comment,
        split_once-Lacks b'=' k v h.key_single refl,
        trim_matches-IsBare is_whitespace k h.key_bare,
        trim_matches-IsBare is_whitespace v h.value_bare,
        trim_matches-IsBare (nat_beq b'"') v h.value_unquoted,
        h.key_named,
      )
      refl

read_config-print_pair :
    (pairs : List (Text × Text))
    → All IsPlain pairs
    → read_config (map (λ p. some (print_pair p)) pairs) ≡ pairs
unfolding read_config
read_config-print_pair [] h = refl
read_config-print_pair (p ∷ pairs) (h, hs) =
    rw (read_config-print_pair pairs hs) (read_line-print_pair p pairs h)

chomp-append : (s : Text) (c : ℕ) → nat_beq c 13 ≡ false → chomp (s ++ c ∷ []) ≡ s ++ c ∷ []
chomp-append [] c h = rw h refl
chomp-append (x ∷ []) c h = rw h refl
chomp-append (x ∷ y ∷ s) c h = ap (λ r. x ∷ r) (chomp-append (y ∷ s) c h)

chomp-reverse : (r : Text) → trim_start_by is_whitespace r ≡ r → chomp (reverse r) ≡ reverse r
chomp-reverse [] h = refl
chomp-reverse (c ∷ r) h =
    let blank : is_whitespace c ≡ false = bare_head is_whitespace c r h in
    let e : nat_beq c 13 ≡ false = ground arith in
    rw (reverse-cons c r) (chomp-append (reverse r) c e)

chomp-print_pair : (pair : Text × Text) → IsPlain pair → chomp (print_pair pair) ≡ print_pair pair
chomp-print_pair pair h =
    subst (λ s. chomp s ≡ s) (reverse-reverse (print_pair pair))
      (chomp-reverse (reverse (print_pair pair)) (print_pair-IsBare pair h).1)

lines_from-append :
    (line s rest : Text)
    → Lacks 10 s
    → lines_from line (s ++ 10 ∷ rest) ≡ chomp (line ++ s) ∷ lines_from [] rest
lines_from-append line [] rest h = rw (append-nil line) refl
lines_from-append line (c ∷ s) rest (h, hs) = rw h (
    lines_from-append (line ++ c ∷ []) s rest hs
    ∙ ap (λ l. chomp l ∷ lines_from [] rest) (append_assoc line (c ∷ []) s))

print_pair-Lacks : (pair : Text × Text) → IsPlain pair → Lacks 10 (print_pair pair)
print_pair-Lacks (k, v) h = All-append _ k (b'=' ∷ v) h.one_line.0 (refl, h.one_line.1)

-- An env file with a line for each pair.
abbrev pub env_file : List (Text × Text) → Text
env_file [] = []
env_file (p ∷ pairs) = print_pair p ++ 10 ∷ env_file pairs

lines-env_file :
    (pairs : List (Text × Text)) → All IsPlain pairs → lines (env_file pairs) ≡ map print_pair pairs
lines-env_file [] h = refl
lines-env_file (p ∷ pairs) (h, hs) =
    lines_from-append [] (print_pair p) (env_file pairs) (print_pair-Lacks p h)
    ∙ (rw (chomp-print_pair p h, lines-env_file pairs hs) refl)

map-map :
    {A B C : Type 0} (f : A → B) (g : B → C) (xs : List A)
    → map g (map f xs) ≡ map (λ x. g (f x)) xs
map-map f g [] = refl
map-map f g (x ∷ xs) = ap (λ r. g (f x) ∷ r) (map-map f g xs)

-- Pairs that were written to an env file, one `KEY=VALUE` line each, are what is read from it: for
-- keys that are not empty, do not start with `#` and hold no `=`, and keys and values on one line
-- with no blanks around them, the value with no quotes around it either.
pub read_config-env_file :
    (pairs : List (Text × Text))
    → All IsPlain pairs
    → read_config (map some (lines (env_file pairs))) ≡ pairs
read_config-env_file pairs h =
    rw (lines-env_file pairs h)
      (rw (map-map print_pair some pairs) (read_config-print_pair pairs h))
