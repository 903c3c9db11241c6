-- ===== src/Init/Wire.antt =====
-- Stretches of a log, one for each connection of the relay in src/init/src/main.rs, that cover it
-- without a gap.
use mathlib.Core.List.{append_assoc}
use coordinator.Base.{
  ℕ, ◌+◌, ◌≤◌, List, [], ◌∷◌, ◌++◌, Bytes, length, take, drop, length-append, take-drop,
  length-take, drop-append, ◌≡◌, refl, sym, ap, ◌∙◌, arith,
}
use coordinator.Init.Forward.{carry}

-- A connection that carried `c` stands in the log with `rest` behind it, and starts no later than
-- where the earlier ones had got to.
abbrev pub Placed : Bytes → Bytes → (ℕ → Type 0) → Bytes → ℕ → Type 0
Placed log rest earlier c e =
    (before : Bytes) × (after : Bytes) × (m : ℕ) × earlier m
    × (length before ≤ m)
    × (log ≡ before ++ (c ++ (rest ++ after)))
    × (e ≡ length before + length c)

-- The connections have carried the log up to `e`, each a stretch of it, with nothing left out.
abbrev pub Covered : Bytes → List Bytes → ℕ → Type 0
Covered log [] e = e ≡ 0
Covered log (c ∷ older) e = Placed log [] (Covered log older) c e

abbrev pub Live : Bytes → Bytes → List Bytes → ℕ → Type 0
Live log rest [] e = ⊥
Live log rest (c ∷ older) e = Placed log rest (Covered log older) c e

grow :
    (before c rest after more : Bytes) (log : Bytes)
    → log ≡ before ++ (c ++ (rest ++ after))
    → log ++ more ≡ before ++ (c ++ (rest ++ (after ++ more)))
grow before c rest after more log h = rw h (
    rw
      (
        append_assoc before (c ++ (rest ++ after)) more,
        append_assoc c (rest ++ after) more,
        append_assoc rest after more,
      )
      refl)

pub Covered-append :
    (log more : Bytes) (wire : List Bytes) (e : ℕ)
    → Covered log wire e
    → Covered (log ++ more) wire e
Covered-append log more [] e h = h
Covered-append log more (c ∷ older) e (before, after, m, h, l, p, q) = (
  before,
  after ++ more,
  m,
  Covered-append log more older m h,
  l,
  grow before c [] after more log p,
  q,
)

pub Live-append :
    (log more rest : Bytes) (wire : List Bytes) (e : ℕ)
    → Live log rest wire e
    → Live (log ++ more) rest wire e
Live-append log more rest [] e h = h
Live-append log more rest (c ∷ older) e (before, after, m, h, l, p, q) = (
  before,
  after ++ more,
  m,
  Covered-append log more older m h,
  l,
  grow before c rest after more log p,
  q,
)

Placed-le :
    (log rest : Bytes) (earlier : ℕ → Type 0) (c : Bytes) (e : ℕ)
    → Placed log rest earlier c e
    → e + length rest ≤ length log
Placed-le log rest earlier c e (before, after, m, h, l, p, q) =
    let n = ap length p in
    omega (
      arith,
      n,
      q,
      length-append before (c ++ (rest ++ after)),
      length-append c (rest ++ after),
      length-append rest after,
    )

pub Covered-le : (log : Bytes) (wire : List Bytes) (e : ℕ) → Covered log wire e → e ≤ length log
Covered-le log [] e h = omega arith
Covered-le log (c ∷ older) e h = omega (arith, Placed-le log [] (Covered log older) c e h)

pub Live-Covered :
    (log rest : Bytes) (wire : List Bytes) (e : ℕ) → Live log rest wire e → Covered log wire e
Live-Covered log rest [] e h = elim h [ ]
Live-Covered log rest (c ∷ older) e (before, after, m, h, l, p, q) =
    (before, rest ++ after, m, h, l, p, q)

pub connect-Live :
    (log : Bytes) (wire : List Bytes) (pos e : ℕ)
    → Covered log wire e
    → pos ≤ e
    → Live log [] ([] ∷ wire) pos
connect-Live log wire pos e h l =
    let n = length-take pos log (omega (arith, Covered-le log wire e h)) in
    (take pos log, drop pos log, e, h, omega arith, sym (take-drop pos log), omega arith)

pub read-Live :
    (log : Bytes) (wire : List Bytes) (pos n : ℕ)
    → Live log [] wire pos
    → Live log (take n (drop pos log)) wire pos
read-Live log [] pos n h = elim h [ ]
read-Live log (c ∷ older) pos n (before, after, m, h, l, p, q) =
    let at : drop pos log ≡ after =
      rw (p, q, sym (length-append before c), sym (append_assoc before c after))
        (drop-append (before ++ c) after) in
    (before, drop n after, m, h, l, rw (at, take-drop n after) p, q)

pub send-Live :
    (log rest : Bytes) (rc : ℕ) (wire : List Bytes) (e : ℕ)
    → rc ≤ length rest
    → Live log rest wire e
    → Live log (drop rc rest) (carry (take rc rest) wire) (e + rc)
send-Live log rest rc [] e k h = elim h [ ]
send-Live log rest rc (c ∷ older) e k (before, after, m, h, l, p, q) =
    let n = length-take rc rest k in
    let whole : (c ++ take rc rest) ++ (drop rc rest ++ after) ≡ c ++ (rest ++ after) =
      append_assoc c (take rc rest) (drop rc rest ++ after)
      ∙ ap (λ r. c ++ r)
          (sym (append_assoc (take rc rest) (drop rc rest) after)
            ∙ ap (λ r. r ++ after) (take-drop rc rest)) in
    (before, after, m, h, l, rw whole p, omega (arith, q, n, length-append c (take rc rest)))
