-- ===== src/Base/Map.antt =====
-- `HashMap` as an association list without an order that anything relies on: every theorem about
-- a map goes through `get`.
use mathlib.Core.Path.{◌≡◌, refl}
use mathlib.Core.Logic.{◌≢◌}
use mathlib.Core.Bool.{Bool, true, false, not, ◌&&◌, ◌||◌}
use mathlib.Core.Option.{Option, none, some}
use mathlib.Core.List.{List, [], ◌∷◌}
use native.Mathlib.Omega.{arith}
use coordinator.Base.Tests.{if◌then◌else◌}
use coordinator.Base.Classes.{Eq, ◌==◌, ==_refl}

abbrev pub Map {ℓ κ} : Type ℓ → Type κ → Type (ℓ ⊔ κ)
Map K V = List (K × V)

module _ {ℓ κ} {K : Type ℓ} {V : Type κ} ⦃e : Eq K⦄ where
  abbrev pub get : K → Map K V → Option V
  get k [] = none
  get k ((j, v) ∷ m) = if j == k then some v else get k m

  abbrev pub insert : K → V → Map K V → Map K V
  insert k v [] = (k, v) ∷ []
  insert k v ((j, w) ∷ m) = if j == k then (k, v) ∷ m else (j, w) ∷ insert k v m

  abbrev pub remove : K → Map K V → Map K V
  remove k [] = []
  remove k ((j, w) ∷ m) = if j == k then remove k m else (j, w) ∷ remove k m

  -- `get_mut` and an assignment through it.
  abbrev pub modify : K → (V → V) → Map K V → Map K V
  modify k f [] = []
  modify k f ((j, w) ∷ m) = if j == k then (j, f w) ∷ m else (j, w) ∷ modify k f m

  pub get-insert :
      (k j : K) (v : V) (m : Map K V) → get j (insert k v m) ≡ (if k == j then some v else get j m)
  get-insert k j v [] = refl
  get-insert k j v ((i, w) ∷ m) =
      ground (arith, e.beq_iff k j, e.beq_iff i k, e.beq_iff i j, get-insert k j v m)

  pub get-remove : (k j : K) (m : Map K V) → get j (remove k m) ≡ (if k == j then none else get j m)
  get-remove k j [] = ground arith
  get-remove k j ((i, w) ∷ m) =
      ground (arith, e.beq_iff k j, e.beq_iff i k, e.beq_iff i j, get-remove k j m)

  pub get-insert_self : (k : K) (v : V) (m : Map K V) → get k (insert k v m) ≡ some v
  get-insert_self k v m = ground (arith, get-insert k k v m, ==_refl k)

  pub get-insert_ne : (k j : K) (v : V) (m : Map K V) → k ≢ j → get j (insert k v m) ≡ get j m
  get-insert_ne k j v m h = ground (arith, get-insert k j v m, e.beq_iff k j)

  pub get-remove_self : (k : K) (m : Map K V) → get k (remove k m) ≡ none
  get-remove_self k m = ground (arith, get-remove k k m, ==_refl k)

  pub get-remove_ne : (k j : K) (m : Map K V) → k ≢ j → get j (remove k m) ≡ get j m
  get-remove_ne k j m h = ground (arith, get-remove k j m, e.beq_iff k j)

  -- `HashMap::retain`.
  abbrev pub retain : (V → Bool) → Map K V → Map K V
  retain p [] = []
  retain p ((j, w) ∷ m) = if p w then (j, w) ∷ retain p m else retain p m

  -- No key stands twice: what makes an association list a map.
  abbrev pub IsKeyed : Map K V → Type (ℓ ⊔ κ)
  IsKeyed [] = Unit
  IsKeyed ((k, v) ∷ m) = (get k m ≡ none) × IsKeyed m

  abbrev pub Values {μ} : (V → Type μ) → Map K V → Type μ
  Values P [] = Unit
  Values P ((k, v) ∷ m) = P v × Values P m

  pub insert-IsKeyed : (k : K) (v : V) (m : Map K V) → IsKeyed m → IsKeyed (insert k v m)
  insert-IsKeyed k v [] h = (refl, tt)
  insert-IsKeyed k v ((j, w) ∷ m) h =
      ground (arith, insert-IsKeyed k v m h.1, get-insert k j v m, e.beq_iff j k, e.beq_iff k j)

  pub Values-get {μ} :
      (P : V → Type μ) (k : K) (v : V) (m : Map K V) → Values P m → get k m ≡ some v → P v
  Values-get P k v [] h g = cc
  Values-get P k v ((j, w) ∷ m) h g = ground (arith, Values-get P k v m h.1)

  pub insert-Values {μ} :
      (P : V → Type μ) (k : K) (v : V) (m : Map K V) → P v → Values P m → Values P (insert k v m)
  insert-Values P k v [] p h = (p, tt)
  insert-Values P k v ((j, w) ∷ m) p h = ground (arith, insert-Values P k v m p h.1)

  pub retain-Values {μ} :
      (P : V → Type μ) (p : V → Bool) (m : Map K V) → Values P m → Values P (retain p m)
  retain-Values P p [] h = tt
  retain-Values P p ((j, w) ∷ m) h = ground (arith, retain-Values P p m h.1)

  get-retain-none :
      (p : V → Bool) (k : K) (m : Map K V) → get k m ≡ none → get k (retain p m) ≡ none
  get-retain-none p k [] h = refl
  get-retain-none p k ((j, w) ∷ m) h = ground (arith, get-retain-none p k m)

  pub retain-IsKeyed : (p : V → Bool) (m : Map K V) → IsKeyed m → IsKeyed (retain p m)
  retain-IsKeyed p [] h = tt
  retain-IsKeyed p ((j, w) ∷ m) h =
      ground (arith, retain-IsKeyed p m h.1, get-retain-none p j m h.0)

  pub get-retain :
      (p : V → Bool) (k : K) (m : Map K V)
      → IsKeyed m
      → get k (retain p m) ≡ elim (get k m) [ none ↦ none | some v ↦ if p v then some v else none ]
  get-retain p k [] h = refl
  get-retain p k ((j, w) ∷ m) h =
      ground (arith, get-retain p k m h.1, get-retain-none p j m h.0, e.beq_iff j k)

  pub get-modify_self :
      (k : K) (f : V → V) (v : V) (m : Map K V)
      → get k m ≡ some v
      → get k (modify k f m) ≡ some (f v)
  get-modify_self k f v [] h = cc
  get-modify_self k f v ((j, w) ∷ m) h = ground (arith, get-modify_self k f v m)

  pub get-modify_ne : (k j : K) (f : V → V) (m : Map K V) → k ≢ j → get j (modify k f m) ≡ get j m
  get-modify_ne k j f [] h = refl
  get-modify_ne k j f ((i, w) ∷ m) h =
      ground (arith, get-modify_ne k j f m h, e.beq_iff i k, e.beq_iff i j)

  pub get-modify-none :
      (k j : K) (f : V → V) (m : Map K V) → get j m ≡ none → get j (modify k f m) ≡ none
  get-modify-none k j f [] h = refl
  get-modify-none k j f ((i, w) ∷ m) h = ground (arith, get-modify-none k j f m, e.beq_iff i k)

  pub modify-IsKeyed : (k : K) (f : V → V) (m : Map K V) → IsKeyed m → IsKeyed (modify k f m)
  modify-IsKeyed k f [] h = tt
  modify-IsKeyed k f ((j, w) ∷ m) h =
      ground (arith, modify-IsKeyed k f m h.1, get-modify-none k j f m h.0)

  -- `contains_key`.
  abbrev pub has : K → Map K V → Bool
  has k m = elim (get k m) [ none ↦ false | some v ↦ true ]

  pub has-insert : (k j : K) (v : V) (m : Map K V) → has j (insert k v m) ≡ (k == j || has j m)
  has-insert k j v m = ground (arith, get-insert k j v m)

  pub has-remove : (k j : K) (m : Map K V) → has j (remove k m) ≡ (not (k == j) && has j m)
  has-remove k j m = ground (arith, get-remove k j m)

  pub has-modify : (k j : K) (f : V → V) (m : Map K V) → has j (modify k f m) ≡ has j m
  has-modify k j f [] = refl
  has-modify k j f ((i, w) ∷ m) = ground (arith, has-modify k j f m, e.beq_iff i k, e.beq_iff i j)
