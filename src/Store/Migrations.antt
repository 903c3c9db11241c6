-- ===== src/Store/Migrations.antt =====
-- What the migrations of src/coordinator/src/persistence/postgres.rs leave, on any database that does
-- as Postgres documents.
use coordinator.Base.{
  List, [], ◌∷◌, ◌++◌, map, not, Text, Bool, true, false, ◌&&◌, ◌||◌, none, some, ok, ◌==◌, text_eq,
  if◌then◌else◌, ◌≡◌, refl, sym, ap, ◌∙◌, ◌⊎◌, inl, inr, All, arith, Bool-cases,
}
use coordinator.Store.Schema.{
  Column, Statement, create_table, add_column, create_index, Fact, table, column, unique, Sql,
}

abbrev pub names_beq : List Text → List Text → Bool
names_beq [] [] = true
names_beq [] (d ∷ ds) = false
names_beq (c ∷ cs) [] = false
names_beq (c ∷ cs) (d ∷ ds) = c == d && names_beq cs ds

names_beq-eq : (cs ds : List Text) → names_beq cs ds ≡ true → cs ≡ ds
names_beq-eq [] [] h = refl
names_beq-eq [] (d ∷ ds) h = cc
names_beq-eq (c ∷ cs) [] h = cc
names_beq-eq (c ∷ cs) (d ∷ ds) h = ground (arith, text_eq.beq_iff c d, names_beq-eq cs ds)

abbrev pub fact_beq : Fact → Fact → Bool
fact_beq (table t) (table u) = t == u
fact_beq (column t c) (column u d) = t == u && c == d
fact_beq (unique t c) (unique u d) = t == u && names_beq c d
fact_beq (table t) (column u d) = false
fact_beq (table t) (unique u d) = false
fact_beq (column t c) (table u) = false
fact_beq (column t c) (unique u d) = false
fact_beq (unique t c) (table u) = false
fact_beq (unique t c) (column u d) = false

fact_beq-eq : (f g : Fact) → fact_beq f g ≡ true → f ≡ g
fact_beq-eq (table t) (table u) h = ap table ((text_eq.beq_iff t u).0 h)
fact_beq-eq (column t c) (column u d) h = ground (arith, text_eq.beq_iff t u, text_eq.beq_iff c d)
fact_beq-eq (unique t c) (unique u d) h = ground (arith, text_eq.beq_iff t u, names_beq-eq c d)
fact_beq-eq (table t) (column u d) h = cc
fact_beq-eq (table t) (unique u d) h = cc
fact_beq-eq (column t c) (table u) h = cc
fact_beq-eq (column t c) (unique u d) h = cc
fact_beq-eq (unique t c) (table u) h = cc
fact_beq-eq (unique t c) (column u d) h = cc

abbrev pub member : Fact → List Fact → Bool
member f [] = false
member f (g ∷ gs) = fact_beq f g || member f gs

abbrev pub subset : List Fact → List Fact → Bool
subset [] gs = true
subset (f ∷ fs) gs = member f gs && subset fs gs

-- What a statement refers to, which Postgres wants to be there.
abbrev pub referred : List Column → List Fact
referred [] = []
referred (c ∷ cs) = elim c.references [
  | none ↦ referred cs
  | some (t, k) ↦ table t ∷ column t k ∷ unique t (k ∷ []) ∷ referred cs
]

abbrev pub needs : Statement → List Fact
needs (create_table t cs ks) = referred cs
needs (add_column t c) = table t ∷ referred (c ∷ [])
needs (create_index i t cs) = table t ∷ map (column t) cs

-- What is there once a statement has done its work.
abbrev pub provided : Text → List Column → List Fact
provided t [] = []
provided t (c ∷ cs) =
    if c.primary
    then column t c.name ∷ unique t (c.name ∷ []) ∷ provided t cs
    else column t c.name ∷ provided t cs

-- With the keys that stand behind the columns.
abbrev pub declared : Text → List Column → List (List Text) → List Fact
declared t cs ks = provided t cs ++ map (unique t) ks

abbrev pub provides : Statement → List Fact
provides (create_table t cs ks) = table t ∷ declared t cs ks
provides (add_column t c) = column t c.name ∷ []
provides (create_index i t cs) = []

-- `CREATE TABLE IF NOT EXISTS` leaves a table that is there as it is.
abbrev pub skips : Statement → List Fact
skips (create_table t cs ks) = table t ∷ []
skips (add_column t c) = []
skips (create_index i t cs) = []

module _ {D : Type 0} (sql : Sql D) where
  abbrev pub Hold : List Fact → D → Type 0
  Hold fs d = All (λ f. sql.has f d ≡ true) fs

  -- Postgres: a statement whose needs are met succeeds; nothing that is there goes; what it provides
  -- is there, unless its table was; and nothing else comes.
  pub record IsPostgres : Type 0 where
    pub succeeds : (s : Statement) (d : D) → Hold (needs s) d → (sql.execute s d).0 ≡ ok tt
    pub keeps :
        (s : Statement) (d : D) (f : Fact)
        → sql.has f d ≡ true
        → sql.has f (sql.execute s d).1 ≡ true
    pub gives :
        (s : Statement) (d : D)
        → Hold (needs s) d
        → All (λ f. sql.has f d ≡ false) (skips s)
        → Hold (provides s) (sql.execute s d).1
    pub only :
        (s : Statement) (d : D) (f : Fact)
        → sql.has f (sql.execute s d).1 ≡ true
        → (sql.has f d ≡ true) ⊎ (member f (provides s) ≡ true)

abbrev pub without : List Fact → List Fact → List Fact
without later [] = []
without later (f ∷ fs) = if member f later then without later fs else f ∷ without later fs

-- What is there after a statement even if the table was: columns of `later` are added by others.
abbrev pub gained : List Fact → Statement → List Fact
gained later (create_table t cs ks) = table t ∷ without later (declared t cs ks)
gained later (add_column t c) = provides (add_column t c)
gained later (create_index i t cs) = []

abbrev pub known_after : List Fact → List Fact → List Statement → List Fact
known_after later known [] = known
known_after later known (s ∷ ss) = known_after later (gained later s ++ known) ss

-- Each statement refers to what earlier ones have made, and no table is made twice.
abbrev pub is_new : Statement → List Fact → Bool
is_new (create_table t cs ks) known = not (member (table t) known)
is_new (add_column t c) known = true
is_new (create_index i t cs) known = true

abbrev pub checked : List Fact → List Fact → List Statement → Bool
checked later known [] = true
checked later known (s ∷ ss) =
    (subset (needs s) known && is_new s known) && checked later (gained later s ++ known) ss

pub member-append :
    (f : Fact) (xs ys : List Fact) → member f (xs ++ ys) ≡ (member f xs || member f ys)
member-append f [] ys = refl
member-append f (x ∷ xs) ys = ground (arith, member-append f xs ys)

provided-no_table : (u t : Text) (cs : List Column) → member (table u) (provided t cs) ≡ false
provided-no_table u t [] = refl
provided-no_table u t (c ∷ cs) = ground (arith, provided-no_table u t cs)

keys-no_table : (u t : Text) (ks : List (List Text)) → member (table u) (map (unique t) ks) ≡ false
keys-no_table u t [] = refl
keys-no_table u t (k ∷ ks) = keys-no_table u t ks

pub declared-no_table :
    (u t : Text) (cs : List Column) (ks : List (List Text))
    → member (table u) (declared t cs ks) ≡ false
declared-no_table u t cs ks = ground (
  arith,
  member-append (table u) (provided t cs) (map (unique t) ks),
  provided-no_table u t cs,
  keys-no_table u t ks,
)

module _ {D : Type 0} (sql : Sql D) where
  pub Hold-member :
      (f : Fact) (gs : List Fact) (d : D) → member f gs ≡ true → Hold sql gs d → sql.has f d ≡ true
  Hold-member f [] d m h = cc
  Hold-member f (g ∷ gs) d m (h, hs) = elim (Bool-cases (fact_beq f g)) [
    | inl t ↦ ap (λ k. sql.has k d) (fact_beq-eq f g t) ∙ h
    | inr t ↦ Hold-member f gs d (sym (rw t refl) ∙ m) hs
  ]

  pub Hold-subset :
      (fs gs : List Fact) (d : D) → subset fs gs ≡ true → Hold sql gs d → Hold sql fs d
  Hold-subset [] gs d m h = tt
  Hold-subset (f ∷ fs) gs d m h =
      (Hold-member f gs d (ground arith) h, Hold-subset fs gs d (ground arith) h)

  pub Hold-append :
      (fs gs : List Fact) (d : D) → Hold sql fs d → Hold sql gs d → Hold sql (fs ++ gs) d
  Hold-append [] gs d h k = k
  Hold-append (f ∷ fs) gs d (h, hs) k = (h, Hold-append fs gs d hs k)

  pub Hold-without : (later fs : List Fact) (d : D) → Hold sql fs d → Hold sql (without later fs) d
  Hold-without later [] d h = tt
  Hold-without later (f ∷ fs) d (h, hs) = elim (Bool-cases (member f later)) [
    | inl t ↦ rw t (Hold-without later fs d hs)
    | inr t ↦ rw t (h, Hold-without later fs d hs)
  ]

  pub Hold-mono :
      (fs : List Fact) (d d' : D)
      → ((f : Fact) → sql.has f d ≡ true → sql.has f d' ≡ true)
      → Hold sql fs d
      → Hold sql fs d'
  Hold-mono [] d d' k h = tt
  Hold-mono (f ∷ fs) d d' k (h, hs) = (k f h, Hold-mono fs d d' k hs)

  -- A table that is there before the migrations has the columns and keys of its statement, but for those that
  -- later statements add.
  abbrev pub Fits : List Fact → D → Statement → Type 0
  Fits later d (create_table t cs ks) =
      sql.has (table t) d ≡ true → Hold sql (gained later (create_table t cs ks)) d
  Fits later d (add_column t c) = Unit
  Fits later d (create_index i t cs) = Unit
