-- ===== src/Checks/Schema.antt =====
-- The theorem on the migrations, at a database that lists what it has.
use coordinator.Base.{
  List, [], ◌∷◌, ◌++◌, Text, Bool, true, false, Outcome, ok, err, codes, text_eq, ==_refl,
  if◌then◌else◌, ◌≡◌, refl, ap, ◌⊎◌, inl, inr, All, arith, ◌||◌, Bool-cases,
}
use coordinator.Store.Schema.{Statement, statements, Fact, table, column, unique, Sql, migrate}
use coordinator.Store.Migrations.{
  names_beq, fact_beq, member, subset, needs, provides, skips, Hold, IsPostgres, Fits,
  member-append,
}
use coordinator.Store.Migrated.{added, all_provided, conflict_keys, migrate-Complete}

abbrev has_any : List Fact → List Fact → Bool
has_any [] d = false
has_any (f ∷ fs) d = member f d || has_any fs d

-- A statement does nothing where its table is there, and fails where a need is not met.
abbrev done : Statement → List Fact → List Fact
done s d = if has_any (skips s) d then d else provides s ++ d

abbrev run : Statement → List Fact → Outcome Text (Unit {0}) × List Fact
run s d = if subset (needs s) d then (ok tt, done s d) else (err (codes "no such column"), d)

abbrev listed : Sql (List Fact)
listed = record { has = member; execute = run }

names_beq_refl : (cs : List Text) → names_beq cs cs ≡ true
names_beq_refl [] = refl
names_beq_refl (c ∷ cs) = ground (arith, ==_refl c, names_beq_refl cs)

fact_beq_refl : (f : Fact) → fact_beq f f ≡ true
fact_beq_refl (table t) = ==_refl t
fact_beq_refl (column t c) = ground (arith, ==_refl t, ==_refl c)
fact_beq_refl (unique t c) = ground (arith, ==_refl t, names_beq_refl c)

subset-Hold : (fs d : List Fact) → Hold listed fs d → subset fs d ≡ true
subset-Hold [] d h = refl
subset-Hold (f ∷ fs) d (h, hs) = ground (arith, h, subset-Hold fs d hs)

Hold-wider : (f : Fact) (fs d : List Fact) → Hold listed fs d → Hold listed fs (f ∷ d)
Hold-wider f [] d h = tt
Hold-wider f (g ∷ gs) d (h, hs) = (ground arith, Hold-wider f gs d hs)

Hold-own : (fs d : List Fact) → Hold listed fs (fs ++ d)
Hold-own [] d = tt
Hold-own (f ∷ fs) d = (ground (arith, fact_beq_refl f), Hold-wider f fs (fs ++ d) (Hold-own fs d))

run_ok : (s : Statement) (d : List Fact) → Hold listed (needs s) d → run s d ≡ (ok tt, done s d)
run_ok s d h = rw (subset-Hold (needs s) d h) refl

done-keeps :
    (s : Statement) (d : List Fact) (f : Fact) → member f d ≡ true → member f (run s d).1 ≡ true
done-keeps s d f h = elim (Bool-cases (subset (needs s) d)) [
  | inl t ↦ rw t (ground (arith, member-append f (provides s) d, h))
  | inr t ↦ rw t h
]

none_there : (fs d : List Fact) → All (λ f. member f d ≡ false) fs → has_any fs d ≡ false
none_there [] d h = refl
none_there (f ∷ fs) d (h, hs) = ground (arith, h, none_there fs d hs)

done-gives :
    (s : Statement) (d : List Fact)
    → Hold listed (needs s) d
    → All (λ f. member f d ≡ false) (skips s)
    → Hold listed (provides s) (run s d).1
done-gives s d h n =
    rw (subset-Hold (needs s) d h, none_there (skips s) d n) (Hold-own (provides s) d)

done-only :
    (s : Statement) (d : List Fact) (f : Fact)
    → member f (run s d).1 ≡ true
    → (member f d ≡ true) ⊎ (member f (provides s) ≡ true)
done-only s d f h = ground (arith, member-append f (provides s) d)

listed-IsPostgres : IsPostgres listed
listed-IsPostgres = record {
  succeeds = λ s d h. ap (λ (r : Outcome Text (Unit {0}) × List Fact). r.0) (run_ok s d h);
  keeps = done-keeps;
  gives = done-gives;
  only = done-only;
}

-- An old table of receipts, without the columns that were added later.
abbrev old_database : List Fact
old_database =
    table (codes "routing_receipts")
    ∷ column (codes "routing_receipts") (codes "request_id")
    ∷ unique (codes "routing_receipts") (codes "request_id" ∷ [])
    ∷ column (codes "routing_receipts") (codes "receipt_json")
    ∷ column (codes "routing_receipts") (codes "stored_at")
    ∷ []

old_database-Fits : All (Fits listed (added statements) old_database) statements
unfolding statements
old_database-Fits = ground arith

migrate-Complete_example :
    let (result, d') = migrate listed statements old_database in
    (result ≡ ok tt)
    × Hold listed (all_provided statements) d'
    × Hold listed conflict_keys d'
    × ((f : Fact) → member f old_database ≡ true → member f d' ≡ true)
    × ((migrate listed statements d').0 ≡ ok tt)
migrate-Complete_example = migrate-Complete listed listed-IsPostgres old_database old_database-Fits
