-- ===== src/Store/Migrated.antt =====
-- A run of the migrations of src/coordinator/src/persistence/postgres.rs, statement by statement.
use coordinator.Base.{
  List, [], ◌∷◌, ◌++◌, codes, Text, Bool, true, ◌&&◌, ok, text_eq, ◌≡◌, refl, ◌⊎◌, inl, inr, All,
  arith, Bool-cases,
}
use coordinator.Store.Schema.{
  Statement, create_table, add_column, create_index, statements, Fact, table, column, unique, Sql,
  migrate, receipt_tables, job_tables, payment_tables, session_tables, session_indexes,
}
use coordinator.Store.Migrations.{
  member, subset, needs, declared, provides, Hold, IsPostgres, gained, known_after, is_new, checked,
  member-append, declared-no_table, Hold-subset, Hold-append, Hold-without, Hold-mono, Fits,
}

module _ {D : Type 0} (sql : Sql D) (pg : IsPostgres sql) (later : List Fact) (d₀ : D) where
  -- What is known of the database between two statements.
  record Known (known : List Fact) (d : D) : Type 0 where
    holds : Hold sql known d
    grown : (f : Fact) → sql.has f d₀ ≡ true → sql.has f d ≡ true
    tables :
        (t : Text)
        → sql.has (table t) d ≡ true
        → (sql.has (table t) d₀ ≡ true) ⊎ (member (table t) known ≡ true)

  gains :
      (s : Statement) (known : List Fact) (d : D)
      → Fits sql later d₀ s
      → is_new s known ≡ true
      → Hold sql (needs s) d
      → Known known d
      → Hold sql (gained later s) (sql.execute s d).1
  gains (create_table t cs ks) known d fits new h k =
      let s = create_table t cs ks in
      elim (Bool-cases (sql.has (table t) d)) [
        | inr missing ↦
            let (made, columns) = pg.gives s d h (missing, tt) in
            (made, Hold-without sql later (declared t cs ks) _ columns)
        | inl there ↦ elim (k.tables t there) [
          | inl before ↦
              Hold-mono sql (gained later s) d₀ _ (λ f e. pg.keeps s d f (k.grown f e))
                (fits before)
          | inr twice ↦ cc
        ]
      ]
  gains (add_column t c) known d fits new h k = pg.gives (add_column t c) d h tt
  gains (create_index i t cs) known d fits new h k = tt

  gained-tables :
      (s : Statement) (t : Text)
      → member (table t) (provides s) ≡ true
      → member (table t) (gained later s) ≡ true
  gained-tables (create_table u cs ks) t h = ground (arith, declared-no_table t u cs ks)
  gained-tables (add_column u c) t h = h
  gained-tables (create_index i u cs) t h = h

  Known-step :
      (s : Statement) (known : List Fact) (d : D)
      → Fits sql later d₀ s
      → is_new s known ≡ true
      → Hold sql (needs s) d
      → Known known d
      → Known (gained later s ++ known) (sql.execute s d).1
  Known-step s known d fits new h k = record {
    holds =
        Hold-append sql (gained later s) known _ (gains s known d fits new h k)
          (Hold-mono sql known d _ (pg.keeps s d) k.holds);
    grown = λ f e. pg.keeps s d f (k.grown f e);
    tables = λ t e. elim (pg.only s d (table t) e) [
      | inl before ↦ elim (k.tables t before) [
        | inl old ↦ inl old
        | inr known_table ↦
            inr (ground (arith, member-append (table t) (gained later s) known, known_table))
      ]
      | inr made ↦
          inr
            (ground (arith, member-append (table t) (gained later s) known, gained-tables s t made))
    ];
  }

  migrate-Known :
      (ss : List Statement) (known : List Fact) (d : D)
      → All (Fits sql later d₀) ss
      → checked later known ss ≡ true
      → Known known d
      → ((migrate sql ss d).0 ≡ ok tt) × Known (known_after later known ss) (migrate sql ss d).1
  unfolding migrate
  migrate-Known [] known d fits c k = (refl, k)
  migrate-Known (s ∷ ss) known d (fit, fits) c k =
      let h : Hold sql (needs s) d = Hold-subset sql (needs s) known d (ground arith) k.holds in
      let new : is_new s known ≡ true = ground arith in
      rw (pg.succeeds s d h) (
        migrate-Known ss (gained later s ++ known) (sql.execute s d).1 fits (ground arith)
          (Known-step s known d fit new h k))

abbrev pub added : List Statement → List Fact
added [] = []
added (create_table t cs ks ∷ ss) = added ss
added (add_column t c ∷ ss) = column t c.name ∷ added ss
added (create_index i t cs ∷ ss) = added ss

abbrev pub all_provided : List Statement → List Fact
all_provided [] = []
all_provided (s ∷ ss) = provides s ++ all_provided ss

abbrev all_within : List Fact → List Statement → List Fact → Bool
all_within later [] known = true
all_within later (s ∷ ss) known = subset (gained later s) known && all_within later ss known

statements-checked : checked (added statements) [] statements ≡ true
unfolding statements receipt_tables job_tables payment_tables session_tables session_indexes
statements-checked = refl

statements_complete :
    subset (all_provided statements) (known_after (added statements) [] statements) ≡ true
unfolding statements receipt_tables job_tables payment_tables session_tables session_indexes
statements_complete = refl

-- The keys that the program's upserts name: `put` of the archive, the tracking of jobs, and the upsert
-- of handle_completion_ack into `node_session_cache`.
abbrev pub conflict_keys : List Fact
conflict_keys =
    unique (codes "routing_receipts") (codes "request_id" ∷ [])
    ∷ unique (codes "dispatch_jobs") (codes "request_id" ∷ [])
    ∷ unique (codes "node_session_cache") (codes "node_peer_id" ∷ codes "session_id" ∷ [])
    ∷ []

conflict_keys-provided : subset conflict_keys (all_provided statements) ≡ true
unfolding statements receipt_tables job_tables payment_tables session_tables session_indexes
conflict_keys-provided = refl

statements_within : all_within (added statements) statements (all_provided statements) ≡ true
unfolding statements receipt_tables job_tables payment_tables session_tables session_indexes
statements_within = refl

module _ {D : Type 0} (sql : Sql D) (pg : IsPostgres sql) where
  Fits-all :
      (later known : List Fact) (d : D) (ss : List Statement)
      → all_within later ss known ≡ true
      → Hold sql known d
      → All (Fits sql later d) ss
  Fits-all later known d [] c h = tt
  Fits-all later known d (create_table t cs ks ∷ ss) c h = (
    (λ e. Hold-subset sql (gained later (create_table t cs ks)) known d (ground arith) h),
    Fits-all later known d ss (ground arith) h,
  )
  Fits-all later known d (add_column t x ∷ ss) c h =
      (tt, Fits-all later known d ss (ground arith) h)
  Fits-all later known d (create_index i t cs ∷ ss) c h =
      (tt, Fits-all later known d ss (ground arith) h)

  once :
      (d : D)
      → All (Fits sql (added statements) d) statements
      → ((migrate sql statements d).0 ≡ ok tt)
        × Hold sql (all_provided statements) (migrate sql statements d).1
        × ((f : Fact) → sql.has f d ≡ true → sql.has f (migrate sql statements d).1 ≡ true)
  once d fits =
      let (done, k) =
        migrate-Known sql pg (added statements) d statements [] d fits statements-checked
          (record { holds = tt; grown = λ f e. e; tables = λ t e. inl e }) in
      (
        done,
        Hold-subset sql (all_provided statements) (known_after (added statements) [] statements) _
            statements_complete k.holds,
        k.grown,
      )

  -- On a database that does as Postgres documents, where each table that is there already has the
  -- columns and keys of its statement, but for those that a later statement adds, the migrations end well:
  -- every table, column and key that they declare is then there, among them the keys on which the
  -- program's upserts rely, nothing that was there is lost, and
  -- a further run ends well too.
  pub migrate-Complete :
      (d : D)
      → All (Fits sql (added statements) d) statements
      → let (result, d') = migrate sql statements d in
        (result ≡ ok tt)
        × Hold sql (all_provided statements) d'
        × Hold sql conflict_keys d'
        × ((f : Fact) → sql.has f d ≡ true → sql.has f d' ≡ true)
        × ((migrate sql statements d').0 ≡ ok tt)
  migrate-Complete d fits =
      let (done, complete, grown) = once d fits in
      let d' = (migrate sql statements d).1 in
      let again = once d' (
        Fits-all (added statements) (all_provided statements) d' statements statements_within
          complete) in
      let keys =
        Hold-subset sql conflict_keys (all_provided statements) d' conflict_keys-provided
          complete in
      (done, complete, keys, grown, again.0)
