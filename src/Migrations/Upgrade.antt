-- ===== src/Migrations/Upgrade.antt =====
-- What a run of migration.go leaves in the database: all of the pending migrations, or nothing new.
use finflow.Base.{
  ℕ, ◌≡◌, refl, sym, ap, ◌∙◌, String, true, false, not, some, List, [], ◌∷◌, ◌++◌, map, select, ◌⊎◌,
  inl, inr, Bool-cases, arith,
}
use mathlib.Core.List.{append-nil, append_assoc}
use finflow.Go.Environment.{Environment}
use finflow.Go.Errors.{Error, wrap, Result, ok, err, map_error, Result-cases, ok_of_map_error}
use finflow.Go.Strings.{is_empty, trim_space}
use finflow.Postgres.{World, Action, pure, lift, ◌>>=◌, statement, transaction, after_begin}
use finflow.Postgres.Atomic.{
  Committed, statement_ok, statement_answer, bind_ok, bind_then, bind_cases, transaction_ok,
  transaction_db,
}
use finflow.Migrations.Files.{FileSystem, Migration, resolve_dir, discover}
use finflow.Migrations.Found.{IsAscending, select-IsAscending, discover_ok}
use finflow.Migrations.Run.{
  MigrationRow, SchemaDb, rows_of, is_recorded, row_of, with_table, record_query, with_schema,
  script_query, about_migration, ensure_table_query, lock_query, versions_query, run_script,
  apply_migration, apply_pending, run_body, run,
}

-- The migrations that are not recorded, in their order.
abbrev pub pending : List MigrationRow → List Migration → List Migration
pending applied ms = select (λ m. not (is_recorded m.version applied)) ms

module _ {S : Type 0} where
  -- The database once a migration has left this schema.
  abbrev pub added : Migration → S → SchemaDb S → SchemaDb S
  added m schema db = record {
    recorded = some (rows_of db.recorded ++ row_of m ∷ []);
    schema = schema;
  }

  schema_of_script :
      (db : SchemaDb S) (r : Result S) {u : Unit {0}} {db' : SchemaDb S}
      → with_schema db r ≡ ok (u, db')
      → (r ≡ ok db'.schema) × (db'.recorded ≡ db.recorded)
  schema_of_script db (ok s) h = ground arith
  schema_of_script db (err e) h = cc

module _ (env : Environment) (fs : FileSystem) {S : Type 0} (execute : String → S → Result S) where
  -- A blank script does nothing; any other is PostgreSQL's work.
  abbrev pub Scripted : String → S → S → Type 0
  Scripted sql old new =
      (is_empty (trim_space env sql) ≡ true × (new ≡ old))
      ⊎ (is_empty (trim_space env sql) ≡ false × (execute sql old ≡ ok new))

  -- The migrations were applied in turn, each one new to the table.
  abbrev pub Upgraded : List Migration → SchemaDb S → SchemaDb S → Type 0
  Upgraded [] db db' = db' ≡ db
  Upgraded (m ∷ ms) db db' =
      (sql : String) × (schema : S) × (fs.read_file m.path ≡ ok sql)
      × Scripted sql db.schema schema
      × (is_recorded m.version (rows_of db.recorded) ≡ false)
      × Upgraded ms (added m schema db) db'

  pub Upgraded-rows :
      (ms : List Migration) (db db' : SchemaDb S)
      → Upgraded ms db db'
      → rows_of db'.recorded ≡ rows_of db.recorded ++ map row_of ms
  Upgraded-rows [] db db' h = rw h (sym (append-nil (rows_of db.recorded)))
  Upgraded-rows (m ∷ ms) db db' (sql, schema, got, ran, fresh, more) =
      Upgraded-rows ms (added m schema db) db' more
      ∙ append_assoc (rows_of db.recorded) (row_of m ∷ []) (map row_of ms)

  run_script_ok :
      (m : Migration) (sql : String) (w : World (SchemaDb S)) {u : Unit {0}}
      → (run_script env fs execute m sql w).0 ≡ ok u
      → Scripted sql w.db.schema (run_script env fs execute m sql w).1.db.schema
        × ((run_script env fs execute m sql w).1.db.recorded ≡ w.db.recorded)
  unfolding run_script
  run_script_ok m sql w {u} h = elim (Bool-cases (is_empty (trim_space env sql))) [
    | inl blank ↦ rw blank (inl (refl, refl), refl)
    | inr full ↦
        let ran =
          statement_ok (about_migration "apply" m) (script_query execute sql) w (rw full at h) in
        let (executed, same) = schema_of_script w.db (execute sql w.db.schema) ran in
        rw full (inr (refl, executed), same)
  ]

  record_query_ok :
      (m : Migration) (now : ℕ) (db : SchemaDb S) {u : Unit {0}} {db' : SchemaDb S}
      → record_query m now db ≡ ok (u, db')
      → (is_recorded m.version (rows_of db.recorded) ≡ false) × (db' ≡ added m db.schema db)
  unfolding record_query
  record_query_ok m now db h = elim (Bool-cases (is_recorded m.version (rows_of db.recorded))) [
    | inl old ↦ let e = rw old at h in cc
    | inr new ↦ let e = rw new at h in (new, ground arith)
  ]

  read_ok :
      (m : Migration) {sql : String}
      → map_error (about_migration "read" m) (fs.read_file m.path) ≡ ok sql
      → fs.read_file m.path ≡ ok sql
  read_ok m h = ok_of_map_error (about_migration "read" m) (fs.read_file m.path) h

  -- One round of the loop that returned no error.
  abbrev Applied : Migration → SchemaDb S → SchemaDb S → Type 0
  Applied m db db' =
      (sql : String) × (schema : S) × (fs.read_file m.path ≡ ok sql)
      × Scripted sql db.schema schema
      × (is_recorded m.version (rows_of db.recorded) ≡ false)
      × (db' ≡ added m schema db)

  apply_migration_ok :
      (m : Migration) (w : World (SchemaDb S)) {u : Unit {0}}
      → (apply_migration env fs execute m w).0 ≡ ok u
      → Applied m w.db (apply_migration env fs execute m w).1.db
  unfolding apply_migration
  apply_migration_ok m w {u} h =
      let note : Unit {0} → Action (SchemaDb S) (Unit {0}) =
        λ done. statement (about_migration "record" m) (record_query m) in
      let next : String → Action (SchemaDb S) (Unit {0}) =
        λ sql. run_script env fs execute m sql >>= note in
      let read : Action (SchemaDb S) String =
        lift (map_error (about_migration "read" m) (fs.read_file m.path)) in
      let (sql, got, same, h1) = bind_then read next w h in
      let (done, ran, same', h2) = bind_then (run_script env fs execute m sql) note w h1 in
      let w' = (run_script env fs execute m sql w).1 in
      let (scripted, kept) = run_script_ok m sql w ran in
      let (fresh, left) =
        record_query_ok m w'.clock w'.db
          (statement_ok (about_migration "record" m) (record_query m) w' h2) in
      let wrote = ap (λ q. q.1.db) (same ∙ same') ∙ left in
      (sql, w'.db.schema, read_ok m got, scripted, rw kept at fresh, rw kept at wrote)

  apply_pending_ok :
      (applied : List MigrationRow) (ms : List Migration) (w : World (SchemaDb S)) {u : Unit {0}}
      → (apply_pending env fs execute applied ms w).0 ≡ ok u
      → Upgraded (pending applied ms) w.db (apply_pending env fs execute applied ms w).1.db
  unfolding apply_pending
  apply_pending_ok applied [] w h = refl
  apply_pending_ok applied (m ∷ ms) w {u} h = elim (Bool-cases (is_recorded m.version applied)) [
    | inl old ↦ rw old (apply_pending_ok applied ms w (rw old at h))
    | inr new ↦
        let rest : Unit {0} → Action (SchemaDb S) (Unit {0}) =
          λ done. apply_pending env fs execute applied ms in
        let h' = rw new at h in
        let (done, first, same, later) = bind_then (apply_migration env fs execute m) rest w h' in
        let w' = (apply_migration env fs execute m w).1 in
        let (sql, schema, got, ran, fresh, wrote) = apply_migration_ok m w first in
        let more = apply_pending_ok applied ms w' later in
        rw new (sql, schema, got, ran, fresh, rw wrote at (rw (← ap (λ q. q.1.db) same) at more))
  ]

  -- The whole body: the table is there, and the pending migrations follow.
  run_body_ok :
      (ms : List Migration) (w : World (SchemaDb S)) {a : Unit {0} × String}
      → (run_body env fs execute ms w).0 ≡ ok a
      → Upgraded
          (pending (rows_of w.db.recorded) ms)
          (with_table w.db)
          (run_body env fs execute ms w).1.db
  unfolding run_body
  run_body_ok ms w {a} h =
      let ensure : Action (SchemaDb S) (Unit {0}) =
        statement (wrap "ensure schema_migrations table") ensure_table_query in
      let lock : Action (SchemaDb S) (Unit {0}) =
        statement (wrap "acquire migration lock") lock_query in
      let versions : Action (SchemaDb S) (List MigrationRow) =
        statement (wrap "read applied migrations") versions_query in
      let finish : Unit {0} → Action (SchemaDb S) (Unit {0} × String) =
        λ done. pure (tt, "commit migration transaction") in
      let third : List MigrationRow → Action (SchemaDb S) (Unit {0} × String) =
        λ applied. apply_pending env fs execute applied ms >>= finish in
      let second : Unit {0} → Action (SchemaDb S) (Unit {0} × String) =
        λ locked. versions >>= third in
      let first : Unit {0} → Action (SchemaDb S) (Unit {0} × String) = λ ensured. lock >>= second in
      let (u1, ok1, same1, h1) = bind_then ensure first w h in
      let w1 = (ensure w).1 in
      let (u2, ok2, same2, h2) = bind_then lock second w1 h1 in
      let w2 = (lock w1).1 in
      let (applied, ok3, same3, h3) = bind_then versions third w2 h2 in
      let w3 = (versions w2).1 in
      let (done, ok4, same4) = bind_ok (apply_pending env fs execute applied ms) finish w3 h3 in
      let (_, d1) =
        statement_answer (wrap "ensure schema_migrations table") (λ db. tt) with_table w ok1 in
      let (_, d2) = statement_answer (wrap "acquire migration lock") (λ db. tt) (λ db. db) w1 ok2 in
      let (read, d3) =
        statement_answer (wrap "read applied migrations") (λ db. rows_of db.recorded) (λ db. db) w2
          ok3 in
      let db2 : w2.db ≡ with_table w.db = d2 ∙ d1 in
      let listed : applied ≡ rows_of w.db.recorded = read ∙ ap (λ db. rows_of db.recorded) db2 in
      let upgraded = apply_pending_ok applied ms w3 ok4 in
      rw (same1 ∙ same2 ∙ same3 ∙ same4) (rw listed (rw (d3 ∙ db2) at (rw listed at upgraded)))

  -- The directory's migrations that the table lacked, and the database with them applied.
  abbrev pub Completed : String → SchemaDb S → SchemaDb S → Type 0
  Completed dir_text db db' =
      (dir : String) × (ms : List Migration) × (resolve_dir fs env dir_text ≡ ok dir)
      × (discover fs dir ≡ ok ms)
      × IsAscending (pending (rows_of db.recorded) ms)
      × Upgraded (pending (rows_of db.recorded) ms) (with_table db) db'
      × (rows_of db'.recorded
          ≡ rows_of db.recorded ++ map row_of (pending (rows_of db.recorded) ms))

  abbrev pub Refused : Result (Unit {0}) → SchemaDb S → SchemaDb S → Type 0
  Refused r db db' = (db' ≡ db) × ((e : Error) × (r ≡ err e))

  Completed-of_Committed :
      (ms : List Migration) (w : World (SchemaDb S)) {u : Unit {0}} {db' : SchemaDb S}
      → Committed (run_body env fs execute ms) w u db'
      → Upgraded (pending (rows_of w.db.recorded) ms) (with_table w.db) db'
  Completed-of_Committed ms w (text, returned, left) =
      rw left at (run_body_ok ms (after_begin w) returned)

  transaction_cases :
      (ms : List Migration) (w : World (SchemaDb S))
      → let (r, w') = transaction "begin migration transaction" (run_body env fs execute ms) w in
        Refused r w.db w'.db ⊎ Upgraded (pending (rows_of w.db.recorded) ms) (with_table w.db) w'.db
  transaction_cases ms w =
      let text : String = "begin migration transaction" in
      let body = run_body env fs execute ms in
      elim (Result-cases (transaction text body w).0) [
        | inl (u, answered) ↦
            inr (Completed-of_Committed ms w (transaction_ok text body w answered))
        | inr (e, refused) ↦ elim (transaction_db text body w) [
          | inl same ↦ inl (same, (e, refused))
          | inr (u, done) ↦ inr (Completed-of_Committed ms w done)
        ]
      ]

  -- A run of the migrations, however the file system and the database fail, returns an error and
  -- leaves the database as it was, or leaves it with every migration of the directory that was not
  -- recorded applied once and recorded, in ascending order of the versions.
  pub run_all_or_nothing :
      (dir_text : String) (w : World (SchemaDb S))
      → let (r, w') = run env fs execute dir_text w in
        Refused r w.db w'.db ⊎ Completed dir_text w.db w'.db
  unfolding run
  run_all_or_nothing dir_text w =
      let found : Action (SchemaDb S) String = lift (resolve_dir fs env dir_text) in
      let last : List Migration → Action (SchemaDb S) (Unit {0}) =
        λ ms. transaction "begin migration transaction" (run_body env fs execute ms) in
      let next : String → Action (SchemaDb S) (Unit {0}) = λ dir. lift (discover fs dir) >>= last in
      elim (bind_cases found next w) [
        | inl (e, refused, same) ↦ rw same (inl (refl, (e, refl)))
        | inr (dir, resolved, same) ↦ elim (bind_cases (lift (discover fs dir)) last w) [
          | inl (e, refused, same') ↦ rw (same ∙ same') (inl (refl, (e, refl)))
          | inr (ms, listed, same') ↦ rw (same ∙ same') (elim (transaction_cases ms w) [
            | inl none_done ↦ inl none_done
            | inr all_done ↦ inr (
              dir,
              ms,
              resolved,
              listed,
              select-IsAscending (λ m. not (is_recorded m.version (rows_of w.db.recorded))) ms
                  (discover_ok fs dir listed).5,
              all_done,
              Upgraded-rows (pending (rows_of w.db.recorded) ms) (with_table w.db) _ all_done,
            )
          ])
        ]
      ]
