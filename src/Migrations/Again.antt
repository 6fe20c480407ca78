-- ===== src/Migrations/Again.antt =====
-- A second run of migration.go over the same directory: every migration is recorded, so none is applied.
use mathlib.Core.Path.{subst}
use finflow.Base.{
  ℕ, ◌≡◌, refl, ◌∙◌, String, true, ◌||◌, List, [], ◌∷◌, ◌++◌, map, any-append, All, All-weaken, inl,
  inr, Bool-cases, arith,
}
use finflow.Go.Environment.{Environment}
use finflow.Go.Errors.{Result, ok}
use finflow.Go.Numbers.{same}
use finflow.Postgres.{World, transaction, statement}
use finflow.Migrations.Files.{FileSystem, Migration, resolve_dir, discover}
use finflow.Migrations.Run.{
  MigrationRow, SchemaDb, rows_of, is_recorded, row_of, with_table, apply_pending, run_body, run,
}
use finflow.Migrations.Upgrade.{pending, added, Upgraded, run_all_or_nothing}

-- A migration is in the table, or among those that will be.
abbrev IsCovered : List MigrationRow → List Migration → Migration → Type 0
IsCovered rows new m = (is_recorded m.version rows || is_recorded m.version (map row_of new)) ≡ true

recorded_or_pending :
    (rows : List MigrationRow) (ms new : List Migration)
    → pending rows ms ≡ new
    → All (IsCovered rows new) ms
recorded_or_pending rows [] new e = tt
recorded_or_pending rows (m ∷ ms) new e = elim (Bool-cases (is_recorded m.version rows)) [
  | inl old ↦ (rw old refl, recorded_or_pending rows ms new (rw old at e))
  | inr fresh ↦
      let e' : m ∷ pending rows ms ≡ new = rw fresh at e in
      let first : IsCovered rows (m ∷ pending rows ms) m = ground arith in
      (
        subst (λ x. IsCovered rows x m) e' first,
        All-weaken (IsCovered rows (pending rows ms)) (IsCovered rows new) ms
            (λ k h.
              let more : IsCovered rows (m ∷ pending rows ms) k = ground arith in
              subst (λ x. IsCovered rows x k) e' more)
            (recorded_or_pending rows ms (pending rows ms) refl),
      )
]

pub IsRecorded-after :
    (rows : List MigrationRow) (ms : List Migration)
    → All (λ m. is_recorded m.version (rows ++ map row_of (pending rows ms)) ≡ true) ms
IsRecorded-after rows ms =
    All-weaken (IsCovered rows (pending rows ms)) _ ms
      (λ m h.
        any-append (λ row. same row.version m.version) rows (map row_of (pending rows ms)) ∙ h)
      (recorded_or_pending rows ms (pending rows ms) refl)

module _ (env : Environment) (fs : FileSystem) {S : Type 0} (execute : String → S → Result S) where
  with_table-Upgraded :
      (ms : List Migration) (db db' : SchemaDb S)
      → Upgraded env fs execute ms db db'
      → with_table db ≡ db
      → with_table db' ≡ db'
  with_table-Upgraded [] db db' same h = rw same h
  with_table-Upgraded (m ∷ ms) db db' (sql, schema, got, ran, fresh, more) h =
      with_table-Upgraded ms (added m schema db) db' more refl

  apply_pending-idle :
      (applied : List MigrationRow) (ms : List Migration) (w : World (SchemaDb S))
      → All (λ m. is_recorded m.version applied ≡ true) ms
      → apply_pending env fs execute applied ms w ≡ (ok tt, w)
  unfolding apply_pending
  apply_pending-idle applied [] w h = refl
  apply_pending-idle applied (m ∷ ms) w h = rw h.0 (apply_pending-idle applied ms w h.1)

  abbrev pub quiet : SchemaDb S → ℕ → ℕ → World (SchemaDb S)
  quiet db next_id clock = record { db = db; schedule = []; next_id = next_id; clock = clock }

  run-idle :
      (dir_text dir : String) (ms : List Migration) (db : SchemaDb S) (n c : ℕ)
      → resolve_dir fs env dir_text ≡ ok dir
      → discover fs dir ≡ ok ms
      → All (λ m. is_recorded m.version (rows_of db.recorded) ≡ true) ms
      → with_table db ≡ db
      → run env fs execute dir_text (quiet db n c) ≡ (ok tt, quiet db n c)
  unfolding run transaction run_body statement
  run-idle dir_text dir ms db n c resolved listed old table =
      rw (resolved) (rw listed (rw (apply_pending-idle _ ms _ old) (rw table refl)))

  -- After a run of the migrations that returned no error, another one over the same files, on a
  -- database that answers, returns no error and changes nothing.
  pub run_again :
      (dir_text : String) (w : World (SchemaDb S)) (n c : ℕ)
      → (run env fs execute dir_text w).0 ≡ ok tt
      → let db = (run env fs execute dir_text w).1.db in
        run env fs execute dir_text (quiet db n c) ≡ (ok tt, quiet db n c)
  run_again dir_text w n c succeeded = elim (run_all_or_nothing env fs execute dir_text w) [
    | inl (same, (e, refused)) ↦ cc
    | inr (dir, ms, resolved, listed, ascending, upgraded, rows) ↦
        let old = rows_of w.db.recorded in
        let last = (run env fs execute dir_text w).1.db in
        run-idle dir_text dir ms last n c resolved listed (rw (← rows) at (IsRecorded-after old ms))
          (with_table-Upgraded (pending old ms) (with_table w.db) last upgraded refl)
  ]
