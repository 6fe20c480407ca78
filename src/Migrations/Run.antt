-- ===== src/Migrations/Run.antt =====
-- migration.go: `Run`. PostgreSQL's work on a migration's script is a parameter, and a script leaves
-- the table schema_migrations alone.
use finflow.Base.{ℕ, String, Bool, Option, none, some, List, [], ◌∷◌, ◌++◌, any, if◌then◌else◌}
use finflow.Base.Int.{ℤ}
use Prim.Native.String.{◌++◌ as str_append}
use finflow.Go.Environment.{Environment}
use finflow.Go.Errors.{Error, message, wrap, Result, ok, err, map_error}
use finflow.Go.Strings.{is_empty, trim_space}
use finflow.Go.Numbers.{same}
use finflow.Postgres.{Action, pure, lift, ◌>>=◌, statement, transaction}
use finflow.Migrations.Files.{FileSystem, Migration, resolve_dir, discover}

-- A row of schema_migrations; no code reads the column applied_at again.
pub record MigrationRow : Type 0 where
  pub version : ℤ
  pub name : String

-- `recorded` is the table schema_migrations, `none` before it exists; `schema` is the rest.
pub record SchemaDb (S : Type 0) : Type 0 where
  pub recorded : Option (List MigrationRow)
  pub schema : S

abbrev pub rows_of : Option (List MigrationRow) → List MigrationRow
rows_of none = []
rows_of (some rows) = rows

-- `applied[version]`
abbrev pub is_recorded : ℤ → List MigrationRow → Bool
is_recorded version rows = any (λ row. same row.version version) rows

abbrev pub row_of : Migration → MigrationRow
row_of m = record { version = m.version; name = m.name }

abbrev pub about_migration : String → Migration → Error → Error
about_migration verb m = wrap (str_append verb (str_append " migration " m.name))

module _ {S : Type 0} where
  -- CREATE TABLE IF NOT EXISTS
  abbrev pub with_table : SchemaDb S → SchemaDb S
  with_table db = record db { recorded = some (rows_of db.recorded) }

  abbrev pub ensure_table_query : ℕ → SchemaDb S → Result (Unit {0} × SchemaDb S)
  ensure_table_query now db = ok (tt, with_table db)

  -- pg_advisory_xact_lock
  abbrev pub lock_query : ℕ → SchemaDb S → Result (Unit {0} × SchemaDb S)
  lock_query now db = ok (tt, db)

  abbrev pub versions_query : ℕ → SchemaDb S → Result (List MigrationRow × SchemaDb S)
  versions_query now db = ok (rows_of db.recorded, db)

  -- INSERT, with the primary key on the version.
  unfoldable pub record_query : Migration → ℕ → SchemaDb S → Result (Unit {0} × SchemaDb S)
  record_query m now db =
      if is_recorded m.version (rows_of db.recorded)
      then err (message "duplicate key value violates unique constraint")
      else ok (tt, record db { recorded = some (rows_of db.recorded ++ row_of m ∷ []) })

  abbrev pub with_schema : SchemaDb S → Result S → Result (Unit {0} × SchemaDb S)
  with_schema db (ok schema) = ok (tt, record db { schema = schema })
  with_schema db (err e) = err e

  abbrev pub script_query :
      (String → S → Result S) → String → ℕ → SchemaDb S → Result (Unit {0} × SchemaDb S)
  script_query execute sql now db = with_schema db (execute sql db.schema)

module _ (env : Environment) (fs : FileSystem) {S : Type 0} (execute : String → S → Result S) where
  -- `if strings.TrimSpace(sql) != ""`
  unfoldable pub run_script : Migration → String → Action (SchemaDb S) (Unit {0})
  run_script m sql =
      if is_empty (trim_space env sql)
      then pure tt
      else statement (about_migration "apply" m) (script_query execute sql)

  unfoldable pub apply_migration : Migration → Action (SchemaDb S) (Unit {0})
  unfolding run_script record_query
  apply_migration m = do
    sql ← lift (map_error (about_migration "read" m) (fs.read_file m.path))
    done ← run_script m sql
    statement (about_migration "record" m) (record_query m)

  -- The loop, over the versions read at its start.
  unfoldable pub apply_pending : List MigrationRow → List Migration → Action (SchemaDb S) (Unit {0})
  unfolding apply_migration
  apply_pending applied [] = pure tt
  apply_pending applied (m ∷ ms) =
      let rest = apply_pending applied ms in
      if is_recorded m.version applied then rest else (apply_migration m >>= λ done. rest)

  unfoldable pub run_body : List Migration → Action (SchemaDb S) (Unit {0} × String)
  unfolding apply_pending
  run_body migrations = do
    ensured ← statement (wrap "ensure schema_migrations table") ensure_table_query
    locked ← statement (wrap "acquire migration lock") lock_query
    applied ← statement (wrap "read applied migrations") versions_query
    done ← apply_pending applied migrations
    pure (tt, "commit migration transaction")

  unfoldable pub run : String → Action (SchemaDb S) (Unit {0})
  unfolding resolve_dir discover run_body
  run dir_text = do
    dir ← lift (resolve_dir fs env dir_text)
    migrations ← lift (discover fs dir)
    transaction "begin migration transaction" (run_body migrations)
