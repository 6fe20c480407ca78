-- ===== src/Tests/Migrations.antt =====
-- The migrations' theorems on a concrete directory.
use Prim.Native.String.{String}
use finflow.Base.{
  ◌≡◌, ◌⊎◌, select, refl, true, false, some, none, List, [], ◌∷◌, ◌++◌, str_eq, if◌then◌else◌,
}
use finflow.Base.Int.{pos}
use finflow.Go.Errors.{message, Result, ok}
use finflow.Postgres.{World, failed, success, statement, transaction}
use mathlib.Core.List.{Perm}
use finflow.Go.Strings.{trim_space, strip_suffix, cut}
use finflow.Go.Numbers.{parse_int64}
use finflow.Migrations.Files.{
  DirEntry, FileSystem, Migration, is_migration_file, parse_migration, existing_dir, discover,
}
use finflow.Migrations.Run.{SchemaDb, run}
use finflow.Migrations.Found.{AreFilesOf, IsAscending, discover_ok}
use finflow.Migrations.Upgrade.{Refused, Completed, run_all_or_nothing}
use finflow.Migrations.Again.{quiet, run_again}
use finflow.Tests.Inputs.{ascii, world}

abbrev entries : List DirEntry
entries =
    record { name = "002_outbox.up.sql"; is_dir = false }
    ∷ record { name = "001_payments.down.sql"; is_dir = false }
    ∷ record { name = "001_payments.up.sql"; is_dir = false }
    ∷ record { name = "seed"; is_dir = true }
    ∷ []

abbrev files : FileSystem
files = record {
  absolute = λ dir. ok dir;
  stat = λ dir. ok true;
  read_dir = λ dir. ok entries;
  read_file = λ path. ok (if str_eq path "/m/001_payments.up.sql" then "A" else "B");
}

abbrev execute : String → List String → Result (List String)
execute sql schema = ok (schema ++ sql ∷ [])

abbrev first_start : SchemaDb (List String)
first_start = record { recorded = none; schema = [] }

abbrev migrations : List Migration
migrations =
    record { version = pos 1; name = "001_payments"; path = "/m/001_payments.up.sql" }
    ∷ record { version = pos 2; name = "002_outbox"; path = "/m/002_outbox.up.sql" }
    ∷ []

found : discover files "/m" ≡ ok migrations
unfolding discover strip_suffix parse_migration cut parse_int64
found = refl

upgraded : (run ascii files execute "/m" (world first_start [])).1.db ≡ record {
  recorded = some (
      record { version = pos 1; name = "001_payments" }
      ∷ record { version = pos 2; name = "002_outbox" }
      ∷ []);
  schema = "A" ∷ "B" ∷ [];
}
unfolding run trim_space existing_dir strip_suffix parse_migration cut parse_int64 transaction
    statement
upgraded = refl

-- The directory's migrations, read by `Discover`.
discover_ok_example :
    (listed : List DirEntry) × (read : List Migration) × (files.read_dir "/m" ≡ ok listed)
    × AreFilesOf "/m" (select is_migration_file listed) read
    × Perm migrations read
    × IsAscending migrations
discover_ok_example = discover_ok files "/m" found

-- The commit fails: nothing is left.
run_all_or_nothing_example :
    let w = world first_start (success ∷ success ∷ success ∷ failed (message "lost") ∷ []) in
    let (r, w') = run ascii files execute "/m" w in
    Refused ascii files execute r w.db w'.db ⊎ Completed ascii files execute "/m" w.db w'.db
run_all_or_nothing_example =
    run_all_or_nothing ascii files execute "/m"
      (world first_start (success ∷ success ∷ success ∷ failed (message "lost") ∷ []))

abbrev settled : World (SchemaDb (List String))
settled = quiet ascii files execute (run ascii files execute "/m" (world first_start [])).1.db 3 9

run_succeeds : (run ascii files execute "/m" (world first_start [])).0 ≡ ok tt
unfolding run trim_space existing_dir strip_suffix parse_migration cut parse_int64 transaction
    statement
run_succeeds = refl

run_again_example : run ascii files execute "/m" settled ≡ (ok tt, settled)
run_again_example = run_again ascii files execute "/m" (world first_start []) 3 9 run_succeeds
