-- ===== src/Migrations/Files.antt =====
-- migration.go: `ResolveDir`, `Discover` and `parseMigration` over a file system. `sort.Slice` is an
-- insertion sort here, which Go also uses for a short slice.
use Prim.Native.String.{◌++◌ as str_append}
use finflow.Base.{
  String, Bool, true, false, not, ◌||◌, Option, none, some, List, [], ◌∷◌, if◌then◌else◌,
}
use finflow.Base.Int.{ℤ}
use finflow.Go.Environment.{Environment}
use finflow.Go.Errors.{message, wrap, Result, ok, err, ◌>>=◌, map_error}
use finflow.Go.Strings.{is_empty, trim_space, strip_suffix, cut}
use finflow.Go.Numbers.{parse_int64, less}

-- An `os.DirEntry`.
pub record DirEntry : Type 0 where
  pub name : String
  pub is_dir : Bool

-- What the calls of `os` and `path/filepath` answer during a run; `stat` tells a directory.
pub record FileSystem : Type 0 where
  pub absolute : String → Result String
  pub stat : String → Result Bool
  pub read_dir : String → Result (List DirEntry)
  pub read_file : String → Result String

pub record Migration : Type 0 where
  pub version : ℤ
  pub name : String
  pub path : String

abbrev pub up_suffix : String
up_suffix = ".up.sql"

-- `fmt.Errorf("... %q", name)`, with the name as it is.
abbrev pub about_file : String → String → String
about_file text name = str_append text (str_append " " name)

-- `strings.TrimSuffix(name, ".up.sql")`
abbrev pub base_name : String → String
base_name name = elim (strip_suffix up_suffix name) [ none ↦ name | some base ↦ base ]

unfoldable pub migration_of : String → String → Option (String × String) → Result Migration
migration_of path name none = err (message (about_file "invalid migration filename" name))
migration_of path name (some (digits, rest)) = do
  version ← map_error (wrap (about_file "invalid migration version" name)) (parse_int64 digits)
  ok (record { version = version; name = base_name name; path = path })

unfoldable pub parse_migration : String → String → Result Migration
unfolding migration_of
parse_migration path name = migration_of path name (cut b'_' name)

abbrev pub is_some {ℓ} : {A : Type ℓ} → Option A → Bool
is_some none = false
is_some (some a) = true

-- The entries that the loop does not skip.
abbrev pub is_migration_file : DirEntry → Bool
is_migration_file entry = not (entry.is_dir || not (is_some (strip_suffix up_suffix entry.name)))

-- `filepath.Join(dir, name)` for a clean directory other than the root.
abbrev pub join_path : String → String → String
join_path dir name = str_append dir (str_append "/" name)

-- The loop of `Discover`.
unfoldable pub parse_entries : String → List DirEntry → Result (List Migration)
parse_entries dir [] = ok []
parse_entries dir (entry ∷ entries) =
    let rest = parse_entries dir entries in
    if is_migration_file entry
    then (parse_migration (join_path dir entry.name) entry.name >>= λ migration.
        rest >>= λ migrations. ok (migration ∷ migrations))
    else rest

unfoldable pub insert_by_version : Migration → List Migration → List Migration
insert_by_version m [] = m ∷ []
insert_by_version m (n ∷ ms) =
    if less n.version m.version then n ∷ insert_by_version m ms else m ∷ n ∷ ms

unfoldable pub sort_by_version : List Migration → List Migration
unfolding insert_by_version
sort_by_version [] = []
sort_by_version (m ∷ ms) = insert_by_version m (sort_by_version ms)

unfoldable pub checked_dir : String → Bool → Result String
checked_dir dir true = ok dir
checked_dir dir false = err (message (str_append dir " is not a directory"))

module _ (fs : FileSystem) where
  unfoldable pub existing_dir : String → Result String
  unfolding checked_dir
  existing_dir dir = do
    absolute ← map_error (wrap (about_file "resolve migrations directory" dir)) (fs.absolute dir)
    found ← fs.stat absolute
    checked_dir absolute found

  -- The loop over the candidates.
  unfoldable pub first_dir : List String → Result String
  first_dir [] = err (message "migrations directory not found")
  first_dir (dir ∷ dirs) = elim (existing_dir dir) [ ok found ↦ ok found | err e ↦ first_dir dirs ]

  abbrev pub candidates : List String
  candidates = "migrations" ∷ "../../migrations" ∷ "../../../migrations" ∷ []

  unfoldable pub resolve_dir : Environment → String → Result String
  unfolding first_dir
  resolve_dir env dir =
      if is_empty (trim_space env dir) then first_dir candidates else existing_dir dir

  unfoldable pub discover : String → Result (List Migration)
  unfolding parse_entries sort_by_version
  discover dir = do
    entries ← map_error (wrap "read migrations directory") (fs.read_dir dir)
    migrations ← parse_entries dir entries
    ok (sort_by_version migrations)
