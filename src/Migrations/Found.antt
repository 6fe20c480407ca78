-- ===== src/Migrations/Found.antt =====
-- What `Discover` of migration.go returns: the directory's migrations in ascending order.
use mathlib.Core.List.{Perm}
use mathlib.Core.List.Perm
use finflow.Base.{
  ◌≡◌, refl, ◌≤◌, ◌+◌, String, Bool, Option, none, some, List, [], ◌∷◌, select, select-All, All,
  inl, inr, Bool-cases, arith,
}
use finflow.Base.Int.{ℤ, pos_part, neg_part}
use finflow.Go.Errors.{wrap, ok, ◌>>=◌, map_error, ok_of_map_error, ok_of_chain}
use finflow.Go.Strings.{cut}
use finflow.Go.Numbers.{less, parse_int64}
use finflow.Migrations.Files.{
  DirEntry, FileSystem, Migration, about_file, base_name, is_migration_file, join_path,
  migration_of, parse_migration, parse_entries, insert_by_version, sort_by_version, discover,
}

abbrev pub AtMost : ℤ → ℤ → Type 0
AtMost a b = pos_part a + neg_part b ≤ pos_part b + neg_part a

-- Each version is at most those that follow.
abbrev pub IsAscending : List Migration → Type 0
IsAscending [] = Unit
IsAscending (m ∷ ms) = All (λ n. AtMost m.version n.version) ms × IsAscending ms

insert_by_version-All :
    (P : Migration → Type 0) (m : Migration) (ms : List Migration)
    → P m
    → All P ms
    → All P (insert_by_version m ms)
unfolding insert_by_version
insert_by_version-All P m [] h hs = (h, tt)
insert_by_version-All P m (n ∷ ms) h hs = elim (Bool-cases (less n.version m.version)) [
  | inl before ↦ rw before (hs.0, insert_by_version-All P m ms h hs.1)
  | inr after ↦ rw after (h, hs)
]

AtMost-All :
    (m n : Migration) (ms : List Migration)
    → AtMost m.version n.version
    → All (λ k. AtMost n.version k.version) ms
    → All (λ k. AtMost m.version k.version) ms
AtMost-All m n [] h hs = tt
AtMost-All m n (k ∷ ms) h hs = (omega arith, AtMost-All m n ms h hs.1)

insert_by_version-IsAscending :
    (m : Migration) (ms : List Migration) → IsAscending ms → IsAscending (insert_by_version m ms)
unfolding insert_by_version
insert_by_version-IsAscending m [] h = (tt, tt)
insert_by_version-IsAscending m (n ∷ ms) h = elim (Bool-cases (less n.version m.version)) [
  | inl before ↦
      let smaller : AtMost n.version m.version = ground arith in
      rw before (
        insert_by_version-All (λ k. AtMost n.version k.version) m ms smaller h.0,
        insert_by_version-IsAscending m ms h.1,
      )
  | inr after ↦
      let smaller : AtMost m.version n.version = ground arith in
      rw after ((smaller, AtMost-All m n ms smaller h.0), h)
]

pub select-IsAscending :
    (p : Migration → Bool) (ms : List Migration) → IsAscending ms → IsAscending (select p ms)
select-IsAscending p [] h = tt
select-IsAscending p (m ∷ ms) h = elim (Bool-cases (p m)) [
  | inl kept ↦
      let above = select-All (λ n. AtMost m.version n.version) p ms h.0 in
      rw kept (above, select-IsAscending p ms h.1)
  | inr dropped ↦ rw dropped (select-IsAscending p ms h.1)
]

insert_by_version-perm :
    (m : Migration) (ms : List Migration) → Perm (insert_by_version m ms) (m ∷ ms)
unfolding insert_by_version
insert_by_version-perm m [] = Perm.rfl
insert_by_version-perm m (n ∷ ms) = elim (Bool-cases (less n.version m.version)) [
  | inl before ↦
      rw before (Perm.trans (Perm.cons n (insert_by_version-perm m ms)) (Perm.swap m n ms))
  | inr after ↦ rw after Perm.rfl
]

sort_by_version-IsAscending : (ms : List Migration) → IsAscending (sort_by_version ms)
unfolding sort_by_version
sort_by_version-IsAscending [] = tt
sort_by_version-IsAscending (m ∷ ms) =
    insert_by_version-IsAscending m (sort_by_version ms) (sort_by_version-IsAscending ms)

sort_by_version-perm : (ms : List Migration) → Perm (sort_by_version ms) ms
unfolding sort_by_version
sort_by_version-perm [] = Perm.rfl
sort_by_version-perm (m ∷ ms) =
    Perm.trans (insert_by_version-perm m (sort_by_version ms))
      (Perm.cons m (sort_by_version-perm ms))

-- The migration of one file: its version is the number before the first underscore.
abbrev pub IsFileOf : String → DirEntry → Migration → Type 0
IsFileOf dir entry m =
    (digits : String) × (rest : String) × (cut b'_' entry.name ≡ some (digits, rest))
    × (parse_int64 digits ≡ ok m.version)
    × (m.name ≡ base_name entry.name)
    × (m.path ≡ join_path dir entry.name)

-- One migration for each file, in the files' order.
abbrev pub AreFilesOf : String → List DirEntry → List Migration → Type 0
AreFilesOf dir [] ms = ms ≡ []
AreFilesOf dir (entry ∷ entries) ms =
    (m : Migration) × (rest : List Migration) × (ms ≡ m ∷ rest)
    × IsFileOf dir entry m
    × AreFilesOf dir entries rest

migration_of_ok :
    (path name : String) (parts : Option (String × String)) {m : Migration}
    → migration_of path name parts ≡ ok m
    → (digits : String) × (rest : String) × (parts ≡ some (digits, rest))
      × (parse_int64 digits ≡ ok m.version)
      × (m.name ≡ base_name name)
      × (m.path ≡ path)
unfolding migration_of
migration_of_ok path name none h = cc
migration_of_ok path name (some (digits, rest)) {m} h =
    let context = wrap (about_file "invalid migration version" name) in
    let (version, read, same) =
      ok_of_chain (map_error context (parse_int64 digits))
        (λ version. ok (record { version = version; name = base_name name; path = path })) h in
    let parsed = ok_of_map_error context (parse_int64 digits) read in
    (digits, rest, refl, ground arith, ground arith, ground arith)

parse_entries_ok :
    (dir : String) (entries : List DirEntry) {ms : List Migration}
    → parse_entries dir entries ≡ ok ms
    → AreFilesOf dir (select is_migration_file entries) ms
unfolding parse_entries parse_migration
parse_entries_ok dir [] h = ground arith
parse_entries_ok dir (entry ∷ entries) {ms} h = elim (Bool-cases (is_migration_file entry)) [
  | inr skipped ↦ rw skipped (parse_entries_ok dir entries (rw skipped at h))
  | inl taken ↦
      let path = join_path dir entry.name in
      let (m, parsed, h1) =
        ok_of_chain (parse_migration path entry.name)
          (λ m. parse_entries dir entries >>= λ rest. ok (m ∷ rest)) (rw taken at h) in
      let (rest, more, same) = ok_of_chain (parse_entries dir entries) (λ rest. ok (m ∷ rest)) h1 in
      rw taken (
        m,
        rest,
        ground arith,
        migration_of_ok path entry.name (cut b'_' entry.name) parsed,
        parse_entries_ok dir entries more,
      )
]

-- What Discover returns is in ascending order of the versions and is, up to the order, one
-- migration for each file of the directory that ends in .up.sql, whose version is the number before
-- the first underscore of its name.
pub discover_ok :
    (fs : FileSystem) (dir : String) {ms : List Migration}
    → discover fs dir ≡ ok ms
    → (entries : List DirEntry) × (found : List Migration) × (fs.read_dir dir ≡ ok entries)
      × AreFilesOf dir (select is_migration_file entries) found
      × Perm ms found
      × IsAscending ms
unfolding discover
discover_ok fs dir {ms} h =
    let context = wrap "read migrations directory" in
    let (entries, read, h1) =
      ok_of_chain (map_error context (fs.read_dir dir))
        (λ entries. parse_entries dir entries >>= λ found. ok (sort_by_version found)) h in
    let (found, parsed, same) =
      ok_of_chain (parse_entries dir entries) (λ found. ok (sort_by_version found)) h1 in
    let e : ms ≡ sort_by_version found = ground arith in
    (
      entries,
      found,
      ok_of_map_error context (fs.read_dir dir) read,
      parse_entries_ok dir entries parsed,
      rw e (sort_by_version-perm found),
      rw e (sort_by_version-IsAscending found),
    )
