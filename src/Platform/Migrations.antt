-- ===== src/Platform/Migrations.antt =====
-- The migrator (server/internal/platform/db/migrate.go). The embedded files are their names and contents in
-- the order of the names, SHA-256 and the database's execution of a statement are parameters. A database
-- is its schema and the rows of schema_migrations, none before the table is there; the connection, its lock
-- and the durations are left out.
pub mod Progress
pub mod Rerun
use vybe.Base.{
  ℕ, zero, suc, ◌+◌, ◌-◌, ◌*◌, Bool, true, false, not, ◌&&◌, ◌||◌, Option, none, some, List, [],
  ◌∷◌, ◌++◌, if◌then◌else◌, ltb, leb, ◌==◌, length, take, drop, map,
}
use vybe.Base.Int.{ℤ, pos, negsuc, eqb_ℤ, leb_ℤ, ltb_ℤ, sub_ℕ}
use vybe.Base.Bytes.{bytes_eq, lookup}
use vybe.Base.Decimal.{atoi}
use vybe.Base.Json.{runes_of}
use vybe.Identity.Normal.{index_byte}
use vybe.Identity.Store.{hex_key}

pub record Migration : Type 0 where
  pub version : ℤ
  pub name : List ℕ
  pub up_sql : List ℕ
  pub down_sql : List ℕ
  pub checksum : List ℕ

-- `strings.HasSuffix`, `strings.TrimSuffix`
unfoldable pub has_suffix : List ℕ → List ℕ → Bool
has_suffix s suffix =
    leb (length suffix) (length s) && bytes_eq (drop (length s - length suffix) s) suffix

unfoldable pub trim_suffix : List ℕ → List ℕ → List ℕ
trim_suffix s suffix = if has_suffix s suffix then take (length s - length suffix) s else s

abbrev versioned : Option ℤ → List ℕ → Option (ℤ × List ℕ)
versioned none name = none
versioned (some v) name = some (v, name)

abbrev split_name : Option ℕ → List ℕ → Option (ℤ × List ℕ)
split_name none base = none
split_name (some i) base =
    if i == 0 then none else versioned (atoi (take i base)) (drop (i + 1) base)

-- `none` is an error.
unfoldable pub parse_migration_name : List ℕ → Option (ℤ × List ℕ)
parse_migration_name file_name =
    let base = trim_suffix file_name (runes_of ".up.sql") in split_name (index_byte base b'_') base

abbrev pub Files : Type 0
Files = List (List ℕ × List ℕ)

unfoldable pub up_files : Files → Files
up_files [] = []
up_files (f ∷ l) =
    let rest = up_files l in if has_suffix f.0 (runes_of ".up.sql") then f ∷ rest else rest

abbrev paired : Option (ℤ × List ℕ) → Option (List ℕ) → List ℕ → List ℕ → Option Migration
paired (some (version, name)) (some down) up checksum =
    some
      (record { version = version; name = name; up_sql = up; down_sql = down; checksum = checksum })
paired _ _ up checksum = none

abbrev joined : Option Migration → Option (List Migration) → Option (List Migration)
joined (some m) (some l) = some (m ∷ l)
joined _ _ = none

module _ (sha256 : List ℕ → List ℕ) where
  -- The loop over the up files; `none` is an error of one of them.
  unfoldable pub load_all : Files → Files → Option (List Migration)
  load_all files [] = some []
  load_all files ((name, up) ∷ l) =
      joined
        (paired (parse_migration_name name)
          (lookup (trim_suffix name (runes_of ".up.sql") ++ runes_of ".down.sql") files) up
          (hex_key (sha256 up)))
        (load_all files l)

unfoldable pub place_version : Migration → List Migration → List Migration
place_version m [] = m ∷ []
place_version m (n ∷ l) =
    let rest = place_version m l in if ltb_ℤ n.version m.version then n ∷ rest else m ∷ n ∷ l

unfoldable pub sort_versions : List Migration → List Migration
sort_versions [] = []
sort_versions (m ∷ l) = place_version m (sort_versions l)

-- The versions count on from `n`.
unfoldable pub counts_from : ℕ → List Migration → Bool
counts_from n [] = true
counts_from n (m ∷ l) =
    let rest = counts_from (n + 1) l in if eqb_ℤ m.version (pos (n + 1)) then rest else false

abbrev pub checked_versions : Option (List Migration) → Option (List Migration)
checked_versions none = none
checked_versions (some l) =
    let sorted = sort_versions l in if counts_from 0 sorted then some sorted else none

abbrev pub loaded_from : (List ℕ → List ℕ) → Files → Files → Option (List Migration)
loaded_from sha256 files [] = none
loaded_from sha256 files (f ∷ l) = checked_versions (load_all sha256 files (f ∷ l))

-- `none` is an error.
unfoldable pub load_migrations : (List ℕ → List ℕ) → Files → Option (List Migration)
load_migrations sha256 files = loaded_from sha256 files (up_files files)

pub record AppliedMigration : Type 0 where
  pub version : ℤ
  pub name : List ℕ
  pub checksum : List ℕ

abbrev pub row_of : Migration → AppliedMigration
row_of m = record { version = m.version; name = m.name; checksum = m.checksum }

-- `applied[version]`
unfoldable pub applied_at : ℤ → List AppliedMigration → Option AppliedMigration
applied_at v [] = none
applied_at v (a ∷ l) = let rest = applied_at v l in if eqb_ℤ a.version v then some a else rest

pub record Db {ℓ} (Schema : Type ℓ) : Type ℓ where
  pub schema : Schema
  pub table : Option (List AppliedMigration)

pub data MigrateError : Type 0 where
  not_loaded no_table : MigrateError
  modified apply_failed unknown_version rollback_failed : ℤ → MigrateError

abbrev differs : Option AppliedMigration → Migration → Bool
differs none m = false
differs (some a) m = not (bytes_eq a.checksum m.checksum)

-- `none` is nil.
unfoldable pub verify_checksums : List Migration → List AppliedMigration → Option MigrateError
verify_checksums [] applied = none
verify_checksums (m ∷ l) applied =
    let rest = verify_checksums l applied in
    if differs (applied_at m.version applied) m
    then some (MigrateError.modified m.version)
    else rest

abbrev pub is_there : Option AppliedMigration → Bool
is_there none = false
is_there (some a) = true

abbrev pub rows_or_none : Option (List AppliedMigration) → List AppliedMigration
rows_or_none none = []
rows_or_none (some rows) = rows

module _ {ℓ} {Schema : Type ℓ} (exec : Schema → List ℕ → Option Schema) where
  abbrev pub recorded : Db Schema → Schema → Migration → Db Schema
  recorded db s m = record { schema = s; table = some (rows_or_none db.table ++ row_of m ∷ []) }

  -- The transactions of MigrateUp, one for each migration that `applied` has not.
  unfoldable pub apply_pending :
      List AppliedMigration → List Migration → Db Schema → Db Schema × Option MigrateError
  apply_pending applied [] db = (db, none)
  apply_pending applied (m ∷ l) db = elim (is_there (applied_at m.version applied)) [
    | true ↦ apply_pending applied l db
    | false ↦ elim (exec db.schema m.up_sql) [
      | none ↦ (db, some (MigrateError.apply_failed m.version))
      | some s ↦ apply_pending applied l (recorded db s m)
    ]
  ]

  unfoldable pub apply_verified :
      Option MigrateError
      → List AppliedMigration
      → List Migration
      → Db Schema
      → Db Schema × Option MigrateError
  apply_verified (some e) applied loaded db = (db, some e)
  apply_verified none applied loaded db = apply_pending applied loaded db

  -- EnsureMigrationTable.
  abbrev pub ensured : Db Schema → Db Schema
  ensured db = record db { table = some (rows_or_none db.table) }

  unfoldable pub migrate_loaded :
      Option (List Migration) → Db Schema → Db Schema × Option MigrateError
  migrate_loaded none db = (db, some MigrateError.not_loaded)
  migrate_loaded (some loaded) db =
      let applied = rows_or_none db.table in
      apply_verified (verify_checksums loaded applied) applied loaded (ensured db)

  unfoldable pub migrate_up :
      (List ℕ → List ℕ) → Files → Db Schema → Db Schema × Option MigrateError
  migrate_up sha256 files db = migrate_loaded (load_migrations sha256 files) db

  -- The highest version applied, 0 for none.
  unfoldable pub latest : List AppliedMigration → ℤ
  latest [] = pos 0
  latest (a ∷ l) = let rest = latest l in if ltb_ℤ rest a.version then a.version else rest

  unfoldable pub with_version : ℤ → List Migration → Option Migration
  with_version v [] = none
  with_version v (m ∷ l) = let rest = with_version v l in if eqb_ℤ m.version v then some m else rest

  unfoldable pub without_version : ℤ → List AppliedMigration → List AppliedMigration
  without_version v [] = []
  without_version v (a ∷ l) =
      let rest = without_version v l in if eqb_ℤ a.version v then rest else a ∷ rest

  unfoldable pub rolled_back :
      Option Schema
      → Migration
      → List AppliedMigration
      → Db Schema
      → Db Schema × Option MigrateError
  rolled_back none m rows db = (db, some (MigrateError.rollback_failed m.version))
  rolled_back (some s) m rows db =
      (record { schema = s; table = some (without_version m.version rows) }, none)

  unfoldable pub roll_back :
      Option Migration → ℤ → List AppliedMigration → Db Schema → Db Schema × Option MigrateError
  roll_back none v rows db = (db, some (MigrateError.unknown_version v))
  roll_back (some m) v rows db = rolled_back (exec db.schema m.down_sql) m rows db

  unfoldable pub migrate_down_rows :
      Option (List AppliedMigration) → List Migration → Db Schema → Db Schema × Option MigrateError
  migrate_down_rows none loaded db = (db, some MigrateError.no_table)
  migrate_down_rows (some []) loaded db = (db, none)
  migrate_down_rows (some (a ∷ l)) loaded db =
      roll_back (with_version (latest (a ∷ l)) loaded) (latest (a ∷ l)) (a ∷ l) db

  unfoldable pub migrate_down_loaded :
      Option (List Migration) → Db Schema → Db Schema × Option MigrateError
  migrate_down_loaded none db = (db, some MigrateError.not_loaded)
  migrate_down_loaded (some loaded) db = migrate_down_rows db.table loaded db

  unfoldable pub migrate_down :
      (List ℕ → List ℕ) → Files → Db Schema → Db Schema × Option MigrateError
  migrate_down sha256 files db = migrate_down_loaded (load_migrations sha256 files) db
