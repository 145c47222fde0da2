-- ===== src/Tests/Migrations.antt =====
-- Two migrations, the first of them applied (server/internal/platform/db/migrate.go).
use vybe.Base.{ℕ, ◌≡◌, refl, Option, some, none, List, [], ◌∷◌, ◌++◌}
use vybe.Base.Int.{pos}
use vybe.Base.Bytes.{lookup, bytes_eq}
use vybe.Base.Decimal.{digits_from, atoi}
use vybe.Base.Json.{runes_of}
use vybe.Identity.Normal.{index_byte}
use vybe.Identity.Store.{hex_key, hex_digit}
use vybe.Platform.Migrations.{
  Migration, Db, Files, has_suffix, trim_suffix, parse_migration_name, up_files, load_all,
  place_version, sort_versions, counts_from, load_migrations, applied_at, verify_checksums,
  apply_pending, apply_verified, migrate_loaded, migrate_up,
}
use vybe.Platform.Migrations.Progress.{rows_of, run}
use vybe.Platform.Migrations.Rerun.{migrate_up-twice}

abbrev files : Files
files =
    (runes_of "0001_a.down.sql", 9 ∷ [])
    ∷ (runes_of "0001_a.up.sql", 1 ∷ [])
    ∷ (runes_of "0002_b.down.sql", [])
    ∷ (runes_of "0002_b.up.sql", 2 ∷ [])
    ∷ []

abbrev digest : List ℕ → List ℕ
digest l = l

-- A schema is what has been executed.
abbrev exec : List ℕ → List ℕ → Option (List ℕ)
exec schema sql = some (schema ++ sql)

abbrev first : Migration
first = record {
  version = pos 1;
  name = 97 ∷ [];
  up_sql = 1 ∷ [];
  down_sql = 9 ∷ [];
  checksum = 48 ∷ 49 ∷ [];
}

abbrev second : Migration
second = record {
  version = pos 2;
  name = 98 ∷ [];
  up_sql = 2 ∷ [];
  down_sql = [];
  checksum = 48 ∷ 50 ∷ [];
}

abbrev database : Db (List ℕ)
database = record { schema = 1 ∷ []; table = some (rows_of (first ∷ [])) }

migrate_up-twice_example :
    let after = (migrate_up exec digest files database).0 in
    (run exec (second ∷ []) (1 ∷ []) ≡ some after.schema)
    × (after.table ≡ some (rows_of (first ∷ []) ++ rows_of (second ∷ [])))
    × ((migrate_up exec digest files after).0 ≡ after)
    × ((migrate_up exec digest files after).1 ≡ none)
unfolding load_migrations up_files has_suffix trim_suffix load_all parse_migration_name index_byte
    atoi digits_from place_version sort_versions counts_from lookup bytes_eq hex_key hex_digit
    runes_of migrate_up migrate_loaded apply_verified verify_checksums apply_pending applied_at
migrate_up-twice_example =
    migrate_up-twice exec digest files (first ∷ []) (second ∷ []) database refl refl refl
