-- ===== src/Platform/Migrations/Rerun.antt =====
-- A run of the migrator after a run that succeeded (server/internal/platform/db/migrate.go).
use vybe.Base.{
  ℕ, ◌≡◌, refl, sym, ap, subst, ◌∙◌, Option, none, some, List, [], ◌∷◌, ◌++◌, arith, Bool-cases,
  inl, inr, ◌⊎◌,
}
use vybe.Base.Int.{ℤ}
use vybe.Platform.Migrations.{
  Migration, AppliedMigration, row_of, Db, MigrateError, Files, rows_or_none, load_migrations,
  loaded_from, load_all, up_files, checked_versions, sort_versions, counts_from, migrate_loaded,
  migrate_up,
}
use vybe.Platform.Migrations.Progress.{
  IsNumbered, counts_from-IsNumbered, rows_of, append_nil, IsProgress, IsStuck, run,
  migrate_loaded-IsProgress,
}

list_or : List Migration → Option (List Migration) → List Migration
list_or d none = d
list_or d (some l) = l

checked_versions-IsNumbered :
    (o : Option (List Migration)) (l : List Migration)
    → checked_versions o ≡ some l
    → IsNumbered 0 l
unfolding list_or
checked_versions-IsNumbered none l h = absurd cc
checked_versions-IsNumbered (some k) l h = elim (Bool-cases (counts_from 0 (sort_versions k))) [
  | inl good ↦
      let now : some (sort_versions k) ≡ some l = sym (rw good refl) ∙ h in
      let e : sort_versions k ≡ l = ap (list_or l) now in
      rw (sym e) (counts_from-IsNumbered 0 (sort_versions k) good)
  | inr bad ↦ absurd (ground (arith, bad, h))
]

loaded_from-IsNumbered :
    (sha256 : List ℕ → List ℕ) (files up : Files) (l : List Migration)
    → loaded_from sha256 files up ≡ some l
    → IsNumbered 0 l
loaded_from-IsNumbered sha256 files [] l h = absurd cc
loaded_from-IsNumbered sha256 files (f ∷ up) l h =
    checked_versions-IsNumbered (load_all sha256 files (f ∷ up)) l h

-- The migrations that are loaded are numbered from 1 without a gap.
pub load_migrations-IsNumbered :
    (sha256 : List ℕ → List ℕ) (files : Files) (l : List Migration)
    → load_migrations sha256 files ≡ some l
    → IsNumbered 0 l
unfolding load_migrations
load_migrations-IsNumbered sha256 files l h =
    loaded_from-IsNumbered sha256 files (up_files files) l h

module _ {Schema : Type 0} (exec : Schema → List ℕ → Option Schema) where
  end_of_list : {A : Type 0} (l a : List A) → a ≡ [] → l ++ a ≡ l
  end_of_list l a e = rw e (append_nil l)

  finished :
      (db after : Db Schema) (post : List Migration)
      → IsProgress exec db post after none
      → (run exec post db.schema ≡ some after.schema)
        × (after.table ≡ some (rows_or_none db.table ++ rows_of post))
  finished db after post p = elim p.stopped [
    | inl (ok, over) ↦
        let all : p.ran ≡ post = sym (p.split ∙ end_of_list p.ran p.left over) in
        (
          subst (λ l. run exec l db.schema ≡ some after.schema) all p.schema,
          subst (λ l. after.table ≡ some (rows_or_none db.table ++ rows_of l)) all p.table,
        )
    | inr (v, failed, stuck) ↦ absurd cc
  ]

  schema_or : Schema → Option Schema → Schema
  schema_or d none = d
  schema_or d (some s) = s

  rows_or_some :
      (db after : Db Schema) → (db.schema ≡ after.schema) → db.table ≡ after.table → after ≡ db
  rows_or_some db after s t = record_eq db.schema after.schema db.table after.table s t
    where
      record_eq :
          (a b : Schema) (x y : Option (List AppliedMigration))
          → a ≡ b
          → x ≡ y
          → (let u : Db Schema = record { schema = b; table = y } in
              let w : Db Schema = record { schema = a; table = x } in u ≡ w)
      record_eq a b x y e f = rw (e, f) refl

  nothing_pending :
      (db after : Db Schema) (e : Option MigrateError) (ran left : List Migration)
      (rows : List AppliedMigration)
      → db.table ≡ some rows
      → [] ≡ ran ++ left
      → run exec ran db.schema ≡ some after.schema
      → after.table ≡ some (rows_or_none db.table ++ rows_of ran)
      → ((e ≡ none) × (left ≡ []))
        ⊎ ((v : ℤ) × (e ≡ some (MigrateError.apply_failed v)) × IsStuck exec after.schema left)
      → (after ≡ db) × (e ≡ none)
  unfolding run schema_or
  nothing_pending db after e [] [] rows there split schema table (inl (ok, over)) = (
    rows_or_some db after (ap (schema_or db.schema) schema) (
        there
        ∙ ap some (sym (append_nil rows) ∙ ap (λ t. rows_or_none t ++ []) (sym there))
        ∙ sym table),
    ok,
  )
  nothing_pending db after e [] [] rows there split schema table (inr (v, failed, stuck)) =
      absurd stuck
  nothing_pending db after e [] (m ∷ left) rows there split schema table stopped = absurd cc
  nothing_pending db after e (m ∷ ran) left rows there split schema table stopped = absurd cc

  migrate_loaded-again :
      (loaded : List Migration) (db : Db Schema)
      → IsNumbered 0 loaded
      → db.table ≡ some (rows_of loaded)
      → ((migrate_loaded exec (some loaded) db).0 ≡ db)
        × ((migrate_loaded exec (some loaded) db).1 ≡ none)
  migrate_loaded-again loaded db v there =
      let whole = append_nil loaded in
      let p =
        subst
          (λ l.
            IsProgress exec db [] (migrate_loaded exec (some l) db).0
              (migrate_loaded exec (some l) db).1)
          whole
          (migrate_loaded-IsProgress exec loaded [] db (subst (IsNumbered 0) (sym whole) v)
            (ap rows_or_none there)) in
      nothing_pending db _ _ p.ran p.left (rows_of loaded) there p.split p.schema p.table p.stopped

  -- On a database that has applied the first of the migrations that are loaded, a run of MigrateUp without
  -- an error leaves them all applied, each with its row, and a second run changes nothing and has no error.
  pub migrate_up-twice :
      (sha256 : List ℕ → List ℕ) (files : Files) (pre post : List Migration) (db : Db Schema)
      → load_migrations sha256 files ≡ some (pre ++ post)
      → rows_or_none db.table ≡ rows_of pre
      → (migrate_up exec sha256 files db).1 ≡ none
      → let after = (migrate_up exec sha256 files db).0 in
        (run exec post db.schema ≡ some after.schema)
        × (after.table ≡ some (rows_of pre ++ rows_of post))
        × ((migrate_up exec sha256 files after).0 ≡ after)
        × ((migrate_up exec sha256 files after).1 ≡ none)
  unfolding migrate_up
  migrate_up-twice sha256 files pre post db loaded old ok =
      let numbered = load_migrations-IsNumbered sha256 files (pre ++ post) loaded in
      let r = migrate_loaded exec (some (pre ++ post)) db in
      let same : migrate_loaded exec (load_migrations sha256 files) db ≡ r =
        ap (λ o. migrate_loaded exec o db) loaded in
      let p = migrate_loaded-IsProgress exec pre post db numbered old in
      let ends : r.1 ≡ none = ap (λ a. a.1) (sym same) ∙ ok in
      let done = finished db r.0 post (subst (λ e. IsProgress exec db post r.0 e) ends p) in
      let table : r.0.table ≡ some (rows_of pre ++ rows_of post) =
        done.1 ∙ ap (λ x. some (x ++ rows_of post)) old in
      let again =
        migrate_loaded-again (pre ++ post) r.0 numbered (table ∙ ap some (map_append pre post)) in
      rw (loaded) (done.0, table, again.0, again.1)
    where
      map_append : (a b : List Migration) → rows_of a ++ rows_of b ≡ rows_of (a ++ b)
      map_append [] b = refl
      map_append (m ∷ a) b = ap (◌∷◌ (row_of m)) (map_append a b)
