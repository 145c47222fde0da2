-- ===== src/Platform/Migrations/Progress.antt =====
-- How far a run of the migrator gets (server/internal/platform/db/migrate.go).
use vybe.Base.{
  ℕ, suc, ◌+◌, ◌≤◌, ◌<◌, ◌≡◌, refl, sym, ap, subst, ◌∙◌, true, false, Option, none, some, List, [],
  ◌∷◌, ◌++◌, arith, Bool-cases, Option-cases, inl, inr, ◌⊎◌, length, map, All,
}
use vybe.Base.Int.{ℤ, pos, eqb_ℤ, eq_of_parts}
use vybe.Base.Bytes.{bytes_eq_refl}
use vybe.Platform.Migrations.{
  Migration, AppliedMigration, row_of, applied_at, counts_from, verify_checksums, Db, MigrateError,
  rows_or_none, recorded, ensured, apply_pending, apply_verified, migrate_loaded,
}

-- The versions count on from `n`.
abbrev pub IsNumbered : ℕ → List Migration → Type 0
IsNumbered n [] = Unit
IsNumbered n (m ∷ l) = (m.version ≡ pos (n + 1)) × IsNumbered (n + 1) l

pub counts_from-IsNumbered : (n : ℕ) (l : List Migration) → counts_from n l ≡ true → IsNumbered n l
unfolding counts_from
counts_from-IsNumbered n [] h = tt
counts_from-IsNumbered n (m ∷ l) h = elim (Bool-cases (eqb_ℤ m.version (pos (n + 1)))) [
  | inl same ↦ (
    ground (arith, same, eq_of_parts m.version (pos (n + 1))),
    counts_from-IsNumbered (n + 1) l (ground (arith, same, h)),
  )
  | inr other ↦ absurd (ground (arith, other, h))
]

abbrev pub rows_of : List Migration → List AppliedMigration
rows_of = map row_of

-- No row is beyond the versions of the migrations.
applied_at-beyond :
    (n k : ℕ) (l : List Migration)
    → IsNumbered n l
    → n + length l < k
    → applied_at (pos k) (rows_of l) ≡ none
unfolding applied_at
applied_at-beyond n k [] v h = refl
applied_at-beyond n k (m ∷ l) v h =
    let other : eqb_ℤ m.version (pos k) ≡ false = ground (arith, v.0, h) in
    rw other (applied_at-beyond (n + 1) k l v.1 (ground (arith, h)))

applied_at-own :
    (n : ℕ) (pre : List Migration) (m : Migration) (l : List Migration)
    → IsNumbered n (pre ++ m ∷ l)
    → applied_at m.version (rows_of (pre ++ m ∷ l)) ≡ some (row_of m)
unfolding applied_at
applied_at-own n [] m l v =
    let same : eqb_ℤ m.version m.version ≡ true = ground arith in rw same refl
applied_at-own n (p ∷ pre) m l v = elim (Bool-cases (eqb_ℤ p.version m.version)) [
  | inl same ↦ absurd (later (numbered-later (n + 1) pre m l v.1) same)
  | inr other ↦ rw other (applied_at-own (n + 1) pre m l v.1)
]
  where
    numbered-later :
        (k : ℕ) (q : List Migration) (x : Migration) (r : List Migration)
        → IsNumbered k (q ++ x ∷ r)
        → (j : ℕ) × (x.version ≡ pos (k + 1 + j))
    numbered-later k [] x r w = (0, w.0 ∙ ap pos (omega arith))
    numbered-later k (y ∷ q) x r w =
        let (j, e) = numbered-later (k + 1) q x r w.1 in (suc j, e ∙ ap pos (omega arith))

    later : ((j : ℕ) × (m.version ≡ pos (n + 1 + 1 + j))) → eqb_ℤ p.version m.version ≡ true → ⊥
    later (j, e) same = absurd (ground (arith, v.0, e, same))

append_assoc : {A : Type 0} (a b c : List A) → (a ++ b) ++ c ≡ a ++ (b ++ c)
append_assoc [] b c = refl
append_assoc (x ∷ a) b c = ap (◌∷◌ x) (append_assoc a b c)

pub append_nil : {A : Type 0} (a : List A) → a ++ [] ≡ a
append_nil [] = refl
append_nil (x ∷ a) = ap (◌∷◌ x) (append_nil a)

IsNumbered-append :
    (n : ℕ) (pre post : List Migration)
    → IsNumbered n (pre ++ post)
    → IsNumbered n pre × ((k : ℕ) × (k ≡ n + length pre) × IsNumbered k post)
IsNumbered-append n [] post v = (tt, (n, omega arith, v))
IsNumbered-append n (p ∷ pre) post v =
    let (front, rest) = IsNumbered-append (n + 1) pre post v.1 in
    let (k, e, back) = rest in ((v.0, front), (k, omega (arith, e), back))

-- The migration is not applied, or applied as it is.
abbrev IsKnown : List AppliedMigration → Migration → Type 0
IsKnown rows m = (applied_at m.version rows ≡ none) ⊎ (applied_at m.version rows ≡ some (row_of m))

own-All :
    (n : ℕ) (before l : List Migration)
    → IsNumbered n (before ++ l)
    → All (λ m. applied_at m.version (rows_of (before ++ l)) ≡ some (row_of m)) l
own-All n before [] v = tt
own-All n before (m ∷ l) v =
    let same : (before ++ m ∷ []) ++ l ≡ before ++ m ∷ l = append_assoc before (m ∷ []) l in
    let rest = own-All n (before ++ m ∷ []) l (rw same v) in
    (
      applied_at-own n before m l v,
      subst (λ x. All (λ q. applied_at q.version (rows_of x) ≡ some (row_of q)) l) same rest,
    )

beyond-All :
    (k : ℕ) (pre post : List Migration)
    → IsNumbered 0 pre
    → IsNumbered k post
    → length pre ≤ k
    → All (λ m. applied_at m.version (rows_of pre) ≡ none) post
beyond-All k pre [] v w h = tt
beyond-All k pre (m ∷ l) v w h = (
  ap (λ x. applied_at x (rows_of pre)) w.0 ∙ applied_at-beyond 0 (k + 1) pre v (ground (arith, h)),
  beyond-All (k + 1) pre l v w.1 (ground (arith, h)),
)

verified :
    (rows : List AppliedMigration) (l : List Migration)
    → All (IsKnown rows) l
    → verify_checksums l rows ≡ none
unfolding verify_checksums
verified rows [] a = refl
verified rows (m ∷ l) (inl new, a) = rw new (verified rows l a)
verified rows (m ∷ l) (inr old, a) = rw old (rw (bytes_eq_refl m.checksum) (verified rows l a))

IsKnown-old :
    (rows : List AppliedMigration) (l : List Migration)
    → All (λ m. applied_at m.version rows ≡ some (row_of m)) l
    → All (IsKnown rows) l
IsKnown-old rows [] a = tt
IsKnown-old rows (m ∷ l) a = (inr a.0, IsKnown-old rows l a.1)

IsKnown-new :
    (rows : List AppliedMigration) (l : List Migration)
    → All (λ m. applied_at m.version rows ≡ none) l
    → All (IsKnown rows) l
IsKnown-new rows [] a = tt
IsKnown-new rows (m ∷ l) a = (inl a.0, IsKnown-new rows l a.1)

All-append : (P : Migration → Type 0) (a b : List Migration) → All P a → All P b → All P (a ++ b)
All-append P [] b x y = y
All-append P (m ∷ a) b x y = (x.0, All-append P a b x.1 y)

module _ {Schema : Type 0} (exec : Schema → List ℕ → Option Schema) where
  -- The statements of some migrations, one after the other.
  unfoldable pub run : List Migration → Schema → Option Schema
  run [] s = some s
  run (m ∷ l) s = elim (exec s m.up_sql) [ none ↦ none | some t ↦ run l t ]

  -- The statement of the first of some migrations is refused.
  abbrev pub IsStuck : Schema → List Migration → Type 0
  IsStuck s [] = ⊥
  IsStuck s (m ∷ l) = exec s m.up_sql ≡ none

  -- A run went through `ran` and stopped before `left`: at the end, or at a statement that failed.
  pub record IsProgress (db : Db Schema) (pending : List Migration) (after : Db Schema)
      (e : Option MigrateError) : Type 0 where
    pub ran : List Migration
    pub left : List Migration
    pub split : pending ≡ ran ++ left
    pub schema : run ran db.schema ≡ some after.schema
    pub table : after.table ≡ some (rows_or_none db.table ++ rows_of ran)
    pub stopped :
        ((e ≡ none) × (left ≡ []))
        ⊎ ((v : ℤ) × (e ≡ some (MigrateError.apply_failed v)) × IsStuck after.schema left)

  apply_pending-skips :
      (rows : List AppliedMigration) (pre post : List Migration) (db : Db Schema)
      → All (λ m. applied_at m.version rows ≡ some (row_of m)) pre
      → apply_pending exec rows (pre ++ post) db ≡ apply_pending exec rows post db
  unfolding apply_pending
  apply_pending-skips rows [] post db a = refl
  apply_pending-skips rows (m ∷ pre) post db a =
      rw (a.0, apply_pending) (apply_pending-skips rows pre post db a.1)

  apply_pending-IsProgress :
      (rows : List AppliedMigration) (post : List Migration) (db : Db Schema)
      (now : List AppliedMigration)
      → db.table ≡ some now
      → All (λ m. applied_at m.version rows ≡ none) post
      → IsProgress db post (apply_pending exec rows post db).0 (apply_pending exec rows post db).1
  unfolding apply_pending run
  apply_pending-IsProgress rows [] db now there a = record {
    ran = [];
    left = [];
    split = refl;
    schema = refl;
    table = there ∙ ap some (sym (append_nil now) ∙ ap (λ t. rows_or_none t ++ []) (sym there));
    stopped = inl (refl, refl);
  }
  apply_pending-IsProgress rows (m ∷ l) db now there a =
      elim (Option-cases (exec db.schema m.up_sql)) [
        | inl bad ↦
            rw (a.0, bad, apply_pending)
              record {
                ran = [];
                left = m ∷ l;
                split = refl;
                schema = refl;
                table =
                    there
                    ∙ ap some (sym (append_nil now) ∙ ap (λ t. rows_or_none t ++ []) (sym there));
                stopped = inr (m.version, refl, bad);
              }
        | inr (s, ok) ↦
            let next = recorded exec db s m in
            let rest =
              apply_pending-IsProgress rows l next (rows_or_none db.table ++ row_of m ∷ []) refl
                a.1 in
            rw (a.0, ok, apply_pending)
              record {
                ran = m ∷ rest.ran;
                left = rest.left;
                split = ap (◌∷◌ m) rest.split;
                schema = rw (ok, run) rest.schema;
                table =
                    rest.table
                    ∙ ap some
                        (append_assoc (rows_or_none db.table) (row_of m ∷ []) (rows_of rest.ran));
                stopped = rest.stopped;
              }
      ]

  -- On a database that has applied the first of the migrations and nothing else, MigrateUp runs the others in
  -- order, each with its row, up to the end or to the first whose statement fails: that one and those after
  -- it leave no trace.
  pub migrate_loaded-IsProgress :
      (pre post : List Migration) (db : Db Schema)
      → IsNumbered 0 (pre ++ post)
      → rows_or_none db.table ≡ rows_of pre
      → IsProgress db post
          (migrate_loaded exec (some (pre ++ post)) db).0
          (migrate_loaded exec (some (pre ++ post)) db).1
  unfolding migrate_loaded apply_verified
  migrate_loaded-IsProgress pre post db v old =
      let (front, rest) = IsNumbered-append 0 pre post v in
      let (k, e, back) = rest in
      let rows = rows_or_none db.table in
      let mine =
        subst (λ r. All (λ m. applied_at m.version r ≡ some (row_of m)) pre) (sym old)
          (own-All 0 [] pre front) in
      let new =
        subst (λ r. All (λ m. applied_at m.version r ≡ none) post) (sym old)
          (beyond-All k pre post front back (ground (arith, e))) in
      let known =
        All-append (IsKnown rows) pre post (IsKnown-old rows pre mine)
          (IsKnown-new rows post new) in
      let skipped = apply_pending-skips rows pre post (ensured exec db) mine in
      let progress = apply_pending-IsProgress rows post (ensured exec db) rows refl new in
      let answer : migrate_loaded exec (some (pre ++ post)) db
          ≡ apply_pending exec rows post (ensured exec db) =
        rw (verified rows (pre ++ post) known) skipped in
      let kept : IsProgress db post (apply_pending exec rows post (ensured exec db)).0
          (apply_pending exec rows post (ensured exec db)).1 =
        record {
          ran = progress.ran;
          left = progress.left;
          split = progress.split;
          schema = progress.schema;
          table = progress.table;
          stopped = progress.stopped;
        } in
      subst (λ a. IsProgress db post a.0 a.1) (sym answer) kept
