-- ===== src/Store/Migrations.antt =====
-- The migration manager of pkg/store/migrations.go over the SQL database, which is a parameter: one
-- call for each statement of the source. Log lines are left out.
pub mod Scripts
pub mod History
pub mod Applied
pub mod Reverted
pub mod Repeated
pub mod Tests
use docker_faas.Base.{
  ℕ, zero, suc, String, not, Option, none, some, List, [], ◌∷◌, if◌then◌else◌, ◌==◌, Result, ok,
  err, nat_eq, string_eq, bool_eq,
}
use docker_faas.Base.Calls.{Call, ◌>>=◌, ◌>>◌, pure, throw, lift, context, attempt, or_undo}
use docker_faas.Base.Int.{ℤ, pos, negsuc, pos_part, leb_ℤ, int_eq}
use docker_faas.Base.Text.{decimal, ◌<>◌}
use docker_faas.Store.Migrations.Scripts.{Migration, migrations}

-- `db.Exec`, the two queries on `schema_migrations`, and a transaction: `tx.Exec` of a script and of
-- the two statements on `schema_migrations`, `tx.Commit` and `tx.Rollback`, whose error is dropped.
-- The inner results are those of `Scan` on each row.
pub record Database (D : Type 0) : Type 0 where
  pub exec : String → Call D (Unit {0})
  pub select_max : Call D ℤ
  pub select_versions : Call D (List (Result ℤ))
  pub begin : Call D (Unit {0})
  pub tx_exec : String → Call D (Unit {0})
  pub insert_version : ℤ → String → Call D (Unit {0})
  pub delete_version : ℤ → Call D (Unit {0})
  pub commit : Call D (Unit {0})
  pub rollback : D → D

abbrev pub create_table : String
create_table =
    "\n\t\tCREATE TABLE IF NOT EXISTS schema_migrations (\n"
    <> "\t\t\tversion INTEGER PRIMARY KEY,\n" <> "\t\t\tdescription TEXT NOT NULL,\n"
    <> "\t\t\tapplied_at TIMESTAMP NOT NULL DEFAULT CURRENT_TIMESTAMP\n" <> "\t\t);\n\t"

scan_versions : List (Result ℤ) → Result (List ℤ)
scan_versions [] = ok []
scan_versions (ok v ∷ rows) = elim (scan_versions rows) [ ok vs ↦ ok (v ∷ vs) | err e ↦ err e ]
scan_versions (err e ∷ rows) = err e

-- The first migration of a version
unfoldable pub find_migration : ℤ → List Migration → Option Migration
find_migration v [] = none
find_migration v (m ∷ ms) =
    let rest = find_migration v ms in if m.version == v then some m else rest

module _ {D : Type 0} where
  unfoldable pub ensure_migrations_table : Database D → Call D (Unit {0})
  ensure_migrations_table db = db.exec create_table

  unfoldable pub get_current_version : Database D → Call D ℤ
  unfolding ensure_migrations_table
  get_current_version db = do ensure_migrations_table db; db.select_max

  unfoldable pub get_applied_migrations : Database D → Call D (List ℤ)
  unfolding ensure_migrations_table scan_versions
  get_applied_migrations db = do
    ensure_migrations_table db
    rows ← db.select_versions
    lift (scan_versions rows)

  -- The transaction of one round of the loop of `ApplyMigrations`
  unfoldable pub apply_migration : Database D → Migration → Call D (Unit {0})
  apply_migration db m = do
    context ("failed to begin transaction for migration " <> decimal m.version <> ": ") db.begin
    or_undo db.rollback
        (context ("failed to apply migration " <> decimal m.version <> ": ") (db.tx_exec m.up))
    or_undo db.rollback (
        context ("failed to record migration " <> decimal m.version <> ": ")
          (db.insert_version m.version m.description))
    context ("failed to commit migration " <> decimal m.version <> ": ") db.commit

  unfoldable pub apply_from : Database D → ℤ → List Migration → Call D (Unit {0})
  unfolding apply_migration
  apply_from db current [] = pure tt
  apply_from db current (m ∷ ms) =
      let rest = apply_from db current ms in
      if leb_ℤ m.version current then rest else (apply_migration db m >> rest)

  unfoldable pub apply_migrations : Database D → Call D (Unit {0})
  unfolding ensure_migrations_table get_current_version apply_from
  apply_migrations db = do
    context "failed to create migrations table: " (ensure_migrations_table db)
    current ← context "failed to get current version: " (get_current_version db)
    apply_from db current migrations
    final ← attempt (get_current_version db)
    pure tt

  -- The transaction of one round of the loop of `Rollback`
  unfoldable pub revert_migration : Database D → Migration → Call D (Unit {0})
  revert_migration db m = do
    context "failed to begin transaction: " db.begin
    or_undo db.rollback
        (context ("failed to rollback migration " <> decimal m.version <> ": ") (db.tx_exec m.down))
    or_undo db.rollback (
        context ("failed to remove migration record " <> decimal m.version <> ": ")
          (db.delete_version m.version))
    context ("failed to commit rollback " <> decimal m.version <> ": ") db.commit

  unfoldable pub revert_found : Database D → ℤ → Option Migration → Call D (Unit {0})
  unfolding revert_migration
  revert_found db current none = throw ("migration " <> decimal current <> " not found")
  revert_found db current (some m) = revert_migration db m

  -- The loop, with the rounds that `i < steps` leaves: it ends early at version 0.
  unfoldable pub revert_from : Database D → ℕ → ℤ → Call D (Unit {0})
  unfolding revert_found find_migration
  revert_from db zero current = pure tt
  revert_from db (suc k) (negsuc n) = pure tt
  revert_from db (suc k) (pos zero) = pure tt
  revert_from db (suc k) (pos (suc n)) =
      revert_found db (pos (suc n)) (find_migration (pos (suc n)) migrations)
      >> revert_from db k (pos n)

  unfoldable pub rollback_migrations : Database D → ℤ → Call D (Unit {0})
  unfolding get_current_version revert_from
  rollback_migrations db steps = do
    current ← context "failed to get current version: " (get_current_version db)
    (if current == pos 0 then throw "no migrations to rollback" else pure tt)
    revert_from db (pos_part steps) current
