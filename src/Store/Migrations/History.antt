-- ===== src/Store/Migrations/History.antt =====
-- What the migration manager relies on of a transactional database: nothing but a commit changes what
-- is committed, and a commit makes the work of the whole transaction permanent.
use docker_faas.Base.{
  String, ◌≡◌, not, List, [], ◌∷◌, ◌++◌, if◌then◌else◌, ◌==◌, keep, ok, err, nat_eq, string_eq,
  bool_eq,
}
use docker_faas.Base.Int.{ℤ, pos, leb_ℤ, int_eq}
use docker_faas.Store.Migrations.Scripts.{Migration}
use docker_faas.Store.Migrations.{Database, create_table}

-- The scripts that were executed, in order, and the recorded versions
pub record Schema : Type 0 where
  pub scripts : List String
  pub versions : List ℤ

abbrev pub max_ℤ : ℤ → ℤ → ℤ
max_ℤ a b = if leb_ℤ a b then b else a

-- `COALESCE(MAX(version), 0)` of versions that are not negative
abbrev pub highest : List ℤ → ℤ
highest [] = pos 0
highest (v ∷ vs) = max_ℤ v (highest vs)

abbrev pub executed : String → Schema → Schema
executed script s = record s { scripts = s.scripts ++ (script ∷ []) }

abbrev pub recorded : ℤ → Schema → Schema
recorded v s = record s { versions = s.versions ++ (v ∷ []) }

abbrev pub unrecorded : ℤ → Schema → Schema
unrecorded v s = record s { versions = keep (λ u. not (u == v)) s.versions }

-- A migration that is applied, or reverted, as a whole
abbrev pub applied : Migration → Schema → Schema
applied m s = recorded m.version (executed m.up s)

abbrev pub reverted : Migration → Schema → Schema
reverted m s = unrecorded m.version (executed m.down s)

abbrev pub apply_all : List Migration → Schema → Schema
apply_all [] s = s
apply_all (m ∷ ms) s = apply_all ms (applied m s)

abbrev pub revert_all : List Migration → Schema → Schema
revert_all [] s = s
revert_all (m ∷ ms) s = revert_all ms (reverted m s)

pub record TransactionLaws {D : Type 0} (db : Database D) (committed working : D → Schema)
    : Type 0 where
  pub exec_keeps : (d : D) → committed (db.exec create_table d).1 ≡ committed d
  pub max_keeps : (d : D) → committed (db.select_max d).1 ≡ committed d
  pub max_ok : (d : D) (v : ℤ) → (db.select_max d).0 ≡ ok v → v ≡ highest (committed d).versions
  pub begin_keeps : (d : D) → committed (db.begin d).1 ≡ committed d
  pub begin_ok : (d : D) → (db.begin d).0 ≡ ok tt → working (db.begin d).1 ≡ committed d
  pub tx_keeps : (script : String) (d : D) → committed (db.tx_exec script d).1 ≡ committed d
  pub tx_ok :
      (script : String) (d : D)
      → (db.tx_exec script d).0 ≡ ok tt
      → working (db.tx_exec script d).1 ≡ executed script (working d)
  pub insert_keeps :
      (v : ℤ) (text : String) (d : D) → committed (db.insert_version v text d).1 ≡ committed d
  pub insert_ok :
      (v : ℤ) (text : String) (d : D)
      → (db.insert_version v text d).0 ≡ ok tt
      → working (db.insert_version v text d).1 ≡ recorded v (working d)
  pub delete_keeps : (v : ℤ) (d : D) → committed (db.delete_version v d).1 ≡ committed d
  pub delete_ok :
      (v : ℤ) (d : D)
      → (db.delete_version v d).0 ≡ ok tt
      → working (db.delete_version v d).1 ≡ unrecorded v (working d)
  pub commit_ok : (d : D) → (db.commit d).0 ≡ ok tt → committed (db.commit d).1 ≡ working d
  pub commit_err :
      (d : D) (e : String) → (db.commit d).0 ≡ err e → committed (db.commit d).1 ≡ committed d
  pub rollback_keeps : (d : D) → committed (db.rollback d) ≡ committed d
