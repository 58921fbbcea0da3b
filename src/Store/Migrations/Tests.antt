-- ===== src/Store/Migrations/Tests.antt =====
-- A database in memory: the committed schema and the one of the transaction.
use docker_faas.Base.{
  String, ◌≡◌, refl, Bool, true, false, [], ◌∷◌, map, ◌==◌, take, Result, ok, err, nat_eq,
  string_eq, bool_eq,
}
use docker_faas.Base.Int.{ℤ, pos, int_eq}
use docker_faas.Base.Text.{decimal}
use docker_faas.Store.Migrations.Scripts.{debug_up, migrations}
use docker_faas.Store.Migrations.History.{
  Schema, highest, executed, recorded, unrecorded, apply_all, revert_all, TransactionLaws,
}
use docker_faas.Store.Migrations.Applied.{pending, Progress, apply_migrations_lem}
use docker_faas.Store.Migrations.Reverted.{
  latest_first, rollback_migrations_lem, rollback-apply_migrations,
}
use docker_faas.Store.Migrations.Repeated.{apply_migrations-again}
use docker_faas.Store.Migrations.{
  Database, get_applied_migrations, apply_migrations, rollback_migrations,
}

record Session : Type 0 where
  saved : Schema
  current : Schema
  -- The script that fails
  broken : String

abbrev run_script : Bool → String → Session → Result (Unit {0}) × Session
run_script true script d = (err "syntax error", d)
run_script false script d = (ok tt, record d { current = executed script d.current })

abbrev memory : Database Session
memory = record {
  exec = λ script d. (ok tt, d);
  select_max = λ d. (ok (highest d.saved.versions), d);
  select_versions = λ d. (ok (map ok d.saved.versions), d);
  begin = λ d. (ok tt, record d { current = d.saved });
  tx_exec = λ script d. run_script (script == d.broken) script d;
  insert_version = λ v text d. (ok tt, record d { current = recorded v d.current });
  delete_version = λ v d. (ok tt, record d { current = unrecorded v d.current });
  commit = λ d. (ok tt, record d { saved = d.current });
  rollback = λ d. d;
}

run_script-keeps :
    (b : Bool) (script : String) (d : Session) → (run_script b script d).1.saved ≡ d.saved
run_script-keeps true script d = refl
run_script-keeps false script d = refl

run_script-ok :
    (b : Bool) (script : String) (d : Session)
    → (run_script b script d).0 ≡ ok tt
    → (run_script b script d).1.current ≡ executed script d.current
run_script-ok true script d h = cc
run_script-ok false script d h = refl

same_ok : (r : Result ℤ) (v w : ℤ) → r ≡ ok w → r ≡ ok v → v ≡ w
same_ok r v w a b = cc

memory_laws : TransactionLaws memory (λ d. d.saved) (λ d. d.current)
memory_laws = record {
  exec_keeps = λ d. refl;
  max_keeps = λ d. refl;
  max_ok = λ d v h. same_ok (ok (highest d.saved.versions)) v (highest d.saved.versions) refl h;
  begin_keeps = λ d. refl;
  begin_ok = λ d h. refl;
  tx_keeps = λ script d. run_script-keeps (script == d.broken) script d;
  tx_ok = λ script d h. run_script-ok (script == d.broken) script d h;
  insert_keeps = λ v text d. refl;
  insert_ok = λ v text d h. refl;
  delete_keeps = λ v d. refl;
  delete_ok = λ v d h. refl;
  commit_ok = λ d h. refl;
  commit_err = λ d e h. cc;
  rollback_keeps = λ d. refl;
}

abbrev no_schema : Schema
no_schema = record { scripts = []; versions = [] }

abbrev fresh : Session
fresh = record { saved = no_schema; current = no_schema; broken = "" }

-- The second script fails.
abbrev faulty : Session
faulty = record fresh { broken = debug_up }

stops_at_the_second :
    ((apply_migrations memory faulty).1.saved.versions ≡ pos 1 ∷ [])
    × ((apply_migrations memory faulty).0 ≡ err "failed to apply migration 2: syntax error")
    × ((get_applied_migrations memory (apply_migrations memory fresh).1).0
        ≡ ok (pos 1 ∷ pos 2 ∷ []))
unfolding apply_migrations get_applied_migrations decimal
stops_at_the_second = (refl, refl, refl)

apply_migrations_lem_example :
    Progress
      (λ d. d.saved)
      (apply_migrations memory faulty)
      (λ l. apply_all l no_schema)
      (pending (pos 0) migrations)
apply_migrations_lem_example =
    apply_migrations_lem memory (λ d. d.saved) (λ d. d.current) memory_laws faulty

abbrev migrated : Session
migrated = (apply_migrations memory fresh).1

rollback_migrations_lem_example :
    Progress
      (λ d. d.saved)
      (rollback_migrations memory (pos 1) migrated)
      (λ l. revert_all l migrated.saved)
      (take 1 (latest_first (highest migrated.saved.versions) migrations))
rollback_migrations_lem_example =
    rollback_migrations_lem memory (λ d. d.saved) (λ d. d.current) memory_laws (pos 1) migrated

apply_migrations-again_example : (apply_migrations memory migrated).1.saved ≡ migrated.saved
unfolding apply_migrations
apply_migrations-again_example =
    apply_migrations-again memory (λ d. d.saved) (λ d. d.current) memory_laws fresh refl

rollback-apply_migrations_example :
    (rollback_migrations memory (pos 1) migrated).1.saved.versions ≡ take 1 (pos 1 ∷ pos 2 ∷ [])
unfolding apply_migrations rollback_migrations
rollback-apply_migrations_example =
    rollback-apply_migrations memory (λ d. d.saved) (λ d. d.current) memory_laws (pos 1) fresh refl
      refl refl
