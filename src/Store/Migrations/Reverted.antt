-- ===== src/Store/Migrations/Reverted.antt =====
-- A rollback reverts the last migrations.
use docker_faas.Base.{
  ℕ, zero, suc, ◌-◌, ◌≡◌, refl, ap, ◌∙◌, inl, inr, none, List, [], ◌∷◌, ◌++◌, map, arith,
  if◌then◌else◌, ◌==◌, Bool-cases, take, keep, ok, nat_eq, string_eq, bool_eq,
}
use docker_faas.Base.Calls.{Call, ◌>>◌, Result-cases}
use docker_faas.Base.Int.{ℤ, pos, negsuc, pos_part, leb_ℤ, int_eq}
use docker_faas.Store.Migrations.Scripts.{Migration, initial_schema, debug_column, migrations}
use docker_faas.Store.Migrations.History.{Schema, highest, apply_all, revert_all, TransactionLaws}
use docker_faas.Store.Migrations.Applied.{
  pending, Progress, revert_migration-Atomic, version_keeps, version_ok, apply_migrations_lem,
}
use docker_faas.Store.Migrations.{
  Database, find_migration, get_current_version, apply_migrations, revert_migration, revert_found,
  revert_from, rollback_migrations,
}

-- The migrations up to a version, the last one first
abbrev pub latest_first : ℤ → List Migration → List Migration
latest_first current [] = []
latest_first current (m ∷ ms) =
    let rest = latest_first current ms in if leb_ℤ m.version current then rest ++ (m ∷ []) else rest

applied_versions :
    (s : Schema)
    → s.versions ≡ []
    → (apply_all (pending (highest s.versions) migrations) s).versions ≡ pos 1 ∷ pos 2 ∷ []
unfolding keep
applied_versions s h = rw h refl

reverted_versions :
    (n : ℕ) (s : Schema)
    → s.versions ≡ pos 1 ∷ pos 2 ∷ []
    → (revert_all (take n (latest_first (highest s.versions) migrations)) s).versions
      ≡ take (2 - n) (pos 1 ∷ pos 2 ∷ [])
unfolding keep
reverted_versions zero s h = h
reverted_versions (suc zero) s h = rw h refl
reverted_versions (suc (suc zero)) s h = rw h refl
reverted_versions (suc (suc (suc n))) s h =
    let none_left : 2 - suc (suc (suc n)) ≡ 0 = omega arith in rw (h, none_left) refl

none_below : (n : ℕ) → latest_first (negsuc n) migrations ≡ []
none_below n = ground arith

unknown : (n : ℕ) → find_migration (pos (suc (suc (suc n)))) migrations ≡ none
unfolding find_migration
unknown n = ground arith

module _ {D : Type 0} (db : Database D) (committed working : D → Schema)
    (laws : TransactionLaws db committed working) where
  one_more_lem :
      (m : Migration) (ms : List Migration) (next : Call D (Unit {0})) (d : D)
      → ((e : D) → Progress committed (next e) (λ l. revert_all l (committed e)) ms)
      → Progress committed
          ((revert_migration db m >> next) d)
          (λ l. revert_all l (committed d))
          (m ∷ ms)
  one_more_lem m ms next d f = elim (revert_migration-Atomic db committed working laws m d) [
    | inr (t, p, same) ↦ rw p (inr (t, 0, refl, same))
    | inl (p, now) ↦ elim (f (revert_migration db m d).1) [
      | inl (q, row) ↦ rw (p, q) (inl (refl, row ∙ ap (revert_all ms) now))
      | inr (t, k, q, row) ↦ rw (p, q) (inr (t, suc k, refl, row ∙ ap (revert_all (take k ms)) now))
    ]
  ]

  revert_from_lem :
      (k : ℕ) (current : ℤ) (before : Schema) (d : D)
      → committed d ≡ before
      → Progress committed
          (revert_from db k current d)
          (λ l. revert_all l before)
          (take k (latest_first current migrations))
  unfolding revert_from revert_found find_migration
  revert_from_lem zero current before d h = inl (refl, h)
  revert_from_lem (suc k) (negsuc n) before d h = rw (none_below n) (inl (refl, h))
  revert_from_lem (suc k) (pos zero) before d h = inl (refl, h)
  revert_from_lem (suc k) (pos (suc zero)) before d h = rw (← h) (
      one_more_lem initial_schema (take k []) (revert_from db k (pos 0)) d
        (λ e. revert_from_lem k (pos 0) (committed e) e refl))
  revert_from_lem (suc k) (pos (suc (suc zero))) before d h = rw (← h) (
      one_more_lem debug_column (take k (initial_schema ∷ [])) (revert_from db k (pos 1)) d
        (λ e. revert_from_lem k (pos 1) (committed e) e refl))
  revert_from_lem (suc k) (pos (suc (suc (suc n)))) before d h =
      rw (unknown n) (inr (_, 0, refl, h))

  -- Over a transactional database, `Rollback` reverts the last `steps` of the migrations up to the
  -- highest version that is recorded, the last one first: all of them where it succeeds, and the
  -- first ones where it ends with an error.
  pub rollback_migrations_lem :
      (steps : ℤ) (d : D)
      → Progress committed
          (rollback_migrations db steps d)
          (λ l. revert_all l (committed d))
          (take (pos_part steps) (latest_first (highest (committed d).versions) migrations))
  unfolding rollback_migrations
  rollback_migrations_lem steps d =
      let got = get_current_version db d in
      let g = version_keeps db committed working laws d in
      elim (Result-cases got.0) [
        | inr (e, q) ↦ rw q (inr (_, 0, refl, g))
        | inl (v, q) ↦
            let top = version_ok db committed working laws d v q in
            rw (q, ← top)
              (elim (Bool-cases (v == pos 0)) [
                | inl e ↦ rw e (inr (_, 0, refl, g))
                | inr e ↦ rw e (revert_from_lem (pos_part steps) v (committed d) got.1 g)
              ])
      ]

  -- Where nothing was recorded, `ApplyMigrations` has succeeded and `Rollback` of `steps` has succeeded
  -- after it, the recorded versions are the first ones, without the last `steps`.
  pub rollback-apply_migrations :
      (steps : ℤ) (d : D)
      → (committed d).versions ≡ []
      → (apply_migrations db d).0 ≡ ok tt
      → (rollback_migrations db steps (apply_migrations db d).1).0 ≡ ok tt
      → (committed (rollback_migrations db steps (apply_migrations db d).1).1).versions
        ≡ take (2 - pos_part steps) (map (λ m. m.version) migrations)
  rollback-apply_migrations steps d fresh a b =
      let now = committed (apply_migrations db d).1 in
      let set : now.versions ≡ pos 1 ∷ pos 2 ∷ [] =
        elim (apply_migrations_lem db committed working laws d) [
          | inr (t, k, p, row) ↦ cc
          | inl (p, row) ↦ ap (λ s. s.versions) row ∙ applied_versions (committed d) fresh
        ] in
      elim (rollback_migrations_lem steps (apply_migrations db d).1) [
        | inr (t, k, p, row) ↦ cc
        | inl (p, row) ↦ ap (λ s. s.versions) row ∙ reverted_versions (pos_part steps) now set
      ]
