-- ===== src/Store/Migrations/Applied.antt =====
-- A migration is applied, or reverted, as a whole or not at all, and an error leaves the ones before it.
use docker_faas.Base.{
  ℕ, suc, String, ◌≡◌, refl, ap, ◌∙◌, ◌⊎◌, inl, inr, not, List, [], ◌∷◌, Bool-cases, take, keep,
  Result, ok, err,
}
use docker_faas.Base.Calls.{◌>>=◌, ◌>>◌, pure, attempt, Result-cases}
use docker_faas.Base.Int.{ℤ, leb_ℤ}
use docker_faas.Store.Migrations.Scripts.{Migration, migrations}
use docker_faas.Store.Migrations.History.{
  Schema, highest, recorded, unrecorded, applied, reverted, apply_all, TransactionLaws,
}
use docker_faas.Store.Migrations.{
  Database, create_table, ensure_migrations_table, get_current_version, apply_migration, apply_from,
  apply_migrations, revert_migration,
}

-- A transaction that commits one change, or fails and commits none
abbrev pub Atomic : {D : Type 0} → (D → Schema) → Result (Unit {0}) × D → Schema → Schema → Type 0
Atomic committed end before after =
    ((end.0 ≡ ok tt) × (committed end.1 ≡ after))
    ⊎ ((e : String) × (end.0 ≡ err e) × (committed end.1 ≡ before))

-- The migrations above a version
abbrev pub pending : ℤ → List Migration → List Migration
pending current ms = keep (λ m. not (leb_ℤ m.version current)) ms

-- All of the changes of a list where there is no error, else the first of them
abbrev pub Progress :
    {D : Type 0}
    → (D → Schema)
    → Result (Unit {0}) × D
    → (List Migration → Schema)
    → List Migration
    → Type 0
Progress committed end after ms =
    ((end.0 ≡ ok tt) × (committed end.1 ≡ after ms))
    ⊎ ((e : String) × (k : ℕ) × (end.0 ≡ err e) × (committed end.1 ≡ after (take k ms)))

module _ {D : Type 0} (db : Database D) (committed working : D → Schema)
    (laws : TransactionLaws db committed working) where
  pub apply_migration-Atomic :
      (m : Migration) (d : D)
      → Atomic committed (apply_migration db m d) (committed d) (applied m (committed d))
  unfolding apply_migration
  apply_migration-Atomic m d =
      let begun = db.begin d in
      let run = db.tx_exec m.up begun.1 in
      let noted = db.insert_version m.version m.description run.1 in
      let done = db.commit noted.1 in
      let b = laws.begin_keeps d in
      let r = laws.tx_keeps m.up begun.1 ∙ b in
      let n = laws.insert_keeps m.version m.description run.1 ∙ r in
      elim (Result-cases begun.0) [
        | inr (e, p) ↦ rw p (inr (_, refl, b))
        | inl (u, p) ↦ elim (Result-cases run.0) [
          | inr (e, q) ↦ rw (p, q) (inr (_, refl, laws.rollback_keeps run.1 ∙ r))
          | inl (u, q) ↦ elim (Result-cases noted.0) [
            | inr (e, s) ↦ rw (p, q, s) (inr (_, refl, laws.rollback_keeps noted.1 ∙ n))
            | inl (u, s) ↦ elim (Result-cases done.0) [
              | inr (e, t) ↦ rw (p, q, s, t) (inr (_, refl, laws.commit_err noted.1 e t ∙ n))
              | inl (u, t) ↦
                  rw (p, q, s, t)
                    (inl (
                      refl,
                      laws.commit_ok noted.1 t
                          ∙ laws.insert_ok m.version m.description run.1 s
                          ∙ ap (recorded m.version) (laws.tx_ok m.up begun.1 q)
                          ∙ ap (applied m) (laws.begin_ok d p),
                    ))
            ]
          ]
        ]
      ]

  -- The same of the migration's reversal
  pub revert_migration-Atomic :
      (m : Migration) (d : D)
      → Atomic committed (revert_migration db m d) (committed d) (reverted m (committed d))
  unfolding revert_migration
  revert_migration-Atomic m d =
      let begun = db.begin d in
      let run = db.tx_exec m.down begun.1 in
      let noted = db.delete_version m.version run.1 in
      let done = db.commit noted.1 in
      let b = laws.begin_keeps d in
      let r = laws.tx_keeps m.down begun.1 ∙ b in
      let n = laws.delete_keeps m.version run.1 ∙ r in
      elim (Result-cases begun.0) [
        | inr (e, p) ↦ rw p (inr (_, refl, b))
        | inl (u, p) ↦ elim (Result-cases run.0) [
          | inr (e, q) ↦ rw (p, q) (inr (_, refl, laws.rollback_keeps run.1 ∙ r))
          | inl (u, q) ↦ elim (Result-cases noted.0) [
            | inr (e, s) ↦ rw (p, q, s) (inr (_, refl, laws.rollback_keeps noted.1 ∙ n))
            | inl (u, s) ↦ elim (Result-cases done.0) [
              | inr (e, t) ↦ rw (p, q, s, t) (inr (_, refl, laws.commit_err noted.1 e t ∙ n))
              | inl (u, t) ↦
                  rw (p, q, s, t)
                    (inl (
                      refl,
                      laws.commit_ok noted.1 t
                          ∙ laws.delete_ok m.version run.1 s
                          ∙ ap (unrecorded m.version) (laws.tx_ok m.down begun.1 q)
                          ∙ ap (reverted m) (laws.begin_ok d p),
                    ))
            ]
          ]
        ]
      ]

  apply_from_lem :
      (current : ℤ) (ms : List Migration) (d : D)
      → Progress committed
          (apply_from db current ms d)
          (λ l. apply_all l (committed d))
          (pending current ms)
  unfolding apply_from keep
  apply_from_lem current [] d = inl (refl, refl)
  apply_from_lem current (m ∷ ms) d = elim (Bool-cases (leb_ℤ m.version current)) [
    | inl e ↦ rw e (apply_from_lem current ms d)
    | inr e ↦ elim (apply_migration-Atomic m d) [
      | inr (t, p, same) ↦ rw (e, p) (inr (t, 0, refl, same))
      | inl (p, now) ↦ elim (apply_from_lem current ms (apply_migration db m d).1) [
        | inl (q, row) ↦ rw (e, p) (inl (q, row ∙ ap (apply_all (pending current ms)) now))
        | inr (t, k, q, row) ↦
            rw (e, p) (inr (t, suc k, q, row ∙ ap (apply_all (take k (pending current ms))) now))
      ]
    ]
  ]

  pub exec_keeps_lem : (d : D) → committed (ensure_migrations_table db d).1 ≡ committed d
  unfolding ensure_migrations_table
  exec_keeps_lem d = laws.exec_keeps d

  pub version_keeps : (d : D) → committed (get_current_version db d).1 ≡ committed d
  unfolding get_current_version ensure_migrations_table
  version_keeps d = elim (Result-cases (db.exec create_table d).0) [
    | inr (e, p) ↦ rw p (laws.exec_keeps d)
    | inl (u, p) ↦ rw p (laws.max_keeps (db.exec create_table d).1 ∙ laws.exec_keeps d)
  ]

  pub version_ok :
      (d : D) (v : ℤ) → (get_current_version db d).0 ≡ ok v → v ≡ highest (committed d).versions
  unfolding get_current_version ensure_migrations_table
  version_ok d v h = elim (Result-cases (db.exec create_table d).0) [
    | inr (e, p) ↦ cc (rw p at h)
    | inl (u, p) ↦
        laws.max_ok (db.exec create_table d).1 v (rw p at h)
        ∙ ap (λ s. highest s.versions) (laws.exec_keeps d)
  ]

  -- The loop, and the version that is read for the log
  finish_lem :
      (ms : List Migration) (v : ℤ) (before : Schema) (d : D)
      → committed d ≡ before
      → v ≡ highest before.versions
      → Progress committed
          ((apply_from db v ms >> (attempt (get_current_version db) >>= λ final. pure tt)) d)
          (λ l. apply_all l before)
          (pending (highest before.versions) ms)
  finish_lem ms v before d same e = elim (apply_from_lem v ms d) [
    | inr (t, k, p, row) ↦ rw p (
        inr (
          t,
          k,
          refl,
          row
              ∙ ap (λ u. apply_all (take k (pending u ms)) (committed d)) e
              ∙ ap (apply_all (take k (pending (highest before.versions) ms))) same,
        ))
    | inl (p, row) ↦ rw p (
        inl (
          refl,
          version_keeps (apply_from db v ms d).1
              ∙ row
              ∙ ap (λ u. apply_all (pending u ms) (committed d)) e
              ∙ ap (apply_all (pending (highest before.versions) ms)) same,
        ))
  ]

  -- Over a transactional database, `ApplyMigrations` applies the migrations above the highest version
  -- that is recorded, in the order of the list: all of them where it succeeds, and the first ones
  -- where it ends with an error. Each of them is executed and recorded, or neither.
  pub apply_migrations_lem :
      (d : D)
      → Progress committed
          (apply_migrations db d)
          (λ l. apply_all l (committed d))
          (pending (highest (committed d).versions) migrations)
  unfolding apply_migrations
  apply_migrations_lem d =
      let made = ensure_migrations_table db d in
      let got = get_current_version db made.1 in
      let m : committed made.1 ≡ committed d = exec_keeps_lem d in
      let g = version_keeps made.1 ∙ m in
      elim (Result-cases made.0) [
        | inr (e, p) ↦ rw p (inr (_, 0, refl, m))
        | inl (u, p) ↦ elim (Result-cases got.0) [
          | inr (e, q) ↦ rw (p, q) (inr (_, 0, refl, g))
          | inl (v, q) ↦
              rw (p, q)
                (finish_lem migrations v (committed d) got.1 g
                  (version_ok made.1 v q ∙ ap (λ s. highest s.versions) m))
        ]
      ]
