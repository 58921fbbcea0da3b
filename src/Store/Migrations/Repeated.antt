-- ===== src/Store/Migrations/Repeated.antt =====
-- A second run of `ApplyMigrations` changes nothing.
use docker_faas.Base.{
  ℕ, zero, suc, ◌+◌, ◌≤◌, ◌≡◌, refl, ap, ◌∙◌, inl, inr, true, List, [], ◌∷◌, ◌++◌, arith, leb→le,
  Bool-cases, take, keep, All, ok,
}
use docker_faas.Base.Int.{ℤ, pos, pos_part, neg_part, leb_ℤ}
use docker_faas.Store.Migrations.{Database, apply_migrations}
use docker_faas.Store.Migrations.Scripts.{Migration, migrations}
use docker_faas.Store.Migrations.History.{
  Schema, max_ℤ, highest, applied, apply_all, TransactionLaws,
}
use docker_faas.Store.Migrations.Applied.{pending, apply_migrations_lem}

-- a ≤ b, as the tactics read it
abbrev AtMost : ℤ → ℤ → Type 0
AtMost a b = pos_part a + neg_part b ≤ pos_part b + neg_part a

leb_ℤ-AtMost : (a b : ℤ) → AtMost a b → leb_ℤ a b ≡ true
leb_ℤ-AtMost a b h = ground arith

max_ℤ-left : (a b : ℤ) → AtMost a (max_ℤ a b)
max_ℤ-left a b = ground arith

max_ℤ-right : (a b : ℤ) → AtMost b (max_ℤ a b)
max_ℤ-right a b = ground arith

max_ℤ-mono : (a b c : ℤ) → AtMost b c → AtMost (max_ℤ a b) (max_ℤ a c)
max_ℤ-mono a b c h = ground arith

highest-append : (vs : List ℤ) (v : ℤ) → AtMost (highest vs) (highest (vs ++ (v ∷ [])))
highest-append [] v = max_ℤ-right v (pos 0)
highest-append (u ∷ vs) v =
    max_ℤ-mono u (highest vs) (highest (vs ++ (v ∷ []))) (highest-append vs v)

highest-last : (vs : List ℤ) (v : ℤ) → AtMost v (highest (vs ++ (v ∷ [])))
highest-last [] v = max_ℤ-left v (pos 0)
highest-last (u ∷ vs) v =
    let a = highest-last vs v in
    let b = max_ℤ-right u (highest (vs ++ (v ∷ []))) in omega (arith, a, b)

apply_all-highest :
    (ms : List Migration) (s : Schema)
    → AtMost (highest s.versions) (highest (apply_all ms s).versions)
apply_all-highest [] s = omega arith
apply_all-highest (m ∷ ms) s =
    let a = highest-append s.versions m.version in
    let b = apply_all-highest ms (applied m s) in omega (arith, a, b)

-- Each of the migrations that are applied is covered by the highest version.
apply_all-All :
    (ms : List Migration) (s : Schema)
    → All (λ m. AtMost m.version (highest (apply_all ms s).versions)) ms
apply_all-All [] s = tt
apply_all-All (m ∷ ms) s =
    let a = highest-last s.versions m.version in
    let b = apply_all-highest ms (applied m s) in
    (omega (arith, a, b), apply_all-All ms (applied m s))

none_pending :
    (current top : ℤ) (ms : List Migration)
    → AtMost current top
    → All (λ m. AtMost m.version top) (pending current ms)
    → pending top ms ≡ []
unfolding keep
none_pending current top [] h k = refl
none_pending current top (m ∷ ms) h k = elim (Bool-cases (leb_ℤ m.version current)) [
  | inl e ↦
      let a =
        leb→le (pos_part m.version + neg_part current) (pos_part current + neg_part m.version) e in
      let c : AtMost m.version top = omega (arith, a, h) in
      rw (leb_ℤ-AtMost m.version top c) (none_pending current top ms h (rw e at k))
  | inr e ↦
      let (c, r) = rw e at k in rw (leb_ℤ-AtMost m.version top c) (none_pending current top ms h r)
]

take_nil : (k : ℕ) (s : Schema) → apply_all (take k []) s ≡ s
take_nil zero s = refl
take_nil (suc k) s = refl

module _ {D : Type 0} (db : Database D) (committed working : D → Schema)
    (laws : TransactionLaws db committed working) where
  -- Over a transactional database, after `ApplyMigrations` has succeeded, running it again leaves the
  -- executed scripts and the recorded versions as they are, whether it succeeds or fails.
  pub apply_migrations-again :
      (d : D)
      → (apply_migrations db d).0 ≡ ok tt
      → committed (apply_migrations db (apply_migrations db d).1).1
        ≡ committed (apply_migrations db d).1
  apply_migrations-again d h =
      let s = committed d in
      let ms = pending (highest s.versions) migrations in
      elim (apply_migrations_lem db committed working laws d) [
        | inr (t, k, p, row) ↦ cc
        | inl (p, row) ↦
            let now = committed (apply_migrations db d).1 in
            let none_left : pending (highest now.versions) migrations ≡ [] = rw row (
              none_pending (highest s.versions) (highest (apply_all ms s).versions) migrations
                (apply_all-highest ms s) (apply_all-All ms s)) in
            elim (apply_migrations_lem db committed working laws (apply_migrations db d).1) [
              | inl (q, same) ↦ same ∙ ap (λ l. apply_all l now) none_left
              | inr (t, k, q, same) ↦
                  same ∙ ap (λ l. apply_all (take k l) now) none_left ∙ take_nil k now
            ]
      ]
