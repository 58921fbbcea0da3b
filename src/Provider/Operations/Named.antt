-- ===== src/Provider/Operations/Named.antt =====
-- The containers that deploying and scaling a function leave.
use docker_faas.Base.{
  ℕ, zero, suc, ◌+◌, ◌≤◌, ◌<◌, String, ◌≡◌, refl, ◌∙◌, ◌≢◌, inl, inr, List, [], ◌∷◌, arith, eq_iff,
  ◌==◌, nat_eq, Bool-cases, In, ok, string_eq, bool_eq,
}
use docker_faas.Base.Calls.{Result-cases, context-ok, Keeps}
use docker_faas.Base.Int.{ℤ, pos, pos_part, int_eq}
use docker_faas.Base.Text.{decimal, contains_dash}
use docker_faas.Gateway.Types.{FunctionDeployment}
use docker_faas.Provider.Docker.{DockerProvider}
use docker_faas.Provider.Create.{create_container}
use docker_faas.Provider.Create.Made.{Containers, ContainerLaws}
use docker_faas.Provider.Create.Surviving.{HasName, create_container-HasName}
use docker_faas.Provider.Operations.{
  replica_name, indices_from, image_exists, pull_image, create_replica, create_replicas,
  deploy_function,
}

-- Every name that has a container keeps one.
abbrev pub NamesStay : Containers → Containers → Type 0
NamesStay before now = (n : String) → HasName before n → HasName now n

In-indices : (n from i : ℕ) → from ≤ i → i < from + n → In i (indices_from n from)
In-indices zero from i h k = absurd (omega arith)
In-indices (suc n) from i h k = elim (Bool-cases (i == from)) [
  | inl e ↦ inl ((nat_eq.beq_iff i from).0 e)
  | inr e ↦
      let apart : i ≢ from = λ q. absurd (cc (rw ((nat_eq.beq_iff i from).1 q) at e)) in
      inr (In-indices n (from + 1) i (omega arith) (omega arith))
]

module _ {W : Type 0} (p : DockerProvider W) (containers : W → Containers)
    (laws : ContainerLaws p containers) where
  create_replica-HasName :
      (d : FunctionDeployment) (i : ℤ) (w : W)
      → (create_replica p d i w).0 ≡ ok tt
      → HasName (containers (create_replica p d i w).1) (replica_name d i)
        × NamesStay (containers w) (containers (create_replica p d i w).1)
  unfolding create_replica
  create_replica-HasName d i w h =
      let name = replica_name d i in
      let done = context-ok _ (create_container p d name i) w h in
      let (made, others) =
        create_container-HasName p containers laws d name i w (contains_dash d.service (decimal i))
          done in
      (
        made,
        λ n (id, j). elim (Bool-cases (n == name)) [
          | inl e ↦ rw ((eq_iff n name).0 e) made
          | inr e ↦ (id, others (id, n) j (λ q. absurd (cc (rw ((eq_iff n name).1 q) at e))))
        ],
      )

  pub create_replicas-HasName :
      (d : FunctionDeployment) (indices : List ℕ) (w : W)
      → (create_replicas p d indices w).0 ≡ ok tt
      → ((i : ℕ)
          → In i indices
          → HasName (containers (create_replicas p d indices w).1) (replica_name d (pos i)))
        × NamesStay (containers w) (containers (create_replicas p d indices w).1)
  unfolding create_replicas
  create_replicas-HasName d [] w h = ((λ i k. absurd k), λ n k. k)
  create_replicas-HasName d (i ∷ indices) w h =
      let first = create_replica p d (pos i) w in
      elim (Result-cases first.0) [
        | inr (t, e) ↦ absurd (cc (rw e at h))
        | inl (u, e) ↦
            let (made, stay) = create_replica-HasName d (pos i) w e in
            let (more, kept) = create_replicas-HasName d indices first.1 (rw e at h) in
            let end : create_replicas p d (i ∷ indices) w ≡ create_replicas p d indices first.1 =
              rw e refl in
            rw end (
              (λ j k. elim k [
                | inl q ↦ rw q (kept (replica_name d (pos i)) made)
                | inr r ↦ more j r
              ]),
              λ n k. kept n (stay n k),
            )
      ]

  pull_image-Keeps : (image : String) → Keeps containers (pull_image p image)
  unfolding pull_image image_exists
  pull_image-Keeps image w =
      let looked = p.client.image_inspect image w in
      let pulled = p.client.image_pull image looked.1 in
      let same = laws.image_inspect_keeps image w in
      let kept = laws.image_pull_keeps image looked.1 ∙ same in
      elim (Result-cases looked.0) [
        | inl (u, e) ↦ rw e same
        | inr (t, e) ↦ elim (Result-cases pulled.0) [
          | inr (s, f) ↦ rw (e, f) kept
          | inl (reader, f) ↦
              let all = laws.read_all_keeps reader pulled.1 ∙ kept in
              elim (Result-cases (p.client.read_all reader pulled.1).0) [
                | inl (v, g) ↦ rw (e, f, g) all
                | inr (s, g) ↦ rw (e, f, g) all
              ]
        ]
      ]

  -- Over Docker's promises, `DeployFunction` that succeeds leaves a container of the name of each
  -- replica below the number that is asked for, and one of each name that had one.
  pub deploy_function_lem :
      (d : FunctionDeployment) (replicas : ℤ) (w : W)
      → (deploy_function p d replicas w).0 ≡ ok tt
      → ((i : ℕ)
          → i < pos_part replicas
          → HasName (containers (deploy_function p d replicas w).1) (replica_name d (pos i)))
        × NamesStay (containers w) (containers (deploy_function p d replicas w).1)
  unfolding deploy_function
  deploy_function_lem d replicas w h =
      let pulled = pull_image p d.image w in
      elim (Result-cases pulled.0) [
        | inr (t, e) ↦ absurd (cc (rw e at h))
        | inl (u, e) ↦
            let (made, stay) =
              create_replicas-HasName d (indices_from (pos_part replicas) 0) pulled.1 (rw e at h) in
            let end : deploy_function p d replicas w
                ≡ create_replicas p d (indices_from (pos_part replicas) 0) pulled.1 =
              rw e refl in
            rw end (
              (λ i k. made i (In-indices (pos_part replicas) 0 i (omega arith) (omega (arith, k)))),
              λ n (id, j). stay n (id, rw (pull_image-Keeps d.image w) j),
            )
      ]
