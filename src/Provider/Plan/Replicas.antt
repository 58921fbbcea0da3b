-- ===== src/Provider/Plan/Replicas.antt =====
-- The replicas of an index, and the indices that a scale plan fills.
use docker_faas.Base.{
  ℕ, ◌<◌, ◌≡◌, refl, ◌↔◌, inl, inr, Bool, true, false, not, ◌&&◌, Option, none, some, List, [],
  arith, ◌==◌, Option-cases, keep, In, nat_eq, string_eq, bool_eq,
}
use docker_faas.Base.Int.{ℤ, pos, int_beq_iff, int_eq}
use docker_faas.Base.Assoc.{lookup}
use docker_faas.Base.Membership.{In-keep, In-head}
use docker_faas.Provider.Containers.{Summary, is_stale, container_replica_index}
use docker_faas.Provider.Plan.{rounds, build_replica_scale_plan}
use docker_faas.Provider.Plan.Groups.{IsAt, InGroup, stale-scan}
use docker_faas.Provider.Plan.Members.{start, groups, InGroup-groups, In-missing}

-- The plan's stale containers are those of the list whose state is stale, in order; they are found
-- whatever the target is.
pub stale_to_remove_keep :
    (cs : List Summary) (target : ℤ)
    → (build_replica_scale_plan cs target).stale_to_remove ≡ keep is_stale cs
unfolding build_replica_scale_plan
stale_to_remove_keep cs target = stale-scan target cs start

pub is_at_index : ℤ → Option ℤ → Bool
is_at_index i none = false
is_at_index i (some j) = j == i

-- The containers of a list that are not stale and have replica index `i`
unfoldable pub replicas : ℤ → List Summary → List Summary
unfolding is_at_index
replicas i cs = keep (λ c. not (is_stale c) && is_at_index i (container_replica_index c)) cs

pub IsAt_iff :
    (i : ℤ) (c : Summary)
    → ((not (is_stale c) && is_at_index i (container_replica_index c)) ≡ true) ↔ IsAt i c
unfolding is_at_index
IsAt_iff i c = elim (Option-cases (container_replica_index c)) [
  | inl e ↦ rw e (ground arith)
  | inr (j, e) ↦ rw e (ground (arith, int_beq_iff j i))
]

pub In-replicas :
    (i : ℤ) (c : Summary) (cs : List Summary) → In c (replicas i cs) ↔ (In c cs × IsAt i c)
unfolding replicas
In-replicas i c cs =
    let e = In-keep (λ d. not (is_stale d) && is_at_index i (container_replica_index d)) c cs in
    let f = IsAt_iff i c in (λ h. let (k, a) = e.0 h in (k, f.0 a), λ (k, a). e.1 (k, f.1 a))

-- The group of an index holds the replicas of that index.
pub In-groups-replicas :
    (cs : List Summary) (target i : ℤ) (c : Summary)
    → InGroup (lookup i (groups cs target)) c ↔ In c (replicas i cs)
In-groups-replicas cs target i c =
    let e = InGroup-groups cs target i c in
    let f = In-replicas i c cs in (λ h. f.1 (e.0 h), λ h. e.1 (f.0 h))

-- A replica index is to be filled exactly when it lies below the target and no container that is
-- not stale has it.
pub missing_iff :
    (cs : List Summary) (target : ℤ) (i : ℕ)
    → In i (build_replica_scale_plan cs target).missing_replica_indices
      ↔ ((i < rounds target) × (replicas (pos i) cs ≡ []))
unfolding build_replica_scale_plan
missing_iff cs target i =
    let e = In-missing i (rounds target) 0 (groups cs target) in
    (
      λ h.
          let (l, u, n) = e.0 h in
          (
            ground arith,
            In-head (replicas (pos i) cs)
                (λ c k. rw n at ((In-groups-replicas cs target (pos i) c).1 k)),
          ),
      λ (u, free). e.1 (
        ground arith,
        ground arith,
        elim (Option-cases (lookup (pos i) (groups cs target))) [
          | inl n ↦ n
          | inr (g, l) ↦
              absurd
                (rw free at ((In-groups-replicas cs target (pos i) g.first).0 (rw l (inl refl))))
        ],
      ),
    )
