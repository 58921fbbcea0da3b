-- ===== src/Provider/Operations/Scaled.antt =====
-- The containers that a scaled function has.
use docker_faas.Base.{
  ℕ, ◌<◌, String, ◌≡◌, refl, sym, ◌≢◌, ◌⊎◌, inl, inr, Bool, true, false, List, [], ◌∷◌, ◌++◌, arith,
  In, ok,
}
use docker_faas.Base.Calls.{Result-cases}
use docker_faas.Base.Int.{ℤ, pos, negsuc, leb_ℤ}
use docker_faas.Base.Text.{◌<>◌}
use docker_faas.Base.Membership.{In-append, In-map, In-keep}
use docker_faas.Provider.Docker.{DockerProvider, label_function, is_missing}
use docker_faas.Provider.Create.Surviving.{HasName}
use docker_faas.Provider.Plan.Replicas.{stale_to_remove_keep, replicas, missing_iff}
use docker_faas.Provider.Plan.{ReplicaScalePlan, rounds, build_replica_scale_plan}
use docker_faas.Provider.Plan.Stale.{stale_to_remove_iff}
use docker_faas.Provider.Plan.Survivors.{removed_ids, DistinctIds, one_keeper}
use docker_faas.Provider.Listing.{list_function_containers}
use docker_faas.Provider.Operations.Named.{create_replicas-HasName}
use docker_faas.Gateway.Types.{FunctionDeployment}
use docker_faas.Provider.Containers.{Summary, is_running, is_stale}
use docker_faas.Provider.Create.Keeping.{forgiven_or-Keeps}
use docker_faas.Provider.Create.Made.{Containers, Refers, ContainerLaws}
use docker_faas.Provider.Operations.{
  replica_name, create_replicas, stop_if, remove_by_id, remove_container_summary, remove_planned,
  apply_plan, scale_function,
}

-- A container that no id of the list refers to stays.
abbrev pub UnlistedStay : List Summary → Containers → Containers → Type 0
UnlistedStay l before now =
    (c : String × String) → In c before → ((s : Summary) → In s l → ¬ Refers s.id c) → In c now

-- What Docker promises of a listing: it changes no container, its ids are distinct, and they are those
-- of containers.
pub record ListingLaws {W : Type 0} (p : DockerProvider W) (containers : W → Containers)
    : Type 0 where
  pub listed :
      (label : String) (w : W) (l : List Summary)
      → (p.client.container_list label w).0 ≡ ok l
      → (s : Summary) → In s l
      → (n : String) × In (s.id, n) (containers w)
  pub distinct :
      (label : String) (w : W) (l : List Summary)
      → (p.client.container_list label w).0 ≡ ok l
      → DistinctIds l

not_at_least : (target : ℤ) (i : ℕ) → i < rounds target → leb_ℤ target (pos i) ≡ false
not_at_least (pos n) i h = ground arith
not_at_least (negsuc n) i h = absurd (omega arith)

none_or_some : (l : List Summary) → (l ≡ []) ⊎ ((c : Summary) × In c l)
none_or_some [] = inl refl
none_or_some (c ∷ l) = inr (c, inl refl)

replica_listed : (l : List Summary) (i : ℤ) (k : Summary) → In k (replicas i l) → In k l
unfolding replicas
replica_listed l i k h = ((In-keep _ k l).0 h).0

-- A replica that is not removed has an id that the plan does not name.
unremoved :
    (l : List Summary) (target i : ℤ) (k : Summary)
    → DistinctIds l
    → In k (replicas i l)
    → ¬ In k.id (removed_ids (build_replica_scale_plan l target))
    → (s : Summary)
    → In s (
        (build_replica_scale_plan l target).stale_to_remove
        ++ (build_replica_scale_plan l target).active_to_remove)
    → s.id ≢ k.id
unfolding replicas
unremoved l target i k d h n s j q =
    let plan = build_replica_scale_plan l target in
    let (kept, alive) = (In-keep _ k l).0 h in
    elim ((In-append s plan.stale_to_remove plan.active_to_remove).0 j) [
      | inr a ↦ n ((In-map (λ c. c.id) k.id plan.active_to_remove).1 (s, a, sym q))
      | inl a ↦
          let (there, stale) = (In-keep is_stale s l).0 (rw (stale_to_remove_keep l target) at a) in
          let same = d s k there kept q in cc (rw same at stale)
    ]

-- What a plan removes is listed.
planned_listed :
    (l : List Summary) (target : ℤ) (s : Summary)
    → In s (
        (build_replica_scale_plan l target).stale_to_remove
        ++ (build_replica_scale_plan l target).active_to_remove)
    → In s l
planned_listed l target s h =
    let plan = build_replica_scale_plan l target in
    let (stale, active) = stale_to_remove_iff l target s in
    elim ((In-append s plan.stale_to_remove plan.active_to_remove).0 h) [
      | inl a ↦ (stale.0 a).0
      | inr a ↦ (active a).0
    ]

module _ {W : Type 0} (p : DockerProvider W) (containers : W → Containers)
    (laws : ContainerLaws p containers) where
  stopped_stay :
      (b : Bool) (id : String) (w : W) (c : String × String)
      → In c (containers w)
      → ¬ Refers id c
      → In c (containers (stop_if p b id w).1)
  stopped_stay false id w c i n = i
  stopped_stay true id w c i n =
      let call = p.client.container_stop id w in
      let same =
        forgiven_or-Keeps containers (is_missing p.client) "failed to stop container: " call.0
          call.1 in
      rw same (laws.stop_spares id w c i n)

  removed_stay :
      (id : String) (w : W) (c : String × String)
      → In c (containers w)
      → ¬ Refers id c
      → In c (containers (remove_by_id p id w).1)
  removed_stay id w c i n =
      let call = p.client.container_remove id w in
      let same =
        forgiven_or-Keeps containers (is_missing p.client) "failed to remove container: " call.0
          call.1 in
      rw same (laws.remove_spares id w c i n)

  summary_stay :
      (s : Summary) (w : W) (c : String × String)
      → In c (containers w)
      → ¬ Refers s.id c
      → In c (containers (remove_container_summary p s w).1)
  unfolding remove_container_summary
  summary_stay s w c i n =
      let stopped = stop_if p (is_running s) s.id w in
      let kept = stopped_stay (is_running s) s.id w c i n in
      elim (Result-cases stopped.0) [
        | inr (t, e) ↦ rw e kept
        | inl (u, e) ↦ rw e (removed_stay s.id stopped.1 c kept n)
      ]

  planned_stay :
      (what : String) (l : List Summary) (w : W)
      → UnlistedStay l (containers w) (containers (remove_planned p what l w).1)
  unfolding remove_planned
  planned_stay what [] w c i n = i
  planned_stay what (s ∷ l) w c i n =
      let first = remove_container_summary p s w in
      let here = summary_stay s w c i (n s (inl refl)) in
      elim (Result-cases first.0) [
        | inr (t, e) ↦ rw e here
        | inl (u, e) ↦ rw e (planned_stay what l first.1 c here (λ x k. n x (inr k)))
      ]

  apply_plan-HasName :
      (d : FunctionDeployment) (plan : ReplicaScalePlan) (w : W)
      → (apply_plan p d plan w).0 ≡ ok tt
      → ((i : ℕ)
          → In i plan.missing_replica_indices
          → HasName (containers (apply_plan p d plan w).1) (replica_name d (pos i)))
        × ((c : String × String)
            → In c (containers w)
            → ((s : Summary)
                → In s (plan.stale_to_remove ++ plan.active_to_remove)
                → ¬ Refers s.id c)
            → HasName (containers (apply_plan p d plan w).1) c.1)
  unfolding apply_plan
  apply_plan-HasName d plan w h =
      let a = remove_planned p "failed to remove stale container " plan.stale_to_remove w in
      let b = remove_planned p "failed to remove excess container " plan.active_to_remove a.1 in
      elim (Result-cases a.0) [
        | inr (t, e) ↦ absurd (cc (rw e at h))
        | inl (u, e) ↦ elim (Result-cases b.0) [
          | inr (t, f) ↦ absurd (cc (rw (e, f) at h))
          | inl (v, f) ↦
              let (made, stay) =
                create_replicas-HasName p containers laws d plan.missing_replica_indices b.1
                  (rw (e, f) at h) in
              let end : apply_plan p d plan w
                  ≡ create_replicas p d plan.missing_replica_indices b.1 =
                rw (e, f) refl in
              rw end (
                made,
                λ c i n.
                    let x = planned_stay _ plan.stale_to_remove w c i (λ s k.
                      n s ((In-append s plan.stale_to_remove plan.active_to_remove).1 (inl k))) in
                    let y = planned_stay _ plan.active_to_remove a.1 c x (λ s k.
                      n s ((In-append s plan.stale_to_remove plan.active_to_remove).1 (inr k))) in
                    stay c.1 (c.0, y),
              )
        ]
      ]

  -- Over Docker's promises, after `ScaleFunction` has succeeded, each replica index below the target has
  -- a container: one of the name that the provider gives to that index, or a listed container of that
  -- index, not stale, whose name still has a container.
  pub scale_function_lem :
      (listing : ListingLaws p containers) (d : FunctionDeployment) (target : ℤ) (l : List Summary)
      (w : W)
      → (list_function_containers p d.service w).0 ≡ ok l
      → (scale_function p d target w).0 ≡ ok tt
      → (i : ℕ) → i < rounds target
      → HasName (containers (scale_function p d target w).1) (replica_name d (pos i))
        ⊎ ((k : Summary) × (n : String) × In k (replicas (pos i) l)
            × In (k.id, n) (containers w)
            × HasName (containers (scale_function p d target w).1) n)
  unfolding scale_function
  scale_function_lem listing d target l w e h i b =
      let seen = list_function_containers p d.service w in
      let plan = build_replica_scale_plan l target in
      let kept = laws.list_keeps (label_function <> "=" <> d.service) w in
      let end : scale_function p d target w ≡ apply_plan p d plan seen.1 = rw e refl in
      let (made, stay) = apply_plan-HasName d plan seen.1 (rw e at h) in
      elim (none_or_some (replicas (pos i) l)) [
        | inl q ↦ rw end (inl (made i ((missing_iff l target i).1 (b, q))))
        | inr (c, q) ↦
            let distinct = listing.distinct (label_function <> "=" <> d.service) w l e in
            let (k, j, r, good) =
              one_keeper l target (pos i) c distinct q (not_at_least target i b) in
            let (n, there) =
              listing.listed (label_function <> "=" <> d.service) w l e k
                (replica_listed l (pos i) k j) in
            rw end (
              inr (
                k,
                n,
                j,
                there,
                stay (k.id, n) (rw kept there)
                    (λ s a b.
                      let (m, here) =
                        listing.listed (label_function <> "=" <> d.service) w l e s
                          (planned_listed l target s a) in
                      unremoved l target (pos i) k distinct j r s a
                        (laws.ids_apart w (s.id, m) (k.id, n) here there b)),
              ))
      ]
