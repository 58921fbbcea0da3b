-- ===== src/Provider/Plan/Survivors.antt =====
-- Which containers a scale plan removes.
use mathlib.Core.Bool.{true≢false}
use mathlib.Core.Option.{some-injective, none-ne-some}
use docker_faas.Base.{
  String, ◌≡◌, refl, sym, ap, ◌∙◌, ◌↔◌, ◌⊎◌, inl, inr, true, false, none, List, ◌++◌, map, eq_iff,
  ◌==◌, Bool-cases, Option-cases, All, In, nat_eq, string_eq, bool_eq,
}
use docker_faas.Base.Int.{ℤ, leb_ℤ, int_eq}
use docker_faas.Base.Assoc.{lookup}
use docker_faas.Base.Membership.{In-append, In-map, In-eq, All-of-In, In-of-All}
use docker_faas.Provider.Plan.Keeper.{AsGood, keeper-In, keeper-AsGood}
use docker_faas.Provider.Containers.{Summary, container_replica_index}
use docker_faas.Provider.Plan.{
  ReplicaScalePlan, Group, members, keeper, scan, extras, excess, build_replica_scale_plan,
}
use docker_faas.Provider.Plan.Groups.{lookup_of_In, In-of_lookup}
use docker_faas.Provider.Plan.Members.{
  start, groups, groups-UniqueKeys, In-groups, IsExtra, In-extras, In-excess, In-unindexed,
}
use docker_faas.Provider.Plan.Replicas.{replicas, In-replicas, In-groups-replicas}

-- The ids of the containers that a plan removes beside the stale ones
abbrev pub removed_ids : ReplicaScalePlan → List String
removed_ids plan = map (λ c. c.id) plan.active_to_remove

-- No two containers have the same id.
abbrev pub DistinctIds : List Summary → Type 0
DistinctIds cs = (c d : Summary) → In c cs → In d cs → c.id ≡ d.id → c ≡ d

-- The group that a replica stands in
group_of :
    (cs : List Summary) (target i : ℤ) (c : Summary)
    → In c (replicas i cs)
    → (g : Group) × In (i, g) (groups cs target) × In c (members g)
group_of cs target i c h =
    let k = (In-groups-replicas cs target i c).1 h in
    elim (Option-cases (lookup i (groups cs target))) [
      | inl e ↦ absurd (rw e at k)
      | inr (g, e) ↦ (g, In-of_lookup i g (groups cs target) e, rw e at k)
    ]

-- The three kinds of containers that a plan removes
pub active_iff :
    (cs : List Summary) (target : ℤ) (c : Summary)
    → In c (build_replica_scale_plan cs target).active_to_remove ↔ (
        (In c (scan target cs start).unindexed ⊎ In c (extras (groups cs target)))
        ⊎ In c (map (λ k. k.1) (excess target (groups cs target))))
unfolding build_replica_scale_plan
active_iff cs target c =
    let s = scan target cs start in
    let outer =
      In-append c (s.unindexed ++ extras s.grouped) (map (λ k. k.1) (excess target s.grouped)) in
    let inner = In-append c s.unindexed (extras s.grouped) in
    (
      λ h. elim (outer.0 h) [ inl k ↦ inl (inner.0 k) | inr k ↦ inr k ],
      λ h. outer.1 (elim h [ inl k ↦ inl (inner.1 k) | inr k ↦ inr k ]),
    )

-- The members of a group that the plan removes
In-active :
    (cs : List Summary) (target i : ℤ) (g : Group) (c : Summary)
    → In (i, g) (groups cs target)
    → In c (members g)
    → (c.id ≡ (keeper g).id) ⊎ In c (build_replica_scale_plan cs target).active_to_remove
In-active cs target i g c h k = elim (Bool-cases (c.id == (keeper g).id)) [
  | inl e ↦ inl ((eq_iff c.id (keeper g).id).0 e)
  | inr e ↦ inr (
      (active_iff cs target c).1
        (inl (inr ((In-extras c (groups cs target)).1 ((i, g), h, (k, e))))))
]

keeper-active :
    (cs : List Summary) (target i : ℤ) (g : Group)
    → In (i, g) (groups cs target)
    → leb_ℤ target i ≡ true
    → In (keeper g) (build_replica_scale_plan cs target).active_to_remove
keeper-active cs target i g h t =
    let x : ℤ × Summary = (i, keeper g) in
    let e = (In-excess x target (groups cs target)).1 ((i, g), h, (refl, t)) in
    (active_iff cs target (keeper g)).1
      (inr ((In-map (λ k. k.1) (keeper g) (excess target (groups cs target))).1 (x, e, refl)))

-- A container that is not stale and whose replica index is at or above the target is removed: its
-- id is among the removed ones.
pub above_target_removed :
    (cs : List Summary) (target i : ℤ) (c : Summary)
    → In c (replicas i cs)
    → leb_ℤ target i ≡ true
    → In c.id (removed_ids (build_replica_scale_plan cs target))
above_target_removed cs target i c h t =
    let (g, l, k) = group_of cs target i c h in
    let plan = build_replica_scale_plan cs target in
    let ids = In-map (λ d. d.id) c.id plan.active_to_remove in
    elim (In-active cs target i g c l k) [
      | inl e ↦ ids.1 (keeper g, keeper-active cs target i g l t, e)
      | inr a ↦ ids.1 (c, a, refl)
    ]

-- Where a removed container comes from
active-cases :
    (cs : List Summary) (target : ℤ) (c : Summary)
    → In c (build_replica_scale_plan cs target).active_to_remove
    → (In c cs × (container_replica_index c ≡ none))
      ⊎ ((p : ℤ × Group) × In p (groups cs target)
          × (IsExtra c p.1 ⊎ ((c ≡ keeper p.1) × (leb_ℤ target p.0 ≡ true))))
active-cases cs target c h = elim ((active_iff cs target c).0 h) [
  | inl r ↦ elim r [
    | inl u ↦ elim (In-unindexed target c cs start u) [ inl b ↦ absurd b | inr k ↦ inl k ]
    | inr x ↦ let (p, m, y) = (In-extras c (groups cs target)).0 x in inr (p, m, inl y)
  ]
  | inr x ↦
      let (q, l, e) = (In-map (λ k. k.1) c (excess target (groups cs target))).0 x in
      let (p, m, r) = (In-excess q target (groups cs target)).0 l in
      inr (p, m, inr (e ∙ ap (λ o. o.1) r.0, r.1))
]

-- The replicas of an index are all in its group.
In-group :
    (cs : List Summary) (target i : ℤ) (g : Group) (d : Summary)
    → In (i, g) (groups cs target)
    → In d (replicas i cs)
    → In d (members g)
In-group cs target i g d l m =
    let e = lookup_of_In i g (groups cs target) (groups-UniqueKeys cs target) l in
    rw e at ((In-groups-replicas cs target i d).1 m)

-- A container stands in one group.
one_group :
    (cs : List Summary) (target i j : ℤ) (g f : Group) (c : Summary)
    → In (i, g) (groups cs target)
    → In c (members g)
    → In (j, f) (groups cs target)
    → In c (members f)
    → (i ≡ j) × (g ≡ f)
one_group cs target i j g f c h k l m =
    let (a, b) = In-groups cs target i g c h k in
    let (d, e) = In-groups cs target j f c l m in
    let same : i ≡ j = some-injective i j (sym b.1 ∙ e.1) in
    let x = lookup_of_In i g (groups cs target) (groups-UniqueKeys cs target) h in
    let y = lookup_of_In j f (groups cs target) (groups-UniqueKeys cs target) l in
    (same, some-injective g f (sym x ∙ ap (λ o. lookup o (groups cs target)) same ∙ y))

-- The keeper of a group below the target is none of the containers that are removed.
keeper_apart :
    (cs : List Summary) (target i : ℤ) (g : Group)
    → In (i, g) (groups cs target)
    → leb_ℤ target i ≡ false
    → ¬ In (keeper g) (build_replica_scale_plan cs target).active_to_remove
keeper_apart cs target i g l t h = elim (active-cases cs target (keeper g) h) [
  | inl (k, n) ↦ none-ne-some i (sym n ∙ (In-groups cs target i g (keeper g) l (keeper-In g)).1.1)
  | inr (p, m, r) ↦ elim r [
    | inl (k, u) ↦
        let (e, f) = one_group cs target i p.0 g p.1 (keeper g) l (keeper-In g) m k in
        true≢false (sym ((eq_iff (keeper g).id (keeper p.1).id).1 (ap (λ o. (keeper o).id) f)) ∙ u)
    | inr (q, u) ↦
        let k = In-eq (keeper g) (keeper p.1) (members p.1) q (keeper-In p.1) in
        let (e, f) = one_group cs target i p.0 g p.1 (keeper g) l (keeper-In g) m k in
        true≢false (sym u ∙ ap (λ o. leb_ℤ target o) (sym e) ∙ t)
  ]
]

active-In :
    (cs : List Summary) (target : ℤ) (c : Summary)
    → In c (build_replica_scale_plan cs target).active_to_remove
    → In c cs
active-In cs target c h = elim (active-cases cs target c h) [
  | inl (k, n) ↦ k
  | inr (p, m, r) ↦ elim r [
    | inl (k, u) ↦ (In-groups cs target p.0 p.1 c m k).0
    | inr (q, u) ↦ rw q ((In-groups cs target p.0 p.1 (keeper p.1) m (keeper-In p.1)).0)
  ]
]

keeper_kept :
    (cs : List Summary) (target i : ℤ) (g : Group)
    → DistinctIds cs
    → In (i, g) (groups cs target)
    → leb_ℤ target i ≡ false
    → ¬ In (keeper g).id (removed_ids (build_replica_scale_plan cs target))
keeper_kept cs target i g distinct l t h =
    let plan = build_replica_scale_plan cs target in
    let (d, a, e) = (In-map (λ c. c.id) (keeper g).id plan.active_to_remove).0 h in
    let k = (In-groups cs target i g (keeper g) l (keeper-In g)).0 in
    let same = distinct (keeper g) d k (active-In cs target d a) e in
    keeper_apart cs target i g l t (rw same a)

-- With distinct ids, an index below the target at which some container `c` is not stale keeps
-- exactly one container: one of the list at that index, which runs if any of the others does and
-- is not older than another in the same condition, whose id is not removed, while every other
-- container at that index, by its id, is in the list of those to remove.
pub one_keeper :
    (cs : List Summary) (target i : ℤ) (c : Summary)
    → DistinctIds cs
    → In c (replicas i cs)
    → leb_ℤ target i ≡ false
    → (k : Summary) × In k (replicas i cs)
      × ¬ In k.id (removed_ids (build_replica_scale_plan cs target))
      × All
          (λ d.
            AsGood k d
            × ((d.id ≡ k.id) ⊎ In d (build_replica_scale_plan cs target).active_to_remove))
          (replicas i cs)
one_keeper cs target i c distinct h t =
    let (g, l, k) = group_of cs target i c h in
    (
      keeper g,
      (In-replicas i (keeper g) cs).1 (In-groups cs target i g (keeper g) l (keeper-In g)),
      λ x. keeper_kept cs target i g distinct l t x,
      All-of-In _ (replicas i cs) (λ d m.
          let j = In-group cs target i g d l m in
          (
            In-of-All (λ a. AsGood (keeper g) a) d (members g) (keeper-AsGood g) j,
            In-active cs target i g d l j,
          )),
    )
