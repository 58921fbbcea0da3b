-- ===== src/Provider/Plan/Members.antt =====
-- Which containers and indices stand in the lists that a scale plan is made of.
use mathlib.Core.Bool.{true≢false}
use docker_faas.Base.{
  ℕ, zero, suc, ◌+◌, ◌≤◌, ◌<◌, ◌≡◌, refl, sym, ap, ◌∙◌, ◌≢◌, ◌↔◌, ◌⊎◌, inl, inr, true, false, not,
  none, some, List, [], ◌∷◌, arith, ◌==◌, Bool-cases, Option-cases, keep, In, nat_eq, string_eq,
  bool_eq,
}
use docker_faas.Base.Int.{ℤ, pos, leb_ℤ, int_eq}
use docker_faas.Base.Assoc.{Assoc, lookup}
use docker_faas.Base.Membership.{In-append, In-keep}
use docker_faas.Provider.Containers.{Summary, is_stale, container_replica_index}
use docker_faas.Provider.Plan.{
  Group, members, keeper, Scan, scan_index, scan_container, scan, extras, missing_from,
  insert_sorted, excess,
}
use docker_faas.Provider.Plan.Groups.{
  IsAt, UniqueKeys, lookup_of_In, InGroup, scan-UniqueKeys, InGroup-scan,
}

abbrev pub start : Scan
start = record { stale = []; unindexed = []; grouped = [] }

-- The groups that the loop over the containers ends with
abbrev pub groups : List Summary → ℤ → Assoc ℤ Group
groups cs target = (scan target cs start).grouped

pub groups-UniqueKeys : (cs : List Summary) (target : ℤ) → UniqueKeys (groups cs target)
groups-UniqueKeys cs target = scan-UniqueKeys target cs start tt

pub InGroup-groups :
    (cs : List Summary) (target i : ℤ) (c : Summary)
    → InGroup (lookup i (groups cs target)) c ↔ (In c cs × IsAt i c)
unfolding lookup
InGroup-groups cs target i c =
    let e = InGroup-scan target i c cs start in
    (λ h. elim (e.0 h) [ inl b ↦ absurd b | inr k ↦ k ], λ k. e.1 (inr k))

-- The containers that stand in a group of the loop's result
pub In-groups :
    (cs : List Summary) (target i : ℤ) (g : Group) (c : Summary)
    → In (i, g) (groups cs target)
    → In c (members g)
    → In c cs × IsAt i c
In-groups cs target i g c h k =
    let l = lookup_of_In i g (groups cs target) (groups-UniqueKeys cs target) h in
    (InGroup-groups cs target i c).0 (rw l k)

-- A container of a group other than its keeper
abbrev pub IsExtra : Summary → Group → Type 0
IsExtra c g = In c (members g) × ((c.id == (keeper g).id) ≡ false)

pub In-keep_extras :
    (c : Summary) (g : Group)
    → In c (keep (λ d. not (d.id == (keeper g).id)) (members g)) ↔ IsExtra c g
In-keep_extras c g =
    let e = In-keep (λ d. not (d.id == (keeper g).id)) c (members g) in
    (λ h. let (i, t) = e.0 h in (i, ground (arith, t)), λ (i, t). e.1 (i, ground (arith, t)))

pub In-extras :
    (c : Summary) (m : Assoc ℤ Group) → In c (extras m) ↔ ((p : ℤ × Group) × In p m × IsExtra c p.1)
unfolding extras
In-extras c [] = (λ h. absurd h, λ (p, h, e). absurd h)
In-extras c ((i, g) ∷ m) =
    let split = In-append c (keep (λ d. not (d.id == (keeper g).id)) (members g)) (extras m) in
    (
      λ h. elim (split.0 h) [
        | inl k ↦ ((i, g), inl refl, (In-keep_extras c g).0 k)
        | inr k ↦ let (p, q, e) = (In-extras c m).0 k in (p, inr q, e)
      ],
      λ (p, h, e). split.1 (elim h [
        | inl q ↦ inl ((In-keep_extras c g).1 (rw q at e))
        | inr k ↦ inr ((In-extras c m).1 (p, k, e))
      ]),
    )

pub In-insert_sorted :
    (x k : ℤ × Summary) (l : List (ℤ × Summary)) → In x (insert_sorted k l) ↔ ((x ≡ k) ⊎ In x l)
unfolding insert_sorted
In-insert_sorted x k [] = (λ h. h, λ h. h)
In-insert_sorted x k (j ∷ l) = ground (arith, In-insert_sorted x k l)

-- The keeper of a group at or above the target, with its index
abbrev pub IsExcess : ℤ × Summary → ℤ → ℤ × Group → Type 0
IsExcess x target p = (x ≡ (p.0, keeper p.1)) × (leb_ℤ target p.0 ≡ true)

pub In-excess :
    (x : ℤ × Summary) (target : ℤ) (m : Assoc ℤ Group)
    → In x (excess target m) ↔ ((p : ℤ × Group) × In p m × IsExcess x target p)
unfolding excess
In-excess x target [] = (λ h. absurd h, λ (p, h, e). absurd h)
In-excess x target ((i, g) ∷ m) = elim (Bool-cases (leb_ℤ target i)) [
  | inl t ↦
      let e = In-insert_sorted x (i, keeper g) (excess target m) in
      rw t (
        λ h. elim (e.0 h) [
          | inl q ↦ ((i, g), inl refl, (q, t))
          | inr k ↦ let (p, j, r) = (In-excess x target m).0 k in (p, inr j, r)
        ],
        λ (p, h, r). e.1 (elim h [
          | inl q ↦ inl (r.0 ∙ ap (λ o. (o.0, keeper o.1)) q)
          | inr k ↦ inr ((In-excess x target m).1 (p, k, r))
        ]),
      )
  | inr t ↦ rw t (
    λ h. let (p, j, r) = (In-excess x target m).0 h in (p, inr j, r),
    λ (p, h, r). elim h [
      | inl q ↦ absurd (true≢false (sym r.1 ∙ ap (λ o. leb_ℤ target o.0) q ∙ t))
      | inr k ↦ (In-excess x target m).1 (p, k, r)
    ],
  )
]

pub missing_here :
    (i from : ℕ) (m : Assoc ℤ Group)
    → lookup (pos from) m ≡ none
    → i ≡ from
    → lookup (pos i) m ≡ none
missing_here i from m e q = rw q e

pub present_here :
    (i from : ℕ) (m : Assoc ℤ Group) (g : Group)
    → lookup (pos from) m ≡ some g
    → lookup (pos i) m ≡ none
    → i ≢ from
present_here i from m g e n q = cc

pub In-missing :
    (i n from : ℕ) (m : Assoc ℤ Group)
    → In i (missing_from n from m) ↔ ((from ≤ i) × (i < from + n) × (lookup (pos i) m ≡ none))
unfolding missing_from
In-missing i zero from m = ground arith
In-missing i (suc n) from m = elim (Option-cases (lookup (pos from) m)) [
  | inl e ↦ rw (In, e) (ground (arith, In-missing i n (from + 1) m, missing_here i from m e))
  | inr (g, e) ↦ rw (In, e) (ground (arith, In-missing i n (from + 1) m, present_here i from m g e))
]

pub container-unindexed :
    (target : ℤ) (c d : Summary) (s : Scan)
    → In c (scan_container target d s).unindexed
    → In c s.unindexed ⊎ ((c ≡ d) × (container_replica_index d ≡ none))
unfolding scan_container scan_index
container-unindexed target c d s h = elim (Bool-cases (is_stale d)) [
  | inl e ↦ inl (rw e at h)
  | inr e ↦ elim (Option-cases (container_replica_index d)) [
    | inr (j, n) ↦ inl (rw (e, n) at h)
    | inl n ↦ elim (Bool-cases (target == pos 0)) [
      | inr z ↦ inl (rw (e, n, z) at h)
      | inl z ↦ elim ((In-append c s.unindexed (d ∷ [])).0 (rw (e, n, z) at h)) [
        | inl k ↦ inl k
        | inr k ↦ elim k [ inl q ↦ inr (q, n) | inr b ↦ absurd b ]
      ]
    ]
  ]
]

pub In-unindexed :
    (target : ℤ) (c : Summary) (cs : List Summary) (s : Scan)
    → In c (scan target cs s).unindexed
    → In c s.unindexed ⊎ (In c cs × (container_replica_index c ≡ none))
unfolding scan
In-unindexed target c [] s h = inl h
In-unindexed target c (d ∷ cs) s h = elim (In-unindexed target c cs (scan_container target d s) h) [
  | inr (i, n) ↦ inr (inr i, n)
  | inl k ↦ elim (container-unindexed target c d s k) [
    | inl j ↦ inl j
    | inr (q, n) ↦ inr (inl q, ap container_replica_index q ∙ n)
  ]
]
