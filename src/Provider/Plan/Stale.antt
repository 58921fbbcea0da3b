-- ===== src/Provider/Plan/Stale.antt =====
-- Which containers a scale plan takes for stale.
use docker_faas.Base.{
  ◌≡◌, ap, ◌∙◌, ◌↔◌, ◌⊎◌, inl, inr, true, false, List, [], ◌∷◌, arith, ◌==◌, Bool-cases,
  Option-cases, In, nat_eq, string_eq, bool_eq,
}
use docker_faas.Base.Int.{ℤ, pos, int_eq}
use docker_faas.Base.Text.{codes, contains_text, same_text_iff}
use docker_faas.Base.Membership.{In-append, In-map, In-keep}
use docker_faas.Provider.Containers.{
  Summary, folded, is_container_stale_state, is_stale, container_replica_index,
}
use docker_faas.Provider.Plan.{
  keeper, Scan, scan_index, scan_container, scan, excess, build_replica_scale_plan,
}
use docker_faas.Provider.Plan.Keeper.{keeper-In}
use docker_faas.Provider.Plan.Members.{start, groups, In-groups, In-extras, In-excess}
use docker_faas.Provider.Plan.Replicas.{stale_to_remove_keep}
use docker_faas.Provider.Plan.Survivors.{active_iff}

-- The folded state is one of three words, or the folded status contains one of them.
abbrev pub IsStale : Summary → Type 0
IsStale c =
    ((folded c.state ≡ codes "created")
      ⊎ (folded c.state ≡ codes "exited")
      ⊎ (folded c.state ≡ codes "dead"))
    ⊎ (contains_text (folded c.status) (codes "created") ≡ true)
    ⊎ (contains_text (folded c.status) (codes "exited") ≡ true)
    ⊎ (contains_text (folded c.status) (codes "dead") ≡ true)

is_stale_iff : (c : Summary) → (is_stale c ≡ true) ↔ IsStale c
unfolding is_stale is_container_stale_state
is_stale_iff c = ground (
  arith,
  same_text_iff (folded c.state) (codes "created"),
  same_text_iff (folded c.state) (codes "exited"),
  same_text_iff (folded c.state) (codes "dead"),
)

container-alive :
    (target : ℤ) (c d : Summary) (s : Scan)
    → In c (scan_container target d s).unindexed
    → In c s.unindexed ⊎ ((c ≡ d) × (is_stale d ≡ false))
unfolding scan_container scan_index
container-alive target c d s h = elim (Bool-cases (is_stale d)) [
  | inl e ↦ inl (rw e at h)
  | inr e ↦ elim (Option-cases (container_replica_index d)) [
    | inr (j, n) ↦ inl (rw (e, n) at h)
    | inl n ↦ elim (Bool-cases (target == pos 0)) [
      | inr z ↦ inl (rw (e, n, z) at h)
      | inl z ↦ elim ((In-append c s.unindexed (d ∷ [])).0 (rw (e, n, z) at h)) [
        | inl k ↦ inl k
        | inr k ↦ elim k [ inl q ↦ inr (q, e) | inr b ↦ absurd b ]
      ]
    ]
  ]
]

unindexed-alive :
    (target : ℤ) (c : Summary) (cs : List Summary) (s : Scan)
    → In c (scan target cs s).unindexed
    → In c s.unindexed ⊎ (In c cs × (is_stale c ≡ false))
unfolding scan
unindexed-alive target c [] s h = inl h
unindexed-alive target c (d ∷ cs) s h =
    elim (unindexed-alive target c cs (scan_container target d s) h) [
      | inr (i, n) ↦ inr (inr i, n)
      | inl k ↦ elim (container-alive target c d s k) [
        | inl j ↦ inl j
        | inr (q, n) ↦ inr (inl q, ap is_stale q ∙ n)
      ]
    ]

active-alive :
    (cs : List Summary) (target : ℤ) (c : Summary)
    → In c (build_replica_scale_plan cs target).active_to_remove
    → In c cs × (is_stale c ≡ false)
active-alive cs target c h = elim ((active_iff cs target c).0 h) [
  | inl k ↦ elim k [
    | inl u ↦ elim (unindexed-alive target c cs start u) [ inl b ↦ absurd b | inr r ↦ r ]
    | inr e ↦
        let ((i, g), j, (m, n)) = (In-extras c (groups cs target)).0 e in
        let (there, (alive, at)) = In-groups cs target i g c j m in (there, alive)
  ]
  | inr k ↦
      let (x, j, e) = (In-map (λ k. k.1) c (excess target (groups cs target))).0 k in
      let ((i, g), l, (q, t)) = (In-excess x target (groups cs target)).0 j in
      let here : c ≡ keeper g = e ∙ ap (λ o. o.1) q in
      let (there, (alive, at)) = In-groups cs target i g (keeper g) l (keeper-In g) in
      rw here (there, alive)
]

-- A scale plan removes as stale the containers of the list whose state, in lower case and without space
-- around it, is created, exited or dead, or whose status has one of these words; and it removes
-- as excess only containers of the list that are not stale.
pub stale_to_remove_iff :
    (cs : List Summary) (target : ℤ) (c : Summary)
    → (In c (build_replica_scale_plan cs target).stale_to_remove ↔ (In c cs × IsStale c))
      × (In c (build_replica_scale_plan cs target).active_to_remove → In c cs × ¬ IsStale c)
stale_to_remove_iff cs target c =
    let named = is_stale_iff c in
    let same = stale_to_remove_keep cs target in
    let kept = In-keep is_stale c cs in
    (
      rw same (λ h. let (i, s) = kept.0 h in (i, named.0 s), λ (i, s). kept.1 (i, named.1 s)),
      λ h.
          let (i, alive) = active-alive cs target c h in
          (i, λ s. let stale = named.1 s in cc (stale, alive)),
    )
