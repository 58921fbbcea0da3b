-- ===== src/Provider/Plan.antt =====
-- `buildReplicaScalePlan` and `selectReplicaKeeper` of pkg/provider/docker_provider.go. Go leaves the
-- order of a range over a map open; here it is the order in which the keys were first met.
pub mod Keeper
pub mod Groups
pub mod Members
pub mod Replicas
pub mod Survivors
pub mod Stale
use docker_faas.Base.{
  ℕ, zero, suc, ◌+◌, not, ◌&&◌, Option, none, some, List, [], ◌∷◌, ◌++◌, map, if◌then◌else◌, ◌==◌,
  keep, nat_eq, string_eq, bool_eq,
}
use docker_faas.Base.Int.{ℤ, pos, pos_part, leb_ℤ, ltb_ℤ, int_eq}
use docker_faas.Base.Assoc.{Assoc, lookup}
use docker_faas.Provider.Containers.{Summary, is_running, is_stale, container_replica_index}

pub record ReplicaScalePlan : Type 0 where
  pub stale_to_remove : List Summary
  pub active_to_remove : List Summary
  pub missing_replica_indices : List ℕ

-- One round of the loop over `group[1:]`
unfoldable pub better : Summary → Summary → Summary
better keeper candidate =
    if is_running candidate && not (is_running keeper)
    then candidate
    else if (is_running candidate == is_running keeper) && ltb_ℤ keeper.created candidate.created
    then candidate
    else keeper

keeper_from : Summary → List Summary → Summary
keeper_from keeper [] = keeper
keeper_from keeper (candidate ∷ group) = keeper_from (better keeper candidate) group

-- A group is never empty: `first` is `group[0]`.
unfoldable pub select_replica_keeper : Summary → List Summary → Summary
unfolding keeper_from
select_replica_keeper first group = keeper_from first group

-- Non-empty groups of containers by replica index
pub record Group : Type 0 where
  pub first : Summary
  pub others : List Summary

abbrev pub members : Group → List Summary
members g = g.first ∷ g.others

abbrev pub keeper : Group → Summary
keeper g = select_replica_keeper g.first g.others

-- `grouped[i] = append(grouped[i], c)`
unfoldable pub group_insert : ℤ → Summary → Assoc ℤ Group → Assoc ℤ Group
group_insert i c [] = (i, record { first = c; others = [] }) ∷ []
group_insert i c ((j, g) ∷ m) =
    let rest = group_insert i c m in
    if j == i then (j, record g { others = g.others ++ c ∷ [] }) ∷ m else (j, g) ∷ rest

pub record Scan : Type 0 where
  pub stale : List Summary
  pub unindexed : List Summary
  pub grouped : Assoc ℤ Group

unfoldable pub scan_index : ℤ → Summary → Option ℤ → Scan → Scan
scan_index target c none s =
    if target == pos 0 then record s { unindexed = s.unindexed ++ c ∷ [] } else s
scan_index target c (some i) s = record s { grouped = group_insert i c s.grouped }

-- One round of the loop over the containers
unfoldable pub scan_container : ℤ → Summary → Scan → Scan
unfolding scan_index
scan_container target c s =
    if is_stale c
    then record s { stale = s.stale ++ c ∷ [] }
    else scan_index target c (container_replica_index c) s

unfoldable pub scan : ℤ → List Summary → Scan → Scan
scan target [] s = s
scan target (c ∷ containers) s = scan target containers (scan_container target c s)

-- The containers beside the keeper of each group
unfoldable pub extras : Assoc ℤ Group → List Summary
extras [] = []
extras ((i, g) ∷ m) = keep (λ c. not (c.id == (keeper g).id)) (members g) ++ extras m

-- `for replicaIndex := from; n rounds`
unfoldable pub missing_from : ℕ → ℕ → Assoc ℤ Group → List ℕ
missing_from zero from m = []
missing_from (suc n) from m =
    let rest = missing_from n (from + 1) m in
    elim (lookup (pos from) m) [ none ↦ from ∷ rest | some g ↦ rest ]

-- `sort.Ints` of the keys at or above the target, with the keepers
unfoldable pub insert_sorted : ℤ × Summary → List (ℤ × Summary) → List (ℤ × Summary)
insert_sorted k [] = k ∷ []
insert_sorted k (j ∷ l) =
    let rest = insert_sorted k l in if leb_ℤ k.0 j.0 then k ∷ j ∷ l else j ∷ rest

unfoldable pub excess : ℤ → Assoc ℤ Group → List (ℤ × Summary)
unfolding insert_sorted
excess target [] = []
excess target ((i, g) ∷ m) =
    let rest = excess target m in if leb_ℤ target i then insert_sorted (i, keeper g) rest else rest

-- The number of rounds of `for i := 0; i < target; i++`
abbrev pub rounds : ℤ → ℕ
rounds target = pos_part target

unfoldable pub build_replica_scale_plan : List Summary → ℤ → ReplicaScalePlan
unfolding extras missing_from excess
build_replica_scale_plan containers target =
    let s = scan target containers (record { stale = []; unindexed = []; grouped = [] }) in
    record {
      stale_to_remove = s.stale;
      active_to_remove =
          s.unindexed ++ extras s.grouped ++ map (λ k. k.1) (excess target s.grouped);
      missing_replica_indices = missing_from (rounds target) 0 s.grouped;
    }
