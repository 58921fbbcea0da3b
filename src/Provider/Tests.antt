-- ===== src/Provider/Tests.antt =====
-- The scale plan and the reconciliation on concrete inputs.
use docker_faas.Base.{
  ◌<◌, String, ◌≡◌, refl, sym, ◌∙◌, ◌↔◌, ◌⊎◌, inl, inr, true, Option, none, some, List, [], ◌∷◌,
  arith, eq_iff, keep, All, contains, In, ok, nat_eq, string_eq, bool_eq,
}
use docker_faas.Base.Int.{ℤ, pos}
use docker_faas.Base.Assoc.{lookup}
use docker_faas.Base.Text.{
  trim_space, to_lower, contains_text, same_text, trim_slash, after_last, atoi,
}
use docker_faas.Provider.Containers.{Summary, is_running, is_stale, container_replica_index}
use docker_faas.Provider.Plan.{
  better, select_replica_keeper, group_insert, scan_container, scan, rounds,
  build_replica_scale_plan,
}
use docker_faas.Provider.Plan.Keeper.{AsGood}
use docker_faas.Provider.Plan.Replicas.{replicas, missing_iff}
use docker_faas.Provider.Plan.Survivors.{removed_ids, DistinctIds, above_target_removed, one_keeper}
use docker_faas.Provider.Plan.Stale.{IsStale, stale_to_remove_iff}
use docker_faas.Provider.Reconciler.{Daemon, names_of, reconcile_once}
use docker_faas.Provider.Reconciler.Attached.{DaemonLaws, Failed, reconcile_once-attached}

abbrev replica : String → String → String → ℤ → Summary
replica id name state created = record {
  id = id;
  names = name ∷ [];
  state = state;
  status = "";
  created = created;
  labels = none;
}

abbrev old_one : Summary
old_one = replica "a" "/fn-0" "running" (pos 1)

abbrev new_one : Summary
new_one = replica "b" "/fn-0" "running" (pos 2)

abbrev high_one : Summary
high_one = replica "c" "/fn-7" "running" (pos 3)

abbrev dead_one : Summary
dead_one = replica "d" "/fn-1" "exited" (pos 4)

abbrev running_ones : List Summary
running_ones = old_one ∷ new_one ∷ high_one ∷ dead_one ∷ []

plan_run : build_replica_scale_plan running_ones (pos 2) ≡ record {
  stale_to_remove = dead_one ∷ [];
  active_to_remove = old_one ∷ high_one ∷ [];
  missing_replica_indices = 1 ∷ [];
}
unfolding build_replica_scale_plan scan lookup scan_container is_stale same_text to_lower trim_space
    contains_text container_replica_index trim_slash after_last atoi group_insert keep
    select_replica_keeper better is_running
plan_run = refl

stale_to_remove_iff_example :
    (In dead_one (build_replica_scale_plan running_ones (pos 2)).stale_to_remove
      ↔ (In dead_one running_ones × IsStale dead_one))
    × (In dead_one (build_replica_scale_plan running_ones (pos 2)).active_to_remove
        → In dead_one running_ones × ¬ IsStale dead_one)
stale_to_remove_iff_example = stale_to_remove_iff running_ones (pos 2) dead_one

missing_iff_example :
    In 1 (build_replica_scale_plan running_ones (pos 2)).missing_replica_indices
    ↔ ((1 < rounds (pos 2)) × (replicas (pos 1) running_ones ≡ []))
missing_iff_example = missing_iff running_ones (pos 2) 1

high_at : In high_one (replicas (pos 7) running_ones)
unfolding replicas keep is_stale same_text to_lower trim_space contains_text container_replica_index
    trim_slash after_last atoi
high_at = inl refl

above_target_removed_example :
    In high_one.id (removed_ids (build_replica_scale_plan running_ones (pos 2)))
above_target_removed_example =
    above_target_removed running_ones (pos 2) (pos 7) high_one high_at refl

abbrev pair_of : List Summary
pair_of = old_one ∷ []

distinct : DistinctIds pair_of
distinct c d (inl e) (inl f) h = e ∙ sym f
distinct c d (inl e) (inr f) h = absurd f
distinct c d (inr e) f h = absurd e

old_at : In old_one (replicas (pos 0) pair_of)
unfolding replicas keep is_stale same_text to_lower trim_space contains_text container_replica_index
    trim_slash after_last atoi
old_at = inl refl

one_keeper_example :
    (k : Summary) × In k (replicas (pos 0) pair_of)
    × ¬ In k.id (removed_ids (build_replica_scale_plan pair_of (pos 2)))
    × All
        (λ d.
          AsGood k d
          × ((d.id ≡ k.id) ⊎ In d (build_replica_scale_plan pair_of (pos 2)).active_to_remove))
        (replicas (pos 0) pair_of)
one_keeper_example = one_keeper pair_of (pos 2) (pos 0) old_one distinct old_at refl

-- A daemon whose state is the list of the networks of the gateway's container
abbrev memory : Daemon (List String)
memory = record {
  container_inspect = λ id w. (ok (some w), w);
  network_connect = λ name id w. (ok tt, name ∷ w);
  list_networks = λ w. (ok ("fn-a" ∷ "" ∷ []), w);
}

contains-head : (name : String) (l : List String) → contains (name ∷ l) name ≡ true
unfolding contains
contains-head name l = ground (arith, eq_iff name name)

contains-tail :
    (name other : String) (l : List String)
    → contains l other ≡ true
    → contains (name ∷ l) other ≡ true
unfolding contains
contains-tail name other l h = ground arith

some_names :
    (s : Option (List String)) (w : List String) (other : String)
    → ok (some w) ≡ ok s
    → contains (names_of s) other ≡ true
    → contains w other ≡ true
some_names s w other e h = let f : some w ≡ s = cc in rw (← f) at h

memory_laws : DaemonLaws memory "gw" (λ w. w)
memory_laws = record {
  connects = λ name w h. contains-head name w;
  grows = λ name other w h. contains-tail name other w h;
  inspect_names = λ s other w e h. some_names s w other e h;
  list_keeps = λ w. refl;
}

reconcile_once-attached_example :
    (contains (reconcile_once memory "gw" ("bridge" ∷ [])).1 "fn-a" ≡ true)
    ⊎ Failed memory "gw"
        (λ w. w)
        memory_laws
        ("bridge" ∷ [])
        ("fn-a" ∷ "" ∷ [])
        "fn-a"
        0
        ("bridge" ∷ [])
reconcile_once-attached_example =
    reconcile_once-attached memory "gw" (λ w. w) memory_laws (some ("bridge" ∷ []))
      ("fn-a" ∷ "" ∷ []) "fn-a" ("bridge" ∷ []) refl refl refl (inl refl) refl
