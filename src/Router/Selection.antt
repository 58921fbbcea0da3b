-- ===== src/Router/Selection.antt =====
-- Which container is selected.
use docker_faas.Base.{
  ℕ, zero, suc, ◌%◌, ◌<◌, String, ◌≡◌, refl, ◌⊎◌, inl, inr, true, some, List, [], ◌∷◌, arith,
  if◌then◌else◌, ◌==◌, Bool-cases, length, get_elem?, keep, In, nat_eq, string_eq, bool_eq,
}
use docker_faas.Base.Assoc.{insert, lookup-insert}
use docker_faas.Base.Membership.{In-keep}
use docker_faas.Gateway.Types.{Container}
use docker_faas.Router.{Counters, counter_of, next_count, is_running_status, pick, select_container}

get_elem?-In :
    {A : Type 0} (l : List A) (i : ℕ) → i < length l → (a : A) × (get_elem? l i ≡ some a) × In a l
get_elem?-In [] i h = absurd (omega (arith, h))
get_elem?-In (x ∷ l) zero h = (x, refl, inl refl)
get_elem?-In (x ∷ l) (suc i) h =
    let (a, e, k) = get_elem?-In l i (omega (arith, h)) in (a, e, inr k)

pick-In :
    (c : Container) (cs running : List Container) (count : ℕ)
    → (a : Container) × (pick (c ∷ cs) running (count % length (c ∷ cs)) ≡ some a)
      × ((In a running) ⊎ ((running ≡ []) × In a (c ∷ cs)))
unfolding pick
pick-In c cs [] count =
    let (a, e, k) = get_elem?-In (c ∷ cs) (count % length (c ∷ cs)) (omega arith) in
    (a, e, inr (refl, k))
pick-In c cs (r ∷ running) count =
    let (a, e, k) =
      get_elem?-In (r ∷ running) (count % length (c ∷ cs) % length (r ∷ running)) (omega arith) in
    (a, e, inl k)

counter-insert :
    (name other : String) (count : ℕ) (m : Counters)
    → counter_of other (insert name count m) ≡ (if name == other then count else counter_of other m)
counter-insert name other count m = elim (Bool-cases (name == other)) [
  | inl e ↦ rw (lookup-insert name other count m, e) refl
  | inr e ↦ rw (lookup-insert name other count m, e) refl
]

-- Of a list of containers that is not empty one is selected: one whose status is "running" or
-- "Up", where there is one, and else any of the list. The counter of the function is advanced by
-- one, modulo 2^64, and those of other functions are kept.
pub select_container_lem :
    (name other : String) (c : Container) (cs : List Container) (m : Counters)
    → (a : Container) × (n : Counters) × (select_container name (c ∷ cs) m ≡ some (a, n))
      × In a (c ∷ cs)
      × ((is_running_status a ≡ true) ⊎ (keep is_running_status (c ∷ cs) ≡ []))
      × (counter_of other n
          ≡ (if name == other then next_count (counter_of name m) else counter_of other m))
unfolding select_container
select_container_lem name other c cs m =
    let count = next_count (counter_of name m) in
    let running = keep is_running_status (c ∷ cs) in
    let (a, e, k) = pick-In c cs running count in
    (
      a,
      insert name count m,
      rw (select_container, e) refl,
      elim k [ inl i ↦ ((In-keep is_running_status a (c ∷ cs)).0 i).0 | inr (n, i) ↦ i ],
      elim k [ inl i ↦ inl ((In-keep is_running_status a (c ∷ cs)).0 i).1 | inr (n, i) ↦ inr n ],
      counter-insert name other count m,
    )
