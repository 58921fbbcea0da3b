-- ===== src/Provider/Plan/Keeper.antt =====
-- The container that is kept of a group.
use docker_faas.Base.{
  ◌≡◌, refl, ◌∙◌, ◌⊎◌, inl, inr, Bool, true, not, List, [], ◌∷◌, arith, if◌then◌else◌, ◌==◌, All,
  In, nat_eq, string_eq, bool_eq,
}
use docker_faas.Base.Int.{ltb_ℤ}
use docker_faas.Provider.Containers.{Summary, is_running}
use docker_faas.Provider.Plan.{better, keeper_from, select_replica_keeper, Group, members, keeper}

-- `k` is to be kept rather than `c`: it runs and `c` does not, or both are in the same condition and
-- it is not older.
unfoldable pub as_good : Summary → Summary → Bool
as_good k c = if is_running k == is_running c then not (ltb_ℤ k.created c.created) else is_running k

abbrev pub AsGood : Summary → Summary → Type 0
AsGood k c = as_good k c ≡ true

AsGood-refl : (k : Summary) → AsGood k k
unfolding as_good
AsGood-refl k = ground arith

AsGood-trans : (k c d : Summary) → AsGood k c → AsGood c d → AsGood k d
unfolding as_good
AsGood-trans k c d p q = ground arith

better_keeper : (k c : Summary) → AsGood (better k c) k
unfolding better as_good
better_keeper k c = ground arith

better_candidate : (k c : Summary) → AsGood (better k c) c
unfolding better as_good
better_candidate k c = ground arith

better_either : (k c : Summary) → (better k c ≡ k) ⊎ (better k c ≡ c)
unfolding better
better_either k c = ground arith

keeper_from-In :
    (k : Summary) (group : List Summary)
    → (keeper_from k group ≡ k) ⊎ In (keeper_from k group) group
unfolding keeper_from
keeper_from-In k [] = inl refl
keeper_from-In k (c ∷ group) = elim (keeper_from-In (better k c) group) [
  | inr i ↦ inr (inr i)
  | inl e ↦ elim (better_either k c) [ inl b ↦ inl (e ∙ b) | inr b ↦ inr (inl (e ∙ b)) ]
]

-- The keeper of a group is one of its containers.
pub keeper-In : (g : Group) → In (keeper g) (members g)
unfolding select_replica_keeper
keeper-In g = keeper_from-In g.first g.others

keeper_from-AsGood :
    (k : Summary) (group : List Summary)
    → AsGood (keeper_from k group) k × All (λ c. AsGood (keeper_from k group) c) group
unfolding keeper_from
keeper_from-AsGood k [] = (AsGood-refl k, tt)
keeper_from-AsGood k (c ∷ group) =
    let (here, rest) = keeper_from-AsGood (better k c) group in
    (
      AsGood-trans _ _ _ here (better_keeper k c),
      (AsGood-trans _ _ _ here (better_candidate k c), rest),
    )

-- The keeper of a group runs if any of its containers does, and is not older than one in the same
-- condition.
pub keeper-AsGood : (g : Group) → All (λ c. AsGood (keeper g) c) (members g)
unfolding select_replica_keeper
keeper-AsGood g = keeper_from-AsGood g.first g.others
