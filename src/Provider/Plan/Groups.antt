-- ===== src/Provider/Plan/Groups.antt =====
-- What the loop over the containers has grouped.
use mathlib.Core.Bool.{false≢true}
use mathlib.Core.List.{append-nil, append_assoc}
use docker_faas.Base.{
  ◌≡◌, refl, sym, ap, ◌∙◌, ◌↔◌, ◌⊎◌, inl, inr, true, false, Option, none, some, List, [], ◌∷◌, ◌++◌,
  arith, if◌then◌else◌, ◌==◌, Bool-cases, Option-cases, keep, In, nat_eq, string_eq, bool_eq,
}
use docker_faas.Base.Int.{ℤ, int_beq_iff, int_eq}
use docker_faas.Base.Assoc.{Assoc, lookup}
use docker_faas.Base.Membership.{In-append}
use docker_faas.Provider.Plan.{Group, members, group_insert, Scan, scan_index, scan_container, scan}
use docker_faas.Provider.Containers.{Summary, is_stale, container_replica_index}

-- A container that is not stale, at a replica index
abbrev pub IsAt : ℤ → Summary → Type 0
IsAt i c = (is_stale c ≡ false) × (container_replica_index c ≡ some i)

abbrev pushed : Option Group → Summary → Group
pushed none d = record { first = d; others = [] }
pushed (some g) d = record g { others = g.others ++ d ∷ [] }

lookup-group_insert :
    (j i : ℤ) (d : Summary) (m : Assoc ℤ Group)
    → lookup i (group_insert j d m) ≡ (if j == i then some (pushed (lookup j m) d) else lookup i m)
unfolding lookup group_insert
lookup-group_insert j i d [] = refl
lookup-group_insert j i d ((k, g) ∷ m) =
    ground (arith, lookup-group_insert j i d m, int_beq_iff k j, int_beq_iff k i, int_beq_iff j i)

-- Each index stands once among the groups.
abbrev pub UniqueKeys : Assoc ℤ Group → Type 0
UniqueKeys [] = Unit
UniqueKeys ((i, g) ∷ m) = (lookup i m ≡ none) × UniqueKeys m

UniqueKeys-group_insert :
    (j : ℤ) (d : Summary) (m : Assoc ℤ Group) → UniqueKeys m → UniqueKeys (group_insert j d m)
unfolding group_insert lookup
UniqueKeys-group_insert j d [] u = (refl, tt)
UniqueKeys-group_insert j d ((k, g) ∷ m) (fresh, u) = elim (Bool-cases (k == j)) [
  | inl e ↦ rw e (fresh, u)
  | inr e ↦ rw e (
    lookup-group_insert j k d m ∙ ground (arith, int_beq_iff k j, int_beq_iff j k),
    UniqueKeys-group_insert j d m u,
  )
]

pub lookup_of_In :
    (i : ℤ) (g : Group) (m : Assoc ℤ Group) → UniqueKeys m → In (i, g) m → lookup i m ≡ some g
unfolding lookup
lookup_of_In i g [] u h = absurd h
lookup_of_In i g ((j, k) ∷ m) (fresh, u) (inl e) = ground (arith, int_beq_iff j i)
lookup_of_In i g ((j, k) ∷ m) (fresh, u) (inr h) =
    ground (arith, int_beq_iff j i, lookup_of_In i g m u h)

pub In-of_lookup : (i : ℤ) (g : Group) (m : Assoc ℤ Group) → lookup i m ≡ some g → In (i, g) m
unfolding lookup
In-of_lookup i g [] h = cc
In-of_lookup i g ((j, k) ∷ m) h = ground (arith, int_beq_iff j i, In-of_lookup i g m)

abbrev pub InGroup : Option Group → Summary → Type 0
InGroup none c = ⊥
InGroup (some g) c = In c (members g)

InGroup-pushed :
    (o : Option Group) (d c : Summary) → In c (members (pushed o d)) ↔ (InGroup o c ⊎ (c ≡ d))
InGroup-pushed none d c = (
  λ h. elim h [ inl e ↦ inr e | inr b ↦ absurd b ],
  λ h. elim h [ inl b ↦ absurd b | inr e ↦ inl e ],
)
InGroup-pushed (some g) d c = ground (arith, In-append c g.others (d ∷ []))

InGroup-group_insert :
    (j i : ℤ) (d c : Summary) (m : Assoc ℤ Group)
    → InGroup (lookup i (group_insert j d m)) c ↔ (InGroup (lookup i m) c ⊎ ((j ≡ i) × (c ≡ d)))
InGroup-group_insert j i d c m = elim (Bool-cases (j == i)) [
  | inl s ↦
      let e : j ≡ i = (int_beq_iff j i).0 s in
      rw (lookup-group_insert j i d m, s)
        (
          λ h. elim ((InGroup-pushed (lookup j m) d c).0 h) [
            | inl k ↦ inl (rw e at k)
            | inr q ↦ inr (e, q)
          ],
          λ h.
              (InGroup-pushed (lookup j m) d c).1
                (elim h [ inl k ↦ inl (rw e k) | inr (p, q) ↦ inr q ]),
        )
  | inr s ↦
      rw (lookup-group_insert j i d m, s)
        (
          λ h. inl h,
          λ h. elim h [
            | inl k ↦ k
            | inr (e, q) ↦ absurd (false≢true (sym s ∙ (int_beq_iff j i).1 e))
          ],
        )
]

container-UniqueKeys :
    (target : ℤ) (c : Summary) (s : Scan)
    → UniqueKeys s.grouped
    → UniqueKeys (scan_container target c s).grouped
unfolding scan_container
container-UniqueKeys target c s u = elim (Bool-cases (is_stale c)) [
  | inl e ↦ rw e u
  | inr e ↦ elim (Option-cases (container_replica_index c)) [
    | inl n ↦ rw (e, n) (ground arith)
    | inr (i, n) ↦ rw (e, n) (UniqueKeys-group_insert i c s.grouped u)
  ]
]

container-stale :
    (target : ℤ) (c : Summary) (cs : List Summary) (s : Scan)
    → (scan_container target c s).stale ++ keep is_stale cs ≡ s.stale ++ keep is_stale (c ∷ cs)
unfolding scan_container keep
container-stale target c cs s = elim (Bool-cases (is_stale c)) [
  | inl e ↦ rw e (append_assoc s.stale (c ∷ []) (keep is_stale cs))
  | inr e ↦ elim (Option-cases (container_replica_index c)) [
    | inl n ↦ rw (e, n) (ground arith)
    | inr (i, n) ↦ rw (e, n) refl
  ]
]

index-none :
    (target : ℤ) (d : Summary) (s : Scan) → (scan_index target d none s).grouped ≡ s.grouped
unfolding scan_index
index-none target d s = ground arith

not_stale : (c d : Summary) (i : ℤ) → c ≡ d → is_stale d ≡ true → IsAt i c → ⊥
not_stale c d i q e (a, b) = absurd (false≢true (sym a ∙ ap is_stale q ∙ e))

not_indexed : (c d : Summary) (i : ℤ) → c ≡ d → container_replica_index d ≡ none → IsAt i c → ⊥
not_indexed c d i q n (a, b) = cc

at_index :
    (c d : Summary) (j i : ℤ)
    → c ≡ d
    → j ≡ i
    → is_stale d ≡ false
    → container_replica_index d ≡ some j
    → IsAt i c
at_index c d j i q p e n = (ap is_stale q ∙ e, ap container_replica_index q ∙ n ∙ ap some p)

same_index :
    (c d : Summary) (j i : ℤ) → c ≡ d → container_replica_index d ≡ some j → IsAt i c → j ≡ i
same_index c d j i q n (a, b) = cc

InGroup-container :
    (target i : ℤ) (c d : Summary) (s : Scan)
    → InGroup (lookup i (scan_container target d s).grouped) c
      ↔ (InGroup (lookup i s.grouped) c ⊎ ((c ≡ d) × IsAt i c))
unfolding scan_container
InGroup-container target i c d s = elim (Bool-cases (is_stale d)) [
  | inl e ↦ rw e (inl, λ h. elim h [ inl k ↦ k | inr (q, a) ↦ absurd (not_stale c d i q e a) ])
  | inr e ↦ elim (Option-cases (container_replica_index d)) [
    | inl n ↦
        rw (e, n, index-none target d s)
          (inl, λ h. elim h [ inl k ↦ k | inr (q, a) ↦ absurd (not_indexed c d i q n a) ])
    | inr (j, n) ↦
        rw (e, n)
          (
            λ h. elim ((InGroup-group_insert j i d c s.grouped).0 h) [
              | inl k ↦ inl k
              | inr (p, q) ↦ inr (q, at_index c d j i q p e n)
            ],
            λ h.
                (InGroup-group_insert j i d c s.grouped).1
                  (elim h [ inl k ↦ inl k | inr (q, a) ↦ inr (same_index c d j i q n a, q) ]),
          )
  ]
]

pub scan-UniqueKeys :
    (target : ℤ) (cs : List Summary) (s : Scan)
    → UniqueKeys s.grouped
    → UniqueKeys (scan target cs s).grouped
unfolding scan
scan-UniqueKeys target [] s u = u
scan-UniqueKeys target (c ∷ cs) s u =
    scan-UniqueKeys target cs (scan_container target c s) (container-UniqueKeys target c s u)

pub stale-scan :
    (target : ℤ) (cs : List Summary) (s : Scan)
    → (scan target cs s).stale ≡ s.stale ++ keep is_stale cs
unfolding scan keep
stale-scan target [] s = sym (append-nil _)
stale-scan target (c ∷ cs) s =
    stale-scan target cs (scan_container target c s) ∙ container-stale target c cs s

pub InGroup-scan :
    (target i : ℤ) (c : Summary) (cs : List Summary) (s : Scan)
    → InGroup (lookup i (scan target cs s).grouped) c
      ↔ (InGroup (lookup i s.grouped) c ⊎ (In c cs × IsAt i c))
unfolding scan
InGroup-scan target i c [] s = (inl, λ h. elim h [ inl k ↦ k | inr (b, a) ↦ absurd b ])
InGroup-scan target i c (d ∷ cs) s = ground (
  arith,
  InGroup-scan target i c cs (scan_container target d s),
  InGroup-container target i c d s,
)
