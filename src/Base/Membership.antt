-- ===== src/Base/Membership.antt =====
-- Membership of a list through the list functions.
use mathlib.Core.Path.{◌≡◌, refl, ap, ◌∙◌}
use mathlib.Core.Logic.{◌↔◌, ◌⊎◌, inl, inr}
use mathlib.Core.Bool.{Bool, true}
use mathlib.Core.List.{List, [], ◌∷◌, ◌++◌, map}
use native.Mathlib.Omega.{arith}
use docker_faas.Base.Tests.{Bool-cases}
use docker_faas.Base.Lists.{keep, All, In}

pub In-append : {A : Type 0} (x : A) (xs ys : List A) → In x (xs ++ ys) ↔ (In x xs ⊎ In x ys)
In-append x [] ys = (inr, λ h. elim h [ inl a ↦ absurd a | inr b ↦ b ])
In-append x (y ∷ xs) ys = ground (arith, In-append x xs ys)

pub In-map :
    {A B : Type 0} (f : A → B) (b : B) (l : List A)
    → In b (map f l) ↔ ((a : A) × In a l × (b ≡ f a))
In-map f b [] = (λ h. absurd h, λ (a, h, e). absurd h)
In-map f b (x ∷ l) = (
  λ h. elim h [
    | inl e ↦ (x, inl refl, e)
    | inr k ↦ let (a, i, e) = (In-map f b l).0 k in (a, inr i, e)
  ],
  λ (a, h, e). elim h [ inl p ↦ inl (e ∙ ap f p) | inr k ↦ inr ((In-map f b l).1 (a, k, e)) ],
)

pub In-keep :
    {A : Type 0} (p : A → Bool) (a : A) (l : List A) → In a (keep p l) ↔ (In a l × (p a ≡ true))
unfolding keep
In-keep p a [] = (λ h. absurd h, λ (h, e). absurd h)
In-keep p a (x ∷ l) = elim (Bool-cases (p x)) [
  | inl e ↦ rw e (ground (arith, In-keep p a l, e))
  | inr e ↦ rw e (ground (arith, In-keep p a l, e))
]

pub In-head : {A : Type 0} (l : List A) → ((a : A) → ¬ In a l) → l ≡ []
In-head [] h = refl
In-head (x ∷ l) h = absurd (h x (inl refl))

pub In-eq : {A : Type 0} (a b : A) (l : List A) → a ≡ b → In b l → In a l
In-eq a b l e h = rw e h

pub All-of-In : {A : Type 0} (P : A → Type 0) (l : List A) → ((a : A) → In a l → P a) → All P l
All-of-In P [] f = tt
All-of-In P (x ∷ l) f = (f x (inl refl), All-of-In P l (λ a h. f a (inr h)))

pub In-of-All : {A : Type 0} (P : A → Type 0) (a : A) (l : List A) → All P l → In a l → P a
In-of-All P a [] h k = absurd k
In-of-All P a (x ∷ l) (h, r) (inl e) = rw e h
In-of-All P a (x ∷ l) (h, r) (inr k) = In-of-All P a l r k
