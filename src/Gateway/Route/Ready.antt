-- ===== src/Gateway/Route/Ready.antt =====
-- A call is routed only to a function with an available container.
use Prim.Native.String
use docker_faas.Base.{
  ◌≤◌, String, ◌≡◌, refl, ◌⊎◌, inl, inr, Bool, true, false, Option, none, some, List, [], ◌∷◌,
  arith, ◌==◌, Bool-cases, length, keep, any, Result, ok, err, nat_eq, string_eq, bool_eq,
}
use docker_faas.Base.Calls.{Result-cases}
use docker_faas.Gateway.Scale.{scale_from_zero}
use docker_faas.Gateway.Types.{FunctionMetadata}
use docker_faas.Gateway.Services.{Services, Response, respond}
use docker_faas.Gateway.Names.{validate_function_name, normalize_function_name, is_available}
use docker_faas.Gateway.Invoke.{wait_for_function_ready}
use docker_faas.Gateway.Invoke.Waiting.{IsReadyIn, wait_for_function_ready-ready}
use docker_faas.Gateway.Route.{
  Invocation, RouteRequest, ready_timeout, forward, replied, after_wait, after_wake,
  with_containers, handle_invoke_function,
}

-- The end of an invocation without routing: it waits, or is refused with an error status.
abbrev pub IsUnrouted : {W : Type 0} → Option Response × W → Type 0
IsUnrouted out = (out.0 ≡ none) ⊎ ((r : Response) × ((out.0 ≡ some r) × (400 ≤ r.status)))

-- The request was forwarded in a state that a poll with an available container has led to.
abbrev pub IsRouted :
    {W : Type 0} → Services W → RouteRequest W → String → Invocation → Option Response × W → Type 0
IsRouted {W} g route name i out =
    (ready : W) × (IsReadyIn g.provider name ready) × (out ≡ replied (forward g route name i ready))

any-keep :
    {A : Type 0} (p : A → Bool) (l : List A) → (length (keep p l) == 0) ≡ false → any p l ≡ true
unfolding keep any
any-keep p [] h = cc
any-keep p (x ∷ l) h = ground (arith, any-keep p l)

module _ {W : Type 0} (g : Services W) (route : RouteRequest W) (name : String)
    (i : Invocation) where
  waited_lem :
      (p : Option (Result (Unit {0})) × W)
      → (p.0 ≡ some (ok tt) → IsReadyIn g.provider name p.1)
      → IsRouted g route name i (after_wait g route name i p)
        ⊎ IsUnrouted (after_wait g route name i p)
  waited_lem (none, w) h = inr (inl refl)
  waited_lem (some (err e), w) h =
      inr (inr (respond 504 (String.◌++◌ "Function failed to start: " e), (refl, omega arith)))
  waited_lem (some (ok u), w) h = inl (w, h refl, refl)

  woken_lem :
      (p : Result (Unit {0}) × W)
      → IsRouted g route name i (after_wake g route name i p)
        ⊎ IsUnrouted (after_wake g route name i p)
  woken_lem (err e, w) =
      inr (inr (respond 500 (String.◌++◌ "Failed to scale function: " e), (refl, omega arith)))
  woken_lem (ok u, w) =
      waited_lem (wait_for_function_ready g.provider name i.start ready_timeout i.rounds w)
        (λ h. wait_for_function_ready-ready g.provider name i.start ready_timeout i.rounds w h)

  containers_lem :
      (fn : FunctionMetadata) (w : W)
      → IsRouted g route name i
          (with_containers g route name i fn (g.provider.get_function_containers name w))
        ⊎ IsUnrouted (with_containers g route name i fn (g.provider.get_function_containers name w))
  unfolding with_containers
  containers_lem fn w =
      let poll = g.provider.get_function_containers name w in
      elim (Result-cases poll.0) [
        | inr (t, e) ↦
            rw e (inr (inr (respond 500 "Failed to get function containers", (refl, omega arith))))
        | inl (cs, e) ↦ elim (Bool-cases (length (keep is_available cs) == 0)) [
          | inl z ↦ rw (e, z) (woken_lem (scale_from_zero g fn poll.1))
          | inr z ↦ rw (e, z) (inl (poll.1, (w, cs, rw e refl, any-keep is_available cs z), refl))
        ]
      ]

-- An invocation of a function is forwarded to the router only in a state that a poll of its
-- containers has led to in which one was available; otherwise the handler still waits, or it answers
-- with a status of 400 or more.
pub handle_invoke_function_lem :
    {W : Type 0} (g : Services W) (route : RouteRequest W) (i : Invocation) (w : W)
    → IsRouted g route (normalize_function_name i.path_name) i (handle_invoke_function g route i w)
      ⊎ IsUnrouted (handle_invoke_function g route i w)
unfolding handle_invoke_function
handle_invoke_function_lem g route i w =
    let name = normalize_function_name i.path_name in
    elim (Bool-cases (name == "")) [
      | inl z ↦ rw z (inr (inr (respond 400 "Function name is required", (refl, omega arith))))
      | inr z ↦ elim (Result-cases (validate_function_name name)) [
        | inr (t, e) ↦ rw (z, e) (inr (inr (respond 400 t, (refl, omega arith))))
        | inl (u, e) ↦ elim (Result-cases (g.store.get_function name w).0) [
          | inr (t, f) ↦
              rw (z, e, f) (inr (inr (respond 404 "Function not found", (refl, omega arith))))
          | inl (fn, f) ↦
              rw (z, e, f) (containers_lem g route name i fn (g.store.get_function name w).1)
        ]
      ]
    ]
