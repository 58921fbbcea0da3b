-- ===== src/Gateway/Invoke/Waiting.antt =====
-- How the wait for a function ends.
use mathlib.Core.Bool.{false≢true}
use docker_faas.Base.{
  ℕ, ◌+◌, String, ◌≡◌, refl, inl, inr, Bool, true, some, List, [], ◌∷◌, ltb, Bool-cases, any,
  Result, ok, err,
}
use docker_faas.Base.Calls.{Result-cases}
use docker_faas.Gateway.Types.{Container}
use docker_faas.Gateway.Services.{Provider, after}
use docker_faas.Gateway.Names.{is_available}
use docker_faas.Gateway.Invoke.{
  is_container_healthy, Round, done, tick, wait_rounds, wait_for_function_ready,
}

-- A round after which the loop cannot go on: the end of the context, or a tick that is later than
-- the deadline.
abbrev pub ends : ℕ → Round → Bool
ends deadline (done e) = true
ends deadline (tick now) = ltb deadline now

wait_rounds-some :
    {W : Type 0} (provider : Provider W) (name : String) (deadline : ℕ) (rounds : List Round)
    (w : W)
    → any (ends deadline) rounds ≡ true
    → (r : Result (Unit {0})) × ((wait_rounds provider name deadline rounds w).0 ≡ some r)
unfolding wait_rounds any
wait_rounds-some provider name deadline [] w h = absurd (false≢true h)
wait_rounds-some provider name deadline (done e ∷ rounds) w h = (err e, refl)
wait_rounds-some provider name deadline (tick now ∷ rounds) w h =
    let seen = is_container_healthy provider name w in
    elim (Bool-cases seen.0) [
      | inl e ↦ (ok tt, rw e refl)
      | inr e ↦ elim (Bool-cases (ltb deadline now)) [
        | inl f ↦ (err "timeout waiting for function to be ready", rw (e, f) refl)
        | inr f ↦
            let (r, k) = wait_rounds-some provider name deadline rounds seen.1 (rw f at h) in
            (r, rw (e, f) k)
      ]
    ]

-- The wait ends once a round comes that ends the context or is later than the deadline: it then
-- returns a result.
pub wait_for_function_ready-some :
    {W : Type 0} (provider : Provider W) (name : String) (start timeout : ℕ) (rounds : List Round)
    (w : W)
    → any (ends (start + timeout)) rounds ≡ true
    → (r : Result (Unit {0})) × ((wait_for_function_ready provider name start timeout rounds w).0
        ≡ some r)
unfolding wait_for_function_ready
wait_for_function_ready-some provider name start timeout rounds w h =
    wait_rounds-some provider name (start + timeout) rounds w h

-- The state in which a poll finds a container that is available
abbrev pub IsReadyIn : {W : Type 0} → Provider W → String → W → Type 0
IsReadyIn {W} provider name after =
    (before : W) × (containers : List Container) × (provider.get_function_containers name before
      ≡ (ok containers, after))
    × (any is_available containers ≡ true)

healthy-IsReadyIn :
    {W : Type 0} (provider : Provider W) (name : String) (w : W)
    → (is_container_healthy provider name w).0 ≡ true
    → IsReadyIn provider name (is_container_healthy provider name w).1
unfolding is_container_healthy
healthy-IsReadyIn provider name w h =
    let poll = provider.get_function_containers name w in
    elim (Result-cases poll.0) [
      | inr (t, e) ↦ absurd (false≢true (rw e at h))
      | inl (containers, e) ↦ (w, containers, rw e refl, rw e at h)
    ]

not_timeout : (text : String) (r : Result (Unit {0})) → r ≡ err text → ¬ (some r ≡ some (ok tt))
not_timeout text r e h = cc

wait_rounds-ready :
    {W : Type 0} (provider : Provider W) (name : String) (deadline : ℕ) (rounds : List Round)
    (w : W)
    → (wait_rounds provider name deadline rounds w).0 ≡ some (ok tt)
    → IsReadyIn provider name (wait_rounds provider name deadline rounds w).1
unfolding wait_rounds
wait_rounds-ready provider name deadline [] w h = cc
wait_rounds-ready provider name deadline (done e ∷ rounds) w h = cc
wait_rounds-ready provider name deadline (tick now ∷ rounds) w h =
    let seen = is_container_healthy provider name w in
    elim (Bool-cases seen.0) [
      | inl e ↦ rw e (healthy-IsReadyIn provider name w e)
      | inr e ↦ elim (Bool-cases (ltb deadline now)) [
        | inl f ↦ absurd (not_timeout _ _ refl (rw (e, f) at h))
        | inr f ↦
            rw (e, f) (wait_rounds-ready provider name deadline rounds seen.1 (rw (e, f) at h))
      ]
    ]

-- Where the wait returns without an error, its last poll has found an available container.
pub wait_for_function_ready-ready :
    {W : Type 0} (provider : Provider W) (name : String) (start timeout : ℕ) (rounds : List Round)
    (w : W)
    → (wait_for_function_ready provider name start timeout rounds w).0 ≡ some (ok tt)
    → IsReadyIn provider name (wait_for_function_ready provider name start timeout rounds w).1
unfolding wait_for_function_ready
wait_for_function_ready-ready provider name start timeout rounds w h =
    wait_rounds-ready provider name (start + timeout) rounds w h
