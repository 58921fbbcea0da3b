-- ===== src/Gateway/Invoke.antt =====
-- `waitForFunctionReady` and `isContainerHealthy` of pkg/gateway/handlers.go.
pub mod Waiting
use docker_faas.Base.{
  ℕ, ◌+◌, String, Bool, false, Option, none, some, List, [], ◌∷◌, ltb, if◌then◌else◌, any, Result,
  ok, err,
}
use docker_faas.Gateway.Types.{Container}
use docker_faas.Gateway.Services.{Provider}
use docker_faas.Gateway.Names.{is_available}

abbrev found_available : {W : Type 0} → Result (List Container) × W → Bool × W
found_available (err e, w) = (false, w)
found_available (ok containers, w) = (any is_available containers, w)

unfoldable pub is_container_healthy : {W : Type 0} → Provider W → String → W → Bool × W
is_container_healthy provider name w = found_available (provider.get_function_containers name w)

-- What a round of the `select` receives: the end of the context, with its error, or a tick, with
-- the time that `time.Now()` reads afterwards.
pub data Round : Type 0 where
  done : String → Round
  tick : ℕ → Round

-- The loop over the rounds; `none` while no round has ended it.
unfoldable pub wait_rounds :
    {W : Type 0} → Provider W → String → ℕ → List Round → W → Option (Result (Unit {0})) × W
unfolding is_container_healthy
wait_rounds provider name deadline [] w = (none, w)
wait_rounds provider name deadline (done e ∷ rounds) w = (some (err e), w)
wait_rounds provider name deadline (tick now ∷ rounds) w =
    let (healthy, v) = is_container_healthy provider name w in
    let rest = wait_rounds provider name deadline rounds v in
    if healthy
    then (some (ok tt), v)
    else if ltb deadline now
    then (some (err "timeout waiting for function to be ready"), v)
    else rest

-- `start` is the time at which the wait begins.
unfoldable pub wait_for_function_ready :
    {W : Type 0} → Provider W → String → ℕ → ℕ → List Round → W → Option (Result (Unit {0})) × W
unfolding wait_rounds
wait_for_function_ready provider name start timeout rounds w =
    wait_rounds provider name (start + timeout) rounds w
