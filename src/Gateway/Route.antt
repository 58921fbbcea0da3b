-- ===== src/Gateway/Route.antt =====
-- `HandleInvokeFunction` of pkg/gateway/handlers.go over the router, which is a call of its interface.
-- Headers and the duration of an invocation are left out.
pub mod Ready
use Prim.Native.String
use docker_faas.Base.{
  ℕ, ◌*◌, ◌^◌, String, not, Option, none, some, List, ◌++◌, if◌then◌else◌, ◌==◌, length, keep,
  Result, ok, err, nat_eq, string_eq, bool_eq,
}
use docker_faas.Base.Calls.{Call}
use docker_faas.Gateway.Types.{FunctionMetadata, Container}
use docker_faas.Gateway.Services.{function_invoked, Services, Response, respond}
use docker_faas.Gateway.Names.{validate_function_name, normalize_function_name, is_available}
use docker_faas.Gateway.Scale.{scale_from_zero}
use docker_faas.Gateway.Invoke.{Round, wait_for_function_ready}

-- What the handler is given: the name in the path, what reading the body and making the new request
-- come to, the time at which the wait begins, and the rounds of its `select`.
pub record Invocation : Type 0 where
  pub path_name : String
  pub body : Result String
  pub new_request : Result (Unit {0})
  pub start : ℕ
  pub rounds : List Round

-- `RouteRequest`, for a function and a body
abbrev pub RouteRequest : Type 0 → Type 0
RouteRequest W = String → String → Call W Response

-- `30*time.Second`
abbrev pub ready_timeout : ℕ
ready_timeout = 30 * 10 ^ 9

module _ {W : Type 0} where
  abbrev finish_route : Services W → String → Result Response × W → Response × W
  finish_route g name (err e, w) = (
    respond 500 (String.◌++◌ "Failed to invoke function: " e),
    g.metric (function_invoked name 500) w,
  )
  finish_route g name (ok resp, w) = (resp, g.metric (function_invoked name resp.status) w)

  abbrev send_request :
      Services W → RouteRequest W → String → String → Result (Unit {0}) → W → Response × W
  send_request g route name body (err e) w = (respond 500 "Failed to create request", w)
  send_request g route name body (ok u) w = finish_route g name (route name body w)

  abbrev forward_read :
      Services W → RouteRequest W → String → Result String → Result (Unit {0}) → W → Response × W
  forward_read g route name (err e) request w = (respond 400 "Failed to read request body", w)
  forward_read g route name (ok body) request w = send_request g route name body request w

  -- From the reading of the body on
  unfoldable pub forward : Services W → RouteRequest W → String → Invocation → W → Response × W
  forward g route name i w = forward_read g route name i.body i.new_request w

  -- An answer, or `none` while the handler waits
  abbrev pub replied : Response × W → Option Response × W
  replied (r, w) = (some r, w)

  abbrev pub after_wait :
      Services W
      → RouteRequest W
      → String
      → Invocation
      → Option (Result (Unit {0})) × W
      → Option Response × W
  after_wait g route name i (none, w) = (none, w)
  after_wait g route name i (some (err e), w) =
      (some (respond 504 (String.◌++◌ "Function failed to start: " e)), w)
  after_wait g route name i (some (ok u), w) = replied (forward g route name i w)

  abbrev pub after_wake :
      Services W
      → RouteRequest W
      → String
      → Invocation
      → Result (Unit {0}) × W
      → Option Response × W
  after_wake g route name i (err e, w) =
      (some (respond 500 (String.◌++◌ "Failed to scale function: " e)), w)
  after_wake g route name i (ok u, w) =
      after_wait g route name i
        (wait_for_function_ready g.provider name i.start ready_timeout i.rounds w)

  -- `fn` is the function's metadata; the pair is what `GetFunctionContainers` answers.
  unfoldable pub with_containers :
      Services W
      → RouteRequest W
      → String
      → Invocation
      → FunctionMetadata
      → Result (List Container) × W
      → Option Response × W
  with_containers g route name i fn (err e, w) =
      (some (respond 500 "Failed to get function containers"), w)
  with_containers g route name i fn (ok containers, w) =
      let woken = after_wake g route name i (scale_from_zero g fn w) in
      let served = replied (forward g route name i w) in
      if length (keep is_available containers) == 0 then woken else served

  abbrev with_function :
      Services W
      → RouteRequest W
      → String
      → Invocation
      → Result FunctionMetadata × W
      → Option Response × W
  with_function g route name i (err e, w) = (some (respond 404 "Function not found"), w)
  with_function g route name i (ok fn, w) =
      with_containers g route name i fn (g.provider.get_function_containers name w)

  abbrev with_name :
      Services W
      → RouteRequest W
      → String
      → Invocation
      → Result (Unit {0})
      → W
      → Option Response × W
  with_name g route name i (err e) w = (some (respond 400 e), w)
  with_name g route name i (ok u) w = with_function g route name i (g.store.get_function name w)

  unfoldable pub handle_invoke_function :
      Services W → RouteRequest W → Invocation → W → Option Response × W
  unfolding with_containers
  handle_invoke_function g route i w =
      let name = normalize_function_name i.path_name in
      let valid = with_name g route name i (validate_function_name name) w in
      if name == "" then (some (respond 400 "Function name is required"), w) else valid
