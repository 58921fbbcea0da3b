-- ===== src/Gateway/Services.antt =====
-- What the handlers call: the operations of the interfaces `Store` and `Provider` of
-- pkg/gateway/interfaces.go that the modelled handlers use, the gauges of pkg/metrics/metrics.go, and
-- Go's JSON encoder. A call takes the state `W` of what lies outside the gateway to an answer and the
-- next state. A context is left out.
use docker_faas.Base.{ℕ, String, Option, List, Result, ok, err}
use docker_faas.Base.Calls.{Call}
use docker_faas.Base.Int.{ℤ}
use docker_faas.Base.Assoc.{Assoc}
use docker_faas.Gateway.Types.{
  FunctionLimits, FunctionResources, FunctionDeployment, FunctionMetadata, Container,
}

pub data Metric : Type 0 where
  functions_deployed : ℕ → Metric
  function_replicas : String → ℤ → Metric
  function_deleted : String → Metric
  function_invoked : String → ℕ → Metric

pub record Store (W : Type 0) : Type 0 where
  pub list_functions : Call W (List FunctionMetadata)
  pub get_function : String → Call W FunctionMetadata
  pub create_function : FunctionMetadata → Call W (Unit {0})
  pub update_function : FunctionMetadata → Call W (Unit {0})
  pub delete_function : String → Call W (Unit {0})
  pub update_replicas : String → ℤ → Call W (Unit {0})

pub record Provider (W : Type 0) : Type 0 where
  pub deploy_function : FunctionDeployment → ℤ → Call W (Unit {0})
  pub update_function : FunctionDeployment → ℤ → Call W (Unit {0})
  pub remove_function : String → Call W (Unit {0})
  pub scale_function : FunctionDeployment → ℤ → Call W (Unit {0})
  pub get_function_containers : String → Call W (List Container)
  pub cleanup_function_network : String → String → Call W (Unit {0})

-- `json.Marshal`, and the value that `json.Unmarshal` leaves in a variable that was nil. A text of
-- limits that is not JSON is `none`.
pub record Json : Type 0 where
  pub marshal_map : Assoc String String → Result String
  pub marshal_slice : List String → Result String
  pub marshal_limits : FunctionLimits → Result String
  pub marshal_requests : FunctionResources → Result String
  pub unmarshal_map : String → Option (Assoc String String)
  pub unmarshal_slice : String → Option (List String)
  pub unmarshal_limits : String → Option FunctionLimits
  pub unmarshal_requests : String → Option FunctionResources

-- The gateway and what it reaches. `network` is the field of that name of `Gateway`.
pub record Services (W : Type 0) : Type 0 where
  pub store : Store W
  pub provider : Provider W
  pub json : Json
  pub metric : Metric → W → W
  pub network : String

pub record Response : Type 0 where
  pub status : ℕ
  pub body : String

-- The rest of a handler, as `http.Error` and `return` leave it or as it goes on.
pub data Outcome (A : Type 0) : Type 0 where
  stop : Response → Outcome A
  go : A → Outcome A

abbrev pub Act : Type 0 → Type 0 → Type 0
Act W A = W → Outcome A × W

abbrev pub after : {W A B : Type 0} → Outcome A × W → (A → Act W B) → Outcome B × W
after (stop r, w) f = (stop r, w)
after (go a, w) f = f a w

infixl 5 ◌>>=◌ ◌>>◌
abbrev pub ◌>>=◌ : {W A B : Type 0} → Act W A → (A → Act W B) → Act W B
(m >>= f) w = after (m w) f

abbrev pub ◌>>◌ : {W A B : Type 0} → Act W A → Act W B → Act W B
m >> k = m >>= λ _. k

module _ {W : Type 0} where
  abbrev pub pure : {A : Type 0} → A → Act W A
  pure a w = (go a, w)

  -- `http.Error(w, text, status); return`
  abbrev pub fail : {A : Type 0} → ℕ → String → Act W A
  fail status text w = (stop (record { status = status; body = text }), w)

  abbrev settle : {A : Type 0} → (String → Response) → Result A × W → Outcome A × W
  settle on_error (ok a, w) = (go a, w)
  settle on_error (err e, w) = (stop (on_error e), w)

  -- A call whose error ends the handler.
  abbrev pub require : {A : Type 0} → Call W A → (String → Response) → Act W A
  require call on_error w = settle on_error (call w)

  -- A call whose error the handler looks at, or ignores.
  abbrev pub attempt : {A : Type 0} → Call W A → Act W (Result A)
  attempt call w = (go (call w).0, (call w).1)

  abbrev pub effect : (W → W) → Act W (Unit {0})
  effect f w = (go tt, f w)

  abbrev pub answer : Outcome Response × W → Response × W
  answer (stop r, w) = (r, w)
  answer (go r, w) = (r, w)

abbrev pub respond : ℕ → String → Response
respond status text = record { status = status; body = text }
