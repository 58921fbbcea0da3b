-- ===== src/Gateway/Scale.antt =====
-- `HandleScaleFunction` and `scaleFromZero` of pkg/gateway/handlers.go.
pub mod Stored
use Prim.Native.String
use docker_faas.Base.{
  String, not, Option, none, some, ◌++◌, if◌then◌else◌, ◌==◌, Result, ok, err, nat_eq, string_eq,
  bool_eq,
}
use docker_faas.Base.Calls.{Call}
use docker_faas.Base.Int.{ℤ, pos, is_neg, int_eq}
use docker_faas.Gateway.Types.{
  FunctionLimits, FunctionResources, FunctionDeployment, ScaleServiceRequest, FunctionMetadata,
}
use docker_faas.Gateway.Services.{
  function_replicas, Json, Services, Response, Act, ◌>>=◌, ◌>>◌, pure, fail, require, effect,
  answer, respond,
}
use docker_faas.Gateway.Metadata.{stored_deployment}
use docker_faas.Gateway.Deploy.{check_name}

-- The second reading of the body, for other names of the service
pub record AltName : Type 0 where
  pub service : String
  pub function_name : String

-- The body of a scale request: none, one that cannot be read or is not JSON, or a request with the
-- second reading, where that succeeds.
pub data ScaleBody : Type 0 where
  empty_body : ScaleBody
  invalid_body : ScaleBody
  scale_body : ScaleServiceRequest → Option AltName → ScaleBody

unfoldable pub with_alt_name : ScaleServiceRequest → Option AltName → ScaleServiceRequest
with_alt_name request none = request
with_alt_name request (some alt) =
    if request.service_name == ""
    then (if not (alt.service == "")
        then record request { service_name = alt.service }
        else if not (alt.function_name == "")
        then record request { service_name = alt.function_name }
        else request)
    else request

abbrev pub empty_request : ScaleServiceRequest
empty_request = record { service_name = ""; replicas = pos 0 }

-- The name in the body, else the one in the path
unfoldable pub requested_service : ScaleServiceRequest → String → String
requested_service request path_name =
    if request.service_name == "" then path_name else request.service_name

-- The request that a body makes
abbrev pub scale_request : ScaleBody → Option ScaleServiceRequest
scale_request empty_body = some empty_request
scale_request invalid_body = none
scale_request (scale_body request alt) = some (with_alt_name request alt)

abbrev pub read_scale_body : {W : Type 0} → Option ScaleServiceRequest → Act W ScaleServiceRequest
read_scale_body none = fail 400 "Invalid request body"
read_scale_body (some request) = pure request

module _ {W : Type 0} where
  abbrev pub refuse_negative : ℤ → Act W (Unit {0})
  refuse_negative replicas = if is_neg replicas then fail 400 "replicas must be >= 0" else pure tt

  -- The handler after the checks of the name
  unfoldable pub scale_checked : Services W → String → ℤ → Act W Response
  scale_checked g service_name replicas = do
    refuse_negative replicas
    metadata ← require (g.store.get_function service_name) (λ e. respond 404 "Function not found")
    require (g.provider.scale_function (stored_deployment g.json metadata none none) replicas)
        (λ e. respond 500 (String.◌++◌ "Failed to scale function: " e))
    require (g.store.update_replicas service_name replicas)
        (λ e. respond 500 "Failed to update replicas")
    effect (g.metric (function_replicas service_name replicas))
    pure (respond 202 "Function scaled successfully")

  unfoldable pub scale_named : Services W → String → ℤ → Act W Response
  unfolding scale_checked
  scale_named g raw replicas = do
    service_name ← check_name raw "serviceName is required"
    scale_checked g service_name replicas

  unfoldable pub scale_steps : Services W → ScaleBody → String → Act W Response
  unfolding scale_named requested_service
  scale_steps g body path_name = do
    request ← read_scale_body (scale_request body)
    scale_named g (requested_service request path_name) request.replicas

  unfoldable pub handle_scale_function : Services W → ScaleBody → String → W → Response × W
  unfolding scale_steps
  handle_scale_function g body path_name w = answer (scale_steps g body path_name w)

abbrev stored_limits : Json → String → Option FunctionLimits
stored_limits json s = if s == "" then none else json.unmarshal_limits s

abbrev stored_requests : Json → String → Option FunctionResources
stored_requests json s = if s == "" then none else json.unmarshal_requests s

-- The deployment with which a function is started from zero
unfoldable pub wake_deployment : Json → FunctionMetadata → FunctionDeployment
wake_deployment json fn =
    stored_deployment json fn (stored_limits json fn.limits) (stored_requests json fn.requests)

module _ {W : Type 0} where
  abbrev finish_wake : Services W → String → Result (Unit {0}) × W → Result (Unit {0}) × W
  finish_wake g name (err e, w) = (err (String.◌++◌ "failed to scale function: " e), w)
  finish_wake g name (ok u, w) =
      (ok tt, g.metric (function_replicas name (pos 1)) (g.store.update_replicas name (pos 1) w).1)

  unfoldable pub scale_from_zero : Services W → FunctionMetadata → Call W (Unit {0})
  unfolding wake_deployment
  scale_from_zero g fn w =
      finish_wake g fn.name (g.provider.scale_function (wake_deployment g.json fn) (pos 1) w)
