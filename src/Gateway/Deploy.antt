-- ===== src/Gateway/Deploy.antt =====
-- `HandleDeployFunction`, `HandleUpdateFunction` and `HandleDeleteFunction` of
-- pkg/gateway/handlers.go. The body of a request is what the JSON decoder makes of it.
use Prim.Native.String
pub mod Checked
pub mod Stored
pub mod Updated
use docker_faas.Base.{
  ℕ, String, Bool, true, false, not, ◌||◌, Option, none, some, List, ◌++◌, if◌then◌else◌, ◌==◌,
  length, Result, ok, err, nat_eq, string_eq, bool_eq,
}
use docker_faas.Base.Int.{pos}
use docker_faas.Gateway.Types.{FunctionDeployment, FunctionMetadata}
use docker_faas.Gateway.Services.{
  functions_deployed, function_replicas, function_deleted, Services, Response, Act, ◌>>=◌, ◌>>◌,
  pure, fail, require, attempt, effect, answer, respond,
}
use docker_faas.Gateway.Names.{
  validate_function_name, normalize_function_name, function_network_name,
}
use docker_faas.Gateway.Metadata.{new_metadata, updated_metadata}

-- The checks that the deploy and the update handler begin with
unfoldable pub check_deployment :
    {W : Type 0} → Option FunctionDeployment → Act W FunctionDeployment
check_deployment none = fail 400 "Invalid request body"
check_deployment (some deployment) =
    if deployment.service == "" || deployment.image == ""
    then fail 400 "Service name and image are required"
    else elim (validate_function_name deployment.service) [
      | err e ↦ fail 400 e
      | ok u ↦ pure deployment
    ]

unfoldable pub with_network : String → FunctionDeployment → FunctionDeployment
with_network network deployment =
    if deployment.network == "" then record deployment { network = network } else deployment

-- A result that ends the handler with 400
abbrev pub or_bad_request : {W A : Type 0} → Result A → Act W A
or_bad_request (ok a) = pure a
or_bad_request (err e) = fail 400 e

abbrev pub number_of : {A : Type 0} → Result (List A) → ℕ
number_of (ok l) = length l
number_of (err e) = 0

module _ {W : Type 0} where
  -- `existing != nil`
  abbrev refuse_existing : Result FunctionMetadata → Act W (Unit {0})
  refuse_existing (ok existing) = fail 409 "Function already exists, use PUT to update"
  refuse_existing (err e) = pure tt

  -- `CreateFunction`, after whose failure the containers are removed
  abbrev cleanup : Services W → String → Result (Unit {0}) → Act W (Unit {0})
  cleanup g name (ok u) = pure tt
  cleanup g name (err e) = do
    removed ← attempt (g.provider.remove_function name)
    fail 500 "Failed to store function metadata"

  abbrev create_or_cleanup : Services W → FunctionMetadata → Act W (Unit {0})
  create_or_cleanup g metadata = do
    created ← attempt (g.store.create_function metadata)
    cleanup g metadata.name created

  -- The part after `DeployFunction`: "Store function metadata" and what follows
  unfoldable pub store_deployed : Services W → FunctionDeployment → Act W Response
  store_deployed g deployment = do
    metadata ← or_bad_request (new_metadata g.json deployment (pos 1))
    create_or_cleanup g metadata
    functions ← attempt g.store.list_functions
    effect (g.metric (functions_deployed (number_of functions)))
    effect (g.metric (function_replicas deployment.service (pos 1)))
    pure (respond 202 "Function deployed successfully")

  unfoldable pub deploy_steps : Services W → Option FunctionDeployment → Act W Response
  unfolding check_deployment with_network store_deployed
  deploy_steps g body = do
    valid ← check_deployment body
    let deployment = with_network (function_network_name g.network valid.service) valid
    existing ← attempt (g.store.get_function deployment.service)
    refuse_existing existing
    require (g.provider.deploy_function deployment (pos 1))
        (λ e. respond 500 (String.◌++◌ "Failed to deploy function: " e))
    store_deployed g deployment

  unfoldable pub handle_deploy_function : Services W → Option FunctionDeployment → W → Response × W
  unfolding deploy_steps
  handle_deploy_function g body w = answer (deploy_steps g body w)

  abbrev pub or_existing_network :
      Services W → FunctionMetadata → FunctionDeployment → FunctionDeployment
  or_existing_network g existing deployment =
      with_network
        (if existing.network == ""
          then function_network_name g.network deployment.service
          else existing.network)
        deployment

  unfoldable pub update_steps : Services W → Option FunctionDeployment → Act W Response
  unfolding check_deployment with_network
  update_steps g body = do
    valid ← check_deployment body
    existing ← require (g.store.get_function valid.service) (λ e. respond 404 "Function not found")
    let deployment = or_existing_network g existing valid
    require (g.provider.update_function deployment existing.replicas)
        (λ e. respond 500 (String.◌++◌ "Failed to update function: " e))
    metadata ← or_bad_request (updated_metadata g.json deployment existing)
    require (g.store.update_function metadata)
        (λ e. respond 500 "Failed to update function metadata")
    pure (respond 202 "Function updated successfully")

  unfoldable pub handle_update_function : Services W → Option FunctionDeployment → W → Response × W
  unfolding update_steps
  handle_update_function g body w = answer (update_steps g body w)

-- The answer of `validateFunctionName`, and whether the name is empty
abbrev pub checked : {W : Type 0} → Result (Unit {0}) → Bool → String → String → Act W String
checked (err e) is_empty name missing = fail 400 e
checked (ok u) true name missing = fail 400 missing
checked (ok u) false name missing = pure name

-- A name as the delete and the scale handler check it: the second test of the source is never met,
-- since `validateFunctionName` refuses the empty name.
unfoldable pub check_name : {W : Type 0} → String → String → Act W String
check_name name missing =
    let normalized = normalize_function_name name in
    checked (validate_function_name normalized) (normalized == "") normalized missing

-- The body of a delete request, where it is JSON
pub record DeletePayload : Type 0 where
  pub function_name : String
  pub service : String

-- The name in the query, else the one in the body
unfoldable pub requested_name : String → Option DeletePayload → String
requested_name query none = query
requested_name query (some payload) =
    if query == ""
    then if payload.function_name == "" then payload.service else payload.function_name
    else query

module _ {W : Type 0} where
  -- The handler after the checks of the name
  unfoldable pub delete_named : Services W → String → Act W Response
  delete_named g function_name = do
    metadata ← require (g.store.get_function function_name) (λ e. respond 404 "Function not found")
    require (g.provider.remove_function function_name)
        (λ e. respond 500 (String.◌++◌ "Failed to remove function: " e))
    require (g.store.delete_function function_name)
        (λ e. respond 500 "Failed to delete function metadata")
    cleaned ← attempt (g.provider.cleanup_function_network metadata.name metadata.network)
    functions ← attempt g.store.list_functions
    effect (g.metric (functions_deployed (number_of functions)))
    effect (g.metric (function_deleted function_name))
    pure (respond 202 "Function deleted successfully")

  unfoldable pub delete_checked : Services W → String → Act W Response
  unfolding delete_named check_name
  delete_checked g raw = do
    function_name ← check_name raw "functionName parameter is required"
    delete_named g function_name

  unfoldable pub handle_delete_function :
      Services W → String → Option DeletePayload → W → Response × W
  unfolding delete_checked requested_name
  handle_delete_function g query payload w =
      answer (delete_checked g (requested_name query payload) w)
