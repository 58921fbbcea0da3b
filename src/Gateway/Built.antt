-- ===== src/Gateway/Built.antt =====
-- `deployBuiltImage` of pkg/gateway/build_handlers.go: the function of an image that was built.
pub mod Deployed
use docker_faas.Base.{String, Bool, true, false, Option, none, some, Result, ok, err}
use docker_faas.Base.Calls.{Call, ◌>>=◌, ◌>>◌, pure, throw, lift, attempt, effect}
use docker_faas.Base.Int.{pos}
use docker_faas.Builder.{Manifest}
use docker_faas.Gateway.Types.{FunctionDeployment, FunctionMetadata}
use docker_faas.Gateway.Services.{functions_deployed, function_replicas, Services}
use docker_faas.Gateway.Names.{function_network_name}
use docker_faas.Gateway.Metadata.{metadata_of, metadata_over}
use docker_faas.Gateway.Deploy.{with_network, number_of}

abbrev bare_deployment : String → String → FunctionDeployment
bare_deployment name image = record {
  service = name;
  image = image;
  network = "";
  env_process = "";
  env_vars = none;
  labels = none;
  secrets = none;
  limits = none;
  requests = none;
  constraints = none;
  annotations = none;
  namespace = "";
  read_only_root_filesystem = false;
  debug = false;
}

unfoldable pub built_deployment : String → String → Option Manifest → FunctionDeployment
built_deployment name image none = bare_deployment name image
built_deployment name image (some manifest) = record (bare_deployment name image) {
  network = manifest.network;
  env_process = manifest.command;
  env_vars = manifest.env;
  labels = manifest.labels;
  secrets = manifest.secrets;
  limits = manifest.limits;
  requests = manifest.requests;
  read_only_root_filesystem = manifest.read_only_root_filesystem;
  debug = manifest.debug;
}

module _ {W : Type 0} where
  unfoldable pub update_built :
      Services W → FunctionDeployment → FunctionMetadata → Call W (Unit {0})
  update_built g deployment existing = do
    g.provider.update_function deployment existing.replicas
    metadata ← lift (metadata_over "failed" g.json deployment existing)
    g.store.update_function metadata
    effect (g.metric (function_replicas deployment.service existing.replicas))

  -- After `CreateFunction`, on whose error the containers are removed
  abbrev created_or_removed : Services W → String → Result (Unit {0}) → Call W (Unit {0})
  created_or_removed g name (ok u) = pure tt
  created_or_removed g name (err e) = do
    removed ← attempt (g.provider.remove_function name)
    throw e

  unfoldable pub create_built : Services W → FunctionDeployment → Call W (Unit {0})
  create_built g deployment = do
    g.provider.deploy_function deployment (pos 1)
    metadata ← lift (metadata_of "failed" g.json deployment (pos 1))
    created ← attempt (g.store.create_function metadata)
    created_or_removed g deployment.service created
    functions ← attempt g.store.list_functions
    effect (g.metric (functions_deployed (number_of functions)))
    effect (g.metric (function_replicas deployment.service (pos 1)))

  abbrev pub deploy_over :
      Services W → FunctionDeployment → Result FunctionMetadata → W → (Bool × Result (Unit {0})) × W
  deploy_over g deployment (ok existing) w =
      let (r, v) = update_built g deployment existing w in ((true, r), v)
  deploy_over g deployment (err e) w = let (r, v) = create_built g deployment w in ((false, r), v)

  -- Whether the function was there, and the error
  unfoldable pub deploy_built_image :
      Services W → String → String → Option Manifest → W → (Bool × Result (Unit {0})) × W
  unfolding built_deployment update_built create_built
  deploy_built_image g name image manifest w =
      let deployment =
        with_network (function_network_name g.network name)
          (built_deployment name image manifest) in
      let existing = g.store.get_function name w in deploy_over g deployment existing.0 existing.1
