-- ===== src/Gateway/Build/Tests.antt =====
-- The deployment of a built image, and a build whose image cannot be built, over the table in memory.
use docker_faas.Base.{
  String, ◌≡◌, refl, ◌⊎◌, true, false, Option, none, some, [], ◌∷◌, ok, err, nat_eq, string_eq,
  bool_eq,
}
use docker_faas.Base.Int.{pos}
use docker_faas.Base.Assoc.{lookup, insert}
use docker_faas.Gateway.Names.{matches_name, validate_function_name, function_network_name}
use docker_faas.Gateway.BuildRequest.{BuildRequest, Builder, BuildState, chosen_name, running_entry}
use docker_faas.Builds.Tracker.{BuildTracker, new_build_tracker, add}
use docker_faas.Builder.{Manifest}
use docker_faas.Gateway.Laws.{Table}
use docker_faas.Gateway.Metadata.{metadata_over, new_metadata}
use docker_faas.Gateway.Deploy.{with_network, handle_deploy_function}
use docker_faas.Gateway.Built.{built_deployment, deploy_built_image}
use docker_faas.Gateway.Built.Deployed.{RowAdded, RowUpdated, deploy_built_image_lem}
use docker_faas.Gateway.Build.{add_entry, handle_build_function}
use docker_faas.Gateway.Build.Finished.{EndRecorded, handle_build_function-EndRecorded}
use docker_faas.Gateway.Tests.{
  get_row, create_row, update_row, memory_laws, services, services_laws, deployed,
}

abbrev built_from : Option Manifest
built_from = some (record {
  name = "hello";
  runtime = "bash";
  command = "cat";
  dependencies = none;
  env = none;
  labels = none;
  secrets = none;
  limits = none;
  requests = none;
  read_only_root_filesystem = false;
  debug = false;
  network = "net";
  build = none;
})

deploy_built_image_lem_example :
    let d =
      with_network
        (function_network_name services.network "hello")
        (built_deployment "hello" "hello:2" built_from) in
    let out = deploy_built_image services "hello" "hello:2" built_from deployed in
    ((out.0 ≡ (false, ok tt)) × RowAdded services d deployed out.1)
    ⊎ ((out.0 ≡ (true, ok tt)) × RowUpdated services d deployed out.1)
    ⊎ ((e : String) × (out.0.1 ≡ err e) × (out.1 ≡ deployed))
deploy_built_image_lem_example =
    deploy_built_image_lem services (λ t. t) memory_laws services_laws "hello" "hello:2" built_from
      deployed

built_updates :
    (deploy_built_image services "hello" "hello:2" built_from deployed).0 ≡ (true, ok tt)
unfolding deploy_built_image get_row lookup metadata_over create_row insert update_row
    handle_deploy_function validate_function_name matches_name new_metadata
built_updates = refl

abbrev request : BuildRequest
request = record {
  name = "";
  deploy = none;
  source = record {
    source_type = "inline";
    runtime = "bash";
    git = none;
    zip = none;
    files = [];
    manifest = "";
  };
}

-- The image cannot be built.
abbrev builder : Builder Table
builder = record {
  parse_build_request = λ w. (ok request, w);
  cleanup = λ w. w;
  prepare_build_context = λ req w.
      (ok (record { manifest = built_from; dockerfile = "Dockerfile"; context_dir = "/tmp" }), w);
  build_image = λ dir file image w. ((err "no base image", (1 ∷ 2 ∷ []) ∷ []), w);
  generate_id = λ w. ("b1", w);
  now = λ w. 1000;
  text_of = λ bytes. "";
}

abbrev idle : BuildState Table
idle = record { world = deployed; builds = some (new_build_tracker (pos 0) (pos 0)) }

failed_build :
    (handle_build_function services builder (pos 100) idle).0
    ≡ record { status = 500; body = "build failed: no base image" }
unfolding handle_build_function chosen_name validate_function_name matches_name
failed_build = refl

abbrev added : BuildTracker
added = (add "b1" 1000 (running_entry request 1000) (new_build_tracker (pos 0) (pos 0))).1

handle_build_function-EndRecorded_example :
    (t : BuildTracker) × (some added ≡ some t)
    × EndRecorded "b1" t (handle_build_function services builder (pos 100) idle)
unfolding add_entry add running_entry
handle_build_function-EndRecorded_example =
    handle_build_function-EndRecorded services builder (pos 100) idle
      (new_build_tracker (pos 0) (pos 0)) request refl refl
