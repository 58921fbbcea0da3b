-- ===== src/Provider/Create.antt =====
-- `createContainer` of pkg/provider/docker_provider.go and what it calls: `resolveSecretsHostPath` and
-- `removeStaleContainerByName`. Log lines are left out. Go leaves the order of a range over a map
-- open; here it is the order of the entries.
pub mod Made
pub mod Keeping
pub mod Surviving
use docker_faas.Base.{
  ◌/◌, String, Bool, not, ◌&&◌, Option, none, some, List, [], ◌∷◌, ◌++◌, map, if◌then◌else◌, ◌==◌,
  Result, ok, err, nat_eq, string_eq, bool_eq,
}
use docker_faas.Base.Calls.{Call, ◌>>=◌, ◌>>◌, pure, throw, context, attempt}
use docker_faas.Base.Int.{ℤ, pos, int_eq}
use docker_faas.Base.Assoc.{Assoc}
use docker_faas.Base.Text.{decimal, ◌<>◌}
use docker_faas.Gateway.Types.{FunctionLimits, FunctionDeployment}
use docker_faas.Secrets.{validate_secrets, ensure_secrets}
use docker_faas.Provider.Containers.{label_replica, is_container_stale_state}
use docker_faas.Provider.Resources.{parse_memory, parse_cpu}
use docker_faas.Provider.Networks.{
  with_labels, forgiven_or, found_or, ensure_network, ensure_gateway_connected,
}
use docker_faas.Provider.Docker.{
  MountPoint, Inspection, ContainerSpec, DockerProvider, label_function, label_type, label_network,
  label_network_type, label_network_function, is_missing,
}

abbrev pub container_secrets_path : String
container_secrets_path = "/var/openfaas/secrets"

-- A nil map, or a nil slice
abbrev entries : {A : Type 0} → Option (List A) → List A
entries none = []
entries (some l) = l

unfoldable pub network_labels : FunctionDeployment → Assoc String String
network_labels deployment =
    (label_network_type, "function") ∷ (label_network_function, deployment.service) ∷ []

-- The labels of a container: the custom ones are written over the provider's own.
unfoldable pub container_labels : FunctionDeployment → String → ℤ → Assoc String String
unfolding with_labels
container_labels deployment network_name replica_index = with_labels (entries deployment.labels) (
    (label_network, network_name)
    ∷ (label_replica, decimal replica_index)
    ∷ (label_type, "function")
    ∷ (label_function, deployment.service)
    ∷ [])

unfoldable pub container_env : FunctionDeployment → List String
container_env deployment =
    map (λ e. e.0 <> "=" <> e.1) (entries deployment.env_vars)
    ++ (if deployment.env_process == "" then [] else ("fprocess=" <> deployment.env_process) ∷ [])

abbrev memory_of : (String → ℤ) → Option FunctionLimits → ℤ
memory_of scan_int none = pos 0
memory_of scan_int (some limits) =
    if limits.memory == "" then pos 0 else parse_memory scan_int limits.memory

abbrev nano_cpus_of : (String → ℤ) → (String → ℤ) → Option FunctionLimits → ℤ
nano_cpus_of scan_int scan_nano_cpus none = pos 0
nano_cpus_of scan_int scan_nano_cpus (some limits) =
    if limits.cpu == "" then pos 0 else parse_cpu scan_int scan_nano_cpus limits.cpu

-- `(state.Status, …)` of an inspection whose state may be nil
abbrev status_of : Option (String × Bool) → String
status_of none = ""
status_of (some s) = s.0

-- The answer of `VolumeInspect`, else the source
abbrev volume_path : MountPoint → Result String → Option String
volume_path m (ok mountpoint) =
    if mountpoint == "" then (if m.source == "" then none else some m.source) else some mountpoint
volume_path m (err e) = if m.source == "" then none else some m.source

module _ {W : Type 0} where
  -- The container without its mounts
  unfoldable pub container_spec :
      DockerProvider W
      → FunctionDeployment
      → String
      → String
      → ℤ
      → List (String × String)
      → ContainerSpec
  unfolding container_labels container_env
  container_spec p deployment network_name name replica_index mounts = record {
    name = name;
    image = deployment.image;
    labels = container_labels deployment network_name replica_index;
    env = container_env deployment;
    exposed_ports = if deployment.debug then "40000/tcp" ∷ "5678/tcp" ∷ [] else [];
    network_mode = network_name;
    restart_policy = "unless-stopped";
    security_opt = "no-new-privileges:true" ∷ [];
    cap_drop = "ALL" ∷ [];
    port_bindings =
        if deployment.debug
        then ("40000/tcp", p.debug_bind_address, "0") ∷ ("5678/tcp", p.debug_bind_address, "0") ∷ []
        else [];
    memory = memory_of p.scan_int deployment.limits;
    nano_cpus = nano_cpus_of p.scan_int p.scan_nano_cpus deployment.limits;
    is_readonly_rootfs = deployment.read_only_root_filesystem;
    mounts = mounts;
  }

  -- One round of the loop over the mounts: the path that it returns
  unfoldable pub mount_path : DockerProvider W → String → MountPoint → Call W (Option String)
  mount_path p base_path m =
      if not (m.destination == container_secrets_path) && not (m.destination == base_path)
      then pure none
      else if m.mount_type == "bind" && not (m.source == "")
      then pure (some m.source)
      else if m.mount_type == "volume" && not (m.name == "")
      then (attempt (p.client.volume_inspect m.name) >>= λ volume. pure (volume_path m volume))
      else pure (if m.source == "" then none else some m.source)

  abbrev or_else : Call W String → Option String → Call W String
  or_else rest none = rest
  or_else rest (some path) = pure path

  unfoldable pub path_in : DockerProvider W → String → List MountPoint → Call W String
  unfolding mount_path
  path_in p base_path [] = pure base_path
  path_in p base_path (m ∷ mounts) =
      mount_path p base_path m >>= λ path. or_else (path_in p base_path mounts) path

  abbrev inspected_path : DockerProvider W → String → Result Inspection → Call W String
  inspected_path p base_path (ok inspect) = path_in p base_path inspect.mounts
  inspected_path p base_path (err e) = pure base_path

  unfoldable pub resolve_secrets_host_path : DockerProvider W → Call W String
  unfolding path_in
  resolve_secrets_host_path p =
      if p.gateway_id == ""
      then pure p.secret_manager.base_path
      else (attempt (p.client.container_inspect p.gateway_id) >>= λ inspect.
          inspected_path p p.secret_manager.base_path inspect)

  -- The mounts of the secrets, which are made sure of first. `ValidateSecrets` changes nothing.
  unfoldable pub mount_secrets : DockerProvider W → List String → Call W (List (String × String))
  unfolding resolve_secrets_host_path
  mount_secrets p [] = pure []
  mount_secrets p (name ∷ names) = do
    context "failed to ensure secrets: " (λ w.
        let out = ensure_secrets p.files p.secret_manager (name ∷ names) w in (out.0.1, out.1))
    context "secret validation failed: "
        (λ w. (validate_secrets p.files p.secret_manager (name ∷ names) w, w))
    host_path ← resolve_secrets_host_path p
    pure (
        map (λ secret. (p.files.join host_path secret, container_secrets_path <> "/" <> secret))
          (name ∷ names))

  -- After the inspection of a container of that name
  unfoldable pub remove_stale : DockerProvider W → String → Option Inspection → Call W (Unit {0})
  remove_stale p name none = pure tt
  remove_stale p name (some inspect) =
      let state = status_of inspect.state in
      if is_container_stale_state state state
      then (attempt (p.client.container_remove inspect.id) >>= λ r.
          forgiven_or (is_missing p.client)
            ("failed to remove stale existing container " <> name <> ": ") r)
      else throw (
          "container "
          <> name
          <> " already exists with state "
          <> (if state == "" then "unknown" else state))

  unfoldable pub remove_stale_container_by_name : DockerProvider W → String → Call W (Unit {0})
  unfolding remove_stale
  remove_stale_container_by_name p name = do
    answer ← attempt (p.client.container_inspect name)
    inspect ←
        found_or (is_missing p.client) ("failed to inspect existing container " <> name <> ": ")
          answer
    remove_stale p name inspect

  abbrev pub chosen_network : DockerProvider W → FunctionDeployment → String
  chosen_network p deployment = if deployment.network == "" then p.network else deployment.network

  -- `createContainer` once the network is chosen
  unfoldable pub create_in :
      DockerProvider W → FunctionDeployment → String → ℤ → String → Call W (Unit {0})
  unfolding network_labels mount_secrets
  create_in p deployment name replica_index network_name = do
    context ("failed to ensure network " <> network_name <> ": ")
        (ensure_network p network_name (network_labels deployment))
    context ("failed to connect gateway to network " <> network_name <> ": ")
        (ensure_gateway_connected p network_name)
    mounts ← mount_secrets p (entries deployment.secrets)
    remove_stale_container_by_name p name
    id ← context "failed to create container: " (
        p.client.container_create
          (container_spec p deployment network_name name replica_index mounts))
    context "failed to start container: " (p.client.container_start id)

  unfoldable pub create_container :
      DockerProvider W → FunctionDeployment → String → ℤ → Call W (Unit {0})
  unfolding create_in
  create_container p deployment name replica_index =
      let network_name = chosen_network p deployment in
      if network_name == ""
      then throw ("network is required for function " <> deployment.service)
      else create_in p deployment name replica_index network_name
