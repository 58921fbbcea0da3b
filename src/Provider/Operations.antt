-- ===== src/Provider/Operations.antt =====
-- The operations of pkg/provider/docker_provider.go on the containers of a function. Log lines are left
-- out, with them `c.ID[:12]` in one of them, which wants an id of twelve bytes, as Docker's are.
use Prim.Native.String.{slice, len}
pub mod Named
pub mod Scaled
pub mod Tests
use docker_faas.Base.{
  ℕ, zero, suc, ◌+◌, ◌-◌, String, Bool, true, false, Option, none, some, List, [], ◌∷◌, leb,
  if◌then◌else◌, ◌==◌, ok, err, nat_eq, string_eq, bool_eq,
}
use docker_faas.Base.Calls.{Call, ◌>>=◌, ◌>>◌, pure, context, attempt}
use docker_faas.Base.Int.{ℤ, pos, pos_part, int_eq}
use docker_faas.Base.Text.{trim_slash, decimal, ◌<>◌}
use docker_faas.Gateway.Types.{FunctionDeployment}
use docker_faas.Provider.Containers.{Summary, is_running}
use docker_faas.Provider.Networks.{forgiven_or, found_or}
use docker_faas.Provider.Create.{create_container}
use docker_faas.Provider.Plan.{ReplicaScalePlan, excess, build_replica_scale_plan}
use docker_faas.Provider.Listing.{list_function_containers}
use docker_faas.Provider.Docker.{Inspection, DockerProvider, is_missing}

unfoldable pub container_summary_name : List String → String → String
container_summary_name [] id = if leb 12 (len id) then slice id 0 12 else id
container_summary_name (name ∷ names) id =
    let rest = container_summary_name names id in
    if trim_slash name == "" then rest else trim_slash name

abbrev pub replica_name : FunctionDeployment → ℤ → String
replica_name deployment index = deployment.service <> "-" <> decimal index

-- `for i := from; n rounds`
abbrev pub indices_from : ℕ → ℕ → List ℕ
indices_from zero from = []
indices_from (suc n) from = from ∷ indices_from n (from + 1)

abbrev is_running_state : Option (String × Bool) → Bool
is_running_state none = false
is_running_state (some s) = s.1

module _ {W : Type 0} where
  unfoldable pub image_exists : DockerProvider W → String → Call W Bool
  image_exists p image_str = attempt (p.client.image_inspect image_str) >>= λ r.
      pure (elim r [ ok u ↦ true | err e ↦ false ])

  unfoldable pub pull_image : DockerProvider W → String → Call W (Unit {0})
  unfolding image_exists
  pull_image p image_str = do
    exists ← image_exists p image_str
    (if exists
        then pure tt
        else (p.client.image_pull image_str >>= λ reader. p.client.read_all reader >> pure tt))

  -- One replica, as `DeployFunction` and `ScaleFunction` create it
  unfoldable pub create_replica : DockerProvider W → FunctionDeployment → ℤ → Call W (Unit {0})
  create_replica p deployment index =
      let name = replica_name deployment index in
      context ("failed to create container " <> name <> ": ")
        (create_container p deployment name index)

  unfoldable pub create_replicas :
      DockerProvider W → FunctionDeployment → List ℕ → Call W (Unit {0})
  create_replicas p deployment [] = pure tt
  create_replicas p deployment (i ∷ indices) =
      create_replica p deployment (pos i) >> create_replicas p deployment indices

  unfoldable pub deploy_function : DockerProvider W → FunctionDeployment → ℤ → Call W (Unit {0})
  unfolding pull_image
  deploy_function p deployment replicas = do
    context "failed to pull image: " (pull_image p deployment.image)
    create_replicas p deployment (indices_from (pos_part replicas) 0)

  -- Both errors are logged.
  unfoldable pub remove_each : DockerProvider W → List Summary → Call W (Unit {0})
  remove_each p [] = pure tt
  remove_each p (c ∷ containers) = do
    stopped ← attempt (p.client.container_stop c.id)
    removed ← attempt (p.client.container_remove c.id)
    remove_each p containers

  unfoldable pub remove_function : DockerProvider W → String → Call W (Unit {0})
  unfolding remove_each
  remove_function p function_name = do
    containers ← context "failed to list containers: " (list_function_containers p function_name)
    remove_each p containers

  unfoldable pub update_function : DockerProvider W → FunctionDeployment → ℤ → Call W (Unit {0})
  unfolding remove_function deploy_function
  update_function p deployment replicas = do
    removed ← attempt (remove_function p deployment.service)
    deploy_function p deployment replicas

  abbrev stop_if : DockerProvider W → Bool → String → Call W (Unit {0})
  stop_if p true id = attempt (p.client.container_stop id) >>= λ r.
      forgiven_or (is_missing p.client) "failed to stop container: " r
  stop_if p false id = pure tt

  -- A removal in which a container that is not there is no error
  abbrev remove_by_id : DockerProvider W → String → Call W (Unit {0})
  remove_by_id p id = attempt (p.client.container_remove id) >>= λ r.
      forgiven_or (is_missing p.client) "failed to remove container: " r

  unfoldable pub remove_container_summary : DockerProvider W → Summary → Call W (Unit {0})
  remove_container_summary p summary = do
    stop_if p (is_running summary) summary.id
    remove_by_id p summary.id

  abbrev remove_inspected : DockerProvider W → Option Inspection → Call W (Unit {0})
  remove_inspected p none = pure tt
  remove_inspected p (some inspect) =
      stop_if p (is_running_state inspect.state) inspect.id >> remove_by_id p inspect.id

  unfoldable pub remove_container : DockerProvider W → String → Call W (Unit {0})
  remove_container p name = do
    answer ← attempt (p.client.container_inspect name)
    inspect ← found_or (is_missing p.client) "failed to inspect container: " answer
    remove_inspected p inspect

  -- The loops over the plan: `what` is the text of the error.
  unfoldable pub remove_planned : DockerProvider W → String → List Summary → Call W (Unit {0})
  unfolding remove_container_summary
  remove_planned p what [] = pure tt
  remove_planned p what (c ∷ containers) =
      context (what <> container_summary_name c.names c.id <> ": ") (remove_container_summary p c)
      >> remove_planned p what containers

  unfoldable pub apply_plan :
      DockerProvider W → FunctionDeployment → ReplicaScalePlan → Call W (Unit {0})
  unfolding remove_planned create_replicas
  apply_plan p deployment plan = do
    remove_planned p "failed to remove stale container " plan.stale_to_remove
    remove_planned p "failed to remove excess container " plan.active_to_remove
    create_replicas p deployment plan.missing_replica_indices

  unfoldable pub scale_function : DockerProvider W → FunctionDeployment → ℤ → Call W (Unit {0})
  unfolding apply_plan
  scale_function p deployment target_replicas = do
    containers ←
        context "failed to list containers: " (list_function_containers p deployment.service)
    apply_plan p deployment (build_replica_scale_plan containers target_replicas)
