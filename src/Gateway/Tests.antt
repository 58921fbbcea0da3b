-- ===== src/Gateway/Tests.antt =====
-- The handlers over a table in memory, which has the laws that are asked of the store.
use docker_faas.Base.{
  ℕ, ◌+◌, String, ◌≡◌, refl, sym, ap, ◌∙◌, ◌≢◌, ◌↔◌, ◌⊎◌, inl, inr, true, false, Option, none, some,
  List, [], ◌∷◌, map, eq_iff, if◌then◌else◌, ◌==◌, Bool-cases, any, Result, ok, err, nat_eq,
  string_eq, bool_eq,
}
use docker_faas.Base.Int.{ℤ, pos, int_eq}
use docker_faas.Base.Assoc.{lookup, erase, insert}
use docker_faas.Base.Text.{contains_text}
use docker_faas.Gateway.Metadata.{new_metadata}
use docker_faas.Gateway.Names.{
  matches_name, validate_function_name, normalize_function_name, is_available,
}
use docker_faas.Gateway.Deploy.{
  handle_deploy_function, handle_update_function, requested_name, handle_delete_function,
}
use docker_faas.Gateway.Types.{FunctionDeployment, ScaleServiceRequest, FunctionMetadata, Container}
use docker_faas.Gateway.Services.{Store, Provider, Json, Services, respond}
use docker_faas.Gateway.Deploy.Stored.{IsDeployed, handle_deploy_function_lem}
use docker_faas.Gateway.Deploy.Updated.{
  IsUpdated, handle_update_function_lem, handle_delete_function_lem,
}
use docker_faas.Gateway.Scale.{
  ScaleBody, scale_body, requested_service, scale_request, handle_scale_function,
}
use docker_faas.Gateway.Scale.Stored.{IsScaled, handle_scale_function_lem}
use docker_faas.Gateway.Route.{Invocation, RouteRequest, handle_invoke_function}
use docker_faas.Gateway.Route.Ready.{IsUnrouted, IsRouted, handle_invoke_function_lem}
use docker_faas.Gateway.Health.{Probes, text_body, handle_healthz}
use docker_faas.Gateway.Health.Checks.{handle_healthz-200_iff}
use docker_faas.Gateway.Invoke.{is_container_healthy, Round, tick, wait_for_function_ready}
use docker_faas.Gateway.Invoke.Waiting.{
  ends, wait_for_function_ready-some, IsReadyIn, wait_for_function_ready-ready,
}
use docker_faas.Gateway.Laws.{Table, inserted, rewritten, rescaled, StoreLaws, ProviderLaws}

unfoldable pub get_row : String → Option FunctionMetadata → Result FunctionMetadata
get_row name none = err "function not found"
get_row name (some m) = if m.name == name then ok m else err "function not found"

unfoldable pub create_row :
    FunctionMetadata → Option FunctionMetadata → Table → Result (Unit {0}) × Table
create_row m none t = (ok tt, insert m.name (inserted (pos 1) 7 8 m) t)
create_row m (some old) t = (err "UNIQUE constraint failed", t)

unfoldable pub update_row :
    String
    → Option FunctionMetadata
    → (FunctionMetadata → FunctionMetadata)
    → Table
    → Result (Unit {0}) × Table
update_row name none f t = (err "function not found", t)
update_row name (some old) f t = (ok tt, insert name (f old) t)

abbrev pub memory : Store Table
memory = record {
  list_functions = λ t. (ok (map (λ r. r.1) t), t);
  get_function = λ name t. (get_row name (lookup name t), t);
  create_function = λ m t. create_row m (lookup m.name t) t;
  update_function = λ m t. update_row m.name (lookup m.name t) (λ old. rewritten 8 old m) t;
  delete_function = λ name t. (ok tt, erase name t);
  update_replicas = λ name n t. update_row name (lookup name t) (λ old. rescaled 9 n old) t;
}

create_row_ok :
    (m : FunctionMetadata) (o : Option FunctionMetadata) (t : Table)
    → (create_row m o t).0 ≡ ok tt
    → (o ≡ none)
      × ((id : ℤ) × (created : ℕ) × (updated : ℕ) × ((create_row m o t).1
            ≡ insert m.name (inserted id created updated m) t))
unfolding create_row
create_row_ok m none t h = (refl, (pos 1, 7, 8, refl))
create_row_ok m (some old) t h = cc

create_row_err :
    (m : FunctionMetadata) (o : Option FunctionMetadata) (t : Table) (e : String)
    → (create_row m o t).0 ≡ err e
    → (create_row m o t).1 ≡ t
unfolding create_row
create_row_err m none t e h = cc
create_row_err m (some old) t e h = refl

update_row_ok :
    (name : String) (o : Option FunctionMetadata) (f : FunctionMetadata → FunctionMetadata)
    (t : Table)
    → (update_row name o f t).0 ≡ ok tt
    → (old : FunctionMetadata) × ((o ≡ some old)
        × ((update_row name o f t).1 ≡ insert name (f old) t))
unfolding update_row
update_row_ok name none f t h = cc
update_row_ok name (some old) f t h = (old, (refl, refl))

update_row_err :
    (name : String) (o : Option FunctionMetadata) (f : FunctionMetadata → FunctionMetadata)
    (t : Table) (e : String)
    → (update_row name o f t).0 ≡ err e
    → (update_row name o f t).1 ≡ t
unfolding update_row
update_row_err name none f t e h = refl
update_row_err name (some old) f t e h = cc

get_row_ok :
    (name : String) (o : Option FunctionMetadata) (m : FunctionMetadata)
    → get_row name o ≡ ok m
    → (o ≡ some m) × (m.name ≡ name)
unfolding get_row
get_row_ok name none m h = cc
get_row_ok name (some k) m h = elim (Bool-cases (k.name == name)) [
  | inl e ↦
      let same : k ≡ m = cc (rw e at h) in
      (ap some same, ap (λ x. x.name) (sym same) ∙ (eq_iff k.name name).0 e)
  | inr e ↦ cc (rw e at h)
]

pub memory_laws : StoreLaws memory (λ t. t)
memory_laws = record {
  list_keeps = λ t. refl;
  get_keeps = λ name t. refl;
  get_ok = λ name t m h. get_row_ok name (lookup name t) m h;
  create_ok = λ m t h. create_row_ok m (lookup m.name t) t h;
  create_err = λ m t e h. create_row_err m (lookup m.name t) t e h;
  update_ok = λ m t h.
      let (old, (e, f)) = update_row_ok m.name (lookup m.name t) (λ old. rewritten 8 old m) t h in
      (old, 8, e, f);
  update_err = λ m t e h. update_row_err m.name (lookup m.name t) (λ old. rewritten 8 old m) t e h;
  delete_ok = λ name t h. refl;
  delete_err = λ name t e h. cc;
  replicas_ok = λ name n t h.
      let (old, (e, f)) = update_row_ok name (lookup name t) (λ old. rescaled 9 n old) t h in
      (old, 9, e, f);
  replicas_err =
      λ name n t e h. update_row_err name (lookup name t) (λ old. rescaled 9 n old) t e h;
}

abbrev up : Container
up = record {
  id = "c";
  name = "fn-0";
  ip_address = "";
  status = "Up 1 second";
  ports = none;
  created = 0;
}

abbrev docker : Provider Table
docker = record {
  deploy_function = λ d n t. (ok tt, t);
  update_function = λ d n t. (ok tt, t);
  remove_function = λ name t. (ok tt, t);
  scale_function = λ d n t. (ok tt, t);
  get_function_containers = λ name t. (ok (up ∷ []), t);
  cleanup_function_network = λ name network t. (err "network is in use", t);
}

abbrev plain_json : Json
plain_json = record {
  marshal_map = λ m. ok "{}";
  marshal_slice = λ l. ok "[]";
  marshal_limits = λ l. ok "{}";
  marshal_requests = λ l. ok "{}";
  unmarshal_map = λ s. some [];
  unmarshal_slice = λ s. some [];
  unmarshal_limits = λ s. none;
  unmarshal_requests = λ s. none;
}

abbrev pub services : Services Table
services = record {
  store = memory;
  provider = docker;
  json = plain_json;
  metric = λ m t. t;
  network = "faas";
}

pub services_laws : ProviderLaws services (λ t. t)
services_laws = record {
  deploy_keeps = λ d n t. refl;
  update_keeps = λ d n t. refl;
  remove_keeps = λ name t. refl;
  scale_keeps = λ d n t. refl;
  cleanup_keeps = λ name network t. refl;
  metric_keeps = λ m t. refl;
}

abbrev hello : FunctionDeployment
hello = record {
  service = "hello";
  image = "hello:1";
  network = "";
  env_process = "";
  env_vars = none;
  labels = none;
  secrets = none;
  limits = none;
  requests = none;
  constraints = none;
  annotations = none;
  namespace = "";
  read_only_root_filesystem = false;
  debug = false;
}

abbrev pub deployed : Table
deployed = (handle_deploy_function services (some hello) []).1

deployed_status : (handle_deploy_function services (some hello) []).0.status ≡ 202
unfolding handle_deploy_function validate_function_name matches_name get_row lookup new_metadata
    create_row
deployed_status = refl

handle_deploy_function_lem_example :
    (((handle_deploy_function services (some hello) []).0.status ≡ 202)
      × IsDeployed services (some hello) [] (handle_deploy_function services (some hello) []).1)
    ⊎ (((handle_deploy_function services (some hello) []).0.status ≢ 202)
        × ((handle_deploy_function services (some hello) []).1 ≡ []))
handle_deploy_function_lem_example =
    handle_deploy_function_lem services (λ t. t) memory_laws services_laws (some hello) []

handle_update_function_lem_example :
    (((handle_update_function services (some hello) deployed).0.status ≡ 202)
      × IsUpdated services
          (some hello)
          deployed
          (handle_update_function services (some hello) deployed).1)
    ⊎ (((handle_update_function services (some hello) deployed).0.status ≢ 202)
        × ((handle_update_function services (some hello) deployed).1 ≡ deployed))
handle_update_function_lem_example =
    handle_update_function_lem services (λ t. t) memory_laws services_laws (some hello) deployed

handle_delete_function_lem_example :
    (((handle_delete_function services "hello.openfaas" none deployed).0.status ≡ 202)
      × ((old : FunctionMetadata) × (lookup
              (normalize_function_name (requested_name "hello.openfaas" none))
              deployed
            ≡ some old)
          × ((handle_delete_function services "hello.openfaas" none deployed).1
              ≡ erase (normalize_function_name (requested_name "hello.openfaas" none)) deployed)))
    ⊎ (((handle_delete_function services "hello.openfaas" none deployed).0.status ≢ 202)
        × ((handle_delete_function services "hello.openfaas" none deployed).1 ≡ deployed))
handle_delete_function_lem_example =
    handle_delete_function_lem services (λ t. t) memory_laws services_laws "hello.openfaas" none
      deployed

abbrev three : ScaleBody
three = scale_body (record { service_name = ""; replicas = pos 3 }) none

handle_scale_function_lem_example :
    (((handle_scale_function services three "hello" deployed).0.status ≡ 202)
      × ((request : ScaleServiceRequest) × (scale_request three ≡ some request)
          × IsScaled
              (normalize_function_name (requested_service request "hello"))
              request.replicas
              deployed
              (handle_scale_function services three "hello" deployed).1))
    ⊎ (((handle_scale_function services three "hello" deployed).0.status ≢ 202)
        × ((handle_scale_function services three "hello" deployed).1 ≡ deployed))
handle_scale_function_lem_example =
    handle_scale_function_lem services (λ t. t) memory_laws services_laws three "hello" deployed

abbrev rounds : List Round
rounds = tick 500 ∷ tick 31000 ∷ []

rounds_end : any (ends (0 + 30000)) rounds ≡ true
unfolding any
rounds_end = refl

wait_for_function_ready-some_example :
    (r : Result (Unit {0})) × ((wait_for_function_ready docker "hello" 0 30000 rounds deployed).0
      ≡ some r)
wait_for_function_ready-some_example =
    wait_for_function_ready-some docker "hello" 0 30000 rounds deployed rounds_end

rounds_ready : (wait_for_function_ready docker "hello" 0 30000 rounds []).0 ≡ some (ok tt)
unfolding wait_for_function_ready is_container_healthy any is_available contains_text
rounds_ready = refl

wait_for_function_ready-ready_example :
    IsReadyIn docker "hello" (wait_for_function_ready docker "hello" 0 30000 rounds []).1
wait_for_function_ready-ready_example =
    wait_for_function_ready-ready docker "hello" 0 30000 rounds [] rounds_ready

abbrev probes : Probes Table
probes = record {
  store_health = λ t. (ok tt, t);
  provider_health = λ t. (err "no daemon", t);
  check_network = λ t. (ok tt, t);
}

handle_healthz-200_iff_example : ((handle_healthz probes "text/html" deployed).0.0 ≡ 200) ↔ (
    ((probes.store_health deployed).0 ≡ ok tt)
    × ((probes.provider_health (probes.store_health deployed).1).0 ≡ ok tt)
    × ((probes.check_network (probes.provider_health (probes.store_health deployed).1).1).0
        ≡ ok tt))
handle_healthz-200_iff_example = handle_healthz-200_iff probes "text/html" deployed

unhealthy : (handle_healthz probes "text/html" deployed).0 ≡ (503, text_body "Unhealthy")
unfolding handle_healthz contains_text
unhealthy = refl

abbrev hello_call : Invocation
hello_call = record {
  path_name = "hello";
  body = ok "{}";
  new_request = ok tt;
  start = 0;
  rounds = rounds;
}

abbrev to_container : RouteRequest Table
to_container = λ name body t. (ok (respond 200 body), t)

handle_invoke_function_lem_example :
    IsRouted services to_container
      (normalize_function_name "hello")
      hello_call
      (handle_invoke_function services to_container hello_call deployed)
    ⊎ IsUnrouted (handle_invoke_function services to_container hello_call deployed)
handle_invoke_function_lem_example =
    handle_invoke_function_lem services to_container hello_call deployed
