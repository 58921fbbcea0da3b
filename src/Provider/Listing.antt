-- ===== src/Provider/Listing.antt =====
-- `listFunctionContainers`, `GetFunctionContainers` and `GetContainerLogs` of
-- pkg/provider/docker_provider.go. Log lines are left out.
use docker_faas.Base.{
  String, Option, none, some, List, [], ◌∷◌, if◌then◌else◌, ◌==◌, Result, ok, err, nat_eq,
  string_eq, bool_eq,
}
use docker_faas.Base.Calls.{Call, ◌>>=◌, pure, throw, context, attempt}
use docker_faas.Base.Int.{ℤ, pos_part, int_eq}
use docker_faas.Base.Assoc.{Assoc, lookup, insert}
use docker_faas.Base.Text.{trim_slash, decimal, ◌<>◌}
use docker_faas.Gateway.Types.{Container}
use docker_faas.Provider.Containers.{Summary}
use docker_faas.Provider.Networks.{label_of}
use docker_faas.Provider.Docker.{Inspection, DockerProvider, label_function, label_network}

-- The first address, in the order of the entries: Go leaves the order of a range over a map open.
abbrev first_address : Assoc String String → String
first_address [] = ""
first_address ((name, address) ∷ networks) = address

abbrev network_of : String → String → String
network_of label network = if label == "" then network else label

unfoldable pub ip_address_of : String → Inspection → String
ip_address_of network info = elim info.networks [
  | none ↦ ""
  | some settings ↦
      elim (lookup (network_of (label_of info.labels label_network) network) settings.0) [
        | some address ↦ address
        | none ↦ first_address settings.0
      ]
]

-- The first host port of each port that has one
unfoldable pub ports_of : Assoc String (List String) → Assoc String String → Assoc String String
ports_of [] ports = ports
ports_of ((port, []) ∷ bindings) ports = ports_of bindings ports
ports_of ((port, host ∷ more) ∷ bindings) ports = ports_of bindings (insert port host ports)

abbrev all_ports : Option (Assoc String String × Assoc String (List String)) → Assoc String String
all_ports none = []
all_ports (some settings) = ports_of settings.1 []

-- `c.Names[0]`: the Docker API names every container.
abbrev first_name : List String → String
first_name [] = ""
first_name (name ∷ names) = name

unfoldable pub container_info : String → Summary → Inspection → Container
unfolding ip_address_of ports_of
container_info network c info = record {
  id = c.id;
  name = trim_slash (first_name c.names);
  ip_address = ip_address_of network info;
  status = c.status;
  ports = some (all_ports info.networks);
  created = pos_part c.created;
}

abbrev with_info : String → Summary → Result Inspection → List Container → List Container
with_info network c (ok info) rest = container_info network c info ∷ rest
with_info network c (err e) rest = rest

module _ {W : Type 0} where
  abbrev pub list_function_containers : DockerProvider W → String → Call W (List Summary)
  list_function_containers p function_name =
      p.client.container_list (label_function <> "=" <> function_name)

  -- The containers of the list that can be inspected
  unfoldable pub inspect_each : DockerProvider W → List Summary → Call W (List Container)
  inspect_each p [] = pure []
  inspect_each p (c ∷ containers) = do
    info ← attempt (p.client.container_inspect c.id)
    result ← inspect_each p containers
    pure (with_info p.network c info result)

  unfoldable pub get_function_containers : DockerProvider W → String → Call W (List Container)
  unfolding inspect_each
  get_function_containers p function_name =
      list_function_containers p function_name >>= λ containers. inspect_each p containers

  abbrev logs_of : DockerProvider W → String → ℤ → List Summary → Call W String
  logs_of p function_name tail [] = throw ("no containers found for function: " <> function_name)
  logs_of p function_name tail (c ∷ containers) = do
    reader ← context "failed to get container logs: " (p.client.container_logs c.id (decimal tail))
    context "failed to read logs: " (p.client.read_all reader)

  unfoldable pub get_container_logs : DockerProvider W → String → ℤ → Call W String
  get_container_logs p function_name tail =
      list_function_containers p function_name >>= λ containers.
      logs_of p function_name tail containers
