-- ===== src/Gateway/Metadata.antt =====
-- The stored form of a function: `EncodeMap`, `DecodeMap`, `EncodeSlice` and `DecodeSlice` of
-- pkg/store/store.go, and what pkg/gateway/handlers.go makes of them.
use docker_faas.Base.{
  String, Option, none, some, List, [], if◌then◌else◌, ◌==◌, Result, ok, ◌>>=◌, wrap, nat_eq,
  string_eq, bool_eq,
}
use docker_faas.Base.Int.{ℤ, pos, int_eq}
use docker_faas.Base.Assoc.{Assoc}
use docker_faas.Base.Text.{◌<>◌}
use docker_faas.Gateway.Types.{
  FunctionLimits, FunctionResources, FunctionDeployment, FunctionMetadata,
}
use docker_faas.Gateway.Services.{Json}

unfoldable pub encode_map : Json → Option (Assoc String String) → Result String
encode_map json none = ok ""
encode_map json (some m) = json.marshal_map m

unfoldable pub decode_map : Json → String → Option (Assoc String String)
decode_map json s = if s == "" then some [] else json.unmarshal_map s

unfoldable pub encode_slice : Json → Option (List String) → Result String
encode_slice json none = ok ""
encode_slice json (some l) = json.marshal_slice l

unfoldable pub decode_slice : Json → String → Option (List String)
decode_slice json s = if s == "" then some [] else json.unmarshal_slice s

-- The text of the limits, where there are any; else the one that was stored before.
unfoldable pub encode_limits : Json → Option FunctionLimits → String → Result String
encode_limits json none before = ok before
encode_limits json (some l) before = json.marshal_limits l

unfoldable pub encode_requests : Json → Option FunctionResources → String → Result String
encode_requests json none before = ok before
encode_requests json (some l) before = json.marshal_requests l

-- The metadata of a function that is deployed. The texts of its errors begin with `word`.
unfoldable pub metadata_of : String → Json → FunctionDeployment → ℤ → Result FunctionMetadata
unfolding encode_map encode_slice encode_limits encode_requests
metadata_of word json deployment replicas = do
  env_vars ← wrap (word <> " to encode envVars: ") (encode_map json deployment.env_vars)
  labels ← wrap (word <> " to encode labels: ") (encode_map json deployment.labels)
  secrets ← wrap (word <> " to encode secrets: ") (encode_slice json deployment.secrets)
  limits ← wrap (word <> " to encode limits: ") (encode_limits json deployment.limits "")
  requests ← wrap (word <> " to encode requests: ") (encode_requests json deployment.requests "")
  ok (record {
    id = pos 0;
    name = deployment.service;
    image = deployment.image;
    env_process = deployment.env_process;
    env_vars = env_vars;
    labels = labels;
    secrets = secrets;
    network = deployment.network;
    replicas = replicas;
    limits = limits;
    requests = requests;
    read_only = deployment.read_only_root_filesystem;
    debug = deployment.debug;
    created_at = 0;
    updated_at = 0;
  })

-- The metadata of a function that is updated: what `existing` becomes.
unfoldable pub metadata_over :
    String → Json → FunctionDeployment → FunctionMetadata → Result FunctionMetadata
unfolding encode_map encode_slice encode_limits encode_requests
metadata_over word json deployment existing = do
  env_vars ← wrap (word <> " to encode envVars: ") (encode_map json deployment.env_vars)
  labels ← wrap (word <> " to encode labels: ") (encode_map json deployment.labels)
  secrets ← wrap (word <> " to encode secrets: ") (encode_slice json deployment.secrets)
  limits ←
      wrap (word <> " to encode limits: ") (encode_limits json deployment.limits existing.limits)
  requests ←
      wrap (word <> " to encode requests: ")
        (encode_requests json deployment.requests existing.requests)
  ok (record existing {
    image = deployment.image;
    env_process = deployment.env_process;
    env_vars = env_vars;
    labels = labels;
    secrets = secrets;
    network = deployment.network;
    read_only = deployment.read_only_root_filesystem;
    debug = deployment.debug;
    limits = limits;
    requests = requests;
  })

-- As the handlers of pkg/gateway/handlers.go do it: an error is the text of the answer.
unfoldable pub new_metadata : Json → FunctionDeployment → ℤ → Result FunctionMetadata
unfolding metadata_of
new_metadata json deployment replicas = metadata_of "Failed" json deployment replicas

unfoldable pub updated_metadata :
    Json → FunctionDeployment → FunctionMetadata → Result FunctionMetadata
unfolding metadata_over
updated_metadata json deployment existing = metadata_over "Failed" json deployment existing

-- The deployment that is rebuilt from stored metadata. The limits are those that the caller reads.
unfoldable pub stored_deployment :
    Json → FunctionMetadata → Option FunctionLimits → Option FunctionResources → FunctionDeployment
unfolding decode_map decode_slice
stored_deployment json metadata limits requests = record {
  service = metadata.name;
  image = metadata.image;
  network = metadata.network;
  env_process = metadata.env_process;
  env_vars = decode_map json metadata.env_vars;
  labels = decode_map json metadata.labels;
  secrets = decode_slice json metadata.secrets;
  limits = limits;
  requests = requests;
  constraints = none;
  annotations = none;
  namespace = "";
  read_only_root_filesystem = metadata.read_only;
  debug = metadata.debug;
}
