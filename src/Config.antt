-- ===== src/Config.antt =====
-- pkg/config/config.go: the configuration that is read from environment variables, which are a function
-- of their names; an unset variable is the empty text. `time.ParseDuration` is a parameter, and a
-- duration is in nanoseconds.
use Prim.Native.Char.{Char, code}
use docker_faas.Base.{
  ℕ, ◌*◌, String, ◌≡◌, refl, Bool, true, false, not, ◌||◌, Option, none, some, List, [], ◌∷◌, map,
  if◌then◌else◌, ◌==◌, on_option, keep, nat_eq, string_eq, bool_eq,
}
use docker_faas.Base.Int.{ℤ, pos, int_eq}
use docker_faas.Base.Text.{trim_space, atoi}

pub record Config : Type 0 where
  pub gateway_port : String
  pub read_timeout : ℤ
  pub write_timeout : ℤ
  pub exec_timeout : ℤ
  pub cors_allowed_origins : List String
  pub docker_host : String
  pub functions_network : String
  pub auth_enabled : Bool
  pub auth_user : String
  pub auth_password : String
  pub require_auth_for_functions : Bool
  pub auth_rate_limit : ℤ
  pub auth_rate_window : ℤ
  pub auth_token_ttl : ℤ
  pub state_db_path : String
  pub metrics_enabled : Bool
  pub metrics_port : String
  pub log_level : String
  pub default_replicas : ℤ
  pub max_replicas : ℤ
  pub debug_bind_address : String
  pub build_history_limit : ℤ
  pub build_history_retention : ℤ
  pub build_output_limit : ℤ
  pub reconcile_function_networks : Bool
  pub reconcile_interval_seconds : ℤ

-- `os.Getenv`
abbrev pub Environment : Type 0
Environment = String → String

unfoldable pub get_env : Environment → String → String → String
get_env env key default_value = if env key == "" then default_value else env key

-- A value that is unset or cannot be parsed is the default.
unfoldable pub parsed_env {ℓ} : {A : Type ℓ} → (String → Option A) → Environment → String → A → A
parsed_env parse env key default_value =
    if env key == "" then default_value else on_option (parse (env key)) default_value (λ a. a)

-- `strconv.ParseBool`
unfoldable pub parse_bool : String → Option Bool
parse_bool s =
    if s == "1" || s == "t" || s == "T" || s == "true" || s == "TRUE" || s == "True"
    then some true
    else if s == "0" || s == "f" || s == "F" || s == "false" || s == "FALSE" || s == "False"
    then some false
    else none

unfoldable pub get_bool_env : Environment → String → Bool → Bool
unfolding parsed_env parse_bool
get_bool_env env key default_value = parsed_env parse_bool env key default_value

unfoldable pub get_int_env : Environment → String → ℤ → ℤ
unfolding parsed_env
get_int_env env key default_value = parsed_env atoi env key default_value

unfoldable pub get_duration_env : (String → Option ℤ) → Environment → String → ℤ → ℤ
unfolding parsed_env
get_duration_env parse_duration env key default_value =
    parsed_env parse_duration env key default_value

-- The parts of a text between commas: `strings.Split`
abbrev first_longer : Char → List String → List String
first_longer c [] = String.◌∷◌ c "" ∷ []
first_longer c (part ∷ parts) = String.◌∷◌ c part ∷ parts

unfoldable pub fields : String → List String
fields String.[] = "" ∷ []
fields (String.◌∷◌ c s) =
    let rest = fields s in if code c == b',' then "" ∷ rest else first_longer c rest

unfoldable pub get_csv_env : Environment → String → List String
unfolding fields
get_csv_env env key =
    if env key == ""
    then []
    else keep (λ part. not (part == "")) (map trim_space (fields (env key)))

abbrev pub seconds : ℕ → ℤ
seconds n = pos (n * 1000000000)

-- With authentication off, every origin is allowed where none is configured.
abbrev pub allowed_origins : Bool → List String → List String
allowed_origins auth_enabled [] = if auth_enabled then [] else "*" ∷ []
allowed_origins auth_enabled (o ∷ origins) = o ∷ origins

unfoldable pub load_config : (String → Option ℤ) → Environment → Config
unfolding get_env get_bool_env get_int_env get_duration_env get_csv_env
load_config parse_duration env =
    let auth_enabled = get_bool_env env "AUTH_ENABLED" true in
    record {
      gateway_port = get_env env "GATEWAY_PORT" "8080";
      read_timeout = get_duration_env parse_duration env "READ_TIMEOUT" (seconds 60);
      write_timeout = get_duration_env parse_duration env "WRITE_TIMEOUT" (seconds 60);
      exec_timeout = get_duration_env parse_duration env "EXEC_TIMEOUT" (seconds 60);
      cors_allowed_origins = allowed_origins auth_enabled (get_csv_env env "CORS_ALLOWED_ORIGINS");
      docker_host = get_env env "DOCKER_HOST" "";
      functions_network = get_env env "FUNCTIONS_NETWORK" "docker-faas-net";
      auth_enabled = auth_enabled;
      auth_user = get_env env "AUTH_USER" "admin";
      auth_password = get_env env "AUTH_PASSWORD" "admin";
      require_auth_for_functions = get_bool_env env "REQUIRE_AUTH_FOR_FUNCTIONS" true;
      auth_rate_limit = get_int_env env "AUTH_RATE_LIMIT" (pos 10);
      auth_rate_window = get_duration_env parse_duration env "AUTH_RATE_WINDOW" (seconds 60);
      auth_token_ttl = get_duration_env parse_duration env "AUTH_TOKEN_TTL" (seconds 1800);
      state_db_path = get_env env "STATE_DB_PATH" "docker-faas.db";
      metrics_enabled = get_bool_env env "METRICS_ENABLED" true;
      metrics_port = get_env env "METRICS_PORT" "9090";
      log_level = get_env env "LOG_LEVEL" "info";
      default_replicas = get_int_env env "DEFAULT_REPLICAS" (pos 1);
      max_replicas = get_int_env env "MAX_REPLICAS" (pos 10);
      debug_bind_address = get_env env "DEBUG_BIND_ADDRESS" "127.0.0.1";
      build_history_limit = get_int_env env "BUILD_HISTORY_LIMIT" (pos 100);
      build_history_retention =
          get_duration_env parse_duration env "BUILD_HISTORY_RETENTION" (seconds 86400);
      build_output_limit = get_int_env env "BUILD_OUTPUT_LIMIT" (pos 204800);
      reconcile_function_networks = get_bool_env env "RECONCILE_FUNCTION_NETWORKS" true;
      reconcile_interval_seconds = get_int_env env "RECONCILE_INTERVAL_SECONDS" (pos 60);
    }

abbrev example_env : Environment
example_env key =
    if key == "AUTH_ENABLED"
    then "F"
    else if key == "MAX_REPLICAS"
    then "3"
    else if key == "AUTH_RATE_LIMIT"
    then "many"
    else ""

loaded :
    let config = load_config (λ s. none) example_env in
    (config.cors_allowed_origins ≡ "*" ∷ [])
    × (config.max_replicas ≡ pos 3)
    × (config.auth_rate_limit ≡ pos 10)
    × (fields "a,,b" ≡ "a" ∷ "" ∷ "b" ∷ [])
unfolding load_config atoi fields
loaded = (refl, refl, refl, refl)
