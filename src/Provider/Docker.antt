-- ===== src/Provider/Docker.antt =====
-- The calls of the Docker client that pkg/provider/docker_provider.go makes, and `DockerProvider`. A
-- context and the timeouts are left out. Of an answer only what the provider reads is kept.
use docker_faas.Base.{String, Bool, ◌||◌, Option, List}
use docker_faas.Base.Calls.{Call}
use docker_faas.Base.Int.{ℤ}
use docker_faas.Base.Assoc.{Assoc}
use docker_faas.Base.Text.{codes, to_lower, contains_text}
use docker_faas.Provider.Containers.{Summary}
use docker_faas.Secrets.Files.{FileSystem}
use docker_faas.Secrets.{SecretManager}

-- A mount of a container: `mount_type` is `Type`.
pub record MountPoint : Type 0 where
  pub mount_type : String
  pub name : String
  pub source : String
  pub destination : String

-- `ContainerInspect`: `status` and `is_running` of a state that is not nil; the address in each network
-- and the host ports of each port, where there are network settings; the labels, where there are any.
pub record Inspection : Type 0 where
  pub id : String
  pub state : Option (String × Bool)
  pub mounts : List MountPoint
  pub labels : Option (Assoc String String)
  pub networks : Option (Assoc String String × Assoc String (List String))

pub record NetworkInfo : Type 0 where
  pub labels : Option (Assoc String String)
  pub containers : List String

-- `container.Config`, `container.HostConfig` and the network of a container that is created. A port
-- binding is the port, the address and the port of the host.
pub record ContainerSpec : Type 0 where
  pub name : String
  pub image : String
  pub labels : Assoc String String
  pub env : List String
  pub exposed_ports : List String
  pub network_mode : String
  pub restart_policy : String
  pub security_opt : List String
  pub cap_drop : List String
  pub port_bindings : List (String × String × String)
  pub memory : ℤ
  pub nano_cpus : ℤ
  pub is_readonly_rootfs : Bool
  -- The sources and targets of read-only bind mounts
  pub mounts : List (String × String)

-- `is_not_found` is `errdefs.IsNotFound`. The readers of a pull and of logs are read as a whole.
pub record Docker (W : Type 0) : Type 0 where
  pub is_not_found : String → Bool
  pub ping : Call W (Unit {0})
  pub network_list : String → Call W (List String)
  pub network_create : String → Assoc String String → Call W (Unit {0})
  pub network_inspect : String → Call W NetworkInfo
  pub network_connect : String → String → Call W (Unit {0})
  pub network_disconnect : String → String → Call W (Unit {0})
  pub network_remove : String → Call W (Unit {0})
  pub image_inspect : String → Call W (Unit {0})
  pub image_pull : String → Call W String
  pub read_all : String → Call W String
  pub volume_inspect : String → Call W String
  pub container_list : String → Call W (List Summary)
  pub container_inspect : String → Call W Inspection
  pub container_create : ContainerSpec → Call W String
  pub container_start : String → Call W (Unit {0})
  pub container_stop : String → Call W (Unit {0})
  pub container_remove : String → Call W (Unit {0})
  pub container_logs : String → String → Call W String

-- `scan_int` and `scan_nano_cpus` are the numbers that `fmt.Sscanf` reads with `%d`, and with `%f`
-- multiplied by 1e9 in float64.
pub record DockerProvider (W : Type 0) : Type 0 where
  pub client : Docker W
  pub files : FileSystem W
  pub secret_manager : SecretManager
  pub network : String
  pub gateway_id : String
  pub connect_gateway : Bool
  pub debug_bind_address : String
  pub scan_int : String → ℤ
  pub scan_nano_cpus : String → ℤ

abbrev pub label_function : String
label_function = "com.docker-faas.function"

abbrev pub label_type : String
label_type = "com.docker-faas.type"

abbrev pub label_network : String
label_network = "com.docker-faas.network.name"

abbrev pub label_network_type : String
label_network_type = "com.docker-faas.network.type"

abbrev pub label_network_function : String
label_network_function = "com.docker-faas.network.function"

unfoldable pub is_container_not_found_err : String → Bool
is_container_not_found_err e =
    contains_text (to_lower e) (codes "no such container")
    || contains_text (to_lower e) (codes "container not found")

unfoldable pub is_network_in_use_err : String → Bool
is_network_in_use_err e =
    contains_text (to_lower e) (codes "has active endpoints")
    || contains_text (to_lower e) (codes "network is in use")

-- The error of a container that is not there
abbrev pub is_missing : {W : Type 0} → Docker W → String → Bool
is_missing client e = client.is_not_found e || is_container_not_found_err e
