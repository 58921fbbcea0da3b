-- ===== src/Provider/Create/Made.antt =====
-- What a container that is created leaves of the others.
use docker_faas.Base.{
  String, ◌≡◌, ◌⊎◌, true, false, List, [], ◌∷◌, ◌++◌, contains, In, ok, nat_eq, string_eq, bool_eq,
}
use docker_faas.Base.Calls.{Keeps}
use docker_faas.Base.Text.{codes, has_prefix}
use docker_faas.Provider.Docker.{Inspection, ContainerSpec, DockerProvider}

-- The containers of Docker, by id and name
abbrev pub Containers : Type 0
Containers = List (String × String)

-- A reference to a container: its id, its name, or the beginning of its id
abbrev pub Refers : String → String × String → Type 0
Refers ref c = (c.0 ≡ ref) ⊎ (c.1 ≡ ref) ⊎ (has_prefix (codes c.0) (codes ref) ≡ true)

-- What Docker promises of the containers. A call is given a reference, and a removal, or a stop, takes
-- at most away what it refers to; what an inspection finds is there, under the name asked for if this
-- does not begin its id. An id is hexadecimal, so without a dash, and all are of one length; no
-- container has the id of another as its name. Only those calls change the containers that stop,
-- remove or create one. The files of the secrets are no concern of Docker's.
pub record ContainerLaws {W : Type 0} (p : DockerProvider W) (containers : W → Containers)
    : Type 0 where
  pub network_list_keeps : (name : String) → Keeps containers (p.client.network_list name)
  pub network_create_keeps :
      (name : String) (labels : List (String × String))
      → Keeps containers (p.client.network_create name labels)
  pub network_connect_keeps :
      (name id : String) → Keeps containers (p.client.network_connect name id)
  pub image_inspect_keeps : (image : String) → Keeps containers (p.client.image_inspect image)
  pub image_pull_keeps : (image : String) → Keeps containers (p.client.image_pull image)
  pub read_all_keeps : (reader : String) → Keeps containers (p.client.read_all reader)
  pub volume_inspect_keeps : (name : String) → Keeps containers (p.client.volume_inspect name)
  pub list_keeps : (label : String) → Keeps containers (p.client.container_list label)
  pub inspect_keeps : (name : String) → Keeps containers (p.client.container_inspect name)
  pub start_keeps : (id : String) → Keeps containers (p.client.container_start id)
  pub write_keeps : (path text : String) → Keeps containers (p.files.write path text)
  pub inspect_ok :
      (name : String) (w : W) (info : Inspection)
      → (p.client.container_inspect name w).0 ≡ ok info
      → (c : String × String) → In c (containers w)
      → c.0 ≡ info.id
      → (c.1 ≡ name) ⊎ (has_prefix (codes c.0) (codes name) ≡ true)
  pub ids_plain :
      (w : W) (c : String × String) → In c (containers w) → contains (codes c.0) b'-' ≡ false
  pub inspect_found :
      (ref : String) (w : W) (info : Inspection)
      → (p.client.container_inspect ref w).0 ≡ ok info
      → (n : String) × In (info.id, n) (containers w)
  pub ids_apart :
      (w : W) (c d : String × String)
      → In c (containers w)
      → In d (containers w)
      → Refers c.0 d
      → c.0 ≡ d.0
  pub stop_spares :
      (ref : String) (w : W) (c : String × String)
      → In c (containers w)
      → ¬ Refers ref c
      → In c (containers (p.client.container_stop ref w).1)
  pub remove_spares :
      (ref : String) (w : W) (c : String × String)
      → In c (containers w)
      → ¬ Refers ref c
      → In c (containers (p.client.container_remove ref w).1)
  pub create_ok :
      (spec : ContainerSpec) (w : W) (id : String)
      → (p.client.container_create spec w).0 ≡ ok id
      → containers (p.client.container_create spec w).1 ≡ containers w ++ ((id, spec.name) ∷ [])
