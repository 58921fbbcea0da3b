-- ===== src/Provider/Create/Keeping.antt =====
-- The calls of `createContainer` that change no container.
use docker_faas.Base.{
  String, refl, ◌∙◌, inl, inr, Bool, true, false, not, ◌&&◌, ◌||◌, Option, none, some, List, [],
  ◌∷◌, ◌==◌, Bool-cases, contains, Result, ok, err, nat_eq, string_eq, bool_eq,
}
use docker_faas.Base.Calls.{Call, Result-cases, Keeps}
use docker_faas.Base.Assoc.{Assoc}
use docker_faas.Secrets.{validate_secrets, ensure_secrets}
use docker_faas.Provider.Networks.{
  forgiven_or, found_or, create_missing, ensure_network, ensure_gateway_connected,
}
use docker_faas.Secrets.Writes.{ensure_secrets-Keeps}
use docker_faas.Provider.Docker.{MountPoint, Inspection, DockerProvider}
use docker_faas.Provider.Create.{
  container_secrets_path, mount_path, or_else, path_in, inspected_path, resolve_secrets_host_path,
  mount_secrets,
}
use docker_faas.Provider.Reconciler.{is_already_connected_err}
use docker_faas.Provider.Create.Made.{Containers, ContainerLaws}

pub forgiven_or-Keeps :
    {W V : Type 0} (view : W → V) (p : String → Bool) (msg : String) (r : Result (Unit {0}))
    → Keeps view (forgiven_or p msg r)
forgiven_or-Keeps view p msg (ok u) w = refl
forgiven_or-Keeps view p msg (err e) w = elim (Bool-cases (p e)) [
  | inl h ↦ rw h refl
  | inr h ↦ rw h refl
]

pub found_or-Keeps :
    {W V A : Type 0} (view : W → V) (p : String → Bool) (msg : String) (r : Result A)
    → Keeps view (found_or p msg r)
found_or-Keeps view p msg (ok a) w = refl
found_or-Keeps view p msg (err e) w = elim (Bool-cases (p e)) [
  | inl h ↦ rw h refl
  | inr h ↦ rw h refl
]

module _ {W : Type 0} (p : DockerProvider W) (containers : W → Containers)
    (laws : ContainerLaws p containers) where
  create_missing-Keeps :
      (name : String) (labels : Assoc String String) (b : Bool)
      → Keeps containers (create_missing p name labels b)
  create_missing-Keeps name labels true w = refl
  create_missing-Keeps name labels false w = laws.network_create_keeps name _ w

  pub ensure_network-Keeps :
      (name : String) (labels : Assoc String String)
      → Keeps containers (ensure_network p name labels)
  unfolding ensure_network
  ensure_network-Keeps name labels w = elim (Result-cases (p.client.network_list name w).0) [
    | inr (t, e) ↦ rw e (laws.network_list_keeps name w)
    | inl (networks, e) ↦ rw e (
        create_missing-Keeps name labels (contains networks name) (p.client.network_list name w).1
        ∙ laws.network_list_keeps name w)
  ]

  pub ensure_gateway_connected-Keeps :
      (name : String) → Keeps containers (ensure_gateway_connected p name)
  unfolding ensure_gateway_connected
  ensure_gateway_connected-Keeps name w =
      let call = p.client.network_connect name p.gateway_id w in
      elim (Bool-cases (not p.connect_gateway || p.gateway_id == "")) [
        | inl h ↦ rw h refl
        | inr h ↦ rw h (
            forgiven_or-Keeps containers is_already_connected_err "" call.0 call.1
            ∙ laws.network_connect_keeps name p.gateway_id w)
      ]

  mount_path-Keeps :
      (base_path : String) (m : MountPoint) → Keeps containers (mount_path p base_path m)
  unfolding mount_path
  mount_path-Keeps base_path m w =
      elim (Bool-cases
        (not (m.destination == container_secrets_path) && not (m.destination == base_path))) [
          | inl a ↦ rw a refl
          | inr a ↦ elim (Bool-cases (m.mount_type == "bind" && not (m.source == ""))) [
            | inl b ↦ rw (a, b) refl
            | inr b ↦ elim (Bool-cases (m.mount_type == "volume" && not (m.name == ""))) [
              | inl c ↦ rw (a, b, c) (laws.volume_inspect_keeps m.name w)
              | inr c ↦ rw (a, b, c) refl
            ]
          ]
        ]

  or_else-Keeps :
      (rest : Call W String) (o : Option String)
      → Keeps containers rest
      → Keeps containers (or_else rest o)
  or_else-Keeps rest none h w = h w
  or_else-Keeps rest (some path) h w = refl

  path_in-Keeps :
      (base_path : String) (mounts : List MountPoint)
      → Keeps containers (path_in p base_path mounts)
  unfolding path_in
  path_in-Keeps base_path [] w = refl
  path_in-Keeps base_path (m ∷ mounts) w = elim (Result-cases (mount_path p base_path m w).0) [
    | inr (t, e) ↦ rw e (mount_path-Keeps base_path m w)
    | inl (o, e) ↦ rw e (
        or_else-Keeps (path_in p base_path mounts) o (path_in-Keeps base_path mounts)
          (mount_path p base_path m w).1
        ∙ mount_path-Keeps base_path m w)
  ]

  inspected_path-Keeps :
      (base_path : String) (r : Result Inspection) → Keeps containers (inspected_path p base_path r)
  inspected_path-Keeps base_path (ok inspect) w = path_in-Keeps base_path inspect.mounts w
  inspected_path-Keeps base_path (err e) w = refl

  resolve_secrets_host_path-Keeps : Keeps containers (resolve_secrets_host_path p)
  unfolding resolve_secrets_host_path
  resolve_secrets_host_path-Keeps w =
      let call = p.client.container_inspect p.gateway_id w in
      elim (Bool-cases (p.gateway_id == "")) [
        | inl h ↦ rw h refl
        | inr h ↦ rw h (
            inspected_path-Keeps p.secret_manager.base_path call.0 call.1
            ∙ laws.inspect_keeps p.gateway_id w)
      ]

  pub mount_secrets-Keeps : (names : List String) → Keeps containers (mount_secrets p names)
  unfolding mount_secrets
  mount_secrets-Keeps [] w = refl
  mount_secrets-Keeps (name ∷ names) w =
      let out = ensure_secrets p.files p.secret_manager (name ∷ names) w in
      let kept =
        ensure_secrets-Keeps p.files p.secret_manager containers laws.write_keeps (name ∷ names)
          w in
      elim (Result-cases out.0.1) [
        | inr (t, e) ↦ rw e kept
        | inl (u, e) ↦
            elim (Result-cases (validate_secrets p.files p.secret_manager (name ∷ names) out.1)) [
              | inr (t, h) ↦ rw (e, h) kept
              | inl (v, h) ↦ elim (Result-cases (resolve_secrets_host_path p out.1).0) [
                | inr (t, k) ↦ rw (e, h, k) (resolve_secrets_host_path-Keeps out.1 ∙ kept)
                | inl (x, k) ↦ rw (e, h, k) (resolve_secrets_host_path-Keeps out.1 ∙ kept)
              ]
            ]
      ]
