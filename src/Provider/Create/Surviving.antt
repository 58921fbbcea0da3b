-- ===== src/Provider/Create/Surviving.antt =====
-- `createContainer` that succeeds leaves a container of the name, and those of other names.
use docker_faas.Base.{
  String, ◌≡◌, refl, sym, ◌∙◌, ◌≢◌, inl, inr, true, some, [], ◌∷◌, ◌++◌, ◌==◌, Bool-cases, contains,
  In, ok, nat_eq, string_eq, bool_eq,
}
use docker_faas.Base.Calls.{Result-cases}
use docker_faas.Base.Int.{ℤ, int_eq}
use docker_faas.Base.Text.{codes, ◌<>◌, contains-has_prefix}
use docker_faas.Base.Membership.{In-append}
use docker_faas.Gateway.Types.{FunctionDeployment}
use docker_faas.Provider.Networks.{ensure_network, ensure_gateway_connected}
use docker_faas.Provider.Containers.{is_container_stale_state}
use docker_faas.Provider.Docker.{Inspection, DockerProvider, is_missing}
use docker_faas.Provider.Create.Keeping.{
  forgiven_or-Keeps, ensure_network-Keeps, ensure_gateway_connected-Keeps, mount_secrets-Keeps,
}
use docker_faas.Provider.Create.Made.{Containers, Refers, ContainerLaws}
use docker_faas.Provider.Create.{
  entries, network_labels, status_of, container_spec, mount_secrets, remove_stale,
  remove_stale_container_by_name, chosen_network, create_in, create_container,
}

-- There is a container of the name.
abbrev pub HasName : Containers → String → Type 0
HasName l name = (id : String) × In (id, name) l

-- The containers of other names stay.
abbrev pub OthersStay : String → Containers → Containers → Type 0
OthersStay name before now = (c : String × String) → In c before → c.1 ≢ name → In c now

module _ {W : Type 0} (p : DockerProvider W) (containers : W → Containers)
    (laws : ContainerLaws p containers) where
  remove_stale-OthersStay :
      (name : String) (info : Inspection) (w : W)
      → ((c : String × String) → In c (containers w) → Refers info.id c → c.1 ≡ name)
      → OthersStay name (containers w) (containers (remove_stale p name (some info) w).1)
  unfolding remove_stale
  remove_stale-OthersStay name info w h c i n =
      let call = p.client.container_remove info.id w in
      let state = status_of info.state in
      elim (Bool-cases (is_container_stale_state state state)) [
        | inr s ↦ rw s i
        | inl s ↦
            let same =
              forgiven_or-Keeps containers (is_missing p.client)
                ("failed to remove stale existing container " <> name <> ": ") call.0 call.1 in
            rw (s, same) (laws.remove_spares info.id w c i (λ r. n (h c i r)))
      ]

  -- The container found under a name with a dash has that name.
  inspected_name :
      (name : String) (w : W) (info : Inspection)
      → contains (codes name) b'-' ≡ true
      → (p.client.container_inspect name w).0 ≡ ok info
      → (c : String × String) → In c (containers w)
      → c.0 ≡ info.id
      → c.1 ≡ name
  inspected_name name w info dash h c i q = elim (laws.inspect_ok name w info h c i q) [
    | inl e ↦ e
    | inr b ↦
        let found = contains-has_prefix (codes c.0) (codes name) b'-' b dash in
        absurd (cc (found, laws.ids_plain w c i))
  ]

  -- What the id of the container found under such a name refers to has the name.
  referred_name :
      (name : String) (w : W) (info : Inspection)
      → contains (codes name) b'-' ≡ true
      → (p.client.container_inspect name w).0 ≡ ok info
      → (c : String × String) → In c (containers w)
      → Refers info.id c
      → c.1 ≡ name
  referred_name name w info dash h c i r =
      let (n, there) = laws.inspect_found name w info h in
      inspected_name name w info dash h c i (sym (laws.ids_apart w (info.id, n) c there i r))

  stale-OthersStay :
      (name : String) (w : W)
      → contains (codes name) b'-' ≡ true
      → OthersStay name (containers w) (containers (remove_stale_container_by_name p name w).1)
  unfolding remove_stale_container_by_name
  stale-OthersStay name w dash c i n =
      let seen = p.client.container_inspect name w in
      let kept = laws.inspect_keeps name w in
      elim (Result-cases seen.0) [
        | inl (info, e) ↦ rw e (
            remove_stale-OthersStay name info seen.1
              (λ x j q. referred_name name w info dash e x (rw kept at j) q) c (rw kept i) n)
        | inr (t, e) ↦ elim (Bool-cases (is_missing p.client t)) [
          | inl m ↦ rw (e, m, kept) i
          | inr m ↦ rw (e, m, kept) i
        ]
      ]

  -- From the choice of the network on
  create_in-HasName :
      (d : FunctionDeployment) (name : String) (i : ℤ) (network : String) (w : W)
      → contains (codes name) b'-' ≡ true
      → (create_in p d name i network w).0 ≡ ok tt
      → HasName (containers (create_in p d name i network w).1) name
        × OthersStay name (containers w) (containers (create_in p d name i network w).1)
  unfolding create_in container_spec
  create_in-HasName d name i network w dash h =
      let networked = ensure_network p network (network_labels d) w in
      let joined = ensure_gateway_connected p network networked.1 in
      let mounted = mount_secrets p (entries d.secrets) joined.1 in
      let freed = remove_stale_container_by_name p name mounted.1 in
      let same =
        mount_secrets-Keeps p containers laws (entries d.secrets) joined.1
        ∙ ensure_gateway_connected-Keeps p containers laws network networked.1
        ∙ ensure_network-Keeps p containers laws network (network_labels d) w in
      elim (Result-cases networked.0) [
        | inr (t, e) ↦ absurd (cc (rw e at h))
        | inl (u, e1) ↦ elim (Result-cases joined.0) [
          | inr (t, e) ↦ absurd (cc (rw (e1, e) at h))
          | inl (v, e2) ↦ elim (Result-cases mounted.0) [
            | inr (t, e) ↦ absurd (cc (rw (e1, e2, e) at h))
            | inl (mounts, e3) ↦ elim (Result-cases freed.0) [
              | inr (t, e) ↦ absurd (cc (rw (e1, e2, e3, e) at h))
              | inl (x, e4) ↦
                  let spec = container_spec p d network name i mounts in
                  let made = p.client.container_create spec freed.1 in
                  elim (Result-cases made.0) [
                    | inr (t, e) ↦ absurd (cc (rw (e1, e2, e3, e4, e) at h))
                    | inl (id, e5) ↦
                        let now = laws.start_keeps id made.1 ∙ laws.create_ok spec freed.1 id e5 in
                        let end : containers (create_in p d name i network w).1
                            ≡ containers freed.1 ++ ((id, name) ∷ []) =
                          rw (e1, e2, e3, e4, e5) now in
                        (
                          (
                            id,
                            rw end
                                ((In-append (id, name) (containers freed.1) _).1 (inr (inl refl))),
                          ),
                          λ c j n. rw end (
                              (In-append c (containers freed.1) _).1
                                (inl (stale-OthersStay name mounted.1 dash c (rw same j) n))),
                        )
                  ]
            ]
          ]
        ]
      ]

  pub create_container-HasName :
      (d : FunctionDeployment) (name : String) (i : ℤ) (w : W)
      → contains (codes name) b'-' ≡ true
      → (create_container p d name i w).0 ≡ ok tt
      → HasName (containers (create_container p d name i w).1) name
        × OthersStay name (containers w) (containers (create_container p d name i w).1)
  unfolding create_container
  create_container-HasName d name i w dash h = elim (Bool-cases (chosen_network p d == "")) [
    | inl e ↦ absurd (cc (rw e at h))
    | inr e ↦ rw e (create_in-HasName d name i (chosen_network p d) w dash (rw e at h))
  ]
