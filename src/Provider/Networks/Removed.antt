-- ===== src/Provider/Networks/Removed.antt =====
-- When a network is removed.
use docker_faas.Base.{
  String, ◌≡◌, refl, ◌∙◌, ◌⊎◌, inl, inr, true, not, ◌&&◌, some, List, [], ◌∷◌, arith, ◌==◌,
  Bool-cases, length, ok, nat_eq, string_eq, bool_eq,
}
use docker_faas.Base.Calls.{Result-cases}
use docker_faas.Provider.Reconciler.{is_network_not_found_err}
use docker_faas.Provider.Docker.{NetworkInfo, DockerProvider, is_network_in_use_err}
use docker_faas.Provider.Networks.{
  is_managed_function_network, remove_unused, inspect_again, cleanup_inspected,
  cleanup_function_network,
}

-- The names of the networks: an inspection changes none, and neither does the disconnection of a
-- container.
pub record NetworkLaws {W : Type 0} (p : DockerProvider W) (networks : W → List String)
    : Type 0 where
  pub inspect_keeps :
      (name : String) (w : W) → networks (p.client.network_inspect name w).1 ≡ networks w
  pub disconnect_keeps :
      (name id : String) (w : W) → networks (p.client.network_disconnect name id w).1 ≡ networks w

no_containers : (l : List String) → (length l == 0) ≡ true → l ≡ []
no_containers [] h = refl
no_containers (x ∷ l) h = absurd (ground arith)

module _ {W : Type 0} (p : DockerProvider W) (networks : W → List String)
    (laws : NetworkLaws p networks) (name : String) where
  -- The network was seen without containers and then asked to be removed.
  abbrev pub RemovedUnused : List String → W → Type 0
  RemovedUnused before now =
      (again : NetworkInfo) × (v : W) × (networks v ≡ before)
      × ((p.client.network_inspect name v).0 ≡ ok again)
      × (again.containers ≡ [])
      × (now ≡ (p.client.network_remove name (p.client.network_inspect name v).1).1)

  removing_lem :
      (info : NetworkInfo) (w : W)
      → (networks (remove_unused p name (some info) w).1 ≡ networks w)
        ⊎ ((info.containers ≡ [])
            × ((remove_unused p name (some info) w).1 ≡ (p.client.network_remove name w).1))
  unfolding remove_unused
  removing_lem info w = elim (Bool-cases (length info.containers == 0)) [
    | inr h ↦ rw h (inl refl)
    | inl h ↦ elim (Result-cases (p.client.network_remove name w).0) [
      | inl (u, e) ↦ rw (h, e) (inr (no_containers info.containers h, refl))
      | inr (t, e) ↦ elim (Bool-cases (is_network_in_use_err t)) [
        | inl b ↦ rw (h, e, b) (inr (no_containers info.containers h, refl))
        | inr b ↦ rw (h, e, b) (inr (no_containers info.containers h, refl))
      ]
    ]
  ]

  again_lem :
      (w : W)
      → (networks (inspect_again p name w).1 ≡ networks w)
        ⊎ RemovedUnused (networks w) (inspect_again p name w).1
  unfolding inspect_again
  again_lem w =
      let seen = p.client.network_inspect name w in
      elim (Result-cases seen.0) [
        | inr (t, e) ↦ elim (Bool-cases (is_network_not_found_err t)) [
          | inl b ↦ rw (e, b) (inl (laws.inspect_keeps name w))
          | inr b ↦ rw (e, b) (inl (laws.inspect_keeps name w))
        ]
        | inl (info, e) ↦ elim (removing_lem info seen.1) [
          | inl same ↦ rw e (inl (same ∙ laws.inspect_keeps name w))
          | inr (empty, now) ↦ rw e (inr (info, w, refl, e, empty, now))
        ]
      ]

  -- `CleanupFunctionNetwork` leaves the networks as they are, or asks for the removal of the network it
  -- names: then its first inspection had found the network to be one that the provider manages for
  -- the function, and a later one had found no container in it, with no other change in between.
  pub cleanup_function_network_lem :
      (function_name : String) (w : W)
      → (networks (cleanup_function_network p function_name name w).1 ≡ networks w)
        ⊎ ((info : NetworkInfo) × ((p.client.network_inspect name w).0 ≡ ok info)
            × (is_managed_function_network p name function_name info.labels ≡ true)
            × RemovedUnused (networks w) (cleanup_function_network p function_name name w).1)
  unfolding cleanup_function_network cleanup_inspected
  cleanup_function_network_lem function_name w =
      let seen = p.client.network_inspect name w in
      elim (Bool-cases (name == "")) [
        | inl n ↦ rw n (inl refl)
        | inr n ↦ elim (Result-cases seen.0) [
          | inr (t, e) ↦ elim (Bool-cases (is_network_not_found_err t)) [
            | inl b ↦ rw (n, e, b) (inl (laws.inspect_keeps name w))
            | inr b ↦ rw (n, e, b) (inl (laws.inspect_keeps name w))
          ]
          | inl (info, e) ↦
              elim (Bool-cases (is_managed_function_network p name function_name info.labels)) [
                | inr m ↦ rw (n, e, m) (inl (laws.inspect_keeps name w))
                | inl m ↦ elim (Bool-cases (p.connect_gateway && not (p.gateway_id == ""))) [
                  | inr g ↦ elim (again_lem seen.1) [
                    | inl same ↦ rw (n, e, m, g) (inl (same ∙ laws.inspect_keeps name w))
                    | inr (again, v, k, r, s, t) ↦
                        rw (n, e, m, g)
                          (inr (info, refl, m, (again, v, k ∙ laws.inspect_keeps name w, r, s, t)))
                  ]
                  | inl g ↦
                      let left = p.client.network_disconnect name p.gateway_id seen.1 in
                      let kept =
                        laws.disconnect_keeps name p.gateway_id seen.1
                        ∙ laws.inspect_keeps name w in
                      elim (again_lem left.1) [
                        | inl same ↦ rw (n, e, m, g) (inl (same ∙ kept))
                        | inr (again, v, k, r, s, t) ↦
                            rw (n, e, m, g) (inr (info, refl, m, (again, v, k ∙ kept, r, s, t)))
                      ]
                ]
              ]
        ]
      ]
