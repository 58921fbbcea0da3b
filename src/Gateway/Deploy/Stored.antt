-- ===== src/Gateway/Deploy/Stored.antt =====
-- What a deployment leaves in the table of functions.
use docker_faas.Base.{
  ℕ, ◌≡◌, refl, sym, ap, ◌∙◌, ◌≢◌, ◌⊎◌, inl, inr, ◌||◌, Option, none, some, arith, ◌==◌, Bool-cases,
  ok, nat_eq, string_eq, bool_eq,
}
use docker_faas.Base.Calls.{Result-cases}
use docker_faas.Base.Int.{ℤ, pos, int_eq}
use docker_faas.Base.Assoc.{lookup, insert}
use docker_faas.Gateway.Types.{FunctionDeployment, FunctionMetadata}
use docker_faas.Gateway.Services.{functions_deployed, function_replicas, Services, answer}
use docker_faas.Gateway.Names.{validate_function_name, function_network_name}
use docker_faas.Gateway.Metadata.{new_metadata}
use docker_faas.Gateway.Laws.{Table, inserted, StoreLaws, ProviderLaws}
use docker_faas.Gateway.Deploy.{
  check_deployment, with_network, number_of, store_deployed, deploy_steps, handle_deploy_function,
}

-- The row of a deployment, which had no row before
abbrev pub IsDeployed :
    {W : Type 0} → Services W → Option FunctionDeployment → Table → Table → Type 0
IsDeployed g body before now =
    (d : FunctionDeployment) × (m : FunctionMetadata) × (id : ℤ) × (created : ℕ) × (updated : ℕ)
    × (body ≡ some d)
    × (validate_function_name d.service ≡ ok tt)
    × (new_metadata g.json (with_network (function_network_name g.network d.service) d) (pos 1)
        ≡ ok m)
    × (lookup m.name before ≡ none)
    × (now ≡ insert m.name (inserted id created updated m) before)

module _ {W : Type 0} (g : Services W) (view : W → Table) (s : StoreLaws g.store view)
    (p : ProviderLaws g view) where
  store_deployed_lem :
      (d : FunctionDeployment) (w : W)
      → (((answer (store_deployed g d w)).0.status ≡ 202)
          × ((m : FunctionMetadata) × (id : ℤ) × (created : ℕ) × (updated : ℕ) × (new_metadata
                  g.json d
                  (pos 1)
                ≡ ok m)
              × (lookup m.name (view w) ≡ none)
              × (view (answer (store_deployed g d w)).1
                  ≡ insert m.name (inserted id created updated m) (view w))))
        ⊎ (((answer (store_deployed g d w)).0.status ≢ 202)
            × (view (answer (store_deployed g d w)).1 ≡ view w))
  unfolding store_deployed
  store_deployed_lem d w = elim (Result-cases (new_metadata g.json d (pos 1))) [
    | inr (e, f) ↦ rw f (inr (λ q. absurd (omega (arith, q)), refl))
    | inl (m, f) ↦
        let create = g.store.create_function m w in
        let list = g.store.list_functions create.1 in
        let deployed = g.metric (functions_deployed (number_of list.0)) list.1 in
        elim (Result-cases create.0) [
          | inr (e, h) ↦
              rw (f, h)
                (inr (
                  λ q. absurd (omega (arith, q)),
                  p.remove_keeps m.name create.1 ∙ s.create_err m w e h,
                ))
          | inl (u, h) ↦
              let (fresh, (id, created, updated, row)) = s.create_ok m w h in
              let kept : view (g.metric (function_replicas d.service (pos 1)) deployed)
                  ≡ view create.1 =
                p.metric_keeps (function_replicas d.service (pos 1)) deployed
                ∙ p.metric_keeps (functions_deployed (number_of list.0)) list.1
                ∙ s.list_keeps create.1 in
              rw (f, h) (inl (refl, (m, id, created, updated, refl, fresh, kept ∙ row)))
        ]
  ]

  -- Where the store and the provider keep their laws, the deploy handler either answers 202, and
  -- then the function had no row and the row of its metadata, with one replica, has been added; or
  -- it answers with another status, and the table of functions is as it was.
  pub handle_deploy_function_lem :
      (body : Option FunctionDeployment) (w : W)
      → (((handle_deploy_function g body w).0.status ≡ 202)
          × IsDeployed g body (view w) (view (handle_deploy_function g body w).1))
        ⊎ (((handle_deploy_function g body w).0.status ≢ 202)
            × (view (handle_deploy_function g body w).1 ≡ view w))
  unfolding handle_deploy_function deploy_steps check_deployment
  handle_deploy_function_lem none w = inr (λ e. absurd (omega (arith, e)), refl)
  handle_deploy_function_lem (some d) w =
      let x = with_network (function_network_name g.network d.service) d in
      let get = g.store.get_function x.service w in
      let deploy = g.provider.deploy_function x (pos 1) get.1 in
      let same : view deploy.1 ≡ view w =
        p.deploy_keeps x (pos 1) get.1 ∙ s.get_keeps x.service w in
      elim (Bool-cases (d.service == "" || d.image == "")) [
        | inl e ↦ rw e (inr (λ q. absurd (omega (arith, q)), refl))
        | inr e ↦ elim (Result-cases (validate_function_name d.service)) [
          | inr (t, f) ↦ rw (e, f) (inr (λ q. absurd (omega (arith, q)), refl))
          | inl (u, f) ↦ elim (Result-cases get.0) [
            | inl (m, h) ↦
                rw (e, f, h) (inr (λ q. absurd (omega (arith, q)), s.get_keeps x.service w))
            | inr (t, h) ↦ elim (Result-cases deploy.0) [
              | inr (v, k) ↦ rw (e, f, h, k) (inr (λ q. absurd (omega (arith, q)), same))
              | inl (v, k) ↦ elim (store_deployed_lem x deploy.1) [
                | inr (q, r) ↦ rw (e, f, h, k) (inr (q, r ∙ same))
                | inl (q, (m, id, created, updated, a, b, c)) ↦
                    rw (e, f, h, k)
                      (inl (
                        q,
                        (
                          d,
                          m,
                          id,
                          created,
                          updated,
                          refl,
                          f,
                          a,
                          ap (lookup m.name) (sym same) ∙ b,
                          c ∙ ap (insert m.name (inserted id created updated m)) same,
                        ),
                      ))
              ]
            ]
          ]
        ]
      ]
