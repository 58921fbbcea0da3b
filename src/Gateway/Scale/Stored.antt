-- ===== src/Gateway/Scale/Stored.antt =====
-- What the scale handler leaves in the table of functions.
use docker_faas.Base.{
  ℕ, String, ◌≡◌, refl, sym, ap, ◌∙◌, ◌≢◌, ◌⊎◌, inl, inr, false, none, some, arith, Option-cases,
  nat_eq, string_eq, bool_eq,
}
use docker_faas.Base.Calls.{Result-cases}
use docker_faas.Base.Int.{ℤ, pos, negsuc, is_neg}
use docker_faas.Base.Assoc.{lookup, insert}
use docker_faas.Gateway.Types.{ScaleServiceRequest, FunctionMetadata}
use docker_faas.Gateway.Services.{function_replicas, Services, answer}
use docker_faas.Gateway.Names.{normalize_function_name}
use docker_faas.Gateway.Metadata.{stored_deployment}
use docker_faas.Gateway.Laws.{Table, rescaled, StoreLaws, ProviderLaws}
use docker_faas.Gateway.Deploy.Checked.{check_name-cases}
use docker_faas.Gateway.Scale.{
  ScaleBody, requested_service, scale_request, scale_checked, scale_named, scale_steps,
  handle_scale_function,
}

-- The row of a scaled function: only the number of replicas and the time of the update change.
abbrev pub IsScaled : String → ℤ → Table → Table → Type 0
IsScaled name replicas before now =
    (is_neg replicas ≡ false)
    × ((old : FunctionMetadata) × (time : ℕ) × (lookup name before ≡ some old)
        × (now ≡ insert name (rescaled time replicas old) before))

module _ {W : Type 0} (g : Services W) (view : W → Table) (s : StoreLaws g.store view)
    (p : ProviderLaws g view) where
  scale_checked_lem :
      (name : String) (replicas : ℤ) (w : W)
      → (((answer (scale_checked g name replicas w)).0.status ≡ 202)
          × IsScaled name replicas (view w) (view (answer (scale_checked g name replicas w)).1))
        ⊎ (((answer (scale_checked g name replicas w)).0.status ≢ 202)
            × (view (answer (scale_checked g name replicas w)).1 ≡ view w))
  unfolding scale_checked
  scale_checked_lem name (negsuc n) w = inr (λ q. absurd (omega (arith, q)), refl)
  scale_checked_lem name (pos n) w =
      let get = g.store.get_function name w in
      elim (Result-cases get.0) [
        | inr (t, e) ↦ rw e (inr (λ q. absurd (omega (arith, q)), s.get_keeps name w))
        | inl (m, e) ↦
            let x = stored_deployment g.json m none none in
            let scale = g.provider.scale_function x (pos n) get.1 in
            let same : view scale.1 ≡ view w = p.scale_keeps x (pos n) get.1 ∙ s.get_keeps name w in
            elim (Result-cases scale.0) [
              | inr (t, f) ↦ rw (e, f) (inr (λ q. absurd (omega (arith, q)), same))
              | inl (u, f) ↦ elim (Result-cases (g.store.update_replicas name (pos n) scale.1).0) [
                | inr (t, h) ↦
                    rw (e, f, h)
                      (inr (
                        λ q. absurd (omega (arith, q)),
                        s.replicas_err name (pos n) scale.1 t h ∙ same,
                      ))
                | inl (v, h) ↦
                    let (old, time, found, now) = s.replicas_ok name (pos n) scale.1 h in
                    rw (e, f, h)
                      (inl (
                        refl,
                        (
                          refl,
                          (
                            old,
                            time,
                            ap (lookup name) (sym same) ∙ found,
                            p.metric_keeps (function_replicas name (pos n)) _
                                ∙ now
                                ∙ ap (insert name (rescaled time (pos n) old)) same,
                          ),
                        ),
                      ))
              ]
            ]
      ]

  scale_named_lem :
      (raw : String) (replicas : ℤ) (w : W)
      → (((answer (scale_named g raw replicas w)).0.status ≡ 202)
          × IsScaled
              (normalize_function_name raw)
              replicas
              (view w)
              (view (answer (scale_named g raw replicas w)).1))
        ⊎ (((answer (scale_named g raw replicas w)).0.status ≢ 202)
            × (view (answer (scale_named g raw replicas w)).1 ≡ view w))
  unfolding scale_named
  scale_named_lem raw replicas w = elim (check_name-cases raw "serviceName is required" w) [
    | inl (text, e) ↦ rw e (inr (λ q. absurd (omega (arith, q)), refl))
    | inr (valid, e) ↦ rw e (scale_checked_lem (normalize_function_name raw) replicas w)
  ]

  -- Where the store and the provider keep their laws, the scale handler either answers 202, and
  -- then its body is a request for at least 0 replicas of a function that had a row, and that row
  -- has the new number of replicas; or it answers with another status, and the table of functions
  -- is as it was.
  pub handle_scale_function_lem :
      (body : ScaleBody) (path_name : String) (w : W)
      → (((handle_scale_function g body path_name w).0.status ≡ 202)
          × ((request : ScaleServiceRequest) × (scale_request body ≡ some request)
              × IsScaled
                  (normalize_function_name (requested_service request path_name))
                  request.replicas
                  (view w)
                  (view (handle_scale_function g body path_name w).1)))
        ⊎ (((handle_scale_function g body path_name w).0.status ≢ 202)
            × (view (handle_scale_function g body path_name w).1 ≡ view w))
  unfolding handle_scale_function scale_steps
  handle_scale_function_lem body path_name w = elim (Option-cases (scale_request body)) [
    | inl e ↦ rw e (inr (λ q. absurd (omega (arith, q)), refl))
    | inr (request, e) ↦
        elim (scale_named_lem (requested_service request path_name) request.replicas w) [
          | inl (a, b) ↦ rw e (inl (a, (request, refl, b)))
          | inr k ↦ rw e (inr k)
        ]
  ]
