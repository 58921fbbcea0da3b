-- ===== src/Gateway/Deploy/Updated.antt =====
-- What an update and a removal leave in the table of functions.
use docker_faas.Base.{
  ℕ, String, ◌≡◌, refl, ap, ◌∙◌, ◌≢◌, ◌⊎◌, inl, inr, ◌||◌, Option, none, some, arith, ◌==◌,
  Bool-cases, ok, nat_eq, string_eq, bool_eq,
}
use docker_faas.Base.Calls.{Result-cases}
use docker_faas.Base.Assoc.{lookup, erase, insert}
use docker_faas.Gateway.Types.{FunctionDeployment, FunctionMetadata}
use docker_faas.Gateway.Services.{functions_deployed, function_deleted, Json, Services, answer}
use docker_faas.Gateway.Names.{validate_function_name, normalize_function_name}
use docker_faas.Gateway.Metadata.{updated_metadata}
use docker_faas.Gateway.Deploy.Checked.{check_name-cases}
use docker_faas.Gateway.Laws.{Table, rewritten, StoreLaws, ProviderLaws}
use docker_faas.Gateway.Deploy.{
  check_deployment, number_of, or_existing_network, update_steps, handle_update_function,
  DeletePayload, requested_name, delete_named, delete_checked, handle_delete_function,
}

-- The row of an updated function, which keeps its name, its number and its number of replicas
abbrev pub IsUpdated :
    {W : Type 0} → Services W → Option FunctionDeployment → Table → Table → Type 0
IsUpdated g body before now =
    (d : FunctionDeployment) × (old : FunctionMetadata) × (m : FunctionMetadata) × (time : ℕ)
    × (body ≡ some d)
    × (lookup d.service before ≡ some old)
    × (updated_metadata g.json (or_existing_network g old d) old ≡ ok m)
    × (now ≡ insert d.service (rewritten time old m) before)

-- The encoding of an update keeps the name and the number of replicas.
updated_metadata-name :
    (json : Json) (d : FunctionDeployment) (old m : FunctionMetadata)
    → updated_metadata json d old ≡ ok m
    → m.name ≡ old.name
unfolding updated_metadata
updated_metadata-name json d old m h = ground arith

-- A row is replaced where it was found.
pub same_row :
    {t u : Table} (name : String) (before old m : FunctionMetadata) (time : ℕ)
    → lookup name u ≡ some old
    → lookup m.name t ≡ some before
    → m.name ≡ name
    → t ≡ u
    → insert m.name (rewritten time before m) t ≡ insert name (rewritten time old m) u
same_row {t} {u} name before old m time row found e f =
    let same : before ≡ old = cc in rw (e, f, same) refl

module _ {W : Type 0} (g : Services W) (view : W → Table) (s : StoreLaws g.store view)
    (p : ProviderLaws g view) where
  -- Where the store and the provider keep their laws, the update handler either answers 202, and
  -- then the function had a row, which its updated metadata has replaced; or it answers with
  -- another status, and the table of functions is as it was.
  pub handle_update_function_lem :
      (body : Option FunctionDeployment) (w : W)
      → (((handle_update_function g body w).0.status ≡ 202)
          × IsUpdated g body (view w) (view (handle_update_function g body w).1))
        ⊎ (((handle_update_function g body w).0.status ≢ 202)
            × (view (handle_update_function g body w).1 ≡ view w))
  unfolding handle_update_function update_steps check_deployment
  handle_update_function_lem none w = inr (λ e. absurd (omega (arith, e)), refl)
  handle_update_function_lem (some d) w = elim (Bool-cases (d.service == "" || d.image == "")) [
    | inl e ↦ rw e (inr (λ q. absurd (omega (arith, q)), refl))
    | inr e ↦ elim (Result-cases (validate_function_name d.service)) [
      | inr (t, f) ↦ rw (e, f) (inr (λ q. absurd (omega (arith, q)), refl))
      | inl (u, f) ↦ elim (Result-cases (g.store.get_function d.service w).0) [
        | inr (t, h) ↦ rw (e, f, h) (inr (λ q. absurd (omega (arith, q)), s.get_keeps d.service w))
        | inl (old, h) ↦
            let (row, name) = s.get_ok d.service w old h in
            let x = or_existing_network g old d in
            let update =
              g.provider.update_function x old.replicas (g.store.get_function d.service w).1 in
            let same : view update.1 ≡ view w =
              p.update_keeps x old.replicas (g.store.get_function d.service w).1
              ∙ s.get_keeps d.service w in
            elim (Result-cases update.0) [
              | inr (t, k) ↦ rw (e, f, h, k) (inr (λ q. absurd (omega (arith, q)), same))
              | inl (v, k) ↦ elim (Result-cases (updated_metadata g.json x old)) [
                | inr (t, l) ↦ rw (e, f, h, k, l) (inr (λ q. absurd (omega (arith, q)), same))
                | inl (m, l) ↦ elim (Result-cases (g.store.update_function m update.1).0) [
                  | inr (t, n) ↦
                      rw (e, f, h, k, l, n)
                        (inr (λ q. absurd (omega (arith, q)), s.update_err m update.1 t n ∙ same))
                  | inl (z, n) ↦
                      let (before, time, found, now) = s.update_ok m update.1 n in
                      let same_name = updated_metadata-name g.json x old m l ∙ name in
                      rw (e, f, h, k, l, n)
                        (inl (
                          refl,
                          (
                            d,
                            old,
                            m,
                            time,
                            refl,
                            row,
                            l,
                            now ∙ same_row d.service before old m time row found same_name same,
                          ),
                        ))
                ]
              ]
            ]
      ]
    ]
  ]

  delete_named_lem :
      (name : String) (w : W)
      → (((answer (delete_named g name w)).0.status ≡ 202)
          × ((old : FunctionMetadata) × (lookup name (view w) ≡ some old)
              × (view (answer (delete_named g name w)).1 ≡ erase name (view w))))
        ⊎ (((answer (delete_named g name w)).0.status ≢ 202)
            × (view (answer (delete_named g name w)).1 ≡ view w))
  unfolding delete_named
  delete_named_lem name w =
      let get = g.store.get_function name w in
      let remove = g.provider.remove_function name get.1 in
      let delete = g.store.delete_function name remove.1 in
      let same : view remove.1 ≡ view w = p.remove_keeps name get.1 ∙ s.get_keeps name w in
      elim (Result-cases get.0) [
        | inr (t, e) ↦ rw e (inr (λ q. absurd (omega (arith, q)), s.get_keeps name w))
        | inl (m, e) ↦ elim (Result-cases remove.0) [
          | inr (t, f) ↦ rw (e, f) (inr (λ q. absurd (omega (arith, q)), same))
          | inl (u, f) ↦ elim (Result-cases delete.0) [
            | inr (t, h) ↦
                rw (e, f, h)
                  (inr (λ q. absurd (omega (arith, q)), s.delete_err name remove.1 t h ∙ same))
            | inl (v, h) ↦
                let clean = g.provider.cleanup_function_network m.name m.network delete.1 in
                let list = g.store.list_functions clean.1 in
                let counted = g.metric (functions_deployed (number_of list.0)) list.1 in
                let kept : view (g.metric (function_deleted name) counted) ≡ view delete.1 =
                  p.metric_keeps (function_deleted name) counted
                  ∙ p.metric_keeps (functions_deployed (number_of list.0)) list.1
                  ∙ s.list_keeps clean.1
                  ∙ p.cleanup_keeps m.name m.network delete.1 in
                rw (e, f, h)
                  (inl (
                    refl,
                    (
                      m,
                      (s.get_ok name w m e).0,
                      kept ∙ s.delete_ok name remove.1 h ∙ ap (erase name) same,
                    ),
                  ))
          ]
        ]
      ]

  delete_checked_lem :
      (raw : String) (w : W)
      → (((answer (delete_checked g raw w)).0.status ≡ 202)
          × ((old : FunctionMetadata) × (lookup (normalize_function_name raw) (view w) ≡ some old)
              × (view (answer (delete_checked g raw w)).1
                  ≡ erase (normalize_function_name raw) (view w))))
        ⊎ (((answer (delete_checked g raw w)).0.status ≢ 202)
            × (view (answer (delete_checked g raw w)).1 ≡ view w))
  unfolding delete_checked
  delete_checked_lem raw w = elim (check_name-cases raw "functionName parameter is required" w) [
    | inl (text, e) ↦ rw e (inr (λ q. absurd (omega (arith, q)), refl))
    | inr (valid, e) ↦ rw e (delete_named_lem (normalize_function_name raw) w)
  ]

  -- Where the store and the provider keep their laws, the delete handler either answers 202, and
  -- then the function that the query or the body names, without its suffix, had a row, which has
  -- been removed; or it answers with another status, and the table of functions is as it was.
  pub handle_delete_function_lem :
      (query : String) (payload : Option DeletePayload) (w : W)
      → (((handle_delete_function g query payload w).0.status ≡ 202)
          × ((old : FunctionMetadata) × (lookup
                  (normalize_function_name (requested_name query payload))
                  (view w)
                ≡ some old)
              × (view (handle_delete_function g query payload w).1
                  ≡ erase (normalize_function_name (requested_name query payload)) (view w))))
        ⊎ (((handle_delete_function g query payload w).0.status ≢ 202)
            × (view (handle_delete_function g query payload w).1 ≡ view w))
  unfolding handle_delete_function
  handle_delete_function_lem query payload w = delete_checked_lem (requested_name query payload) w
