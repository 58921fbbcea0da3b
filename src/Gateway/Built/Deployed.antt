-- ===== src/Gateway/Built/Deployed.antt =====
-- What a deployment of a built image leaves in the table of functions.
use docker_faas.Base.{
  ℕ, String, ◌≡◌, refl, sym, ap, ◌∙◌, ◌⊎◌, inl, inr, true, false, Option, none, some, arith, ◌==◌,
  Bool-cases, ok, err, nat_eq, string_eq, bool_eq,
}
use docker_faas.Base.Calls.{Result-cases}
use docker_faas.Base.Int.{ℤ, pos, int_eq}
use docker_faas.Base.Assoc.{lookup, insert}
use docker_faas.Gateway.Deploy.{with_network, number_of}
use docker_faas.Gateway.Names.{function_network_name}
use docker_faas.Builder.{Manifest}
use docker_faas.Gateway.Built.{built_deployment, update_built, create_built, deploy_built_image}
use docker_faas.Gateway.Services.{functions_deployed, function_replicas, Json, Services}
use docker_faas.Gateway.Deploy.Updated.{same_row}
use docker_faas.Gateway.Types.{FunctionDeployment, FunctionMetadata}
use docker_faas.Gateway.Metadata.{metadata_of, metadata_over}
use docker_faas.Gateway.Laws.{Table, inserted, rewritten, StoreLaws, ProviderLaws}

-- A row that was not there
abbrev pub RowAdded : {W : Type 0} → Services W → FunctionDeployment → Table → Table → Type 0
RowAdded g d before now =
    (m : FunctionMetadata) × (id : ℤ) × (created : ℕ) × (updated : ℕ) × (metadata_of "failed" g.json
        d (pos 1)
      ≡ ok m)
    × (lookup m.name before ≡ none)
    × (now ≡ insert m.name (inserted id created updated m) before)

-- A row that was there, written over
abbrev pub RowUpdated : {W : Type 0} → Services W → FunctionDeployment → Table → Table → Type 0
RowUpdated g d before now =
    (existing : FunctionMetadata) × (m : FunctionMetadata) × (time : ℕ) × (lookup d.service before
      ≡ some existing)
    × (metadata_over "failed" g.json d existing ≡ ok m)
    × (now ≡ insert d.service (rewritten time existing m) before)

metadata_over-name :
    (json : Json) (word : String) (d : FunctionDeployment) (old m : FunctionMetadata)
    → metadata_over word json d old ≡ ok m
    → m.name ≡ old.name
unfolding metadata_over
metadata_over-name json word d old m h = ground arith

with_network-service :
    (network name image : String) (manifest : Option Manifest)
    → (with_network network (built_deployment name image manifest)).service ≡ name
unfolding with_network built_deployment
with_network-service network name image none = refl
with_network-service network name image (some manifest) =
    elim (Bool-cases (manifest.network == "")) [ inl e ↦ rw e refl | inr e ↦ rw e refl ]

module _ {W : Type 0} (g : Services W) (view : W → Table) (s : StoreLaws g.store view)
    (p : ProviderLaws g view) where
  create_built_lem :
      (d : FunctionDeployment) (w : W)
      → ((create_built g d w).0 ≡ ok tt) × RowAdded g d (view w) (view (create_built g d w).1)
        ⊎ ((e : String) × ((create_built g d w).0 ≡ err e) × (view (create_built g d w).1 ≡ view w))
  unfolding create_built
  create_built_lem d w =
      let deploy = g.provider.deploy_function d (pos 1) w in
      let kept = p.deploy_keeps d (pos 1) w in
      elim (Result-cases deploy.0) [
        | inr (e, h) ↦ rw h (inr (e, refl, kept))
        | inl (u, h) ↦ elim (Result-cases (metadata_of "failed" g.json d (pos 1))) [
          | inr (e, k) ↦ rw (h, k) (inr (e, refl, kept))
          | inl (m, k) ↦
              let create = g.store.create_function m deploy.1 in
              elim (Result-cases create.0) [
                | inr (e, q) ↦
                    rw (h, k, q)
                      (inr (
                        e,
                        refl,
                        p.remove_keeps d.service create.1 ∙ s.create_err m deploy.1 e q ∙ kept,
                      ))
                | inl (v, q) ↦
                    let (fresh, (id, created, updated, row)) = s.create_ok m deploy.1 q in
                    let list = g.store.list_functions create.1 in
                    let counted = g.metric (functions_deployed (number_of list.0)) list.1 in
                    let same =
                      p.metric_keeps (function_replicas d.service (pos 1)) counted
                      ∙ p.metric_keeps (functions_deployed (number_of list.0)) list.1
                      ∙ s.list_keeps create.1 in
                    rw (h, k, q)
                      (inl (
                        refl,
                        (
                          m,
                          id,
                          created,
                          updated,
                          refl,
                          ap (lookup m.name) (sym kept) ∙ fresh,
                          same ∙ row ∙ ap (insert m.name (inserted id created updated m)) kept,
                        ),
                      ))
              ]
        ]
      ]

  update_built_lem :
      (d : FunctionDeployment) (existing : FunctionMetadata) (w : W)
      → lookup d.service (view w) ≡ some existing
      → existing.name ≡ d.service
      → ((update_built g d existing w).0 ≡ ok tt)
          × RowUpdated g d (view w) (view (update_built g d existing w).1)
        ⊎ ((e : String) × ((update_built g d existing w).0 ≡ err e)
            × (view (update_built g d existing w).1 ≡ view w))
  unfolding update_built
  update_built_lem d existing w row name =
      let update = g.provider.update_function d existing.replicas w in
      let kept = p.update_keeps d existing.replicas w in
      elim (Result-cases update.0) [
        | inr (e, h) ↦ rw h (inr (e, refl, kept))
        | inl (u, h) ↦ elim (Result-cases (metadata_over "failed" g.json d existing)) [
          | inr (e, k) ↦ rw (h, k) (inr (e, refl, kept))
          | inl (m, k) ↦
              let write = g.store.update_function m update.1 in
              elim (Result-cases write.0) [
                | inr (e, q) ↦ rw (h, k, q) (inr (e, refl, s.update_err m update.1 e q ∙ kept))
                | inl (v, q) ↦
                    let (before, time, found, now) = s.update_ok m update.1 q in
                    let same_name = metadata_over-name g.json "failed" d existing m k ∙ name in
                    rw (h, k, q)
                      (inl (
                        refl,
                        (
                          existing,
                          m,
                          time,
                          row,
                          k,
                          p.metric_keeps (function_replicas d.service existing.replicas) write.1
                              ∙ now
                              ∙ same_row d.service before existing m time row found same_name kept,
                        ),
                      ))
              ]
        ]
      ]

  -- Where the store and the provider keep their laws, the deployment of a built image that ends without
  -- an error either found the function and has written its row over, or did not find it and has added
  -- a row; its flag tells which. One that ends with an error leaves the table as it was.
  pub deploy_built_image_lem :
      (name image : String) (manifest : Option Manifest) (w : W)
      → let d =
          with_network
            (function_network_name g.network name)
            (built_deployment name image manifest) in
        let out = deploy_built_image g name image manifest w in
        ((out.0 ≡ (false, ok tt)) × RowAdded g d (view w) (view out.1))
        ⊎ ((out.0 ≡ (true, ok tt)) × RowUpdated g d (view w) (view out.1))
        ⊎ ((e : String) × (out.0.1 ≡ err e) × (view out.1 ≡ view w))
  unfolding deploy_built_image
  deploy_built_image_lem name image manifest w =
      let d =
        with_network (function_network_name g.network name)
          (built_deployment name image manifest) in
      let get = g.store.get_function name w in
      let kept = s.get_keeps name w in
      let service =
        with_network-service (function_network_name g.network name) name image manifest in
      elim (Result-cases get.0) [
        | inr (e, h) ↦ elim (create_built_lem d get.1) [
          | inl (q, row) ↦ rw (h, q) (inl (refl, rw (← kept) row))
          | inr (t, q, same) ↦ rw (h, q) (inr (inr (t, refl, same ∙ kept)))
        ]
        | inl (existing, h) ↦
            let (row, named) = s.get_ok name w existing h in
            elim (update_built_lem d existing get.1 (rw (service, kept) row)
              (named ∙ sym service)) [
                | inl (q, now) ↦ rw (h, q) (inr (inl (refl, rw (← kept) now)))
                | inr (t, q, same) ↦ rw (h, q) (inr (inr (t, refl, same ∙ kept)))
              ]
      ]
