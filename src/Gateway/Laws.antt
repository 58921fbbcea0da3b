-- ===== src/Gateway/Laws.antt =====
-- What the handlers rely on of the store and the provider: the table of functions changes by the
-- calls of the store alone. Names are unique, and an update of a missing name is an error.
use docker_faas.Base.{ℕ, String, ◌≡◌, none, some, ok, err, nat_eq, string_eq, bool_eq}
use docker_faas.Base.Int.{ℤ}
use docker_faas.Base.Assoc.{Assoc, lookup, erase, insert}
use docker_faas.Gateway.Types.{FunctionDeployment, FunctionMetadata}
use docker_faas.Gateway.Services.{Metric, Store, Services}

abbrev pub Table : Type 0
Table = Assoc String FunctionMetadata

-- The row that `INSERT` adds
abbrev pub inserted : ℤ → ℕ → ℕ → FunctionMetadata → FunctionMetadata
inserted id created updated m = record m { id = id; created_at = created; updated_at = updated }

-- The row that `UPDATE` leaves of `old`
abbrev pub rewritten : ℕ → FunctionMetadata → FunctionMetadata → FunctionMetadata
rewritten now old m = record m {
  id = old.id;
  name = old.name;
  created_at = old.created_at;
  updated_at = now;
}

abbrev pub rescaled : ℕ → ℤ → FunctionMetadata → FunctionMetadata
rescaled now replicas old = record old { replicas = replicas; updated_at = now }

pub record StoreLaws {W : Type 0} (store : Store W) (view : W → Table) : Type 0 where
  pub list_keeps : (w : W) → view (store.list_functions w).1 ≡ view w
  pub get_keeps : (name : String) (w : W) → view (store.get_function name w).1 ≡ view w
  pub get_ok :
      (name : String) (w : W) (m : FunctionMetadata)
      → (store.get_function name w).0 ≡ ok m
      → (lookup name (view w) ≡ some m) × (m.name ≡ name)
  pub create_ok :
      (m : FunctionMetadata) (w : W)
      → (store.create_function m w).0 ≡ ok tt
      → (lookup m.name (view w) ≡ none)
        × ((id : ℤ) × (created : ℕ) × (updated : ℕ) × (view (store.create_function m w).1
              ≡ insert m.name (inserted id created updated m) (view w)))
  pub create_err :
      (m : FunctionMetadata) (w : W) (e : String)
      → (store.create_function m w).0 ≡ err e
      → view (store.create_function m w).1 ≡ view w
  pub update_ok :
      (m : FunctionMetadata) (w : W)
      → (store.update_function m w).0 ≡ ok tt
      → (old : FunctionMetadata) × (now : ℕ) × (lookup m.name (view w) ≡ some old)
        × (view (store.update_function m w).1 ≡ insert m.name (rewritten now old m) (view w))
  pub update_err :
      (m : FunctionMetadata) (w : W) (e : String)
      → (store.update_function m w).0 ≡ err e
      → view (store.update_function m w).1 ≡ view w
  pub delete_ok :
      (name : String) (w : W)
      → (store.delete_function name w).0 ≡ ok tt
      → view (store.delete_function name w).1 ≡ erase name (view w)
  pub delete_err :
      (name : String) (w : W) (e : String)
      → (store.delete_function name w).0 ≡ err e
      → view (store.delete_function name w).1 ≡ view w
  pub replicas_ok :
      (name : String) (replicas : ℤ) (w : W)
      → (store.update_replicas name replicas w).0 ≡ ok tt
      → (old : FunctionMetadata) × (now : ℕ) × (lookup name (view w) ≡ some old)
        × (view (store.update_replicas name replicas w).1
            ≡ insert name (rescaled now replicas old) (view w))
  pub replicas_err :
      (name : String) (replicas : ℤ) (w : W) (e : String)
      → (store.update_replicas name replicas w).0 ≡ err e
      → view (store.update_replicas name replicas w).1 ≡ view w

-- The calls of the provider and the gauges leave the table as it is.
pub record ProviderLaws {W : Type 0} (g : Services W) (view : W → Table) : Type 0 where
  pub deploy_keeps :
      (d : FunctionDeployment) (n : ℤ) (w : W) → view (g.provider.deploy_function d n w).1 ≡ view w
  pub update_keeps :
      (d : FunctionDeployment) (n : ℤ) (w : W) → view (g.provider.update_function d n w).1 ≡ view w
  pub remove_keeps : (name : String) (w : W) → view (g.provider.remove_function name w).1 ≡ view w
  pub scale_keeps :
      (d : FunctionDeployment) (n : ℤ) (w : W) → view (g.provider.scale_function d n w).1 ≡ view w
  pub cleanup_keeps :
      (name network : String) (w : W)
      → view (g.provider.cleanup_function_network name network w).1 ≡ view w
  pub metric_keeps : (m : Metric) (w : W) → view (g.metric m w) ≡ view w
