-- ===== src/Provider/Networks.antt =====
-- The networks of the functions in pkg/provider/docker_provider.go: `ensureNetwork`, `CheckNetwork`,
-- `CleanupFunctionNetwork`, `ensureGatewayConnected`, `isManagedFunctionNetwork` and `HealthCheck`.
pub mod Removed
use docker_faas.Base.{
  String, Bool, true, false, not, ◌&&◌, ◌||◌, Option, none, some, [], ◌∷◌, if◌then◌else◌, ◌==◌,
  length, contains, Result, ok, err, nat_eq, string_eq, bool_eq,
}
use docker_faas.Base.Calls.{Call, ◌>>=◌, ◌>>◌, pure, throw, lift, context, attempt}
use docker_faas.Base.Assoc.{Assoc, lookup, insert}
use docker_faas.Base.Text.{◌<>◌}
use docker_faas.Gateway.Names.{function_network_name}
use docker_faas.Provider.Docker.{
  NetworkInfo, DockerProvider, label_network_type, label_network_function, is_network_in_use_err,
}
use docker_faas.Provider.Reconciler.{is_already_connected_err, is_network_not_found_err}

-- An entry of a map of labels that may be nil: the empty text where it is missing.
abbrev pub label_of : Option (Assoc String String) → String → String
label_of none key = ""
label_of (some labels) key = elim (lookup key labels) [ none ↦ "" | some v ↦ v ]

-- The entries of `labels` written over those of `base`, one after the other
unfoldable pub with_labels : Assoc String String → Assoc String String → Assoc String String
with_labels [] base = base
with_labels ((k, v) ∷ labels) base = with_labels labels (insert k v base)

-- An error that is passed over; another one gets its context.
abbrev pub forgiven_or :
    {W : Type 0} → (String → Bool) → String → Result (Unit {0}) → Call W (Unit {0})
forgiven_or p msg (ok u) = pure tt
forgiven_or p msg (err e) = if p e then pure tt else throw (msg <> e)

abbrev pub forgiving : {W : Type 0} → (String → Bool) → Call W (Unit {0}) → Call W (Unit {0})
forgiving p call = attempt call >>= λ r. forgiven_or p "" r

-- `none` for an error that is passed over
abbrev pub found_or : {W A : Type 0} → (String → Bool) → String → Result A → Call W (Option A)
found_or p msg (ok a) = pure (some a)
found_or p msg (err e) = if p e then pure none else throw (msg <> e)

abbrev check_answer : String → Result NetworkInfo → Result (Unit {0})
check_answer network (ok info) = ok tt
check_answer network (err e) =
    if is_network_not_found_err e
    then err ("functions network " <> network <> " not found")
    else err e

module _ {W : Type 0} where
  unfoldable pub health_check : DockerProvider W → Call W (Unit {0})
  health_check p = p.client.ping

  abbrev pub create_missing :
      DockerProvider W → String → Assoc String String → Bool → Call W (Unit {0})
  create_missing p name labels true = pure tt
  create_missing p name labels false =
      context "failed to create network: " (
        p.client.network_create name
          (with_labels labels (("com.docker-faas.network", "true") ∷ [])))

  unfoldable pub ensure_network :
      DockerProvider W → String → Assoc String String → Call W (Unit {0})
  unfolding with_labels
  ensure_network p name labels = do
    networks ← context "failed to list networks: " (p.client.network_list name)
    create_missing p name labels (contains networks name)

  unfoldable pub check_network : DockerProvider W → Call W (Unit {0})
  check_network p =
      if p.network == ""
      then throw "functions network is not configured"
      else (attempt (p.client.network_inspect p.network) >>= λ r. lift (check_answer p.network r))

  unfoldable pub ensure_gateway_connected : DockerProvider W → String → Call W (Unit {0})
  ensure_gateway_connected p network_name =
      if not p.connect_gateway || p.gateway_id == ""
      then pure tt
      else forgiving is_already_connected_err (p.client.network_connect network_name p.gateway_id)

  unfoldable pub is_managed_function_network :
      DockerProvider W → String → String → Option (Assoc String String) → Bool
  is_managed_function_network p network_name function_name labels =
      if not (function_name == "") && network_name == function_network_name p.network function_name
      then true
      else if not (label_of labels label_network_type == "function")
      then false
      else if label_of labels label_network_function == ""
      then true
      else label_of labels label_network_function == function_name

  -- The error is logged.
  abbrev disconnect_gateway : DockerProvider W → String → Call W (Unit {0})
  disconnect_gateway p network_name =
      if p.connect_gateway && not (p.gateway_id == "")
      then (attempt (p.client.network_disconnect network_name p.gateway_id) >> pure tt)
      else pure tt

  -- After the second inspection
  unfoldable pub remove_unused : DockerProvider W → String → Option NetworkInfo → Call W (Unit {0})
  remove_unused p network_name none = pure tt
  remove_unused p network_name (some info) =
      if length info.containers == 0
      then (attempt (p.client.network_remove network_name) >>= λ r.
          forgiven_or is_network_in_use_err ("failed to remove network " <> network_name <> ": ") r)
      else pure tt

  -- The second inspection and what follows
  unfoldable pub inspect_again : DockerProvider W → String → Call W (Unit {0})
  unfolding remove_unused
  inspect_again p network_name = do
    answer ← attempt (p.client.network_inspect network_name)
    again ←
        found_or is_network_not_found_err ("failed to re-inspect network " <> network_name <> ": ")
          answer
    remove_unused p network_name again

  -- After the first inspection
  unfoldable pub cleanup_inspected :
      DockerProvider W → String → String → Option NetworkInfo → Call W (Unit {0})
  unfolding inspect_again
  cleanup_inspected p function_name network_name none = pure tt
  cleanup_inspected p function_name network_name (some info) =
      if is_managed_function_network p network_name function_name info.labels
      then disconnect_gateway p network_name >> inspect_again p network_name
      else pure tt

  unfoldable pub cleanup_function_network : DockerProvider W → String → String → Call W (Unit {0})
  unfolding cleanup_inspected
  cleanup_function_network p function_name network_name =
      if network_name == "" then pure tt else (do
        answer ← attempt (p.client.network_inspect network_name)
        found ←
            found_or is_network_not_found_err ("failed to inspect network " <> network_name <> ": ")
              answer
        cleanup_inspected p function_name network_name found)
