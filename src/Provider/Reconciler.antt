-- ===== src/Provider/Reconciler.antt =====
-- pkg/provider/reconciler.go: `ReconcileOnce` and `connectToNetwork`. The Docker client and the list
-- of the networks are a parameter; the periodic goroutine is left out.
pub mod Attached
use docker_faas.Base.{
  ℕ, ◌+◌, String, Bool, not, ◌&&◌, ◌||◌, Option, none, some, List, [], ◌∷◌, if◌then◌else◌, ◌==◌,
  contains, Result, ok, err, nat_eq, string_eq, bool_eq,
}
use docker_faas.Base.Text.{codes, to_lower, contains_text}

-- The calls of the Docker client and of `listNetworks`: the names of the networks of the gateway's
-- container, where it has network settings; the connection of a container to a network; the
-- networks of the functions.
pub record Daemon (W : Type 0) : Type 0 where
  pub container_inspect : String → W → Result (Option (List String)) × W
  pub network_connect : String → String → W → Result (Unit {0}) × W
  pub list_networks : W → Result (List String) × W

unfoldable pub is_already_connected_err : String → Bool
is_already_connected_err e =
    contains_text (to_lower e) (codes "already exists")
    || contains_text (to_lower e) (codes "already connected")

unfoldable pub is_network_not_found_err : String → Bool
is_network_not_found_err e =
    contains_text (to_lower e) (codes "network") && contains_text (to_lower e) (codes "not found")

abbrev pub counted : Result (Unit {0}) → ℕ → ℕ
counted (ok u) n = n + 1
counted (err e) n = n

-- The networks in the container's settings, where it has any
abbrev pub names_of : Option (List String) → List String
names_of none = []
names_of (some l) = l

module _ {W : Type 0} where
  abbrev pub forgive : Result (Unit {0}) × W → Result (Unit {0}) × W
  forgive (ok u, w) = (ok tt, w)
  forgive (err e, w) = if is_already_connected_err e then (ok tt, w) else (err e, w)

  unfoldable pub connect_to_network : Daemon W → String → String → W → Result (Unit {0}) × W
  connect_to_network daemon gateway_id network w =
      forgive (daemon.network_connect network gateway_id w)

  -- One round of the loop over the networks: both kinds of errors are logged and passed over.
  unfoldable pub connect_round : Daemon W → String → List String → String → ℕ → W → ℕ × W
  unfolding connect_to_network
  connect_round daemon gateway_id attached name n w =
      let (r, v) = connect_to_network daemon gateway_id name w in
      if name == "" then (n, w) else if contains attached name then (n, w) else (counted r n, v)

  unfoldable pub connect_missing : Daemon W → String → List String → List String → ℕ → W → ℕ × W
  unfolding connect_round
  connect_missing daemon gateway_id attached [] n w = (n, w)
  connect_missing daemon gateway_id attached (name ∷ networks) n w =
      let (k, v) = connect_round daemon gateway_id attached name n w in
      connect_missing daemon gateway_id attached networks k v

  abbrev attach : Daemon W → String → List String → Result (List String) × W → Result ℕ × W
  attach daemon gateway_id attached (err e, w) = (err e, w)
  attach daemon gateway_id attached (ok networks, w) =
      let (n, v) = connect_missing daemon gateway_id attached networks 0 w in (ok n, v)

  abbrev inspect_then : Daemon W → String → Result (Option (List String)) × W → Result ℕ × W
  inspect_then daemon gateway_id (err e, w) = (err e, w)
  inspect_then daemon gateway_id (ok settings, w) =
      attach daemon gateway_id (names_of settings) (daemon.list_networks w)

  unfoldable pub reconcile_once : Daemon W → String → W → Result ℕ × W
  unfolding connect_missing
  reconcile_once daemon gateway_id w =
      let result = inspect_then daemon gateway_id (daemon.container_inspect gateway_id w) in
      if gateway_id == "" then (ok 0, w) else result
