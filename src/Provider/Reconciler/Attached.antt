-- ===== src/Provider/Reconciler/Attached.antt =====
-- Which networks the gateway is attached to after a round.
use docker_faas.Base.{
  ℕ, String, ◌≡◌, refl, ap, ◌⊎◌, inl, inr, true, false, Option, List, [], ◌∷◌, ◌++◌, arith, ◌==◌,
  Bool-cases, contains, In, Result, ok, err, nat_eq, string_eq, bool_eq,
}
use docker_faas.Base.Calls.{Result-cases}
use docker_faas.Provider.Reconciler.{
  Daemon, names_of, forgive, connect_to_network, connect_round, connect_missing, reconcile_once,
}

-- What the daemon promises of the networks that the gateway is attached to: a connection that succeeds
-- adds the network, no call takes one away, and the container's settings name only such networks.
pub record DaemonLaws {W : Type 0} (daemon : Daemon W) (gateway_id : String)
    (attached : W → List String) : Type 0 where
  pub connects :
      (name : String) (w : W)
      → (daemon.network_connect name gateway_id w).0 ≡ ok tt
      → contains (attached (daemon.network_connect name gateway_id w).1) name ≡ true
  pub grows :
      (name other : String) (w : W)
      → contains (attached w) other ≡ true
      → contains (attached (daemon.network_connect name gateway_id w).1) other ≡ true
  pub inspect_names :
      (settings : Option (List String)) (other : String) (w : W)
      → (daemon.container_inspect gateway_id w).0 ≡ ok settings
      → contains (names_of settings) other ≡ true
      → contains (attached (daemon.container_inspect gateway_id w).1) other ≡ true
  pub list_keeps : (w : W) → attached (daemon.list_networks w).1 ≡ attached w

forgive-state : {W : Type 0} (p : Result (Unit {0}) × W) → (forgive p).1 ≡ p.1
forgive-state (ok u, w) = refl
forgive-state (err e, w) = ground arith

module _ {W : Type 0} (daemon : Daemon W) (gateway_id : String) (attached : W → List String)
    (laws : DaemonLaws daemon gateway_id attached) where
  connect-grows :
      (name other : String) (w : W)
      → contains (attached w) other ≡ true
      → contains (attached (connect_to_network daemon gateway_id name w).1) other ≡ true
  unfolding connect_to_network
  connect-grows name other w h =
      rw (forgive-state (daemon.network_connect name gateway_id w)) (laws.grows name other w h)

  connect-attaches :
      (name : String) (w : W)
      → (daemon.network_connect name gateway_id w).0 ≡ ok tt
      → contains (attached (connect_to_network daemon gateway_id name w).1) name ≡ true
  unfolding connect_to_network
  connect-attaches name w h =
      rw (forgive-state (daemon.network_connect name gateway_id w)) (laws.connects name w h)

  round-grows :
      (was : List String) (name other : String) (n : ℕ) (w : W)
      → contains (attached w) other ≡ true
      → contains (attached (connect_round daemon gateway_id was name n w).1) other ≡ true
  unfolding connect_round
  round-grows was name other n w h = elim (Bool-cases (name == "")) [
    | inl e ↦ rw e h
    | inr e ↦ elim (Bool-cases (contains was name)) [
      | inl f ↦ rw (e, f) h
      | inr f ↦ rw (e, f) (connect-grows name other w h)
    ]
  ]

  missing-grows :
      (was networks : List String) (other : String) (n : ℕ) (w : W)
      → contains (attached w) other ≡ true
      → contains (attached (connect_missing daemon gateway_id was networks n w).1) other ≡ true
  unfolding connect_missing
  missing-grows was [] other n w h = h
  missing-grows was (name ∷ networks) other n w h =
      let r = connect_round daemon gateway_id was name n w in
      missing-grows was networks other r.0 r.1 (round-grows was name other n w h)

  -- The daemon answered an error to the connection of a network of the list, in the state that the
  -- rounds for the networks before it leave.
  abbrev pub Failed : List String → List String → String → ℕ → W → Type 0
  Failed was networks name n w =
      (before after : List String) × (e : String) × (networks ≡ before ++ (name ∷ after))
      × ((daemon.network_connect name gateway_id
            (connect_missing daemon gateway_id was before n w).1).0
          ≡ err e)

  round-attaches :
      (was networks : List String) (name : String) (n : ℕ) (w : W)
      → (name == "") ≡ false
      → (contains was name ≡ true → contains (attached w) name ≡ true)
      → (contains (attached (connect_round daemon gateway_id was name n w).1) name ≡ true)
        ⊎ Failed was (name ∷ networks) name n w
  unfolding connect_round connect_missing
  round-attaches was networks name n w e known = elim (Bool-cases (contains was name)) [
    | inl f ↦ inl (rw (e, f) (known f))
    | inr f ↦ elim (Result-cases (daemon.network_connect name gateway_id w).0) [
      | inl (u, h) ↦ inl (rw (e, f) (connect-attaches name w h))
      | inr (t, h) ↦ inr ([], networks, t, refl, h)
    ]
  ]

  missing-attaches :
      (was networks : List String) (name : String) (n : ℕ) (w : W)
      → In name networks
      → (name == "") ≡ false
      → (contains was name ≡ true → contains (attached w) name ≡ true)
      → (contains (attached (connect_missing daemon gateway_id was networks n w).1) name ≡ true)
        ⊎ Failed was networks name n w
  unfolding connect_missing
  missing-attaches was [] name n w i e known = absurd i
  missing-attaches was (other ∷ networks) name n w (inl q) e known =
      let r = connect_round daemon gateway_id was name n w in
      rw (← q) (elim (round-attaches was networks name n w e known) [
        | inl h ↦ inl (missing-grows was networks name r.0 r.1 h)
        | inr f ↦ inr f
      ])
  missing-attaches was (other ∷ networks) name n w (inr i) e known =
      let r = connect_round daemon gateway_id was other n w in
      elim (missing-attaches was networks name r.0 r.1 i e
        (λ k. round-grows was other name n w (known k))) [
          | inl h ↦ inl h
          | inr (before, after, t, q, h) ↦ inr (other ∷ before, after, t, ap (λ l. other ∷ l) q, h)
        ]

  -- Where the daemon keeps its laws, and a round of a gateway with an id gets the settings of its
  -- container and the list of the networks: for each network of the list whose name is not empty, the
  -- gateway is attached to it after the round, or the daemon answered an error when the round, past the
  -- networks before it, connected the gateway to it.
  pub reconcile_once-attached :
      (settings : Option (List String)) (networks : List String) (name : String) (w : W)
      → (gateway_id == "") ≡ false
      → (daemon.container_inspect gateway_id w).0 ≡ ok settings
      → (daemon.list_networks (daemon.container_inspect gateway_id w).1).0 ≡ ok networks
      → In name networks
      → (name == "") ≡ false
      → (contains (attached (reconcile_once daemon gateway_id w).1) name ≡ true)
        ⊎ Failed
            (names_of settings)
            networks
            name
            0
            (daemon.list_networks (daemon.container_inspect gateway_id w).1).1
  unfolding reconcile_once
  reconcile_once-attached settings networks name w given inspected listed i e =
      let v = (daemon.container_inspect gateway_id w).1 in
      rw (given, inspected, listed)
        (missing-attaches (names_of settings) networks name 0 (daemon.list_networks v).1 i e
          (λ k. rw (laws.list_keeps v) (laws.inspect_names settings name w inspected k)))
