-- ===== src/Provider/Operations/Tests.antt =====
-- A Docker daemon in memory: which of four containers there are, each with an id and a name, under both
-- of which it is found. The container `fn-7` has exited. Networks are not kept, but for one that is
-- always there.
use docker_faas.Base.{
  ℕ, ◌<◌, String, ◌≡◌, refl, sym, ap, ◌∙◌, ◌⊎◌, inl, inr, Bool, true, false, not, ◌||◌, Option,
  none, some, List, [], ◌∷◌, ◌++◌, map, arith, eq_iff, if◌then◌else◌, ◌==◌, Bool-cases, keep,
  contains, In, Result, ok, err, nat_eq, string_eq, bool_eq,
}
use docker_faas.Base.Int.{pos}
use docker_faas.Base.Assoc.{lookup, erase, insert}
use docker_faas.Base.Text.{
  codes, trim_space, to_lower, has_prefix, contains_text, same_text, trim_slash, after_last, atoi,
  decimal, ◌<>◌,
}
use docker_faas.Base.Membership.{In-map, In-keep}
use docker_faas.Gateway.Names.{function_network_name}
use docker_faas.Provider.Networks.Removed.{NetworkLaws, RemovedUnused, cleanup_function_network_lem}
use docker_faas.Provider.Networks.{
  with_labels, ensure_network, ensure_gateway_connected, is_managed_function_network, remove_unused,
  inspect_again, cleanup_inspected, cleanup_function_network,
}
use docker_faas.Provider.Docker.{
  Inspection, NetworkInfo, Docker, DockerProvider, is_container_not_found_err,
}
use docker_faas.Secrets.{secret_exists, validate_secrets, ensure_round, ensure_from, ensure_secrets}
use docker_faas.Provider.Create.{
  network_labels, container_labels, container_env, container_spec, path_in,
  resolve_secrets_host_path, mount_secrets, remove_stale, remove_stale_container_by_name, create_in,
  create_container,
}
use docker_faas.Gateway.Types.{FunctionDeployment}
use docker_faas.Provider.Operations.{
  replica_name, image_exists, pull_image, create_replica, create_replicas, deploy_function,
  remove_container_summary, remove_planned, apply_plan, scale_function,
}
use docker_faas.Provider.Plan.{
  select_replica_keeper, group_insert, scan_index, scan_container, scan, extras, missing_from,
  insert_sorted, excess, build_replica_scale_plan,
}
use docker_faas.Provider.Plan.Replicas.{replicas}
use docker_faas.Provider.Create.Surviving.{HasName}
use docker_faas.Provider.Operations.Named.{NamesStay, deploy_function_lem}
use docker_faas.Provider.Containers.{
  Summary, is_container_running_state, is_container_stale_state, is_running, is_stale,
  parse_replica_index, container_replica_index,
}
use docker_faas.Provider.Plan.Survivors.{DistinctIds}
use docker_faas.Secrets.Files.{got, FileSystem}
use docker_faas.Provider.Create.Made.{Containers, Refers, ContainerLaws}
use docker_faas.Provider.Operations.Scaled.{ListingLaws, scale_function_lem}

-- The containers that there can be
data Slot : Type 0 where
  at_zero at_one at_five at_seven : Slot

abbrev id_of : Slot → String
id_of at_zero = "a0"
id_of at_one = "a1"
id_of at_five = "a5"
id_of at_seven = "a7"

abbrev name_of : Slot → String
name_of at_zero = "fn-0"
name_of at_one = "fn-1"
name_of at_five = "fn-5"
name_of at_seven = "fn-7"

abbrev slots : List Slot
slots = at_zero ∷ at_one ∷ at_five ∷ at_seven ∷ []

pick : (Slot → Bool) → List Slot → Option Slot
pick p [] = none
pick p (s ∷ l) = let rest = pick p l in if p s then some s else rest

pick_lem : (p : Slot → Bool) (l : List Slot) (s : Slot) → pick p l ≡ some s → p s ≡ true
unfolding pick
pick_lem p [] s h = absurd (cc h)
pick_lem p (x ∷ l) s h = elim (Bool-cases (p x)) [
  | inl e ↦ let here : x ≡ s = cc (rw e at h) in rw (← here) e
  | inr e ↦ pick_lem p l s (rw e at h)
]

picked_there : (p : Slot → Bool) (l : List Slot) (s : Slot) → pick p l ≡ some s → In s l
unfolding pick
picked_there p [] s h = absurd (cc h)
picked_there p (x ∷ l) s h = elim (Bool-cases (p x)) [
  | inl e ↦ inl (let here : x ≡ s = cc (rw e at h) in sym here)
  | inr e ↦ inr (picked_there p l s (rw e at h))
]

abbrev decoded : String → Option Slot
decoded id = pick (λ s. id_of s == id) slots

decoded_lem : (s : Slot) → decoded (id_of s) ≡ some s
unfolding pick
decoded_lem at_zero = refl
decoded_lem at_one = refl
decoded_lem at_five = refl
decoded_lem at_seven = refl

same_slot : (s t : Slot) → id_of s ≡ id_of t → s ≡ t
same_slot s t h =
    let here : some s ≡ some t = sym (decoded_lem s) ∙ ap decoded h ∙ decoded_lem t in cc here

plain_id : (s : Slot) → contains (codes (id_of s)) b'-' ≡ false
unfolding contains
plain_id at_zero = refl
plain_id at_one = refl
plain_id at_five = refl
plain_id at_seven = refl

own_prefix : (s : Slot) → has_prefix (codes (id_of s)) (codes (id_of s)) ≡ true
unfolding has_prefix
own_prefix at_zero = refl
own_prefix at_one = refl
own_prefix at_five = refl
own_prefix at_seven = refl

dashed_name : (s : Slot) → contains (codes (name_of s)) b'-' ≡ true
unfolding contains
dashed_name at_zero = refl
dashed_name at_one = refl
dashed_name at_five = refl
dashed_name at_seven = refl

same_prefix :
    (s t : Slot) → has_prefix (codes (id_of t)) (codes (id_of s)) ≡ true → id_of s ≡ id_of t
unfolding has_prefix
same_prefix at_zero at_zero h = refl
same_prefix at_zero at_one h = cc
same_prefix at_zero at_five h = cc
same_prefix at_zero at_seven h = cc
same_prefix at_one at_zero h = cc
same_prefix at_one at_one h = refl
same_prefix at_one at_five h = cc
same_prefix at_one at_seven h = cc
same_prefix at_five at_zero h = cc
same_prefix at_five at_one h = cc
same_prefix at_five at_five h = refl
same_prefix at_five at_seven h = cc
same_prefix at_seven at_zero h = cc
same_prefix at_seven at_one h = cc
same_prefix at_seven at_five h = cc
same_prefix at_seven at_seven h = refl

abbrev World : Type 0
World = List Slot

abbrev state_of : Slot → String
state_of s = if name_of s == "fn-7" then "exited" else "running"

abbrev summary_of : Slot → Summary
summary_of s = record {
  id = id_of s;
  names = ("/" <> name_of s) ∷ [];
  state = state_of s;
  status = "";
  created = pos 0;
  labels = none;
}

abbrev inspection_of : Slot → Inspection
inspection_of s = record {
  id = id_of s;
  state = some (state_of s, true);
  mounts = [];
  labels = none;
  networks = none;
}

abbrev idle : {W A : Type 0} → A → W → Result A × W
idle a w = (ok a, w)

-- A daemon without containers
abbrev quiet : {W : Type 0} → Docker W
quiet = record {
  is_not_found = λ e. false;
  ping = idle tt;
  network_list = λ name. idle (name ∷ []);
  network_create = λ name labels. idle tt;
  network_inspect = λ name. idle (record { labels = none; containers = [] });
  network_connect = λ name id. idle tt;
  network_disconnect = λ name id. idle tt;
  network_remove = λ name. idle tt;
  image_inspect = λ image. idle tt;
  image_pull = λ image. idle "";
  read_all = λ reader. idle "";
  volume_inspect = λ name. idle "";
  container_list = λ label. idle [];
  container_inspect = λ name w. (err "No such container", w);
  container_create = λ spec w. (err "no room", w);
  container_start = λ id. idle tt;
  container_stop = λ id. idle tt;
  container_remove = λ id. idle tt;
  container_logs = λ id tail. idle "";
}

-- A reference is a name or an id.
abbrev refers : String → Slot → Bool
refers ref s = name_of s == ref || id_of s == ref

abbrev inspected : Option Slot → Result Inspection
inspected none = err "No such container"
inspected (some s) = ok (inspection_of s)

abbrev create_at : Option Slot → World → Result String × World
create_at none w = (err "no room", w)
create_at (some s) w = (ok (id_of s), w ++ (s ∷ []))

abbrev daemon : Docker World
daemon = record quiet {
  container_list = λ label w. (ok (map summary_of w), w);
  container_inspect = λ ref w. (inspected (pick (refers ref) w), w);
  container_create = λ spec. create_at (pick (λ s. name_of s == spec.name) slots);
  container_remove = λ id w. (ok tt, keep (λ s. not (id_of s == id)) w);
}

abbrev no_files : {W : Type 0} → FileSystem W
no_files = record {
  join = λ a b. a <> "/" <> b;
  decode = λ s. none;
  stat = λ w p. got tt;
  read = λ w p. got "";
  read_dir = λ w p. ok [];
  mkdir_all = λ p. idle tt;
  write = λ p c. idle tt;
  remove = λ p. idle tt;
}

abbrev provider_of : {W : Type 0} → Docker W → DockerProvider W
provider_of client = record {
  client = client;
  files = no_files;
  secret_manager = record { base_path = "/secrets" };
  network = "faas";
  gateway_id = "gateway";
  connect_gateway = true;
  debug_bind_address = "127.0.0.1";
  scan_int = λ s. pos 0;
  scan_nano_cpus = λ s. pos 0;
}

abbrev provider : DockerProvider World
provider = provider_of daemon

abbrev pair_of : Slot → String × String
pair_of s = (id_of s, name_of s)

abbrev view : World → Containers
view w = map pair_of w

spared :
    (ref : String) (w : World) (c : String × String)
    → In c (view w)
    → ¬ Refers ref c
    → In c (view (keep (λ s. not (id_of s == ref)) w))
spared ref w c i n =
    let (s, j, e) = (In-map pair_of c w).0 i in
    let other : not (id_of s == ref) ≡ true = elim (Bool-cases (id_of s == ref)) [
      | inl q ↦ absurd (n (inl (ap (λ x. x.0) e ∙ (eq_iff (id_of s) ref).0 q)))
      | inr q ↦ rw q refl
    ] in
    (In-map pair_of c (keep (λ t. not (id_of t == ref)) w)).1
      (s, (In-keep (λ t. not (id_of t == ref)) s w).1 (j, other), e)

append_view : (s : Slot) (w : World) → view (w ++ (s ∷ [])) ≡ view w ++ (pair_of s ∷ [])
append_view s [] = refl
append_view s (x ∷ w) = ap (λ l. pair_of x ∷ l) (append_view s w)

ok_eq : {A : Type 0} {a b : A} → ok a ≡ ok b → a ≡ b
ok_eq h = cc

found_lem :
    (ref : String) (s : Slot) (c : String × String) (w : World)
    → refers ref s ≡ true
    → In c (view w)
    → c.0 ≡ id_of s
    → (c.1 ≡ ref) ⊎ (has_prefix (codes c.0) (codes ref) ≡ true)
found_lem ref s c w r i q =
    let (t, j, e) = (In-map pair_of c w).0 i in
    let here : t ≡ s = same_slot t s (sym (ap (λ x. x.0) e) ∙ q) in
    elim (Bool-cases (name_of s == ref)) [
      | inl n ↦ inl (ap (λ x. x.1) e ∙ ap name_of here ∙ (eq_iff (name_of s) ref).0 n)
      | inr n ↦
          let own : id_of s ≡ ref = (eq_iff (id_of s) ref).0 (rw n at r) in
          inr (rw (q, ← own) (own_prefix s))
    ]

inspect_lem :
    (ref : String) (found : Option Slot) (w : World) (info : Inspection)
    → ((s : Slot) → found ≡ some s → refers ref s ≡ true)
    → inspected found ≡ ok info
    → (c : String × String) → In c (view w)
    → c.0 ≡ info.id
    → (c.1 ≡ ref) ⊎ (has_prefix (codes c.0) (codes ref) ≡ true)
inspect_lem ref none w info r h c i q = absurd (cc h)
inspect_lem ref (some s) w info r h c i q =
    found_lem ref s c w (r s refl) i (q ∙ ap (λ x. x.id) (sym (ok_eq h)))

created_lem :
    (name id : String) (made : Option Slot) (w : World)
    → ((s : Slot) → made ≡ some s → (name_of s == name) ≡ true)
    → (create_at made w).0 ≡ ok id
    → view (create_at made w).1 ≡ view w ++ ((id, name) ∷ [])
created_lem name id none w r h = absurd (cc h)
created_lem name id (some s) w r h =
    rw (← (ok_eq h), ← ((eq_iff (name_of s) name).0 (r s refl))) (append_view s w)

plain_lem : (w : World) (c : String × String) → In c (view w) → contains (codes c.0) b'-' ≡ false
plain_lem w c i = let (s, j, e) = (In-map pair_of c w).0 i in rw (ap (λ x. x.0) e) (plain_id s)

apart_lem :
    (w : World) (c d : String × String) → In c (view w) → In d (view w) → Refers c.0 d → c.0 ≡ d.0
apart_lem w c d i j r =
    let (s, k, e) = (In-map pair_of c w).0 i in
    let (t, l, f) = (In-map pair_of d w).0 j in
    let left : c.0 ≡ id_of s = ap (λ x. x.0) e in
    let right : d.0 ≡ id_of t = ap (λ x. x.0) f in
    let name : d.1 ≡ name_of t = ap (λ x. x.1) f in
    elim r [
      | inl q ↦ sym q
      | inr o ↦ elim o [
        | inl q ↦
            let clash : name_of t ≡ id_of s = sym name ∙ q ∙ left in
            absurd (cc (rw clash at (dashed_name t), plain_id s))
        | inr q ↦ left ∙ same_prefix s t (rw (right, left) at q) ∙ sym right
      ]
    ]

found_there :
    (found : Option Slot) (w : World) (info : Inspection)
    → ((s : Slot) → found ≡ some s → In s w)
    → inspected found ≡ ok info
    → (n : String) × In (info.id, n) (view w)
found_there none w info r h = absurd (cc h)
found_there (some s) w info r h =
    let same : info.id ≡ id_of s = ap (λ x. x.id) (sym (ok_eq h)) in
    (
      name_of s,
      (In-map pair_of (info.id, name_of s) w).1 (s, r s refl, ap (λ x. (x, name_of s)) same),
    )

laws : ContainerLaws provider view
laws = record {
  network_list_keeps = λ name w. refl;
  network_create_keeps = λ name labels w. refl;
  network_connect_keeps = λ name id w. refl;
  image_inspect_keeps = λ image w. refl;
  image_pull_keeps = λ image w. refl;
  read_all_keeps = λ reader w. refl;
  volume_inspect_keeps = λ name w. refl;
  list_keeps = λ label w. refl;
  inspect_keeps = λ name w. refl;
  start_keeps = λ id w. refl;
  write_keeps = λ path text w. refl;
  inspect_ok =
      λ ref w info h. inspect_lem ref (pick (refers ref) w) w info (pick_lem (refers ref) w) h;
  ids_plain = plain_lem;
  inspect_found =
      λ ref w info h. found_there (pick (refers ref) w) w info (picked_there (refers ref) w) h;
  ids_apart = apart_lem;
  stop_spares = λ ref w c i n. i;
  remove_spares = spared;
  create_ok = λ spec w id h.
      created_lem spec.name id (pick (λ s. name_of s == spec.name) slots) w
        (pick_lem (λ s. name_of s == spec.name) slots) h;
}

listed_lem :
    (w : World) (s : Summary) → In s (map summary_of w) → (n : String) × In (s.id, n) (view w)
listed_lem w s i =
    let (t, j, e) = (In-map summary_of s w).0 i in
    (name_of t, (In-map pair_of (s.id, name_of t) w).1 (t, j, ap (λ x. (x.id, name_of t)) e))

distinct_lem : (w : World) → DistinctIds (map summary_of w)
distinct_lem w c d i j e =
    let (a, x, p) = (In-map summary_of c w).0 i in
    let (b, y, q) = (In-map summary_of d w).0 j in
    let same : a ≡ b = same_slot a b (sym (ap (λ s. s.id) p) ∙ e ∙ ap (λ s. s.id) q) in
    p ∙ ap summary_of same ∙ sym q

distinct_of : (w : World) (l : List Summary) → map summary_of w ≡ l → DistinctIds l
distinct_of w l h = rw (← h) (distinct_lem w)

listing : ListingLaws provider view
listing = record {
  listed = λ label w l h s i. listed_lem w s (rw (ok_eq h) i);
  distinct = λ label w l h. distinct_of w l (ok_eq h);
}

abbrev fn : FunctionDeployment
fn = record {
  service = "fn";
  image = "fn:1";
  network = "";
  env_process = "";
  env_vars = none;
  labels = none;
  secrets = some ("key" ∷ []);
  limits = none;
  requests = none;
  constraints = none;
  annotations = none;
  namespace = "";
  read_only_root_filesystem = true;
  debug = false;
}

abbrev three : World
three = at_zero ∷ at_five ∷ at_seven ∷ []

-- The replica above the target and the stale one are removed.
scaled : (scale_function provider fn (pos 2) three) ≡ (ok tt, at_zero ∷ at_one ∷ [])
unfolding pick scale_function apply_plan remove_planned remove_container_summary create_replicas
    create_replica create_container create_in ensure_network ensure_gateway_connected mount_secrets
    resolve_secrets_host_path path_in remove_stale_container_by_name remove_stale container_spec
    container_labels container_env network_labels ensure_secrets ensure_from ensure_round
    secret_exists validate_secrets keep decimal trim_space contains with_labels lookup insert erase
    is_container_not_found_err contains_text to_lower same_text build_replica_scale_plan scan
    scan_container scan_index extras missing_from excess insert_sorted is_stale is_running
    is_container_stale_state is_container_running_state container_replica_index parse_replica_index
    group_insert select_replica_keeper trim_slash after_last atoi has_prefix
scaled = refl

deploy_function_lem_example :
    ((i : ℕ)
      → i < 2
      → HasName (view (deploy_function provider fn (pos 2) []).1) (replica_name fn (pos i)))
    × NamesStay [] (view (deploy_function provider fn (pos 2) []).1)
unfolding pick deploy_function pull_image image_exists create_replicas create_replica
    create_container create_in ensure_network ensure_gateway_connected mount_secrets
    resolve_secrets_host_path path_in remove_stale_container_by_name remove_stale container_spec
    container_labels container_env network_labels ensure_secrets ensure_from ensure_round
    secret_exists validate_secrets keep decimal trim_space contains with_labels lookup insert erase
    is_container_not_found_err contains_text to_lower
deploy_function_lem_example = deploy_function_lem provider view laws fn (pos 2) [] refl

scale_function_lem_example :
    HasName (view (scale_function provider fn (pos 2) three).1) "fn-1"
    ⊎ ((k : Summary) × (n : String) × In k (replicas (pos 1) (map summary_of three))
        × In (k.id, n) (view three)
        × HasName (view (scale_function provider fn (pos 2) three).1) n)
unfolding decimal
scale_function_lem_example =
    scale_function_lem provider view laws listing fn (pos 2) (map summary_of three) three refl
      (ap (λ x. x.0) scaled) 1 (omega arith)

-- Here the names are those of the networks.
abbrev networker : DockerProvider (List String)
networker =
    provider_of (record quiet { network_remove = λ name w. (ok tt, keep (λ n. not (n == name)) w) })

network_laws : NetworkLaws networker (λ w. w)
network_laws = record { inspect_keeps = λ name w. refl; disconnect_keeps = λ name id w. refl }

abbrev two_networks : List String
two_networks = "faas" ∷ "faas-fn" ∷ []

cleaned :
    (cleanup_function_network networker "fn" "faas-fn" two_networks ≡ (ok tt, "faas" ∷ []))
    × (cleanup_function_network networker "fn" "faas" two_networks ≡ (ok tt, two_networks))
unfolding cleanup_function_network cleanup_inspected inspect_again remove_unused
    is_managed_function_network function_network_name keep
cleaned = (refl, refl)

cleanup_function_network_lem_example :
    ((cleanup_function_network networker "fn" "faas-fn" two_networks).1 ≡ two_networks)
    ⊎ ((info : NetworkInfo) × ((networker.client.network_inspect "faas-fn" two_networks).0
          ≡ ok info)
        × (is_managed_function_network networker "faas-fn" "fn" info.labels ≡ true)
        × RemovedUnused networker
            (λ w. w)
            network_laws
            "faas-fn"
            two_networks
            (cleanup_function_network networker "fn" "faas-fn" two_networks).1)
cleanup_function_network_lem_example =
    cleanup_function_network_lem networker (λ w. w) network_laws "faas-fn" "fn" two_networks
