-- ===== src/Router/Tests.antt =====
-- The round robin on concrete inputs.
use docker_faas.Base.{
  String, ◌≡◌, refl, ◌⊎◌, true, none, some, [], ◌∷◌, if◌then◌else◌, ◌==◌, keep, In, nat_eq,
  string_eq, bool_eq,
}
use docker_faas.Base.Assoc.{lookup, erase, insert}
use docker_faas.Gateway.Types.{Container}
use docker_faas.Router.{Counters, counter_of, next_count, is_running_status, pick, select_container}
use docker_faas.Router.Selection.{select_container_lem}

abbrev fn : String
fn = "fn"

abbrev box : String → String → Container
box id status = record {
  id = id;
  name = id;
  ip_address = "";
  status = status;
  ports = none;
  created = 0;
}

select_container_lem_example :
    (a : Container) × (n : Counters) × (select_container "fn"
        (box "a" "running" ∷ box "b" "Exited" ∷ [])
        []
      ≡ some (a, n))
    × In a (box "a" "running" ∷ box "b" "Exited" ∷ [])
    × ((is_running_status a ≡ true)
        ⊎ (keep is_running_status (box "a" "running" ∷ box "b" "Exited" ∷ []) ≡ []))
    × (counter_of "fn" n
        ≡ (if fn == fn then next_count (counter_of "fn" []) else counter_of "fn" []))
select_container_lem_example =
    select_container_lem "fn" "fn" (box "a" "running") (box "b" "Exited" ∷ []) []

abbrev up_a : Container
up_a = box "a" "Up 3 minutes"

abbrev dead_b : Container
dead_b = box "b" "Exited (1) 2 minutes ago"

-- A status as the Docker API writes it is never one of the two words, so a stopped container can be
-- selected while another one runs.
stopped_selected : select_container "fn" (up_a ∷ dead_b ∷ []) [] ≡ some (dead_b, ("fn", 1) ∷ [])
unfolding select_container keep is_running_status pick lookup insert erase
stopped_selected = refl
