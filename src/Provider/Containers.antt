-- ===== src/Provider/Containers.antt =====
-- pkg/provider/docker_provider.go: what the provider reads from the list of containers.
use docker_faas.Base.{
  ℕ, String, Bool, true, ◌||◌, Option, none, some, List, [], ◌∷◌, if◌then◌else◌, ◌==◌, nat_eq,
  string_eq, bool_eq,
}
use docker_faas.Base.Int.{ℤ, int_eq}
use docker_faas.Base.Assoc.{Assoc, lookup}
use docker_faas.Base.Text.{
  codes, trim_space, to_lower, has_prefix, contains_text, same_text, trim_slash, after_last, atoi,
}

abbrev pub label_replica : String
label_replica = "com.docker-faas.replica"

-- `container.Summary` of the Docker API, as far as the provider reads it; nil labels are `none`
pub record Summary : Type 0 where
  pub id : String
  pub names : List String
  pub state : String
  pub status : String
  pub created : ℤ
  pub labels : Option (Assoc String String)

-- Lower case without surrounding space
abbrev pub folded : String → List ℕ
folded s = to_lower (trim_space s)

unfoldable pub is_container_running_state : String → String → Bool
is_container_running_state state status =
    if same_text (folded state) (codes "running")
    then true
    else contains_text (folded status) (codes "running") || has_prefix (folded status) (codes "up ")

unfoldable pub is_container_stale_state : String → String → Bool
is_container_stale_state state status =
    if same_text (folded state) (codes "created")
      || same_text (folded state) (codes "exited")
      || same_text (folded state) (codes "dead")
    then true
    else contains_text (folded status) (codes "created")
      || contains_text (folded status) (codes "exited")
      || contains_text (folded status) (codes "dead")

unfoldable pub is_running : Summary → Bool
unfolding is_container_running_state
is_running c = is_container_running_state c.state c.status

unfoldable pub is_stale : Summary → Bool
unfolding is_container_stale_state
is_stale c = is_container_stale_state c.state c.status

index_text : Option String → Option ℤ
index_text none = none
index_text (some t) = if t == "" then none else atoi t

-- The number after the last dash of a name
unfoldable pub parse_replica_index : String → Option ℤ
unfolding index_text
parse_replica_index name =
    let trimmed = trim_slash (trim_space name) in
    if trimmed == "" then none else index_text (after_last b'-' trimmed)

first_index : List String → Option ℤ
first_index [] = none
first_index (name ∷ names) =
    let rest = first_index names in
    elim (parse_replica_index name) [ none ↦ rest | some i ↦ some i ]

label_index : Option (Assoc String String) → Option ℤ
label_index none = none
label_index (some labels) = elim (lookup label_replica labels) [
  | none ↦ none
  | some value ↦ atoi (trim_space value)
]

-- The replica's index: from the label, or else from the first name that has one
unfoldable pub container_replica_index : Summary → Option ℤ
unfolding label_index first_index parse_replica_index
container_replica_index c = elim (label_index c.labels) [
  | none ↦ first_index c.names
  | some i ↦ some i
]
