-- ===== src/Builds/Filter.antt =====
-- pkg/gateway/builds_handlers.go: the query of the list of builds. Texts that are compared in lower
-- case are lists of code points; a nil set is `none`; the zero time is 0.
pub mod Matching
use Prim.Native.Char.{code}
use Prim.Native.String
use docker_faas.Base.{
  ℕ, String, Bool, true, false, not, ◌&&◌, Option, none, some, List, [], ◌∷◌, ◌++◌, map, ltb,
  if◌then◌else◌, ◌==◌, length, set, take, keep, nat_eq, string_eq, bool_eq,
}
use docker_faas.Base.Text.{trim_space, to_lower, contains_text, same_text, cut}
use docker_faas.Builds.Tracker.{BuildEntry}

pub record BuildListFilter : Type 0 where
  pub statuses : Option (List (List ℕ))
  pub source_types : Option (List (List ℕ))
  pub name_contains : List ℕ
  pub since : ℕ
  pub before : ℕ
  pub limit : ℕ
  pub include_output : Bool

-- The parts of a text between commas, in lower case without surrounding space; empty parts are left
-- out. A set with no element is nil.
csv_parts : String → String → List (List ℕ)
csv_parts cur String.[] = let part = trim_space cur in if part == "" then [] else to_lower part ∷ []
csv_parts cur (String.◌∷◌ c s) =
    let rest = csv_parts "" s in
    let longer = csv_parts (String.◌++◌ cur (String.◌∷◌ c "")) s in
    let part = trim_space cur in
    if code c == b',' then (if part == "" then rest else to_lower part ∷ rest) else longer

unfoldable pub parse_csv_set : String → Option (List (List ℕ))
unfolding csv_parts
parse_csv_set value =
    let parts = csv_parts "" value in if length parts == 0 then none else some parts

unfoldable pub member : List (List ℕ) → List ℕ → Bool
member [] t = false
member (s ∷ set) t = let rest = member set t in if same_text s t then true else rest

unfoldable pub in_set : Option (List (List ℕ)) → String → Bool
in_set none t = true
in_set (some set) t = member set (to_lower t)

-- One round of the loop: whether no `continue` is reached.
unfoldable pub passes : BuildListFilter → BuildEntry → Bool
unfolding in_set member
passes f entry =
    if not (length f.name_contains == 0)
      && not (contains_text (to_lower entry.name) f.name_contains)
    then false
    else if not (in_set f.statuses entry.status)
    then false
    else if not (in_set f.source_types entry.source_type)
    then false
    else if not (f.since == 0) && ltb entry.started_at f.since
    then false
    else if not (f.before == 0) && ltb f.before entry.started_at
    then false
    else true

unfoldable pub strip_output : BuildEntry → BuildEntry
strip_output entry = record entry { output = ""; truncated = false }

-- `filtered[:filter.limit]`, where the limit is above zero and below the length
unfoldable pub cut_entries : ℕ → List BuildEntry → List BuildEntry
cut_entries limit filtered =
    if ltb 0 limit && ltb limit (length filtered) then take limit filtered else filtered

unfoldable pub filter_build_entries : List BuildEntry → BuildListFilter → List BuildEntry
unfolding passes strip_output cut_entries
filter_build_entries entries f =
    let cut = cut_entries f.limit (keep (passes f) entries) in
    if f.include_output then cut else map strip_output cut
