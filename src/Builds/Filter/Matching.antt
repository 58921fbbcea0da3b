-- ===== src/Builds/Filter/Matching.antt =====
-- What a list of builds that was filtered holds.
use docker_faas.Base.{
  ℕ, ◌≤◌, ◌≡◌, ◌⊎◌, Bool, true, false, not, Option, none, some, List, if◌then◌else◌, ◌==◌, length,
  set, In, nat_eq, string_eq, bool_eq,
}
use docker_faas.Base.Text.{to_lower, contains_text}
use docker_faas.Builds.Tracker.{BuildEntry}
use docker_faas.Builds.Filter.{BuildListFilter, in_set, strip_output}

-- What a filter asks of a build, where it asks for it
abbrev pub Asked : Bool → Bool → Type 0
Asked given holds = (given ≡ false) ⊎ (holds ≡ true)

abbrev pub is_given : Option (List (List ℕ)) → Bool
is_given none = false
is_given (some set) = true

-- The build has the statuses, the source, the name and the time that the filter asks for.
pub record Matches (f : BuildListFilter) (b : BuildEntry) : Type 0 where
  pub name :
      Asked (not (length f.name_contains == 0)) (contains_text (to_lower b.name) f.name_contains)
  pub status : Asked (is_given f.statuses) (in_set f.statuses b.status)
  pub source : Asked (is_given f.source_types) (in_set f.source_types b.source_type)
  pub since : (f.since ≡ 0) ⊎ (f.since ≤ b.started_at)
  pub before : (f.before ≡ 0) ⊎ (b.started_at ≤ f.before)

-- The length that the limit allows
abbrev pub Bounded : ℕ → ℕ → Type 0
Bounded limit n = (limit ≡ 0) ⊎ (n ≤ limit)

module _ (entries : List BuildEntry) (f : BuildListFilter) where
  abbrev Listed : BuildEntry → Type 0
  Listed b = In b entries × Matches f b

-- The build as the list shows it: without its output, unless the filter asks for that.
abbrev pub Shown : BuildListFilter → BuildEntry → BuildEntry → Type 0
Shown f b shown = shown ≡ (if f.include_output then b else strip_output b)
