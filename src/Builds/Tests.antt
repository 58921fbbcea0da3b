-- ===== src/Builds/Tests.antt =====
-- The history of builds and the checks of archives on concrete inputs.
use docker_faas.Base.{
  ℕ, ◌≤◌, ◌<◌, ◌≡◌, refl, ◌≢◌, ◌⊎◌, inl, inr, true, false, Option, none, some, List, [], ◌∷◌, arith,
  ltb, length, get_elem?, set, take, keep, All, ok,
}
use docker_faas.Base.Int.{pos, pos_part, is_nonpos}
use docker_faas.Base.Text.{trim_space, to_lower, contains_text, same_text}
use docker_faas.Builds.Tracker.{
  BuildEntry, BuildUpdate, BuildTracker, new_build_tracker, is_recent, add, update, get, subscribe,
}
use docker_faas.Builds.Tracker.Updated.{WrittenBy, Answers, update-WrittenBy}
use docker_faas.Builds.Tracker.Index.{IsValid, new-IsValid, add-IsValid}
use docker_faas.Builds.Tracker.Steps.{added, subscribed, Reach, here, next, Reach-IsValid}
use docker_faas.Builds.Tracker.Retention.{retained, get-add}
use docker_faas.Builds.Buffer.{new_limited_buffer}
use docker_faas.Builds.Buffer.Prefix.{write_all, joined, write_all_prefix}
use docker_faas.Builds.Archive.{
  ZipEntry, max_zip_entries, max_zip_total_bytes, validate_zip_archive,
}
use docker_faas.Builds.Archive.Limits.{
  IsSafe, declared, SmallDirectory, validate_zip_archive-IsSafe,
}
use docker_faas.Builds.Filter.{
  BuildListFilter, parse_csv_set, passes, strip_output, filter_build_entries,
}

abbrev build : BuildEntry
build = record {
  id = "b1";
  name = "Hello";
  image = "hello:1";
  source_type = "git";
  runtime = "go";
  git_url = "https://example.org/hello.git";
  git_ref = "main";
  source_path = "";
  zip_name = "";
  status = "success";
  started_at = 10;
  finished_at = 20;
  duration_ms = pos 1;
  deployed = true;
  updated = false;
  output = "done";
  truncated = false;
  error = "";
}

abbrev failure : BuildUpdate
failure = record {
  name = none;
  image = none;
  source_type = none;
  runtime = none;
  git_url = none;
  git_ref = none;
  source_path = none;
  zip_name = none;
  status = some "failed";
  finished_at = some 30;
  duration_ms = none;
  deployed = none;
  updated = none;
  output = none;
  truncated = none;
  error = some "exit 1";
}

abbrev empty : BuildTracker
empty = new_build_tracker (pos 3) (pos 1000)

abbrev one_build : BuildTracker
one_build = (add "g1" 25 build (subscribe empty).1).1

one_build_reached : Reach empty one_build
one_build_reached = next (next here subscribed) (added "g1" 25 build)

Reach-IsValid_example : IsValid one_build
Reach-IsValid_example = Reach-IsValid (pos 3) (pos 1000) one_build_reached

empty-IsValid : IsValid empty
empty-IsValid = new-IsValid (pos 3) (pos 1000)

abbrev first : BuildTracker
first = (add "g1" 25 build empty).1

first-IsValid : IsValid first
first-IsValid = add-IsValid "g1" 25 build empty-IsValid

update-WrittenBy_example :
    ((update "b1" failure 26 first ≡ some (none, first)) × All (λ e. e.id ≢ "b1") first.entries)
    ⊎ ((i : ℕ) × (e new : BuildEntry) × (get_elem? first.entries i ≡ some e)
        × (e.id ≡ "b1")
        × WrittenBy failure e new
        × ((answer : Option BuildEntry) × (after : BuildTracker) × (update "b1" failure 26 first
              ≡ some (answer, after))
            × IsValid after
            × (after.entries ≡ retained 26 (record first { entries = set first.entries i new }))
            × Answers "b1" after.entries answer))
update-WrittenBy_example = update-WrittenBy "b1" failure 26 first first-IsValid

no_clash : All (λ e. e.id ≢ (add "g1" 25 build empty).0.id) (retained 25 empty)
unfolding new_build_tracker keep
no_clash = tt

recent :
    (is_nonpos empty.retention ≡ true)
    ⊎ (is_recent 30 (pos_part empty.retention) (add "g1" 25 build empty).0 ≡ true)
unfolding new_build_tracker add
recent = inr refl

get-add_example :
    (t' : BuildTracker) × (get (add "g1" 25 build empty).0.id 30 (add "g1" 25 build empty).1
      ≡ some (some (add "g1" 25 build empty).0, t'))
get-add_example = get-add "g1" 25 30 build empty empty-IsValid no_clash recent

abbrev pieces : List (List ℕ)
pieces = (1 ∷ 2 ∷ []) ∷ (3 ∷ 4 ∷ 5 ∷ []) ∷ []

filled : All (λ p. 0 < length p) pieces
filled = (omega arith, (omega arith, tt))

write_all_prefix_example :
    ((write_all pieces (new_limited_buffer (pos 3))).buf
      ≡ take (new_limited_buffer (pos 3)).limit (joined pieces))
    × ((write_all pieces (new_limited_buffer (pos 3))).truncated
        ≡ ltb (new_limited_buffer (pos 3)).limit (length (joined pieces)))
write_all_prefix_example = write_all_prefix (pos 3) pieces filled

abbrev archive : List ZipEntry
archive =
    record {
      name = "src/";
      is_dir = true;
      is_symlink = false;
      uncompressed_size = 0;
      compressed_size = 0;
    }
    ∷ record {
      name = "src/main.go";
      is_dir = false;
      is_symlink = false;
      uncompressed_size = 2000000;
      compressed_size = 500000;
    }
    ∷ []

small : All SmallDirectory archive
small = (inr (omega arith), (inl refl, tt))

accepted : validate_zip_archive archive ≡ ok tt
unfolding validate_zip_archive contains_text
accepted = refl

validate_zip_archive-IsSafe_example :
    (length archive ≤ max_zip_entries)
    × All IsSafe archive
    × (declared archive ≤ max_zip_total_bytes)
validate_zip_archive-IsSafe_example = validate_zip_archive-IsSafe archive small accepted

abbrev query : BuildListFilter
query = record {
  statuses = parse_csv_set "success, failed";
  source_types = none;
  name_contains = to_lower "hell";
  since = 5;
  before = 0;
  limit = 1;
  include_output = false;
}

one_listed : filter_build_entries (build ∷ build ∷ []) query ≡ strip_output build ∷ []
unfolding filter_build_entries parse_csv_set to_lower trim_space contains_text passes keep same_text
one_listed = refl
