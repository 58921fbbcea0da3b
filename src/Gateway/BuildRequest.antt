-- ===== src/Gateway/BuildRequest.antt =====
-- The request of a build and what pkg/gateway/build_handlers.go makes of it for the history of builds.
-- The preparation of the context and the build of the image are operations of `Builder`.
use Prim.Native.String.{slice}
use Prim.Native.Char.{code}
use docker_faas.Base.{
  ℕ, ◌+◌, ◌-◌, ◌/◌, String, Bool, true, false, ◌&&◌, ◌||◌, Option, none, some, List, [], ◌∷◌, leb,
  if◌then◌else◌, ◌==◌, Result, nat_eq, string_eq, bool_eq,
}
use docker_faas.Base.Int.{pos}
use docker_faas.Base.Text.{decimal, ◌<>◌}
use docker_faas.Builder.{Manifest}
use docker_faas.Builds.Buffer.{LimitedBuffer, write}
use docker_faas.Builds.Tracker.{BuildEntry, BuildUpdate, BuildTracker}

pub record BuildGitSource : Type 0 where
  pub url : String
  pub ref : String
  pub path : String

pub record BuildInlineFile : Type 0 where
  pub path : String
  pub content : String
  pub remove : Bool

-- Of the zip source, the name and the data
pub record BuildSourceSpec : Type 0 where
  pub source_type : String
  pub runtime : String
  pub git : Option BuildGitSource
  pub zip : Option (String × String)
  pub files : List BuildInlineFile
  pub manifest : String

pub record BuildRequest : Type 0 where
  pub name : String
  pub deploy : Option Bool
  pub source : BuildSourceSpec

pub record PreparedBuild : Type 0 where
  pub manifest : Option Manifest
  pub dockerfile : String
  pub context_dir : String

-- `parseBuildRequest`, with the removal of its directory, `prepareBuildContext`, `builder.BuildImage`
-- with what it writes to its output, `generateBuildID`, the clock in nanoseconds, and the text of
-- bytes.
pub record Builder (W : Type 0) : Type 0 where
  pub parse_build_request : W → Result BuildRequest × W
  pub cleanup : W → W
  pub prepare_build_context : BuildRequest → W → Result PreparedBuild × W
  pub build_image : String → String → String → W → (Result (Unit {0}) × List (List ℕ)) × W
  pub generate_id : W → String × W
  pub now : W → ℕ
  pub text_of : List ℕ → String

-- The world and the history of builds, which a gateway may be without
pub record BuildState (W : Type 0) : Type 0 where
  pub world : W
  pub builds : Option BuildTracker

-- ASCII letters in lower case, `_` and the space as dashes
safe_name : String → String
safe_name String.[] = ""
safe_name (String.◌∷◌ c s) =
    let rest = safe_name s in
    let n = code c in
    if leb b'A' n && leb n b'Z'
    then slice "abcdefghijklmnopqrstuvwxyz" (n - b'A') (n - b'A' + 1) <> rest
    else if n == b'_' || n == b' '
    then "-" <> rest
    else String.◌∷◌ c rest

unfoldable pub build_image_tag : String → ℕ → String
unfolding safe_name
build_image_tag name now =
    "docker-faas/" <> safe_name name <> ":" <> decimal (pos (now / 1000000000))

unfoldable pub written : List (List ℕ) → LimitedBuffer → LimitedBuffer
written [] output = output
written (p ∷ writes) output = written writes (write p output).1

abbrev pub no_update : BuildUpdate
no_update = record {
  name = none;
  image = none;
  source_type = none;
  runtime = none;
  git_url = none;
  git_ref = none;
  source_path = none;
  zip_name = none;
  status = none;
  finished_at = none;
  duration_ms = none;
  deployed = none;
  updated = none;
  output = none;
  truncated = none;
  error = none;
}

-- The fields that each update of the end of a build has: times in nanoseconds, the duration in
-- milliseconds.
abbrev pub ended : String → ℕ → ℕ → BuildUpdate
ended status start now = record no_update {
  status = some status;
  finished_at = some now;
  duration_ms = some (pos ((now - start) / 1000000));
}

abbrev pub chosen_runtime : Option Manifest → Option String
chosen_runtime none = none
chosen_runtime (some manifest) = if manifest.runtime == "" then none else some manifest.runtime

unfoldable pub chosen_name : BuildRequest → Option Manifest → String
chosen_name req none = req.name
chosen_name req (some manifest) = if req.name == "" then manifest.name else req.name

abbrev pub git_of : (BuildGitSource → String) → Option BuildGitSource → String
git_of field none = ""
git_of field (some git) = field git

abbrev pub zip_name_of : Option (String × String) → String
zip_name_of none = ""
zip_name_of (some zip) = zip.0

unfoldable pub running_entry : BuildRequest → ℕ → BuildEntry
running_entry req start = record {
  id = "";
  name = req.name;
  image = "";
  source_type = req.source.source_type;
  runtime = req.source.runtime;
  git_url = git_of (λ git. git.url) req.source.git;
  git_ref = git_of (λ git. git.ref) req.source.git;
  source_path = git_of (λ git. git.path) req.source.git;
  zip_name = zip_name_of req.source.zip;
  status = "running";
  started_at = start;
  finished_at = 0;
  duration_ms = pos 0;
  deployed = false;
  updated = false;
  output = "";
  truncated = false;
  error = "";
}

abbrev pub tracker_or : BuildTracker → Option (Option BuildEntry × BuildTracker) → BuildTracker
tracker_or t none = t
tracker_or t (some (entry, t')) = t'

abbrev pub wanted : Option Bool → Bool
wanted none = true
wanted (some deploy) = deploy
