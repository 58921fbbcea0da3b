-- ===== src/Builder.antt =====
-- pkg/builder/manifest.go: the manifest of a source build. The YAML decoder is a parameter.
pub mod Templates
use docker_faas.Base.{String, Bool, Option, none, some, List, [], Result, wrap}
use docker_faas.Base.Assoc.{Assoc}
use docker_faas.Gateway.Types.{FunctionLimits, FunctionResources}

pub record Manifest : Type 0 where
  pub name : String
  pub runtime : String
  pub command : String
  pub dependencies : Option (List String)
  pub env : Option (Assoc String String)
  pub labels : Option (Assoc String String)
  pub secrets : Option (List String)
  pub limits : Option FunctionLimits
  pub requests : Option FunctionResources
  pub read_only_root_filesystem : Bool
  pub debug : Bool
  pub network : String
  pub build : Option (List String)

-- A nil slice
abbrev pub entries : {A : Type 0} → Option (List A) → List A
entries none = []
entries (some l) = l

unfoldable pub parse_manifest : (String → Result Manifest) → String → Result Manifest
parse_manifest unmarshal text = wrap "failed to parse docker-faas.yaml: " (unmarshal text)
