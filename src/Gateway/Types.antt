-- ===== src/Gateway/Types.antt =====
-- pkg/types/types.go. A nil map, slice or pointer is `none`; the zero time is 0.
use docker_faas.Base.{ℕ, String, Bool, Option, List}
use docker_faas.Base.Int.{ℤ}
use docker_faas.Base.Assoc.{Assoc}

pub record FunctionLimits : Type 0 where
  pub memory : String
  pub cpu : String

pub record FunctionResources : Type 0 where
  pub memory : String
  pub cpu : String

pub record FunctionDeployment : Type 0 where
  pub service : String
  pub image : String
  pub network : String
  pub env_process : String
  pub env_vars : Option (Assoc String String)
  pub labels : Option (Assoc String String)
  pub secrets : Option (List String)
  pub limits : Option FunctionLimits
  pub requests : Option FunctionResources
  pub constraints : Option (List String)
  pub annotations : Option (Assoc String String)
  pub namespace : String
  pub read_only_root_filesystem : Bool
  pub debug : Bool

pub record ScaleServiceRequest : Type 0 where
  pub service_name : String
  pub replicas : ℤ

pub record FunctionMetadata : Type 0 where
  pub id : ℤ
  pub name : String
  pub image : String
  pub env_process : String
  pub env_vars : String
  pub labels : String
  pub secrets : String
  pub network : String
  pub replicas : ℤ
  pub limits : String
  pub requests : String
  pub read_only : Bool
  pub debug : Bool
  pub created_at : ℕ
  pub updated_at : ℕ

pub record Container : Type 0 where
  pub id : String
  pub name : String
  pub ip_address : String
  pub status : String
  pub ports : Option (Assoc String String)
  pub created : ℕ
