-- ===== src/Spec.antt =====
-- The container specification that deploy plugins emit
-- (packages/orchestrator/src/validate/container-spec.ts), and what the stages read of it.
use wanfw.Common.{ℕ, String, Bool, List, Option, none, append}

pub data MountType : Type 0 where
  volume bind : MountType

pub record MountSpec : Type 0 where
  pub kind : MountType
  pub source : String
  pub target : String
  pub read_only : Option Bool

pub record Resources : Type 0 where
  pub memory : Option String
  pub cpus : Option String

pub record ContainerSpec : Type 0 where
  pub image : String
  pub cmd : Option (List String)
  pub entrypoint : Option (List String)
  pub env : Option (List (String × String))
  pub mounts : Option (List MountSpec)
  pub devices : Option (List String)
  pub networks : Option (List String)
  pub network_mode : Option String
  pub ports : Option (List ℕ)
  pub cap_add : Option (List String)
  pub privileged : Option Bool
  pub security_opt : Option (List String)
  pub user : Option String
  pub read_only : Option Bool
  pub resources : Option Resources
  pub labels : Option (List (String × String))
  pub restart : Option String

-- `{ image }`
abbrev pub bare_spec : String → ContainerSpec
bare_spec image = record {
  image = image;
  cmd = none;
  entrypoint = none;
  env = none;
  mounts = none;
  devices = none;
  networks = none;
  network_mode = none;
  ports = none;
  cap_add = none;
  privileged = none;
  security_opt = none;
  user = none;
  read_only = none;
  resources = none;
  labels = none;
  restart = none;
}

-- `wanfw_svc_<id>`
abbrev pub service_network_name : String → String
service_network_name service_id = append "wanfw_svc_" service_id
