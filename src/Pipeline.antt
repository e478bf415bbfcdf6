-- ===== src/Pipeline.antt =====
-- What the stages of the reconcile pipeline share: documents of the desired state
-- (packages/orchestrator/src/desired-state/loader.ts), the plan graph
-- (packages/orchestrator/src/reconciler/plan-stage.ts), stage results
-- (packages/orchestrator/src/reconciler/types.ts) and GATE's snapshot. A `Record` or a `Map` is the
-- list of its entries in insertion order.
use wanfw.Common.{ℕ, String, Bool, ◌==◌, List, [], ◌∷◌, Option, none, some, if◌then◌else◌}
use wanfw.Validate.{FieldTier}

pub record Expose : Type 0 where
  pub hostname : String
  pub backend_port : ℕ
  pub backend_protocol : String
  pub remove_volumes_on_delete : Option Bool

-- The fields of a service document that the stages read.
pub record ServiceDoc : Type 0 where
  pub id : String
  pub deploy_plugin : Option String
  pub expose : Expose
  pub needs_persist : Option ℕ

pub record Macvlan : Type 0 where
  pub parent : Option String
  pub reserved_cidr : Option String
  pub gateway : Option String

-- The fields of the framework document that the stages read.
pub record FrameworkDoc : Type 0 where
  pub deployment_mode : Option String
  pub strict_approvals : Option String
  pub domain : Option String
  pub roles : Option (List (String × String))
  pub macvlan : Option Macvlan

pub record StageError : Type 0 where
  pub stage : String
  pub plugin : Option String
  pub message : String

pub data StageResult : Type 0 where
  ok : StageResult
  failed : StageError → StageResult

-- What VALIDATE records of one service
pub record Classification : Type 0 where
  pub tier : FieldTier
  pub projection_hash : Option String

pub record GatedService : Type 0 where
  pub service_id : String
  pub tier : FieldTier
  pub projection_hash : String
  pub human_rendering : String
  pub approved : Bool
  pub banners : List String

-- The value under a key of a record or map
abbrev pub lookup {ℓ} : {V : Type ℓ} → String → List (String × V) → Option V
lookup k [] = none
lookup k ((j, v) ∷ m) = if j == k then some v else lookup k m
