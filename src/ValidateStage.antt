-- ===== src/ValidateStage.antt =====
-- The VALIDATE stage (packages/orchestrator/src/reconciler/validate-stage.ts): every service plan
-- against the stored grants of the service's deploy plugin; the first refusal stops the stage.
pub mod Accepts
use wanfw.Common.{
  String, Bool, true, false, ◌==◌, if◌then◌else◌, List, [], ◌∷◌, Option, none, some, append, find,
}
use wanfw.Json.{Json}
use wanfw.Spec.{ContainerSpec}
use wanfw.Scope.{Grant}
use wanfw.FieldChecks.{FieldViolation}
use wanfw.Validate.{ValidationResult, validate_container_spec}
use wanfw.Store.{StateStore}
use wanfw.Grants.{load_grants_for_plugin}
use wanfw.Pipeline.{ServiceDoc, Classification, StageError}

-- The classification of each service, or the error of the stage
pub data Validated : Type 0 where
  classified : List (String × Classification) → Validated
  invalid : StageError → Validated

abbrev pub service_of : String → List ServiceDoc → Option ServiceDoc
service_of id services = find (λ (d : ServiceDoc). d.id == id) services

abbrev pub bound_plugin : Option ServiceDoc → Option String
bound_plugin none = none
bound_plugin (some d) = d.deploy_plugin

unfoldable pub bound_deploy_plugin_id : List ServiceDoc → String → Option String
bound_deploy_plugin_id services service_id = bound_plugin (service_of service_id services)

abbrev pub stage_error : String → String → StageError
stage_error plugin message = record { stage = "validate"; plugin = some plugin; message = message }

-- The message of the first violation
abbrev first_message : List FieldViolation → String
first_message [] = ""
first_message (v ∷ vs) = v.message

abbrev pub classify : String → ValidationResult → Validated → Validated
classify service_id r (invalid e) = invalid e
classify service_id r (classified cs) =
    classified ((service_id, record { tier = r.tier; projection_hash = r.projection_hash }) ∷ cs)

-- One service's result, in front of what the rest of the loop gives
abbrev pub accept_one : String → String → ValidationResult → Validated → Validated
accept_one service_id plugin r rest =
    if r.ok
    then classify service_id r rest
    else invalid (
        stage_error plugin
          (append "service " (append service_id (append ": " (first_message r.violations)))))

module _ (sha256 : String → String) (json_parse : String → Json) (store : StateStore)
    (services : List ServiceDoc) where
  abbrev pub checked : String → String → ContainerSpec → ValidationResult
  checked plugin service_id spec =
      validate_container_spec sha256 service_id spec
        (load_grants_for_plugin json_parse store plugin)

  abbrev pub validate_one : String → ContainerSpec → Option String → Validated → Validated
  validate_one service_id spec none rest =
      invalid (
        stage_error service_id
          (append "service " (append service_id " has no deploy plugin bound")))
  validate_one service_id spec (some plugin) rest =
      accept_one service_id plugin (checked plugin service_id spec) rest

  unfoldable pub validate_services : List (String × ContainerSpec) → Validated
  validate_services [] = classified []
  validate_services ((service_id, spec) ∷ plans) =
      validate_one service_id spec (bound_deploy_plugin_id services service_id)
        (validate_services plans)
