-- ===== src/Tests/Authority.antt =====
-- Tests of trust, VALIDATE, GATE and the approvals.
use wanfw.Common.{
  ◌+◌, ◌≤◌, length, ℕ, In, ends_with, String, ◌≡◌, ◌↔◌, refl, true, false, not, List, [], ◌∷◌, none,
  some,
}
use wanfw.Json.{obj, end}
use wanfw.Scope.{has_grant, match_name_prefix}
use wanfw.Spec.{ContainerSpec}
use wanfw.Store.{StateStore, GrantRow, is_approved, list_grants}
use wanfw.Grants.{load_grants_for_plugin, scope_of_json}
use wanfw.Projection.{compute_powerful_projection_hash, projection_input_for}
use wanfw.Validate.{powerful, validate_container_spec}
use wanfw.Validate.Authorized.{IsAuthorized, validate_container_spec-ok_iff}
use wanfw.Validate.Tier.{privileged}
use wanfw.TrustFlow.Upgrade.{IsGrantOf, record_trust_and_grants-list_grants}
use wanfw.TrustFlow.{ManifestCapability, Manifest, record_trust_and_grants, live_records}
use wanfw.TrustFlow.Untrust.{untrust_plugin-nothing_live, validate-untrust_plugin}
use wanfw.Pipeline.{Classification}
use wanfw.ValidateStage.{classified, validate_services, bound_deploy_plugin_id}
use wanfw.ValidateStage.Accepts.{Accepted, validate_services-Accepted}
use wanfw.Gate.{gate_services}
use wanfw.Gate.Sound.{powers, skips-unapproved}
use wanfw.Execute.{skips, execute_services}
use wanfw.Docker.Fake.{FakeDocker, no_objects, fake_docker}
use wanfw.Gate.Unapproved.{without, execute_services-unapproved}
use wanfw.Tests.{
  same_text, any_repo, camera, trusting_store, services, untrusted_store, untrust_event, untrusted,
}

abbrev pub plans : List (String × ContainerSpec)
plans = ("cam", camera) ∷ []

abbrev pub classes : List (String × Classification)
classes =
    (
      "cam",
      record {
        tier = powerful;
        projection_hash =
            some (compute_powerful_projection_hash same_text (projection_input_for "cam" camera));
      },
    )
    ∷ []

pub plans_classified :
    validate_services same_text any_repo trusting_store services plans ≡ classified classes
unfolding validate_services validate_container_spec load_grants_for_plugin bound_deploy_plugin_id
    has_grant list_grants match_name_prefix scope_of_json ends_with
plans_classified = refl

skips-unapproved_example :
    skips (gate_services same_text trusting_store none plans classes) "cam"
    ≡ not (
        is_approved trusting_store
          (compute_powerful_projection_hash same_text (projection_input_for "cam" camera)))
skips-unapproved_example =
    skips-unapproved same_text any_repo trusting_store services none plans classes "cam" camera
      plans_classified refl (powers (privileged refl))

validate_services-Accepted_example :
    Accepted same_text any_repo trusting_store services "cam" camera classes
validate_services-Accepted_example =
    validate_services-Accepted same_text any_repo trusting_store services plans classes
      plans_classified "cam" camera refl

validate_container_spec-ok_iff_example :
    ((validate_container_spec same_text "cam" camera
        (load_grants_for_plugin any_repo trusting_store "deploy-docker")).ok
      ≡ true)
    ↔ IsAuthorized "cam" camera (load_grants_for_plugin any_repo trusting_store "deploy-docker")
validate_container_spec-ok_iff_example =
    validate_container_spec-ok_iff "cam" camera
      (load_grants_for_plugin any_repo trusting_store "deploy-docker") same_text

untrust_plugin-nothing_live_example :
    (live_records untrusted_store "deploy-docker" ≡ [])
    × (list_grants untrusted_store "deploy-docker" false ≡ [])
untrust_plugin-nothing_live_example =
    untrust_plugin-nothing_live "t3" trusting_store untrusted_store "deploy-docker" untrust_event
      untrusted

validate-untrust_plugin_example :
    (validate_container_spec same_text "cam" camera
      (load_grants_for_plugin any_repo untrusted_store "deploy-docker")).ok
    ≡ false
validate-untrust_plugin_example =
    validate-untrust_plugin same_text any_repo "t3" trusting_store untrusted_store "deploy-docker"
      untrust_event untrusted "cam" camera

abbrev next_version : Manifest
next_version = record {
  id = "deploy-docker";
  version = "2.0.0";
  types = [];
  capabilities =
      record { cap = "docker.image.pull"; scope = obj end; reason = "pulls images" } ∷ [];
}

abbrev upgraded_store : StateStore
upgraded_store = record_trust_and_grants any_repo same_text "t4" trusting_store next_version "bb"

record_trust_and_grants-list_grants_example :
    ((g : GrantRow)
      → In g (list_grants trusting_store "deploy-docker" false)
      → In g (list_grants upgraded_store "deploy-docker" false))
    × ((c : ManifestCapability)
        → In c next_version.capabilities
        → (g : GrantRow) × In g (list_grants upgraded_store "deploy-docker" false)
          × (3 ≤ g.id)
          × IsGrantOf any_repo same_text "t4" "deploy-docker" c g)
    × (length upgraded_store.grants ≡ 2 + length next_version.capabilities)
record_trust_and_grants-list_grants_example =
    record_trust_and_grants-list_grants any_repo same_text "t4" trusting_store next_version "bb"

abbrev no_number : String → ℕ
no_number s = 0

camera_unapproved :
    is_approved trusting_store
      (compute_powerful_projection_hash same_text (projection_input_for "cam" camera))
    ≡ false
unfolding is_approved
camera_unapproved = refl

-- The daemon after EXECUTE, from the specifications of a plan graph
abbrev after_execute : List (String × ContainerSpec) → FakeDocker
after_execute these =
    (execute_services same_text same_text no_number fake_docker services
      (gate_services same_text trusting_store none plans classes) "p1" these no_objects).world

execute_services-unapproved_example : after_execute plans ≡ after_execute (without "cam" plans)
execute_services-unapproved_example =
    execute_services-unapproved same_text same_text no_number fake_docker any_repo trusting_store
      services none "p1" plans classes "cam" camera no_objects plans_classified refl
      (powers (privileged refl)) camera_unapproved
