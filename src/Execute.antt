-- ===== src/Execute.antt =====
-- EXECUTE (packages/orchestrator/src/reconciler/execute-stage.ts and
-- packages/orchestrator/src/execute/proxy-container.ts): the ordered steps of every service of the plan
-- graph that is not parked, then those of the proxy container. A journal entry keeps the step and its
-- result or error; the write of the proxy's configuration is left out.
pub mod Parked
pub mod Proxy
pub mod ProxySpec
use wanfw.Common.{
  ℕ, String, Bool, true, false, not, ◌&&◌, if◌then◌else◌, List, [], ◌∷◌, ◌++◌, Option, none, some,
  or_else, append, map, filter, starts_with, find, ◌==◌,
}
use wanfw.Spec.{MountType, volume, bind, MountSpec, ContainerSpec, bare_spec, service_network_name}
use wanfw.Pipeline.{ServiceDoc, StageError, GatedService, lookup}
use wanfw.Docker.{NetworkDriverOptions, Reply, returned, thrown, DockerClient}
use wanfw.Ensure.{StepResult, StepLabels, ensure_network, ensure_volume, ensure_container, connect}

-- `gate && !gate.approved`
abbrev pub parked : Option GatedService → Bool
parked none = false
parked (some g) = not g.approved

-- The test at the head of the loop over the service plans
unfoldable pub skips : List (String × GatedService) → String → Bool
skips snapshot service_id = parked (lookup service_id snapshot)

pub record JournalEntry : Type 0 where
  pub step : String
  pub outcome : Option StepResult
  pub error : Option String

abbrev pub step_entry : StepResult → JournalEntry
step_entry r = record { step = r.step; outcome = some r; error = none }

abbrev pub error_entry : String → String → JournalEntry
error_entry step message = record { step = step; outcome = none; error = some message }

abbrev pub skip_entry : String → JournalEntry
skip_entry service_id = record {
  step = append "skip:" service_id;
  outcome = some (record { step = "skip"; changed = false; detail = "parked pending approval" });
  error = none;
}

-- The journal of a part of the stage, the daemon after it, and the message it threw, if it did
pub record Ran (W : Type 0) : Type 0 where
  pub journal : List JournalEntry
  pub world : W
  pub error : Option String

-- The journal of the stage, the daemon after it, and the error that it fails with
pub record StageRun (W : Type 0) : Type 0 where
  pub journal : List JournalEntry
  pub world : W
  pub error : Option StageError

abbrev pub stage_failure : String → String → StageError
stage_failure plugin message = record { stage = "execute"; plugin = some plugin; message = message }

abbrev pub skipped : {W : Type 0} → JournalEntry → StageRun W → StageRun W
skipped e r = record { journal = e ∷ r.journal; world = r.world; error = r.error }

abbrev pub logged : {W : Type 0} → JournalEntry → Ran W → Ran W
logged e r = record { journal = e ∷ r.journal; world = r.world; error = r.error }

-- Volumes of the service's own
unfoldable pub named_volumes : String → ContainerSpec → List MountSpec
named_volumes service_id spec =
    filter
      (λ (m : MountSpec). is_volume m.kind && starts_with m.source (append "wanfw_" service_id))
      (or_else spec.mounts [])
  where
    is_volume : MountType → Bool
    is_volume volume = true
    is_volume bind = false

abbrev pub with_networks : ContainerSpec → List String → ContainerSpec
with_networks spec networks = record spec { networks = some networks }

-- The networks of the specification, or the service's own where it names none
unfoldable pub primary_networks : String → ContainerSpec → List String
primary_networks service_id spec = elim spec.networks [
  | some (n ∷ ns) ↦ n ∷ ns
  | some [] ↦ service_network_name service_id ∷ []
  | none ↦ service_network_name service_id ∷ []
]

unfoldable pub removes_volumes : List ServiceDoc → String → Bool
removes_volumes services service_id =
    elim (find (λ (d : ServiceDoc). d.id == service_id) services) [
      | none ↦ false
      | some d ↦ or_else d.expose.remove_volumes_on_delete false
    ]

module _ {W : Type 0} where
  abbrev pub ran_step : Reply W StepResult → (W → Ran W) → Ran W
  ran_step (returned r w) next = logged (step_entry r) (next w)
  ran_step (thrown message w) next = record { journal = []; world = w; error = some message }

  -- One step after the other, each journaled before the next; the first that throws ends them.
  unfoldable pub run_steps : List (W → Reply W StepResult) → W → Ran W
  run_steps [] w = record { journal = []; world = w; error = none }
  run_steps (step ∷ steps) w = ran_step (step w) (run_steps steps)

module _ {W : Type 0} (sha256 trim : String → String) (number : String → ℕ)
    (docker : DockerClient W) (services : List ServiceDoc) (snapshot : List (String × GatedService))
    (plan_id : String) where
  abbrev pub of_service : String → StepLabels
  of_service service_id = record { service = some service_id; plan = plan_id; core = false }

  unfoldable pub service_steps : String → ContainerSpec → List (W → Reply W StepResult)
  unfolding named_volumes primary_networks removes_volumes
  service_steps service_id spec =
      let networks = primary_networks service_id spec in
      let name = append "wanfw_" service_id in
      ensure_network sha256 trim number docker (service_network_name service_id)
          (of_service service_id) none
        ∷ map
            (λ (v : MountSpec).
              ensure_volume sha256 trim number docker v.source service_id plan_id
                (removes_volumes services service_id))
            (named_volumes service_id spec)
      ++ (ensure_container sha256 trim number docker name (with_networks spec networks)
            (of_service service_id)
          ∷ map (λ n. connect sha256 trim number docker name n) networks)

  -- What follows a service's steps: the next services, or the stage's failure
  abbrev pub then_rest : String → Ran W → (W → StageRun W) → StageRun W
  then_rest service_id r next = elim r.error [
    | none ↦
        let more = next r.world in
        record { journal = r.journal ++ more.journal; world = more.world; error = more.error }
    | some message ↦ record {
      journal = r.journal ++ error_entry (append "error:" service_id) message ∷ [];
      world = r.world;
      error = some (stage_failure service_id message);
    }
  ]

  unfoldable pub execute_services : List (String × ContainerSpec) → W → StageRun W
  unfolding skips service_steps run_steps
  execute_services [] w = record { journal = []; world = w; error = none }
  execute_services ((service_id, spec) ∷ plans) w =
      if skips snapshot service_id
      then skipped (skip_entry service_id) (execute_services plans w)
      else then_rest service_id (run_steps (service_steps service_id spec) w)
          (execute_services plans)
