-- ===== src/Tests/Running.antt =====
-- Tests of the reconcile engine and of EXECUTE against the in-memory Docker client.
use wanfw.Common.{
  ℕ, suc, ◌≤◌, String, ◌≡◌, ◌↔◌, refl, Bool, true, false, List, [], ◌∷◌, none, some, eqb,
}
use wanfw.Spec.{ContainerSpec}
use wanfw.Pipeline.{StageError, GatedService}
use wanfw.Validate.{powerful}
use wanfw.Engine.{
  fine, threw, error, NamedStage, run_once, EngineState, initial_engine, Event, trigger, finish,
  triggered, finished, Steps, done, step,
}
use wanfw.Engine.Runs.{Stops, run_once-error_iff}
use wanfw.Engine.Triggers.{trigger-not_lost}
use wanfw.Docker.{returned}
use wanfw.Docker.Fake.{FakeDocker, no_objects, fake_docker, fake_laws}
use wanfw.Ensure.{StepLabels, container_step, container_labels, ensure_container}
use wanfw.Ensure.Idempotent.{ensure_container-settles}
use wanfw.Json.{decimal}
use wanfw.Execute.{StageRun, execute_services}
use wanfw.Execute.Parked.{unparked, execute_services-unparked}
use wanfw.Tests.{same_text, camera, services}

abbrev count_stage : NamedStage ℕ
count_stage = record { name = "count"; run = λ n. (suc n, fine) }

abbrev broken_stage : NamedStage ℕ
broken_stage = record { name = "broken"; run = λ n. (n, threw "no daemon") }

abbrev broken_error : StageError
broken_error = record { stage = "broken"; plugin = none; message = "no daemon" }

run_once-error_iff_example :
    (run_once 0 (eqb 1) (λ n. none) (count_stage ∷ broken_stage ∷ count_stage ∷ [])
      ≡ record { phase = error; last_error = some broken_error })
    ↔ ((last : ℕ) × Stops (count_stage ∷ broken_stage ∷ count_stage ∷ []) 0 last broken_error)
run_once-error_iff_example =
    run_once-error_iff 0 (eqb 1) (λ n. none) (count_stage ∷ broken_stage ∷ count_stage ∷ [])
      broken_error

abbrev engine : Bool → Bool → ℕ → EngineState
engine running pending runs = record {
  running = running;
  pending_rerun = pending;
  run_count = runs;
}

abbrev two_triggers : List Event
two_triggers = trigger ∷ trigger ∷ finish ∷ finish ∷ []

from_busy : Steps (engine true false 1) (trigger ∷ finish ∷ finish ∷ []) (engine false false 2)
from_busy =
    step (engine true false 1) (engine true true 1) (engine false false 2) trigger _
      (triggered (engine true false 1))
      (step (engine true true 1) (engine true false 2) (engine false false 2) finish _
        (finished (engine true true 1) refl)
        (step (engine true false 2) (engine false false 2) (engine false false 2) finish _
          (finished (engine true false 2) refl) (done (engine false false 2))))

from_idle : Steps initial_engine two_triggers (engine false false 2)
from_idle =
    step initial_engine (engine true false 1) (engine false false 2) trigger _
      (triggered initial_engine) from_busy

trigger-not_lost_example : 2 ≤ (engine false false 2).run_count
trigger-not_lost_example =
    trigger-not_lost (engine true false 1) (engine false false 2) (finish ∷ finish ∷ []) from_busy
      refl

abbrev no_number : String → ℕ
no_number s = 0

abbrev plan_labels : String → StepLabels
plan_labels plan = record { service = some "cam"; plan = plan; core = false }

abbrev after_create : FakeDocker
after_create = record no_objects {
  containers =
      (
        "cam",
        record {
          id = "ctr-1";
          name = "cam";
          labels =
              container_labels same_text same_text no_number fake_docker camera (plan_labels "p1");
          networks = [];
          state = "running";
        },
      )
      ∷ [];
  next_id = 2;
}

cam_created :
    ensure_container same_text same_text no_number fake_docker "cam" camera
      (plan_labels "p1")
      no_objects
    ≡ returned
        (container_step same_text same_text no_number fake_docker "cam" true "created")
        after_create
unfolding ensure_container decimal
cam_created = refl

ensure_container-settles_example :
    ensure_container same_text same_text no_number fake_docker "cam" camera
      (plan_labels "p2")
      after_create
    ≡ returned
        (container_step same_text same_text no_number fake_docker "cam" false "unchanged")
        after_create
ensure_container-settles_example =
    ensure_container-settles same_text same_text no_number fake_docker fake_laws "cam" camera
      (plan_labels "p1") (plan_labels "p2") no_objects after_create
      (container_step same_text same_text no_number fake_docker "cam" true "created") (refl, refl)
      cam_created

abbrev parked_camera : List (String × GatedService)
parked_camera =
    (
      "cam",
      record {
        service_id = "cam";
        tier = powerful;
        projection_hash = "h1";
        human_rendering = "";
        approved = false;
        banners = [];
      },
    )
    ∷ []

abbrev execute_all : List (String × ContainerSpec) → StageRun FakeDocker
execute_all plans =
    execute_services same_text same_text no_number fake_docker services parked_camera "p1" plans
      no_objects

execute_services-unparked_example :
    ((execute_all (("cam", camera) ∷ ("web", camera) ∷ [])).world
      ≡ (execute_all (unparked parked_camera (("cam", camera) ∷ ("web", camera) ∷ []))).world)
    × ((execute_all (("cam", camera) ∷ ("web", camera) ∷ [])).error
        ≡ (execute_all (unparked parked_camera (("cam", camera) ∷ ("web", camera) ∷ []))).error)
execute_services-unparked_example =
    execute_services-unparked same_text same_text no_number fake_docker services parked_camera "p1"
      (("cam", camera) ∷ ("web", camera) ∷ []) no_objects

parked_untouched : (execute_all (("cam", camera) ∷ [])).world ≡ no_objects
unfolding execute_services
parked_untouched = refl
