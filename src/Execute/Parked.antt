-- ===== src/Execute/Parked.antt =====
-- A parked service is not touched.
use wanfw.Common.{
  inl, inr, ℕ, String, ◌≡◌, refl, not, List, [], ◌∷◌, filter, Bool-cases, Option-cases,
}
use wanfw.Spec.{ContainerSpec}
use wanfw.Pipeline.{ServiceDoc, GatedService}
use wanfw.Docker.{DockerClient}
use wanfw.Execute.{skips, Ran, StageRun, run_steps, service_steps, then_rest, execute_services}

-- The services that are not parked
abbrev pub unparked :
    List (String × GatedService) → List (String × ContainerSpec) → List (String × ContainerSpec)
unparked snapshot plans = filter (λ p. not (skips snapshot p.0)) plans

module _ {W : Type 0} (sha256 trim : String → String) (number : String → ℕ)
    (docker : DockerClient W) (services : List ServiceDoc) (snapshot : List (String × GatedService))
    (plan_id : String) where
  then_rest_same :
      (id : String) (r : Ran W) (next next' : W → StageRun W)
      → ((w : W) → ((next w).world ≡ (next' w).world) × ((next w).error ≡ (next' w).error))
      → ((then_rest sha256 trim number docker services snapshot plan_id id r next).world
          ≡ (then_rest sha256 trim number docker services snapshot plan_id id r next').world)
        × ((then_rest sha256 trim number docker services snapshot plan_id id r next).error
            ≡ (then_rest sha256 trim number docker services snapshot plan_id id r next').error)
  then_rest_same id r next next' h = elim (Option-cases r.error) [
    | inl e ↦ rw e (h r.world)
    | inr (m, e) ↦ (rw e refl, rw e refl)
  ]

  -- The service loop leaves the daemon, and fails or not, just as it would if the plan graph had the
  -- services that are not parked, and no others: whatever a parked service's specification says, it has
  -- no effect there.
  pub execute_services-unparked :
      (plans : List (String × ContainerSpec)) (w : W)
      → ((execute_services sha256 trim number docker services snapshot plan_id plans w).world
          ≡ (execute_services sha256 trim number docker services snapshot plan_id
              (unparked snapshot plans)
              w).world)
        × ((execute_services sha256 trim number docker services snapshot plan_id plans w).error
            ≡ (execute_services sha256 trim number docker services snapshot plan_id
                (unparked snapshot plans)
                w).error)
  unfolding execute_services
  execute_services-unparked [] w = (refl, refl)
  execute_services-unparked ((id, spec) ∷ plans) w = elim (Bool-cases (skips snapshot id)) [
    | inl e ↦ let (a, b) = execute_services-unparked plans w in (rw e a, rw e b)
    | inr e ↦ rw e (
        rw e (
          then_rest_same id
            (run_steps (service_steps sha256 trim number docker services snapshot plan_id id spec)
              w)
            (execute_services sha256 trim number docker services snapshot plan_id plans)
            (execute_services sha256 trim number docker services snapshot plan_id
              (unparked snapshot plans))
            (execute_services-unparked plans)))
  ]
