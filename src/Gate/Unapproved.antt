-- ===== src/Gate/Unapproved.antt =====
-- From VALIDATE to the daemon: a service that needs an approval and has none.
use wanfw.Common.{
  ℕ, String, ◌≡◌, refl, sym, ap, ◌∙◌, inl, inr, true, false, not, ◌==◌, eq_iff, if◌then◌else◌, List,
  [], ◌∷◌, Option, some, filter, Bool-cases,
}
use wanfw.Json.{Json}
use wanfw.Spec.{ContainerSpec}
use wanfw.Store.{StateStore, is_approved}
use wanfw.Projection.{compute_powerful_projection_hash, projection_input_for}
use wanfw.Pipeline.{ServiceDoc, Classification, GatedService, lookup}
use wanfw.ValidateStage.{classified, validate_services}
use wanfw.Gate.{gate_services}
use wanfw.Gate.Sound.{NeedsApproval, skips-unapproved}
use wanfw.Docker.{DockerClient}
use wanfw.Execute.{skips, execute_services}
use wanfw.Execute.Parked.{unparked, execute_services-unparked}

-- The plan graph without a service
abbrev pub without : String → List (String × ContainerSpec) → List (String × ContainerSpec)
without service_id plans = filter (λ p. not (p.0 == service_id)) plans

unparked-without :
    (snapshot : List (String × GatedService)) (service_id : String)
    (plans : List (String × ContainerSpec))
    → skips snapshot service_id ≡ true
    → unparked snapshot (without service_id plans) ≡ unparked snapshot plans
unparked-without snapshot service_id [] h = refl
unparked-without snapshot service_id ((id, spec) ∷ plans) h =
    let rest = unparked-without snapshot service_id plans h in
    elim (Bool-cases (id == service_id)) [
      | inl e ↦
          let parked_here : skips snapshot id ≡ true = rw ((eq_iff id service_id).0 e) h in
          rw e (rw parked_here rest)
      | inr e ↦ rw e (ap (λ more. if not (skips snapshot id) then (id, spec) ∷ more else more) rest)
    ]

module _ {W : Type 0} (sha256 trim : String → String) (number : String → ℕ)
    (docker : DockerClient W) (json_parse : String → Json) (store : StateStore)
    (services : List ServiceDoc) (strict : Option String) (plan_id : String) where
  -- The daemon after the service loop of EXECUTE, on a plan graph under the snapshot that GATE made of
  -- `plans`
  abbrev deployed_world :
      List (String × ContainerSpec)
      → List (String × Classification)
      → List (String × ContainerSpec)
      → W
      → W
  deployed_world plans cs these w =
      (execute_services sha256 trim number docker services
        (gate_services sha256 store strict plans cs) plan_id these w).world

  -- When VALIDATE lets a plan graph through, a service of it that needs an approval, and whose powerful
  -- projection has no live one, has no effect in the service loop of EXECUTE: the loop leaves the daemon
  -- as it would if the plan graph did not have the service.
  pub execute_services-unapproved :
      (plans : List (String × ContainerSpec)) (cs : List (String × Classification))
      (service_id : String) (spec : ContainerSpec) (w : W)
      → validate_services sha256 json_parse store services plans ≡ classified cs
      → lookup service_id plans ≡ some spec
      → NeedsApproval strict service_id spec
      → is_approved store
          (compute_powerful_projection_hash sha256 (projection_input_for service_id spec))
        ≡ false
      → deployed_world plans cs plans w ≡ deployed_world plans cs (without service_id plans) w
  execute_services-unapproved plans cs service_id spec w v l n unapproved =
      let snapshot = gate_services sha256 store strict plans cs in
      let parked : skips snapshot service_id ≡ true =
        skips-unapproved sha256 json_parse store services strict plans cs service_id spec v l n
        ∙ ap not unapproved in
      let all = execute_services-unparked sha256 trim number docker services snapshot plan_id in
      (all plans w).0
      ∙ ap
          (λ these.
            (execute_services sha256 trim number docker services snapshot plan_id these w).world)
          (sym (unparked-without snapshot service_id plans parked))
      ∙ sym (all (without service_id plans) w).0
