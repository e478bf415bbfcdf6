-- ===== src/Gate/Sound.antt =====
-- GATE parks every service that needs an approval and does not have it.
use wanfw.Common.{
  some_inj, String, ◌≡◌, inl, inr, refl, true, false, not, ◌==◌, eq_iff, List, [], ◌∷◌, ◌++◌,
  Option, none, some, or_else, arith, Bool-cases,
}
use wanfw.Json.{Json}
use wanfw.Scope.{Grant}
use wanfw.Spec.{ContainerSpec}
use wanfw.Projection.{compute_powerful_projection_hash, projection_input_for}
use wanfw.Validate.{FieldTier, powerful, is_powerful, validate_container_spec}
use wanfw.Validate.Tier.{SetsPowerful, tier-powerful_iff}
use wanfw.Store.{StateStore, is_approved}
use wanfw.Grants.{load_grants_for_plugin}
use wanfw.Pipeline.{ServiceDoc, Classification, GatedService, lookup}
use wanfw.ValidateStage.{classified, validate_services}
use wanfw.ValidateStage.Accepts.{validate_services-Accepted}
use wanfw.Execute.{skips}
use wanfw.Gate.{requires_approval, gate_hash, gated_service, gate_one, gate_services}

module _ (sha256 : String → String) (store : StateStore) where
  -- The entry of a service, in front of entries of other services.
  lookup-gate_one :
      (strict service_id : String) (spec : ContainerSpec) (c : Classification)
      (rest : List (String × GatedService))
      → requires_approval strict service_id c.tier ≡ true
      → lookup service_id (gate_one sha256 store strict service_id spec (some c) ++ rest)
        ≡ some (gated_service sha256 store service_id spec c)
  unfolding gate_one
  lookup-gate_one strict service_id spec c rest h =
      rw h (rw ((eq_iff service_id service_id).1 refl))

  lookup_gate_other :
      (strict service_id other : String) (spec : ContainerSpec) (o : Option Classification)
      (rest : List (String × GatedService))
      → (other == service_id) ≡ false
      → lookup service_id (gate_one sha256 store strict other spec o ++ rest)
        ≡ lookup service_id rest
  unfolding gate_one
  lookup_gate_other strict service_id other spec none rest ne = refl
  lookup_gate_other strict service_id other spec (some c) rest ne = ground arith

  -- A planned service that needs an approval is in the snapshot, with the standing of its hash.
  pub lookup-gate_services :
      (strict : Option String) (plans : List (String × ContainerSpec))
      (validation : List (String × Classification)) (service_id : String) (spec : ContainerSpec)
      (c : Classification)
      → lookup service_id plans ≡ some spec
      → lookup service_id validation ≡ some c
      → requires_approval (or_else strict "powerful") service_id c.tier ≡ true
      → lookup service_id (gate_services sha256 store strict plans validation)
        ≡ some (gated_service sha256 store service_id spec c)
  unfolding gate_services
  lookup-gate_services strict [] validation service_id spec c l v h = cc
  lookup-gate_services strict ((id, s) ∷ plans) validation service_id spec c l v h =
      elim (Bool-cases (id == service_id)) [
        | inl same ↦
            let spec_same : s ≡ spec = some_inj (rw same at l) in
            let id_same : id ≡ service_id = (eq_iff id service_id).0 same in
            rw (id_same, spec_same, v)
              (lookup-gate_one (or_else strict "powerful") service_id spec c _ h)
        | inr ne ↦
            rw
              (lookup_gate_other (or_else strict "powerful") service_id id s (lookup id validation)
                (gate_services sha256 store strict plans validation) ne)
              (lookup-gate_services strict plans validation service_id spec c (rw ne at l) v h)
      ]

-- Reasons why a service needs an approval.
pub data NeedsApproval (strict : Option String) (service_id : String) (spec : ContainerSpec)
    : Type 0 where
  powers : SetsPowerful spec → NeedsApproval strict service_id spec
  self_exposed : service_id ≡ "tier1" → NeedsApproval strict service_id spec
  strict_all : strict ≡ some "all" → NeedsApproval strict service_id spec

needs_powers :
    (strict service_id : String) (tier : FieldTier)
    → tier ≡ powerful
    → requires_approval strict service_id tier ≡ true
needs_powers strict service_id tier h =
    rw h (elim (Bool-cases (service_id == "tier1")) [ inl e ↦ rw e refl | inr e ↦ rw e refl ])

needs_self :
    (strict service_id : String) (tier : FieldTier)
    → (service_id == "tier1") ≡ true
    → requires_approval strict service_id tier ≡ true
needs_self strict service_id tier e = rw e refl

needs_all :
    (service_id : String) (tier : FieldTier) → requires_approval "all" service_id tier ≡ true
needs_all service_id tier = ground arith

module _ (sha256 : String → String) (json_parse : String → Json) (store : StateStore)
    (services : List ServiceDoc) (strict : Option String) where
  pub requires_of_needs :
      (service_id : String) (spec : ContainerSpec) (grants : List Grant)
      → NeedsApproval strict service_id spec
      → requires_approval
          (or_else strict "powerful")
          service_id
          (validate_container_spec sha256 service_id spec grants).tier
        ≡ true
  requires_of_needs service_id spec grants (powers p) =
      needs_powers _ service_id _ ((tier-powerful_iff sha256 service_id spec grants).1 p)
  requires_of_needs service_id spec grants (self_exposed e) =
      needs_self _ service_id _ ((eq_iff service_id "tier1").1 e)
  requires_of_needs service_id spec grants (strict_all e) =
      rw e (needs_all service_id (validate_container_spec sha256 service_id spec grants).tier)

  pub own_hash :
      (service_id : String) (spec : ContainerSpec) (grants : List Grant)
      → gate_hash sha256 store service_id spec (record {
        tier = (validate_container_spec sha256 service_id spec grants).tier;
        projection_hash = (validate_container_spec sha256 service_id spec grants).projection_hash;
      })
        ≡ compute_powerful_projection_hash sha256 (projection_input_for service_id spec)
  unfolding validate_container_spec
  own_hash service_id spec grants = elim (Bool-cases (is_powerful spec)) [
    | inl e ↦ rw e refl
    | inr e ↦ rw e refl
  ]

  -- A service of a plan graph that VALIDATE let through is skipped by EXECUTE exactly if the hash of its
  -- own powerful projection has no live approval, provided the service needs one: its specification
  -- sets a powerful field, or it is tier1, or the strict mode is "all".
  pub skips-unapproved :
      (plans : List (String × ContainerSpec)) (cs : List (String × Classification))
      (service_id : String) (spec : ContainerSpec)
      → validate_services sha256 json_parse store services plans ≡ classified cs
      → lookup service_id plans ≡ some spec
      → NeedsApproval strict service_id spec
      → skips (gate_services sha256 store strict plans cs) service_id
        ≡ not (
            is_approved store
              (compute_powerful_projection_hash sha256 (projection_input_for service_id spec)))
  unfolding skips gated_service
  skips-unapproved plans cs service_id spec v l n =
      let a =
        validate_services-Accepted sha256 json_parse store services plans cs v service_id spec l in
      let grants = load_grants_for_plugin json_parse store a.plugin in
      rw
        (lookup-gate_services sha256 store strict plans cs service_id spec _ l a.recorded
          (requires_of_needs service_id spec grants n))
        (rw (own_hash service_id spec grants) refl)
