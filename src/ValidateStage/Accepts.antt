-- ===== src/ValidateStage/Accepts.antt =====
-- What VALIDATE has established when it lets a plan graph through.
use wanfw.Common.{
  some_inj, subst, String, ◌≡◌, refl, sym, ap, true, false, ◌==◌, eq_iff, List, [], ◌∷◌, some,
  Bool-cases, Option-cases, inl, inr,
}
use wanfw.Json.{Json}
use wanfw.Spec.{ContainerSpec}
use wanfw.Validate.{ValidationResult, validate_container_spec}
use wanfw.Validate.Authorized.{IsAuthorized, validate_container_spec-ok_iff}
use wanfw.Store.{StateStore}
use wanfw.Grants.{load_grants_for_plugin}
use wanfw.Pipeline.{ServiceDoc, Classification, lookup}
use wanfw.ValidateStage.{
  Validated, classified, invalid, accept_one, checked, bound_deploy_plugin_id, validate_services,
}

entries_of : List (String × Classification) → Validated → List (String × Classification)
entries_of d (classified cs) = cs
entries_of d (invalid e) = d

classified_inj : {xs ys : List (String × Classification)} → classified xs ≡ classified ys → ys ≡ xs
unfolding entries_of
classified_inj {xs} h = sym (ap (entries_of xs) h)

-- One round of the loop that lets the stage go on.
accept_inv :
    (service_id plugin : String) (r : ValidationResult) (rest : Validated)
    (cs : List (String × Classification))
    → accept_one service_id plugin r rest ≡ classified cs
    → (r.ok ≡ true)
      × (more : List (String × Classification)) × (rest ≡ classified more)
      × (cs ≡ (service_id, record { tier = r.tier; projection_hash = r.projection_hash }) ∷ more)
accept_inv service_id plugin r (classified more) cs h = elim (Bool-cases r.ok) [
  | inl e ↦ (e, more, refl, classified_inj (rw e at h))
  | inr e ↦ cc (rw e at h)
]
accept_inv service_id plugin r (invalid err) cs h = elim (Bool-cases r.ok) [
  | inl e ↦ cc (rw e at h)
  | inr e ↦ cc (rw e at h)
]

module _ (sha256 : String → String) (json_parse : String → Json) (store : StateStore)
    (services : List ServiceDoc) where
  -- The plugin of the service, whose grants authorise the specification, and the classification.
  pub record Accepted (service_id : String) (spec : ContainerSpec)
      (cs : List (String × Classification)) : Type 0 where
    pub plugin : String
    pub bound : bound_deploy_plugin_id services service_id ≡ some plugin
    pub authorized : IsAuthorized service_id spec (load_grants_for_plugin json_parse store plugin)
    pub recorded :
        lookup service_id cs
        ≡ some (record {
          tier =
              (validate_container_spec sha256 service_id spec
                (load_grants_for_plugin json_parse store plugin)).tier;
          projection_hash =
              (validate_container_spec sha256 service_id spec
                (load_grants_for_plugin json_parse store plugin)).projection_hash;
        })

  Accepted-later :
      (service_id other : String) (spec : ContainerSpec) (c : Classification)
      (cs : List (String × Classification))
      → (other == service_id) ≡ false
      → Accepted service_id spec cs
      → Accepted service_id spec ((other, c) ∷ cs)
  Accepted-later service_id other spec c cs ne a = record {
    plugin = a.plugin;
    bound = a.bound;
    authorized = a.authorized;
    recorded = rw ne a.recorded;
  }

  Accepted-here :
      (service_id plugin : String) (spec : ContainerSpec) (rest : Validated)
      (cs : List (String × Classification))
      → bound_deploy_plugin_id services service_id ≡ some plugin
      → accept_one service_id plugin
          (checked sha256 json_parse store services plugin service_id spec)
          rest
        ≡ classified cs
      → Accepted service_id spec cs
  Accepted-here service_id plugin spec rest cs b h =
      let r = checked sha256 json_parse store services plugin service_id spec in
      let (okay, more, _, e) = accept_inv service_id plugin r rest cs h in
      record {
        plugin = plugin;
        bound = b;
        authorized =
            (validate_container_spec-ok_iff service_id spec
                (load_grants_for_plugin json_parse store plugin) sha256).0
              okay;
        recorded = rw e (rw ((eq_iff service_id service_id).1 refl));
      }

  -- When VALIDATE lets the plan graph through, every service in it has a deploy plugin whose stored
  -- grants authorise its specification, and its classification is recorded.
  pub validate_services-Accepted :
      (plans : List (String × ContainerSpec)) (cs : List (String × Classification))
      → validate_services sha256 json_parse store services plans ≡ classified cs
      → (service_id : String) (spec : ContainerSpec) → lookup service_id plans ≡ some spec
      → Accepted service_id spec cs
  unfolding validate_services
  validate_services-Accepted [] cs h service_id spec l = cc
  validate_services-Accepted ((id, s) ∷ plans) cs h service_id spec l =
      elim (Option-cases (bound_deploy_plugin_id services id)) [
        | inl e ↦ cc (rw e at h)
        | inr (plugin, e) ↦ elim (Bool-cases (id == service_id)) [
          | inl same ↦
              let spec_same : s ≡ spec = some_inj (rw same at l) in
              subst (λ k. Accepted k spec cs) ((eq_iff id service_id).0 same)
                (subst (λ x. Accepted id x cs) spec_same
                  (Accepted-here id plugin s
                    (validate_services sha256 json_parse store services plans) cs e (rw e at h)))
          | inr ne ↦
              let (_, more, g, k) =
                accept_inv id plugin (checked sha256 json_parse store services plugin id s) _ cs
                  (rw e at h) in
              rw k (
                Accepted-later service_id id spec _ more ne
                  (validate_services-Accepted plans more g service_id spec (rw ne at l)))
        ]
      ]
