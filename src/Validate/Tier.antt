-- ===== src/Validate/Tier.antt =====
-- Which specifications are powerful, and that the core's own go through the same classification.
use wanfw.Common.{
  String, ◌≡◌, ◌≢◌, refl, ap, ◌↔◌, inl, inr, Bool, true, false, ◌||◌, ◌==◌, eq_iff, List, [], ◌∷◌,
  Option, none, some, or_else, arith, In, any, any_iff, Bool-cases,
}
use wanfw.Scope.{Grant}
use wanfw.Spec.{MountSpec, bind, ContainerSpec}
use wanfw.Projection.{is_bind}
use wanfw.FieldChecks.{is_host, is_privileged}
use wanfw.Validate.{
  powerful, has_some, is_powerful, tier_of, validate_container_spec, validate_core_emitted_spec,
}

-- The specification sets a field of the powerful tier.
pub data SetsPowerful (spec : ContainerSpec) : Type 0 where
  binds : (m : MountSpec) → In m (or_else spec.mounts []) → m.kind ≡ bind → SetsPowerful spec
  devices : or_else spec.devices [] ≢ [] → SetsPowerful spec
  host : spec.network_mode ≡ some "host" → SetsPowerful spec
  privileged : spec.privileged ≡ some true → SetsPowerful spec
  caps : or_else spec.cap_add [] ≢ [] → SetsPowerful spec
  ports : or_else spec.ports [] ≢ [] → SetsPowerful spec

has_some_iff : {A : Type 0} (o : Option (List A)) → (has_some o ≡ true) ↔ (or_else o [] ≢ [])
has_some_iff none = ((λ h. cc), (λ h. absurd (h refl)))
has_some_iff (some []) = ((λ h. cc), (λ h. absurd (h refl)))
has_some_iff (some (x ∷ xs)) = ((λ h e. cc), (λ h. refl))

bind_of_is_bind : (m : MountSpec) → is_bind m ≡ true → m.kind ≡ bind
bind_of_is_bind m h = ground arith

host_of_is_host : (mode : Option String) → (or_else mode "" == "host") ≡ true → mode ≡ some "host"
host_of_is_host none h = cc
host_of_is_host (some mode) h = ap some ((eq_iff mode "host").0 h)

host_flag : (mode : Option String) → mode ≡ some "host" → (or_else mode "" == "host") ≡ true
host_flag mode h = rw h

privileged_of_flag : (flag : Option Bool) → or_else flag false ≡ true → flag ≡ some true
privileged_of_flag none h = cc
privileged_of_flag (some b) h = ap some h

SetsPowerful-of_flag : (spec : ContainerSpec) → is_powerful spec ≡ true → SetsPowerful spec
unfolding is_powerful
SetsPowerful-of_flag spec h = elim (Bool-cases (any is_bind (or_else spec.mounts []))) [
  | inl e ↦
      let (m, i, b) = (any_iff is_bind (or_else spec.mounts [])).0 e in
      binds m i (bind_of_is_bind m b)
  | inr e1 ↦ elim (Bool-cases (has_some spec.devices)) [
    | inl e ↦ devices ((has_some_iff spec.devices).0 e)
    | inr e2 ↦ elim (Bool-cases (is_host spec)) [
      | inl e ↦ host (host_of_is_host spec.network_mode e)
      | inr e3 ↦ elim (Bool-cases (is_privileged spec)) [
        | inl e ↦ privileged (privileged_of_flag spec.privileged e)
        | inr e4 ↦ elim (Bool-cases (has_some spec.cap_add)) [
          | inl e ↦ caps ((has_some_iff spec.cap_add).0 e)
          | inr e5 ↦ ports ((has_some_iff spec.ports).0 (rw (e1, e2, e3, e4, e5) at h))
        ]
      ]
    ]
  ]
]

flag_of_SetsPowerful : (spec : ContainerSpec) → SetsPowerful spec → is_powerful spec ≡ true
unfolding is_powerful
flag_of_SetsPowerful spec (binds m i b) =
    rw ((any_iff is_bind (or_else spec.mounts [])).1 (m, i, ground arith))
flag_of_SetsPowerful spec (devices h) = ground (arith, (has_some_iff spec.devices).1 h)
flag_of_SetsPowerful spec (host h) = ground (arith, host_flag spec.network_mode h)
flag_of_SetsPowerful spec (privileged h) = ground arith
flag_of_SetsPowerful spec (caps h) = ground (arith, (has_some_iff spec.cap_add).1 h)
flag_of_SetsPowerful spec (ports h) = ground (arith, (has_some_iff spec.ports).1 h)

tier_iff : (b : Bool) → (tier_of b ≡ powerful) ↔ (b ≡ true)
tier_iff true = ((λ h. refl), (λ h. refl))
tier_iff false = ((λ h. cc), (λ h. cc))

||_regroup :
    (b d h p c q : Bool)
    → (p || (h || (d || (c || (q || b))))) ≡ (b || (d || (h || (p || (c || q)))))
||_regroup b d h p c q = ground arith

same_flag :
    (spec : ContainerSpec)
    → (is_privileged spec
        || (is_host spec
            || (has_some spec.devices
                || (has_some spec.cap_add
                    || (has_some spec.ports || any is_bind (or_else spec.mounts []))))))
      ≡ is_powerful spec
unfolding is_powerful
same_flag spec =
    ||_regroup (any is_bind (or_else spec.mounts [])) (has_some spec.devices) (is_host spec)
      (is_privileged spec) (has_some spec.cap_add) (has_some spec.ports)

module _ (sha256 : String → String) (service_id : String) (spec : ContainerSpec) where
  -- Whatever the grants, the tier is powerful exactly if the specification sets a bind mount, a device,
  -- host networking, privileged mode, a Linux capability or a published port.
  pub tier-powerful_iff :
      (grants : List Grant)
      → ((validate_container_spec sha256 service_id spec grants).tier ≡ powerful)
        ↔ SetsPowerful spec
  unfolding validate_container_spec
  tier-powerful_iff grants = (
    λ h. SetsPowerful-of_flag spec ((tier_iff _).0 h),
    λ p. (tier_iff _).1 (flag_of_SetsPowerful spec p),
  )

  -- The core's own specification gets the tier and the projection hash that VALIDATE would give it
  -- under any grants, and is accepted with no violation.
  pub core_emitted-same :
      (grants : List Grant)
      → ((validate_core_emitted_spec sha256 service_id spec).tier
          ≡ (validate_container_spec sha256 service_id spec grants).tier)
        × ((validate_core_emitted_spec sha256 service_id spec).projection_hash
            ≡ (validate_container_spec sha256 service_id spec grants).projection_hash)
        × ((validate_core_emitted_spec sha256 service_id spec).ok ≡ true)
        × ((validate_core_emitted_spec sha256 service_id spec).violations ≡ [])
  unfolding validate_core_emitted_spec validate_container_spec
  core_emitted-same grants = (rw (same_flag spec), rw (same_flag spec), refl, refl)
