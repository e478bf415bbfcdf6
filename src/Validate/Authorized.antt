-- ===== src/Validate/Authorized.antt =====
-- VALIDATE accepts a specification exactly if the grants authorise every field of it.
use wanfw.Common.{
  String, ◌≡◌, refl, ap, ◌↔◌, true, false, List, [], ◌∷◌, or_else, All, Bool-cases, inl, inr,
}
use wanfw.Scope.{Grant}
use wanfw.Scope.Names.{NameCovers}
use wanfw.Spec.{ContainerSpec, service_network_name}
use wanfw.FieldChecks.{FieldViolation, each, spec_violations, is_host, is_privileged}
use wanfw.FieldChecks.Laws.{
  Granted, SomeIn, MountAllowed, DeviceAllowed, HasCap, CapAllowed, PortsAllowed, append-eq-nil_iff,
  each-eq-nil_iff, image_iff, mount_iff, device_iff, host_iff, privileged_iff, cap_iff, port_iff,
  network_iff,
}
use wanfw.Validate.{is_empty, validate_container_spec}

-- Every field that the specification sets is covered by a grant, or confined to the service.
pub record IsAuthorized (service_id : String) (spec : ContainerSpec) (grants : List Grant)
    : Type 0 where
  pub image : Granted grants "docker.image.pull" (λ s. SomeIn NameCovers s.repos spec.image)
  pub mounts : All (MountAllowed service_id grants) (or_else spec.mounts [])
  pub devices : All (DeviceAllowed grants) (or_else spec.devices [])
  pub host : is_host spec ≡ true → HasCap grants "docker.network.host"
  pub privileged : is_privileged spec ≡ true → HasCap grants "docker.privileged"
  pub caps : All (CapAllowed grants) (or_else spec.cap_add [])
  pub ports : PortsAllowed grants (or_else spec.ports [])
  pub networks : All (λ n. n ≡ service_network_name service_id) (or_else spec.networks [])

All-iff :
    {A : Type 0} (P Q : A → Type 0) → ((a : A) → P a ↔ Q a) → (xs : List A) → All P xs ↔ All Q xs
All-iff P Q h [] = ((λ p. tt), (λ q. tt))
All-iff P Q h (x ∷ xs) = (
  λ (p, ps). ((h x).0 p, (All-iff P Q h xs).0 ps),
  λ (q, qs). ((h x).1 q, (All-iff P Q h xs).1 qs),
)

each_iff :
    {A : Type 0} (f : A → List FieldViolation) (P : A → Type 0)
    → ((a : A) → (f a ≡ []) ↔ P a)
    → (xs : List A) → (each f xs ≡ []) ↔ All P xs
each_iff f P h xs = (
  λ e. (All-iff (λ a. f a ≡ []) P h xs).0 ((each-eq-nil_iff f xs).0 e),
  λ p. (each-eq-nil_iff f xs).1 ((All-iff (λ a. f a ≡ []) P h xs).1 p),
)

nil_of_ok : (vs : List FieldViolation) → is_empty vs ≡ true → vs ≡ []
nil_of_ok [] h = refl
nil_of_ok (v ∷ vs) h = cc

module _ (service_id : String) (spec : ContainerSpec) (grants : List Grant) where
  IsAuthorized-of_no_violations :
      spec_violations service_id spec grants ≡ [] → IsAuthorized service_id spec grants
  unfolding spec_violations
  IsAuthorized-of_no_violations h =
      let (image, h1) = (append-eq-nil_iff _ _).0 h in
      let (mounts, h2) = (append-eq-nil_iff _ _).0 h1 in
      let (devices, h3) = (append-eq-nil_iff _ _).0 h2 in
      let (host, h4) = (append-eq-nil_iff _ _).0 h3 in
      let (priv, h5) = (append-eq-nil_iff _ _).0 h4 in
      let (caps, h6) = (append-eq-nil_iff _ _).0 h5 in
      let (ports, networks) = (append-eq-nil_iff _ _).0 h6 in
      record {
        image = (image_iff grants spec.image).0 image;
        mounts = (each_iff _ _ (mount_iff service_id grants) _).0 mounts;
        devices = (each_iff _ _ (device_iff grants) _).0 devices;
        host = (host_iff grants spec).0 host;
        privileged = (privileged_iff grants spec).0 priv;
        caps = (each_iff _ _ (cap_iff grants) _).0 caps;
        ports = (port_iff grants (or_else spec.ports [])).0 ports;
        networks = (each_iff _ _ (network_iff service_id) _).0 networks;
      }

  no_violations_of_IsAuthorized :
      IsAuthorized service_id spec grants → spec_violations service_id spec grants ≡ []
  unfolding spec_violations
  no_violations_of_IsAuthorized a = rw (
    (image_iff grants spec.image).1 a.image,
    (each_iff _ _ (mount_iff service_id grants) _).1 a.mounts,
    (each_iff _ _ (device_iff grants) _).1 a.devices,
    (host_iff grants spec).1 a.host,
    (privileged_iff grants spec).1 a.privileged,
    (each_iff _ _ (cap_iff grants) _).1 a.caps,
    (port_iff grants (or_else spec.ports [])).1 a.ports,
    (each_iff _ _ (network_iff service_id) _).1 a.networks,
  )

  -- VALIDATE accepts a specification exactly if the stored grants authorise every field that it sets:
  -- the image, each mount, each device, host networking, privileged mode, each Linux capability and
  -- the published ports by a grant whose scope covers the value, and the named volumes and networks
  -- by the service's own namespace.
  pub validate_container_spec-ok_iff :
      (sha256 : String → String)
      → ((validate_container_spec sha256 service_id spec grants).ok ≡ true)
        ↔ IsAuthorized service_id spec grants
  unfolding validate_container_spec
  validate_container_spec-ok_iff sha256 = (
    λ h. IsAuthorized-of_no_violations (nil_of_ok (spec_violations service_id spec grants) h),
    λ a. ap is_empty (no_violations_of_IsAuthorized a),
  )

-- A plugin with no live grant, as one that is untrusted, has every specification refused.
pub validate_container_spec-no_grants :
    (sha256 : String → String) (service_id : String) (spec : ContainerSpec)
    → (validate_container_spec sha256 service_id spec []).ok ≡ false
validate_container_spec-no_grants sha256 service_id spec =
    elim (Bool-cases (validate_container_spec sha256 service_id spec []).ok) [
      | inl h ↦ absurd ((validate_container_spec-ok_iff service_id spec [] sha256).0 h).image.1
      | inr h ↦ h
    ]
