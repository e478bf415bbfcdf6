-- ===== src/FieldChecks/Laws.antt =====
-- When each field's check reports nothing.
use wanfw.Common.{
  ℕ, String, ◌≡◌, refl, ◌↔◌, inl, inr, Bool, true, false, not, ◌||◌, eq_iff, List, [], ◌∷◌, ◌++◌,
  Option, or_else, append, starts_with, starts_with-append, append_of_starts_with, All, In, any_iff,
  any_of_In, Bool-cases,
}
use wanfw.Scope.{GrantScope, Grant, has_grant, match_path_glob, match_any_path_glob}
use wanfw.Scope.Glob.{Covers, match_path_glob_iff}
use wanfw.Scope.Names.{
  NameCovers, match_name_prefix_iff, includes_iff, match_port_range_iff, has_grant_iff,
}
use wanfw.Spec.{MountSpec, MountType, volume, bind, ContainerSpec, service_network_name}
use wanfw.FieldChecks.{
  FieldViolation, check, each, image_violations, mount_violations, device_violations,
  host_violations, privileged_violations, cap_violations, port_violations, network_violations,
  is_host, is_privileged,
}

-- Some grant of the capability has a scope with the property.
abbrev pub Granted : List Grant → String → (GrantScope → Type 0) → Type 0
Granted grants cap P = (g : Grant) × In g grants × (g.cap ≡ cap) × P g.scope

-- Some pattern of the scope's list covers the value.
abbrev pub SomeIn : (String → String → Type 0) → Option (List String) → String → Type 0
SomeIn R patterns value = (p : String) × In p (or_else patterns []) × R p value

check_iff : (b : Bool) (v : FieldViolation) → (check b v ≡ []) ↔ (b ≡ true)
check_iff true v = ((λ h. refl), (λ h. refl))
check_iff false v = ((λ h. cc), (λ h. cc))

pub append-eq-nil_iff : {A : Type 0} (xs ys : List A) → (xs ++ ys ≡ []) ↔ ((xs ≡ []) × (ys ≡ []))
append-eq-nil_iff [] ys = ((λ h. (refl, h)), (λ h. h.1))
append-eq-nil_iff (x ∷ xs) ys = ((λ h. cc), (λ h. cc (h.0)))

pub each-eq-nil_iff :
    {A B : Type 0} (f : A → List B) (xs : List A) → (each f xs ≡ []) ↔ All (λ x. f x ≡ []) xs
each-eq-nil_iff f [] = ((λ h. tt), (λ h. refl))
each-eq-nil_iff f (x ∷ xs) = (
  λ h. let (a, b) = (append-eq-nil_iff (f x) (each f xs)).0 h in (a, (each-eq-nil_iff f xs).0 b),
  λ (a, b). (append-eq-nil_iff (f x) (each f xs)).1 (a, (each-eq-nil_iff f xs).1 b),
)

match_any_path_glob_iff :
    (patterns : Option (List String)) (path : String)
    → (match_any_path_glob (or_else patterns []) path ≡ true) ↔ SomeIn Covers patterns path
unfolding match_any_path_glob
match_any_path_glob_iff patterns path = (
  λ h.
      let (p, m, e) = (any_iff (λ p. match_path_glob p path) (or_else patterns [])).0 h in
      (p, m, (match_path_glob_iff p path).0 e),
  λ (p, m, c).
      any_of_In (λ p. match_path_glob p path) p (or_else patterns []) m
        ((match_path_glob_iff p path).1 c),
)

-- A check by a grant whose scope test decides `P`.
module _ (grants : List Grant) (cap : String) (matches : GrantScope → Bool)
    (P : GrantScope → Type 0) (decides : (s : GrantScope) → (matches s ≡ true) ↔ P s) where
  Granted_iff : (has_grant grants cap matches ≡ true) ↔ Granted grants cap P
  Granted_iff = (
    λ h.
        let (g, m, e, t) = (has_grant_iff grants cap matches).0 h in
        (g, m, e, (decides g.scope).0 t),
    λ (g, m, e, p). (has_grant_iff grants cap matches).1 (g, m, e, (decides g.scope).1 p),
  )

  check-Granted_iff :
      (v : FieldViolation) → (check (has_grant grants cap matches) v ≡ []) ↔ Granted grants cap P
  check-Granted_iff v =
      (λ h. Granted_iff.0 ((check_iff _ v).0 h), λ g. (check_iff _ v).1 (Granted_iff.1 g))

pub image_iff :
    (grants : List Grant) (image : String)
    → (image_violations grants image ≡ [])
      ↔ Granted grants "docker.image.pull" (λ s. SomeIn NameCovers s.repos image)
unfolding image_violations
image_iff grants image =
    check-Granted_iff grants "docker.image.pull" _ (λ s. SomeIn NameCovers s.repos image)
      (λ s. match_name_prefix_iff (or_else s.repos []) image) _

-- A named volume lies in the service's namespace; a bind mount has a covering grant.
abbrev pub MountAllowed : String → List Grant → MountSpec → Type 0
MountAllowed service_id grants m = elim m.kind [
  | volume ↦ (rest : String) × (m.source ≡ append (append "wanfw_" service_id) rest)
  | bind ↦ Granted grants "docker.mount.bind" (λ s. SomeIn Covers s.paths m.source)
]

starts_with_iff :
    (s t : String) → (starts_with s t ≡ true) ↔ ((rest : String) × (s ≡ append t rest))
starts_with_iff s t = (append_of_starts_with s t, λ (r, e). rw e (starts_with-append t r))

mount_source_iff :
    (service_id : String) (grants : List Grant) (kind : MountType) (source target : String)
    (read_only : Option Bool)
    → (mount_violations service_id grants
          (record { kind = kind; source = source; target = target; read_only = read_only })
        ≡ [])
      ↔ MountAllowed service_id grants
          (record { kind = kind; source = source; target = target; read_only = read_only })
unfolding mount_violations
mount_source_iff service_id grants volume source target read_only = (
  λ h. (starts_with_iff source (append "wanfw_" service_id)).0 ((check_iff _ _).0 h),
  λ p. (check_iff _ _).1 ((starts_with_iff source (append "wanfw_" service_id)).1 p),
)
mount_source_iff service_id grants bind source target read_only =
    check-Granted_iff grants "docker.mount.bind" _ (λ s. SomeIn Covers s.paths source)
      (λ s. match_any_path_glob_iff s.paths source) _

pub mount_iff :
    (service_id : String) (grants : List Grant) (m : MountSpec)
    → (mount_violations service_id grants m ≡ []) ↔ MountAllowed service_id grants m
mount_iff service_id grants m =
    mount_source_iff service_id grants m.kind m.source m.target m.read_only

-- A device is a path below /dev/, and has a covering grant.
abbrev pub DeviceAllowed : List Grant → String → Type 0
DeviceAllowed grants device =
    ((rest : String) × (device ≡ append "/dev/" rest))
    × Granted grants "docker.device" (λ s. SomeIn Covers s.paths device)

device_grant_iff :
    (grants : List Grant) (device : String)
    → (has_grant grants "docker.device"
          (λ scope. match_any_path_glob (or_else scope.paths []) device)
        ≡ true)
      ↔ Granted grants "docker.device" (λ s. SomeIn Covers s.paths device)
device_grant_iff grants device =
    Granted_iff grants "docker.device" _ (λ s. SomeIn Covers s.paths device)
      (λ s. match_any_path_glob_iff s.paths device)

pub device_iff :
    (grants : List Grant) (device : String)
    → (device_violations grants device ≡ []) ↔ DeviceAllowed grants device
unfolding device_violations
device_iff grants device = (
  λ h. elim (Bool-cases (starts_with device "/dev/")) [
    | inl e ↦ (
      (starts_with_iff device "/dev/").0 e,
      (device_grant_iff grants device).0 ((check_iff _ _).0 (rw e at h)),
    )
    | inr e ↦ cc (rw e at h)
  ],
  λ (p, g).
      rw ((starts_with_iff device "/dev/").1 p)
        ((check_iff _ _).1 ((device_grant_iff grants device).1 g)),
)

-- Any grant of the capability will do.
abbrev pub HasCap : List Grant → String → Type 0
HasCap grants cap = Granted grants cap (λ s. Unit)

always_iff : (s : GrantScope) → (◌≡◌ {A = Bool} true true) ↔ Unit {0}
always_iff s = ((λ h. tt), (λ h. refl))

flag_iff :
    (flag : Bool) (grants : List Grant) (cap : String) (v : FieldViolation)
    → (check (not flag || has_grant grants cap (λ s. true)) v ≡ [])
      ↔ (flag ≡ true → HasCap grants cap)
flag_iff true grants cap v = (
  λ h e. (check-Granted_iff grants cap (λ s. true) (λ s. Unit) always_iff v).0 h,
  λ h. (check-Granted_iff grants cap (λ s. true) (λ s. Unit) always_iff v).1 (h refl),
)
flag_iff false grants cap v = ((λ h e. cc), (λ h. refl))

pub host_iff :
    (grants : List Grant) (spec : ContainerSpec)
    → (host_violations grants spec ≡ [])
      ↔ (is_host spec ≡ true → HasCap grants "docker.network.host")
unfolding host_violations
host_iff grants spec = flag_iff (is_host spec) grants "docker.network.host" _

pub privileged_iff :
    (grants : List Grant) (spec : ContainerSpec)
    → (privileged_violations grants spec ≡ [])
      ↔ (is_privileged spec ≡ true → HasCap grants "docker.privileged")
unfolding privileged_violations
privileged_iff grants spec = flag_iff (is_privileged spec) grants "docker.privileged" _

abbrev pub CapAllowed : List Grant → String → Type 0
CapAllowed grants cap = Granted grants "docker.capabilities" (λ s. In cap (or_else s.caps []))

pub cap_iff :
    (grants : List Grant) (cap : String) → (cap_violations grants cap ≡ []) ↔ CapAllowed grants cap
unfolding cap_violations
cap_iff grants cap =
    check-Granted_iff grants "docker.capabilities" _ (λ s. In cap (or_else s.caps []))
      (λ s. includes_iff (or_else s.caps []) cap) _

-- One grant covers all published ports, if there are any.
abbrev pub PortsAllowed : List Grant → List ℕ → Type 0
PortsAllowed grants [] = Unit
PortsAllowed grants (p ∷ ps) =
    Granted grants "docker.ports.publish" (λ s. All (λ q. In q (or_else s.ports [])) (p ∷ ps))

pub port_iff :
    (grants : List Grant) (ports : List ℕ)
    → (port_violations grants ports ≡ []) ↔ PortsAllowed grants ports
unfolding port_violations
port_iff grants [] = ((λ h. tt), (λ h. refl))
port_iff grants (p ∷ ps) =
    check-Granted_iff grants "docker.ports.publish" _
      (λ s. All (λ q. In q (or_else s.ports [])) (p ∷ ps))
      (λ s. match_port_range_iff (or_else s.ports []) (p ∷ ps)) _

pub network_iff :
    (service_id network : String)
    → (network_violations service_id network ≡ []) ↔ (network ≡ service_network_name service_id)
unfolding network_violations
network_iff service_id network = (
  λ h. (eq_iff network (service_network_name service_id)).0 ((check_iff _ _).0 h),
  λ e. (check_iff _ _).1 ((eq_iff network (service_network_name service_id)).1 e),
)
