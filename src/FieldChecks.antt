-- ===== src/FieldChecks.antt =====
-- The checks of `validateContainerSpec` (packages/orchestrator/src/validate/validate-plan.ts), one
-- function for each field, with the violations that they report.
pub mod Laws
use Prim.Native.Char.{Char, code}
use wanfw.Common.{
  ℕ, zero, suc, ◌-◌, String, Bool, true, false, not, ◌&&◌, ◌||◌, ◌==◌, List, [], ◌∷◌, ◌++◌, map,
  Option, none, some, or_else, any, all, append, join, starts_with, ltb, leb, eqb, if◌then◌else◌,
}
use wanfw.Json.{decimal}
use wanfw.Scope.{
  GrantScope, Grant, includes, has_grant, match_name_prefix, match_any_path_glob, match_port_range,
}
use wanfw.Spec.{MountType, volume, bind, MountSpec, ContainerSpec, service_network_name}
use wanfw.Projection.{projection_input_for, compute_powerful_projection_hash, is_bind}

pub record FieldViolation : Type 0 where
  pub field : String
  pub cap : String
  pub message : String

-- The empty list if the check passes, else the one violation.
abbrev pub check : Bool → FieldViolation → List FieldViolation
check passed v = if passed then [] else v ∷ []

-- One body for every element of a list, in order.
abbrev pub each : {A B : Type 0} → (A → List B) → List A → List B
each f [] = []
each f (x ∷ xs) = f x ++ each f xs

unfoldable pub image_violations : List Grant → String → List FieldViolation
image_violations grants image =
    check
      (has_grant grants "docker.image.pull"
        (λ scope. match_name_prefix (or_else scope.repos []) image))
      (record {
        field = "image";
        cap = "docker.image.pull";
        message = append "image '" (append image "' not covered by any docker.image.pull grant");
      })

abbrev volume_violations : String → MountSpec → List FieldViolation
volume_violations service_id mount =
    let expected_prefix = append "wanfw_" service_id in
    check (starts_with mount.source expected_prefix) (record {
      field = "mounts";
      cap = "docker.volume.named";
      message = append "named volume '" (
          append mount.source (
            append "' is outside this service's namespace (expected prefix '"
              (append expected_prefix "')")));
    })

abbrev bind_violations : List Grant → MountSpec → List FieldViolation
bind_violations grants mount =
    check
      (has_grant grants "docker.mount.bind"
        (λ scope. match_any_path_glob (or_else scope.paths []) mount.source))
      (record {
        field = "mounts";
        cap = "docker.mount.bind";
        message =
            append "bind mount source '"
              (append mount.source "' not covered by any docker.mount.bind grant");
      })

-- A named volume is confined by its prefix, with no grant; a bind mount needs one.
unfoldable pub mount_violations : String → List Grant → MountSpec → List FieldViolation
mount_violations service_id grants mount =
    if is_bind mount then bind_violations grants mount else volume_violations service_id mount

unfoldable pub device_violations : List Grant → String → List FieldViolation
device_violations grants device =
    if not (starts_with device "/dev/")
    then record {
      field = "devices";
      cap = "docker.device";
      message = append "device path '" (append device "' must match /dev/*");
    }
      ∷ []
    else check
        (has_grant grants "docker.device"
          (λ scope. match_any_path_glob (or_else scope.paths []) device))
        (record {
          field = "devices";
          cap = "docker.device";
          message = append "device '" (append device "' not covered by any docker.device grant");
        })

abbrev pub is_host : ContainerSpec → Bool
is_host spec = or_else spec.network_mode "" == "host"

unfoldable pub host_violations : List Grant → ContainerSpec → List FieldViolation
host_violations grants spec =
    check (not (is_host spec) || has_grant grants "docker.network.host" (λ scope. true)) (record {
      field = "networkMode";
      cap = "docker.network.host";
      message = "host networking requires a docker.network.host grant";
    })

abbrev pub is_privileged : ContainerSpec → Bool
is_privileged spec = or_else spec.privileged false

unfoldable pub privileged_violations : List Grant → ContainerSpec → List FieldViolation
privileged_violations grants spec =
    check (not (is_privileged spec) || has_grant grants "docker.privileged" (λ scope. true))
      (record {
        field = "privileged";
        cap = "docker.privileged";
        message = "privileged=true requires a docker.privileged grant";
      })

unfoldable pub cap_violations : List Grant → String → List FieldViolation
cap_violations grants cap =
    check (has_grant grants "docker.capabilities" (λ scope. includes (or_else scope.caps []) cap))
      (record {
        field = "capAdd";
        cap = "docker.capabilities";
        message =
            append "Linux capability '"
              (append cap "' not covered by any docker.capabilities grant");
      })

unfoldable pub port_violations : List Grant → List ℕ → List FieldViolation
port_violations grants [] = []
port_violations grants (p ∷ ps) =
    check
      (has_grant grants "docker.ports.publish"
        (λ scope. match_port_range (or_else scope.ports []) (p ∷ ps)))
      (record {
        field = "ports";
        cap = "docker.ports.publish";
        message = append "published ports [" (
            append (join "," (map decimal (p ∷ ps)))
              "] not covered by any docker.ports.publish grant");
      })

unfoldable pub network_violations : String → String → List FieldViolation
network_violations service_id network =
    let own_network = service_network_name service_id in
    check (network == own_network) (record {
      field = "networks";
      cap = "docker.network.attach";
      message = append "network '" (
          append network (
            append "' is not this service's own network ('"
              (append own_network "') or a plan-created network")));
    })

-- The violations of the whole specification, in the order in which the checks stand.
unfoldable pub spec_violations : String → ContainerSpec → List Grant → List FieldViolation
unfolding image_violations mount_violations device_violations host_violations privileged_violations
    cap_violations port_violations network_violations
spec_violations service_id spec grants =
    image_violations grants spec.image
    ++ (each (mount_violations service_id grants) (or_else spec.mounts [])
        ++ (each (device_violations grants) (or_else spec.devices [])
            ++ (host_violations grants spec
                ++ (privileged_violations grants spec
                    ++ (each (cap_violations grants) (or_else spec.cap_add [])
                        ++ (port_violations grants (or_else spec.ports [])
                            ++ each (network_violations service_id) (or_else spec.networks [])))))))
