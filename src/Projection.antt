-- ===== src/Projection.antt =====
-- The powerful projection (packages/core-schemas/src/projection.ts): the fields of a plan that an
-- approval covers, with sorted arrays, and the digest by which approvals are keyed. The hash function
-- of node:crypto is the argument `sha256`, from the hashed text to its hexadecimal digest.
pub mod Laws
use wanfw.Common.{
  ℕ, String, Bool, true, false, not, ◌&&◌, ◌==◌, List, [], ◌∷◌, Option, none, some, map, or_else,
  sort, text_le, leb, if◌then◌else◌, filter,
}
use wanfw.Json.{
  Json, null, bool, num, str, arr, obj, end, field, items, strs, canonical_json_stringify,
}
use wanfw.Spec.{MountType, volume, bind, MountSpec, ContainerSpec}

pub record BindMount : Type 0 where
  pub source : String
  pub target : String
  pub ro : Bool

-- `PowerfulProjectionInput` and `PowerfulProjection`, which have the same fields
pub record PowerfulProjection : Type 0 where
  pub service_id : String
  pub image : String
  pub mounts : List BindMount
  pub devices : List String
  pub network_mode : Option String
  pub privileged : Bool
  pub cap_add : List String
  pub published_ports : List ℕ

-- By source, then target; of two mounts that agree in both the read-only one comes first.
abbrev pub mount_le : BindMount → BindMount → Bool
mount_le a b =
    if not (a.source == b.source)
    then text_le a.source b.source
    else if not (a.target == b.target)
    then text_le a.target b.target
    else if a.ro
    then true
    else not b.ro

unfoldable pub build_powerful_projection : PowerfulProjection → PowerfulProjection
build_powerful_projection input = record {
  service_id = input.service_id;
  image = input.image;
  mounts = sort mount_le input.mounts;
  devices = sort text_le input.devices;
  network_mode = input.network_mode;
  privileged = input.privileged;
  cap_add = sort text_le input.cap_add;
  published_ports = sort leb input.published_ports;
}

abbrev pub mount_json : BindMount → Json
mount_json m =
    obj (field "source" (str m.source) (field "target" (str m.target) (field "ro" (bool m.ro) end)))

abbrev pub nullable_json : Option String → Json
nullable_json none = null
nullable_json (some s) = str s

-- The projection as a JSON value, its fields in the order of the object literal.
unfoldable pub projection_json : PowerfulProjection → Json
projection_json p = obj (
    field "serviceId" (str p.service_id) (
      field "image" (str p.image) (
        field "mounts" (arr (items (map mount_json p.mounts))) (
          field "devices" (strs p.devices) (
            field "networkMode" (nullable_json p.network_mode) (
              field "privileged" (bool p.privileged) (
                field "capAdd" (strs p.cap_add)
                  (field "publishedPorts" (arr (items (map num p.published_ports))) end))))))))

unfoldable pub projection_to_canonical_json : PowerfulProjection → String
unfolding build_powerful_projection projection_json
projection_to_canonical_json input =
    canonical_json_stringify (projection_json (build_powerful_projection input))

unfoldable pub compute_powerful_projection_hash : (String → String) → PowerfulProjection → String
compute_powerful_projection_hash sha256 input = sha256 (projection_to_canonical_json input)

abbrev pub is_bind : MountSpec → Bool
is_bind m = elim m.kind [ volume ↦ false | bind ↦ true ]

abbrev pub bind_mount : MountSpec → BindMount
bind_mount m = record { source = m.source; target = m.target; ro = or_else m.read_only false }

-- `spec.networkMode === "host" ? "host" : null`
abbrev pub host_mode : Option String → Option String
host_mode none = none
host_mode (some mode) = if mode == "host" then some "host" else none

-- The projection input that VALIDATE, GATE and the core authority build from a specification.
unfoldable pub projection_input_for : String → ContainerSpec → PowerfulProjection
projection_input_for service_id spec = record {
  service_id = service_id;
  image = spec.image;
  mounts = map bind_mount (filter is_bind (or_else spec.mounts []));
  devices = or_else spec.devices [];
  network_mode = host_mode spec.network_mode;
  privileged = or_else spec.privileged false;
  cap_add = or_else spec.cap_add [];
  published_ports = or_else spec.ports [];
}
