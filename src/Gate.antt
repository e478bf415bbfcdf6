-- ===== src/Gate.antt =====
-- GATE (packages/orchestrator/src/reconciler/gate-stage.ts): which services need an approval of their
-- powerful projection, and whether they have it.
pub mod Sound
pub mod Unapproved
use Prim.Native.Char.{Char, code}
use wanfw.Common.{
  ℕ, zero, suc, String, Bool, true, false, not, ◌&&◌, ◌||◌, ◌==◌, leb, if◌then◌else◌, List, [], ◌∷◌,
  ◌++◌, map, Option, none, some, or_else, append, join, starts_with, is_some,
}
use wanfw.Json.{decimal}
use wanfw.Scope.{includes}
use wanfw.Spec.{MountType, volume, bind, MountSpec, ContainerSpec}
use wanfw.Projection.{is_bind, compute_powerful_projection_hash, projection_input_for}
use wanfw.FieldChecks.{each, is_host, is_privileged}
use wanfw.Validate.{FieldTier, baseline, powerful}
use wanfw.Store.{StateStore, is_approved}
use wanfw.Pipeline.{Classification, GatedService, lookup}

abbrev catastrophic_banner : String
catastrophic_banner = "**This grant is equivalent to root on the host**"

abbrev self_exposure_banner : String
self_exposure_banner =
    "**You are exposing the control plane of this system to the WAN, behind password auth only** (ADR-7: tier1 is hardened to LAN-threat standard, not exposed-app standard)"

abbrev in_range : ℕ → ℕ → Char → Bool
in_range lo hi c = leb lo (code c) && leb (code c) hi

-- `\d+$`
abbrev all_digits : String → Bool
all_digits String.[] = false
all_digits (String.◌∷◌ c String.[]) = in_range 48 57 c
all_digits (String.◌∷◌ c (String.◌∷◌ d s)) = in_range 48 57 c && all_digits (String.◌∷◌ d s)

-- `(\d+)?$`
abbrev optional_digits : String → Bool
optional_digits String.[] = true
optional_digits (String.◌∷◌ c s) = all_digits (String.◌∷◌ c s)

-- `[a-z]*(\d+)?$`
abbrev letters_digits : String → Bool
letters_digits String.[] = true
letters_digits (String.◌∷◌ c s) =
    if in_range 97 122 c then letters_digits s else all_digits (String.◌∷◌ c s)

-- `[a-z]+(\d+)?$`
abbrev some_letters_digits : String → Bool
some_letters_digits String.[] = false
some_letters_digits (String.◌∷◌ c s) = in_range 97 122 c && letters_digits s

-- `\d*n\d+(\d+)?$`, where the last two groups together are `\d+`
abbrev digits_n : String → Bool
digits_n String.[] = false
digits_n (String.◌∷◌ c s) = if in_range 48 57 c then digits_n s else code_n c && all_digits s
  where
    code_n : Char → Bool
    code_n c = in_range 110 110 c

-- `\d+n\d+(\d+)?$`
abbrev nvme_tail : String → Bool
nvme_tail String.[] = false
nvme_tail (String.◌∷◌ c s) = in_range 48 57 c && digits_n s

-- What follows a prefix of the text
abbrev after : String → String → Option String
after String.[] s = some s
after (String.◌∷◌ c p) String.[] = none
after (String.◌∷◌ c p) (String.◌∷◌ d s) = if in_range (code c) (code c) d then after p s else none

abbrev follows : String → (String → Bool) → String → Bool
follows prefix test device = elim (after prefix device) [ none ↦ false | some s ↦ test s ]

-- `/^\/dev\/(sd[a-z]+|nvme\d+n\d+|vd[a-z]+|xvd[a-z]+|hd[a-z]+)(\d+)?$/`
unfoldable pub is_disk_block_device : String → Bool
is_disk_block_device device =
    follows "/dev/sd" some_letters_digits device
    || (follows "/dev/nvme" nvme_tail device
        || (follows "/dev/vd" some_letters_digits device
            || (follows "/dev/xvd" some_letters_digits device
                || follows "/dev/hd" some_letters_digits device)))

abbrev pub when : Bool → String → List String
when b line = if b then line ∷ [] else []

abbrev socket_reason : MountSpec → List String
socket_reason mount =
    when (is_bind mount && mount.source == "/var/run/docker.sock") "bind-mounts the Docker socket"

unfoldable device_reason : String → List String
unfolding is_disk_block_device
device_reason device =
    if device == "/dev/mem"
    then "accesses /dev/mem (raw physical memory)" ∷ []
    else when (is_disk_block_device device) (append "accesses raw disk block device " device)

unfoldable pub catastrophic_reasons : ContainerSpec → List String
unfolding device_reason
catastrophic_reasons spec =
    each socket_reason (or_else spec.mounts [])
    ++ (when (is_privileged spec) "runs privileged"
        ++ (when (is_host spec && includes (or_else spec.cap_add []) "NET_ADMIN")
              "host networking + NET_ADMIN"
            ++ each device_reason (or_else spec.devices [])))

abbrev banner_of : List String → List String
banner_of [] = []
banner_of (r ∷ rs) = append catastrophic_banner (append ": " (join "; " (r ∷ rs))) ∷ []

unfoldable pub catastrophic_banners : ContainerSpec → List String
unfolding catastrophic_reasons
catastrophic_banners spec = banner_of (catastrophic_reasons spec)

abbrev mount_line : MountSpec → List String
mount_line m = when (is_bind m) (
    append "bind mount " (
      append m.source (
        append " " (
          append (if or_else m.read_only false then "read-only" else "read-write")
            (append " at " m.target)))))

unfoldable pub human_render : ContainerSpec → String
human_render spec = join "; " (
    append "image: " spec.image ∷ each mount_line (or_else spec.mounts [])
    ++ (map (append "device ") (or_else spec.devices [])
        ++ (when (is_privileged spec) "privileged: true"
            ++ (when (is_host spec) "network mode: host"
                ++ (map (append "capability ") (or_else spec.cap_add [])
                    ++ map (λ p. append "publish port " (decimal p)) (or_else spec.ports []))))))

-- A service document named "tier1" exposes the control plane.
abbrev pub is_self_exposure : String → Bool
is_self_exposure service_id = service_id == "tier1"

abbrev pub gate_tier : String → FieldTier → FieldTier
gate_tier service_id tier = if is_self_exposure service_id then powerful else tier

abbrev pub is_powerful_tier : FieldTier → Bool
is_powerful_tier powerful = true
is_powerful_tier baseline = false

abbrev pub requires_approval : String → String → FieldTier → Bool
requires_approval strict_approvals service_id tier =
    is_powerful_tier (gate_tier service_id tier) || strict_approvals == "all"

module _ (sha256 : String → String) (store : StateStore) where
  abbrev pub gate_hash : String → ContainerSpec → Classification → String
  gate_hash service_id spec c =
      or_else c.projection_hash
        (compute_powerful_projection_hash sha256 (projection_input_for service_id spec))

  unfoldable pub gated_service : String → ContainerSpec → Classification → GatedService
  unfolding catastrophic_banners human_render
  gated_service service_id spec c = record {
    service_id = service_id;
    tier = gate_tier service_id c.tier;
    projection_hash = gate_hash service_id spec c;
    human_rendering = human_render spec;
    approved = is_approved store (gate_hash service_id spec c);
    banners = catastrophic_banners spec ++ when (is_self_exposure service_id) self_exposure_banner;
  }

  -- One round of the loop: nothing for a service with no classification, or that needs no approval.
  unfoldable pub gate_one :
      String → String → ContainerSpec → Option Classification → List (String × GatedService)
  unfolding gated_service
  gate_one strict_approvals service_id spec none = []
  gate_one strict_approvals service_id spec (some c) =
      if requires_approval strict_approvals service_id c.tier
      then (service_id, gated_service service_id spec c) ∷ []
      else []

  -- The snapshot: service plans are keyed by service id, so no entry is set twice.
  unfoldable pub gate_services :
      Option String
      → List (String × ContainerSpec)
      → List (String × Classification)
      → List (String × GatedService)
  unfolding gate_one
  gate_services strict_approvals [] validation = []
  gate_services strict_approvals ((service_id, spec) ∷ plans) validation =
      gate_one (or_else strict_approvals "powerful") service_id spec (lookup service_id validation)
      ++ gate_services strict_approvals plans validation
