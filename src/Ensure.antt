-- ===== src/Ensure.antt =====
-- The idempotent primitives of EXECUTE (packages/orchestrator/src/execute/ensure.ts and confighash.ts).
-- `trim` and `number` are JavaScript's: a text without white space at its ends, and the number that a
-- text denotes, 0 for none.
pub mod Idempotent
use Prim.Native.Char.{Char, code}
use wanfw.Common.{
  ℕ, zero, suc, ◌+◌, ◌-◌, ◌*◌, ◌^◌, String, Bool, true, false, not, ◌&&◌, ◌||◌, ◌==◌, eqb, leb,
  if◌then◌else◌, List, [], ◌∷◌, ◌++◌, Option, none, some, or_else, append, map,
}
use wanfw.Scope.{includes}
use wanfw.Json.{
  Json, Items, Fields, bool, num, str, arr, obj, end, field, items, strs, canonical_json_stringify,
}
use wanfw.Spec.{MountType, volume, bind, MountSpec, Resources, ContainerSpec}
use wanfw.Pipeline.{lookup}
use wanfw.Docker.{
  Labels, DockerNetworkInfo, DockerVolumeInfo, DockerContainerInfo, CreateContainerOptions,
  NetworkDriverOptions, Reply, returned, thrown, after, Done, nothing, DockerClient,
}

pub record StepResult : Type 0 where
  pub step : String
  pub changed : Bool
  pub detail : String

-- `{ ...labels, [key]: value }`
abbrev pub put : String → String → Labels → Labels
put key value [] = (key, value) ∷ []
put key value ((k, v) ∷ labels) =
    if k == key then (k, value) ∷ labels else (k, v) ∷ put key value labels

-- `{ ...labels, ...extra }`
abbrev pub spread : Labels → Labels → Labels
spread labels [] = labels
spread labels ((k, v) ∷ extra) = spread (put k v labels) extra

abbrev pub base_labels : Labels → Labels
base_labels extra = spread (("wanfw.managed", "true") ∷ []) extra

abbrev pub service_label : Option String → Labels
service_label none = []
service_label (some s) = if s == "" then [] else ("wanfw.service", s) ∷ []

abbrev pub core_label : Bool → Labels
core_label core = if core then ("wanfw.core", "true") ∷ [] else []

-- The labels that the caller gives: the service, the plan, and whether the object is the core's own
pub record StepLabels : Type 0 where
  pub service : Option String
  pub plan : String
  pub core : Bool

abbrev type_name : MountType → String
type_name volume = "volume"
type_name bind = "bind"

abbrev opt_field : String → Option Json → Fields → Fields
opt_field key none rest = rest
opt_field key (some v) rest = field key v rest

abbrev map_option {ℓ κ} : {A : Type ℓ} {B : Type κ} → (A → B) → Option A → Option B
map_option f none = none
map_option f (some a) = some (f a)

abbrev text_fields : Labels → Fields
text_fields [] = end
text_fields ((k, v) ∷ rest) = field k (str v) (text_fields rest)

abbrev spec_mount_json : MountSpec → Json
spec_mount_json m = obj (
    field "type" (str (type_name m.kind)) (
      field "source" (str m.source)
        (field "target" (str m.target) (opt_field "readOnly" (map_option bool m.read_only) end))))

abbrev resources_json : Resources → Json
resources_json r =
    obj
      (opt_field "memory" (map_option str r.memory) (opt_field "cpus" (map_option str r.cpus) end))

abbrev texts_json : List String → Json
texts_json xs = strs xs

-- A specification as the JSON value it is, absent fields left out
unfoldable pub spec_json : ContainerSpec → Json
spec_json s = obj (
    field "image" (str s.image) (
      opt_field "cmd" (map_option texts_json s.cmd) (
        opt_field "entrypoint" (map_option texts_json s.entrypoint) (
          opt_field "env" (map_option (λ e. obj (text_fields e)) s.env) (
            opt_field "mounts" (map_option (λ ms. arr (items (map spec_mount_json ms))) s.mounts) (
              opt_field "devices" (map_option texts_json s.devices) (
                opt_field "networks" (map_option texts_json s.networks) (
                  opt_field "networkMode" (map_option str s.network_mode) (
                    opt_field "ports" (map_option (λ ps. arr (items (map num ps))) s.ports) (
                      opt_field "capAdd" (map_option texts_json s.cap_add) (
                        opt_field "privileged" (map_option bool s.privileged) (
                          opt_field "securityOpt" (map_option texts_json s.security_opt) (
                            opt_field "user" (map_option str s.user) (
                              opt_field "readOnly" (map_option bool s.read_only) (
                                opt_field "resources" (map_option resources_json s.resources) (
                                  opt_field "labels"
                                    (map_option (λ l. obj (text_fields l)) s.labels)
                                    (opt_field "restart" (map_option str s.restart)
                                      end)))))))))))))))))

unfoldable pub compute_config_hash : (String → String) → ContainerSpec → String
unfolding spec_json
compute_config_hash sha256 spec = sha256 (canonical_json_stringify (spec_json spec))

abbrev pub compute_network_config_hash : (String → String) → String → String
compute_network_config_hash sha256 name = sha256 (append "network:" name)

abbrev pub compute_volume_config_hash : (String → String) → String → String
compute_volume_config_hash sha256 name = sha256 (append "volume:" name)

abbrev digit_value : Char → Option ℕ
digit_value c = if leb 48 (code c) && leb (code c) 57 then some (code c - 48) else none

abbrev unit_of : ℕ → Option ℕ
unit_of c =
    if eqb c 103 || eqb c 71
    then some (2 ^ 30)
    else if eqb c 109 || eqb c 77
    then some (2 ^ 20)
    else if eqb c 107 || eqb c 75
    then some (2 ^ 10)
    else none

-- `/^(\d+)([kKmMgG]?)$/` after the digits read so far, with the number of bytes where it matches
unfoldable parse_size : Bool → ℕ → String → Option ℕ
parse_size some_digits value String.[] = if some_digits then some value else none
parse_size some_digits value (String.◌∷◌ c s) =
    let more = λ (d : ℕ). parse_size true (value * 10 + d) s in
    elim (digit_value c) [
      | some d ↦ more d
      | none ↦ if some_digits then at_unit value (unit_of (code c)) s else none
    ]
  where
    at_unit : ℕ → Option ℕ → String → Option ℕ
    at_unit value (some bytes) String.[] = some (value * bytes)
    at_unit value unit s = none

unfoldable pub parse_memory : (String → String) → (String → ℕ) → String → ℕ
unfolding parse_size
parse_memory trim number mem = or_else (parse_size false 0 (trim mem)) (number mem)

module _ {W : Type 0} (sha256 trim : String → String) (number : String → ℕ)
    (docker : DockerClient W) where
  abbrev pub ensure_missing_network :
      String
      → StepLabels
      → Option NetworkDriverOptions
      → Option DockerNetworkInfo
      → W
      → Reply W StepResult
  ensure_missing_network name labels driver (some existing) w =
      returned
        (record { step = append "ensureNetwork:" name; changed = false; detail = "already exists" })
        w
  ensure_missing_network name labels driver none w =
      after
        (docker.create_network name
          (base_labels (
            ("wanfw.plan", labels.plan)
              ∷ ("wanfw.confighash", compute_network_config_hash sha256 name)
              ∷ service_label labels.service
            ++ core_label labels.core))
          driver w)
        (λ done.
          returned
            (record { step = append "ensureNetwork:" name; changed = true; detail = "created" }))

  unfoldable pub ensure_network :
      String → StepLabels → Option NetworkDriverOptions → W → Reply W StepResult
  ensure_network name labels driver w =
      ensure_missing_network name labels driver (docker.find_network name w) w

  abbrev pub ensure_missing_volume :
      String → String → String → Bool → Option DockerVolumeInfo → W → Reply W StepResult
  ensure_missing_volume name service plan remove_on_delete (some existing) w =
      returned
        (record { step = append "ensureVolume:" name; changed = false; detail = "already exists" })
        w
  ensure_missing_volume name service plan remove_on_delete none w =
      after
        (docker.create_volume name
          (base_labels (
            ("wanfw.service", service)
            ∷ ("wanfw.plan", plan)
            ∷ ("wanfw.confighash", compute_volume_config_hash sha256 name)
            ∷ ("wanfw.removeVolumesOnDelete", if remove_on_delete then "true" else "false")
            ∷ []))
          w)
        (λ done.
          returned
            (record { step = append "ensureVolume:" name; changed = true; detail = "created" }))

  unfoldable pub ensure_volume : String → String → String → Bool → W → Reply W StepResult
  ensure_volume name service plan remove_on_delete w =
      ensure_missing_volume name service plan remove_on_delete (docker.find_volume name w) w

  abbrev pub container_labels : ContainerSpec → StepLabels → Labels
  container_labels spec labels = base_labels (
      service_label labels.service
      ++ (("wanfw.plan", labels.plan)
            ∷ ("wanfw.confighash", compute_config_hash sha256 spec)
            ∷ core_label labels.core
          ++ or_else spec.labels []))

  abbrev memory_of : Option Resources → Option ℕ
  memory_of none = none
  memory_of (some r) = memory_text r.memory
    where
      memory_text : Option String → Option ℕ
      memory_text none = none
      memory_text (some mem) = if mem == "" then none else some (parse_memory trim number mem)

  abbrev cpus_of : Option Resources → Option String
  cpus_of none = none
  cpus_of (some r) = elim r.cpus [ none ↦ none | some c ↦ if c == "" then none else some c ]

  abbrev first_of : Option (List String) → Option String
  first_of (some (n ∷ ns)) = some n
  first_of _ = none

  -- The options of the new container. Every mount has one of the two kinds, so none is left out.
  abbrev pub container_options : String → ContainerSpec → StepLabels → CreateContainerOptions
  container_options name spec labels = record {
    name = name;
    image = spec.image;
    cmd = spec.cmd;
    entrypoint = spec.entrypoint;
    env = spec.env;
    mounts = or_else spec.mounts [];
    devices = spec.devices;
    network_mode = spec.network_mode;
    ports = spec.ports;
    cap_add = spec.cap_add;
    privileged = spec.privileged;
    security_opt = spec.security_opt;
    user = spec.user;
    read_only_rootfs = spec.read_only;
    memory = memory_of spec.resources;
    cpus = cpus_of spec.resources;
    labels = container_labels spec labels;
    restart_policy = spec.restart;
    primary_network = first_of spec.networks;
  }

  abbrev pub container_step : String → Bool → String → StepResult
  container_step name changed detail = record {
    step = append "ensureContainer:" name;
    changed = changed;
    detail = detail;
  }

  abbrev pub create_and_start :
      String → ContainerSpec → StepLabels → String → W → Reply W StepResult
  create_and_start name spec labels detail w =
      after (docker.create_container (container_options name spec labels) w) (λ id w1.
        after (docker.start_container id w1) (λ done. returned (container_step name true detail)))

  abbrev pub has_hash : String → DockerContainerInfo → Bool
  has_hash hash existing = is_hash (lookup "wanfw.confighash" existing.labels)
    where
      is_hash : Option String → Bool
      is_hash none = false
      is_hash (some h) = h == hash

  -- The container exists with the hash of the specification.
  abbrev pub keep_running : String → DockerContainerInfo → W → Reply W StepResult
  keep_running name existing w =
      if existing.state == "running"
      then returned (container_step name false "unchanged") w
      else after (docker.start_container existing.id w)
          (λ done. returned (container_step name true "started (was not running)"))

  abbrev pub ensure_found :
      String → ContainerSpec → StepLabels → Option DockerContainerInfo → W → Reply W StepResult
  ensure_found name spec labels none w = create_and_start name spec labels "created" w
  ensure_found name spec labels (some existing) w =
      if has_hash (compute_config_hash sha256 spec) existing
      then keep_running name existing w
      else after (docker.remove_container existing.id w)
          (λ done. create_and_start name spec labels "recreated")

  unfoldable pub ensure_container : String → ContainerSpec → StepLabels → W → Reply W StepResult
  unfolding compute_config_hash parse_memory
  ensure_container name spec labels w =
      ensure_found name spec labels (docker.find_container name w) w

  abbrev pub connect_step : String → String → Bool → String → StepResult
  connect_step container network changed detail = record {
    step = append "connect:" (append container (append "->" network));
    changed = changed;
    detail = detail;
  }

  abbrev pub connect_found : String → String → Option DockerContainerInfo → W → Reply W StepResult
  connect_found name network none w =
      returned (connect_step name network false "container not found (will retry next reconcile)") w
  connect_found name network (some c) w =
      if includes c.networks network
      then returned (connect_step name network false "already connected") w
      else after (docker.connect_network c.id network w)
          (λ done. returned (connect_step name network true "connected"))

  unfoldable pub connect : String → String → W → Reply W StepResult
  connect name network w = connect_found name network (docker.find_container name w) w
