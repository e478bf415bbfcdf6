-- ===== src/Observe.antt =====
-- OBSERVE (packages/orchestrator/src/reconciler/observe-stage.ts): the garbage collection of Docker
-- objects whose service is no longer desired, and the status document of each service. The daemon's
-- listings of managed objects are arguments, and the calls that the stage makes are its result.
pub mod Collected
pub mod Degraded
use wanfw.Common.{
  ℕ, ◌+◌, ◌*◌, String, Bool, true, false, not, ◌&&◌, ◌==◌, if◌then◌else◌, List, [], ◌∷◌, ◌++◌,
  Option, none, some, append, find,
}
use wanfw.Scope.{includes}
use wanfw.FieldChecks.{each}
use wanfw.Pipeline.{StageError, GatedService, lookup}
use wanfw.Renewal.{day, cert_lifetime_days}
use wanfw.Docker.{Labels, DockerNetworkInfo, DockerVolumeInfo, DockerContainerInfo}

-- A call that the garbage collection makes
pub data GcCall : Type 0 where
  remove_container : String → GcCall
  remove_network : String → GcCall
  remove_volume : String → GcCall

abbrev undesired : List String → Option String → Bool
undesired desired none = false
undesired desired (some s) = not (s == "") && not (includes desired s)

-- The object has a service label, of a service that is not desired.
unfoldable pub is_orphan : List String → Labels → Bool
is_orphan desired labels = undesired desired (lookup "wanfw.service" labels)

abbrev says_true : Option String → Bool
says_true none = false
says_true (some s) = s == "true"

unfoldable pub opted_in : Labels → Bool
opted_in labels = says_true (lookup "wanfw.removeVolumesOnDelete" labels)

abbrev pub call_if : Bool → GcCall → List GcCall
call_if b call = if b then call ∷ [] else []

module _ (desired : List String) where
  abbrev pub container_calls : DockerContainerInfo → List GcCall
  container_calls c = call_if (is_orphan desired c.labels) (remove_container c.id)

  abbrev pub network_calls : DockerNetworkInfo → List GcCall
  network_calls n = call_if (is_orphan desired n.labels) (remove_network n.id)

  abbrev pub volume_calls : DockerVolumeInfo → List GcCall
  volume_calls v = call_if (is_orphan desired v.labels && opted_in v.labels) (remove_volume v.name)

  -- Containers, then networks, then volumes
  unfoldable pub gc_calls :
      List DockerContainerInfo → List DockerNetworkInfo → List DockerVolumeInfo → List GcCall
  unfolding is_orphan opted_in
  gc_calls containers networks volumes =
      each container_calls containers ++ (each network_calls networks ++ each volume_calls volumes)

  abbrev journal_if : Bool → String → Bool → List (String × Bool)
  journal_if b step removed = if b then (step, removed) ∷ [] else []

  -- The journal's steps, each with whether the object was removed
  unfoldable pub gc_journal :
      List DockerContainerInfo
      → List DockerNetworkInfo
      → List DockerVolumeInfo
      → List (String × Bool)
  unfolding is_orphan opted_in
  gc_journal containers networks volumes =
      each
        (λ (c : DockerContainerInfo).
          journal_if (is_orphan desired c.labels) (append "gc:container:" c.name) true)
        containers
      ++ (each
            (λ (n : DockerNetworkInfo).
              journal_if (is_orphan desired n.labels) (append "gc:network:" n.name) true)
            networks
          ++ each
              (λ (v : DockerVolumeInfo).
                journal_if (is_orphan desired v.labels) (append "gc:volume:" v.name)
                  (opted_in v.labels))
              volumes)

-- `meta` of the stored certificate
pub record CertMeta : Type 0 where
  pub stored_at : ℕ
  pub names : List String

pub data ServicePhase : Type 0 where
  reconciling live pending_approval error : ServicePhase

-- The document without the fields that are copied from the service's own
pub record ServiceStatusDoc : Type 0 where
  pub service_id : String
  pub phase : ServicePhase
  pub endpoints : List String
  pub cert_not_after : Option ℕ
  pub last_error : Option StageError

abbrev covered_until : String → CertMeta → Option ℕ
covered_until hostname meta =
    if includes meta.names hostname then some (meta.stored_at + cert_lifetime_days * day) else none

-- A blank host name is none.
abbrev pub named : Option String → Option String
named none = none
named (some h) = if h == "" then none else some h

unfoldable pub project_cert_not_after : Option String → Option CertMeta → Option ℕ
project_cert_not_after hostname none = none
project_cert_not_after hostname (some meta) = elim (named hostname) [
  | none ↦ none
  | some h ↦ covered_until h meta
]

abbrev pub lists_name : Option (List String) → String → Bool
lists_name none h = true
lists_name (some names) h = includes names h

abbrev pub error_on : Option String → StageError → Option (List String) → Option StageError
error_on none reason cert_names = none
error_on (some h) reason cert_names =
    if reason.stage == "renewal" && lists_name cert_names h then some reason else none

unfoldable pub renewal_error_for :
    Option String → Option StageError → Option (List String) → Option StageError
renewal_error_for hostname none cert_names = none
renewal_error_for hostname (some reason) cert_names = error_on (named hostname) reason cert_names

abbrev plugin_is : String → Option String → Bool
plugin_is service_id none = false
plugin_is service_id (some p) = p == service_id

abbrev pub blames : String → Option StageError → Bool
blames service_id none = false
blames service_id (some e) = plugin_is service_id e.plugin

abbrev pub parked : Option GatedService → Bool
parked none = false
parked (some g) = not g.approved

unfoldable pub compute_service_phase :
    String → Option GatedService → Bool → Option StageError → ServicePhase
compute_service_phase service_id gate running last_error =
    if blames service_id last_error
    then error
    else if parked gate
    then pending_approval
    else if running
    then live
    else reconciling

abbrev labelled : String → Option String → Bool
labelled service_id none = false
labelled service_id (some s) = s == service_id

abbrev runs : Option DockerContainerInfo → Bool
runs none = false
runs (some c) = c.state == "running"

abbrev endpoints_of : Option String → List String
endpoints_of none = []
endpoints_of (some h) = h ∷ []

abbrev names_or : Option (List String) → Option CertMeta → Option (List String)
names_or (some names) meta = some names
names_or none (some meta) = some meta.names
names_or none none = none

-- The status document of a service, from what is left of the containers, the snapshot of GATE, the
-- certificate, the names that it must cover and the reason of a degradation
unfoldable pub status_doc :
    List DockerContainerInfo
    → List (String × GatedService)
    → Option CertMeta
    → Option (List String)
    → Option StageError
    → String
    → Option String
    → ServiceStatusDoc
unfolding project_cert_not_after renewal_error_for compute_service_phase
status_doc containers snapshot meta required reason service_id hostname =
    let last_error = renewal_error_for hostname reason (names_or required meta) in
    let container =
      find (λ (c : DockerContainerInfo). labelled service_id (lookup "wanfw.service" c.labels))
        containers in
    record {
      service_id = service_id;
      phase =
          compute_service_phase service_id (lookup service_id snapshot) (runs container) last_error;
      endpoints = endpoints_of (named hostname);
      cert_not_after = project_cert_not_after hostname meta;
      last_error = last_error;
    }
