-- ===== src/Execute/Proxy.antt =====
-- The proxy container of EXECUTE (packages/orchestrator/src/execute/proxy-container.ts): its
-- specification, its networks, and the steps that make the daemon match it.
use wanfw.Common.{
  ℕ, String, true, ◌==◌, if◌then◌else◌, List, [], ◌∷◌, ◌++◌, Option, none, some, or_else, map, find,
}
use wanfw.Spec.{volume, MountSpec, ContainerSpec, bare_spec, service_network_name}
use wanfw.Docker.{NetworkDriverOptions, Reply, DockerClient}
use wanfw.Ensure.{StepResult, StepLabels, ensure_network, ensure_container, connect}
use wanfw.Execute.{Ran, StageRun, stage_failure, run_steps, error_entry}

abbrev pub proxy_container_name : String
proxy_container_name = "wanfw-proxy"

abbrev proxy_image : String
proxy_image = "caddy@sha256:af5fdcd76f2db5e4e974ee92f96ee8c0fc3edb55bd4ba5032547cbf3f65e486d"

pub record NetworkResource : Type 0 where
  pub name : String
  pub driver : Option String
  pub parent : Option String
  pub ipam_subnet : Option String
  pub ipam_gateway : Option String

pub record Endpoint : Type 0 where
  pub kind : Option String
  pub ports : Option (List ℕ)

pub record NetworkPlanLike : Type 0 where
  pub attachment_network : Option String
  pub endpoint : Option Endpoint
  pub resources : Option (List NetworkResource)

abbrev read_only_volume : String → String → MountSpec
read_only_volume source target = record {
  kind = volume;
  source = source;
  target = target;
  read_only = some true;
}

unfoldable pub build_proxy_container_spec :
    String → List String → List ℕ → String → String → ContainerSpec
build_proxy_container_spec exposure_network service_networks host_ports certs_volume
      proxycfg_volume =
    record (bare_spec proxy_image) {
      mounts = some (
          read_only_volume certs_volume "/data/certs"
          ∷ read_only_volume proxycfg_volume "/etc/caddy"
          ∷ []);
      ports = some host_ports;
      networks = some (exposure_network ∷ service_networks);
      restart = some "unless-stopped";
    }

abbrev driver_options_of : Option NetworkResource → Option NetworkDriverOptions
driver_options_of none = none
driver_options_of (some r) = some (record {
  driver = r.driver;
  parent = r.parent;
  subnet = r.ipam_subnet;
  gateway = r.ipam_gateway;
})

-- The options of the exposure network, which is not blank where EXECUTE asks for them
unfoldable pub exposure_network_driver_options :
    NetworkPlanLike → String → Option NetworkDriverOptions
exposure_network_driver_options plan exposure_network =
    driver_options_of
      (find (λ (r : NetworkResource). r.name == exposure_network) (or_else plan.resources []))

abbrev host_ports_of : Option Endpoint → List ℕ
host_ports_of none = []
host_ports_of (some e) = if or_else e.kind "" == "host-ports" then or_else e.ports [] else []

pub record ProxyNetworks : Type 0 where
  pub exposure_network : Option String
  pub service_networks : List String
  pub host_ports : List ℕ

unfoldable pub proxy_networks_from : NetworkPlanLike → List String → ProxyNetworks
proxy_networks_from plan service_ids = record {
  exposure_network = plan.attachment_network;
  service_networks = map service_network_name service_ids;
  host_ports = host_ports_of plan.endpoint;
}

module _ {W : Type 0} (sha256 trim : String → String) (number : String → ℕ)
    (docker : DockerClient W) (plan_id certs_volume proxycfg_volume : String) where
  abbrev core_labels : StepLabels
  core_labels = record { service = none; plan = plan_id; core = true }

  unfoldable pub proxy_steps :
      NetworkPlanLike → ProxyNetworks → String → List (W → Reply W StepResult)
  unfolding build_proxy_container_spec exposure_network_driver_options
  proxy_steps plan networks exposure_network =
      let spec =
        build_proxy_container_spec exposure_network networks.service_networks networks.host_ports
          certs_volume proxycfg_volume in
      ensure_network sha256 trim number docker exposure_network core_labels
        (exposure_network_driver_options plan exposure_network)
      ∷ ensure_container sha256 trim number docker proxy_container_name spec core_labels
      ∷ map (λ n. connect sha256 trim number docker proxy_container_name n)
          (or_else spec.networks [])

  abbrev with_error_entry : Ran W → StageRun W
  with_error_entry r = elim r.error [
    | none ↦ record { journal = r.journal; world = r.world; error = none }
    | some message ↦ record {
      journal = r.journal ++ error_entry "error:proxy-container" message ∷ [];
      world = r.world;
      error = some (stage_failure "proxy" message);
    }
  ]

  abbrev at_network : NetworkPlanLike → ProxyNetworks → Option String → W → StageRun W
  at_network plan networks none w = record { journal = []; world = w; error = none }
  at_network plan networks (some network) w =
      if network == ""
      then record { journal = []; world = w; error = none }
      else with_error_entry (run_steps (proxy_steps plan networks network) w)

  -- The part of the stage after the loop over the services, up to the reload of the configuration
  unfoldable pub execute_proxy : Option NetworkPlanLike → List String → W → StageRun W
  unfolding proxy_steps proxy_networks_from run_steps
  execute_proxy none service_ids w = record { journal = []; world = w; error = none }
  execute_proxy (some plan) service_ids w =
      let networks = proxy_networks_from plan service_ids in
      at_network plan networks networks.exposure_network w
