-- ===== src/Tests/Proxy.antt =====
-- Tests of the proxy container.
use wanfw.Common.{String, ◌≢◌, ◌↔◌, [], ◌∷◌, none, some, or_else, In}
use wanfw.Spec.{service_network_name}
use wanfw.Validate.Tier.{SetsPowerful}
use wanfw.Execute.Proxy.{NetworkPlanLike, proxy_networks_from}
use wanfw.Execute.ProxySpec.{proxy_spec, proxy_spec-networks_ports}

abbrev bridge_plan : NetworkPlanLike
bridge_plan = record {
  attachment_network = some "wanfw_exposure";
  endpoint = some (record { kind = some "host-ports"; ports = some (443 ∷ 80 ∷ []) });
  resources = none;
}

bridge_networks :
    In "wanfw_exposure"
      (or_else (proxy_spec bridge_plan ("web" ∷ []) "wanfw_exposure" "c" "p").networks [])
    × ((service_id : String)
        → In service_id ("web" ∷ [])
        → In
            (service_network_name service_id)
            (or_else (proxy_spec bridge_plan ("web" ∷ []) "wanfw_exposure" "c" "p").networks []))
    × (SetsPowerful (proxy_spec bridge_plan ("web" ∷ []) "wanfw_exposure" "c" "p")
        ↔ ((proxy_networks_from bridge_plan ("web" ∷ [])).host_ports ≢ []))
bridge_networks = proxy_spec-networks_ports bridge_plan ("web" ∷ []) "wanfw_exposure" "c" "p"
