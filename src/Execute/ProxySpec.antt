-- ===== src/Execute/ProxySpec.antt =====
-- What the specification of the proxy container asks of the daemon.
use wanfw.Common.{ap, String, ◌≢◌, ◌↔◌, refl, List, [], or_else, In, In-map, inl, inr}
use wanfw.Spec.{MountSpec, ContainerSpec, service_network_name}
use wanfw.Validate.Tier.{SetsPowerful, binds, devices, host, privileged, caps, ports}
use wanfw.Execute.Proxy.{
  NetworkPlanLike, ProxyNetworks, build_proxy_container_spec, proxy_networks_from,
}

module _ (plan : NetworkPlanLike) (service_ids : List String)
    (exposure certs proxycfg : String) where
  abbrev networks_of : ProxyNetworks
  networks_of = proxy_networks_from plan service_ids

  unfoldable pub proxy_spec : ContainerSpec
  unfolding build_proxy_container_spec proxy_networks_from
  proxy_spec =
      build_proxy_container_spec exposure networks_of.service_networks networks_of.host_ports certs
        proxycfg

  ports_of_powers : SetsPowerful proxy_spec → networks_of.host_ports ≢ []
  unfolding proxy_spec build_proxy_container_spec proxy_networks_from
  ports_of_powers (binds m (inl e) b) h = cc (ap (λ (m : MountSpec). m.kind) e, b)
  ports_of_powers (binds m (inr (inl e)) b) h = cc (ap (λ (m : MountSpec). m.kind) e, b)
  ports_of_powers (binds m (inr (inr i)) b) h = elim i [ ]
  ports_of_powers (devices d) h = d refl
  ports_of_powers (host e) h = cc
  ports_of_powers (privileged e) h = cc
  ports_of_powers (caps c) h = c refl
  ports_of_powers (ports p) h = p h

  -- The proxy container joins the exposure network and the network of every service of the plan graph;
  -- of the powerful fields it sets only the published ports, and those just where the plan has some.
  pub proxy_spec-networks_ports :
      In exposure (or_else proxy_spec.networks [])
      × ((service_id : String)
          → In service_id service_ids
          → In (service_network_name service_id) (or_else proxy_spec.networks []))
      × (SetsPowerful proxy_spec ↔ (networks_of.host_ports ≢ []))
  unfolding proxy_spec build_proxy_container_spec proxy_networks_from
  proxy_spec-networks_ports = (
    inl refl,
    (λ service_id m. inr (In-map service_network_name service_id service_ids m)),
    (ports_of_powers, (λ h. ports h)),
  )
