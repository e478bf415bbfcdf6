-- ===== src/Tests/Dependencies.antt =====
-- Tests of dependency resolution.
use wanfw.Common.{String, ◌≡◌, ◌≢◌, refl, List, [], ◌∷◌, Option, none, some}
use wanfw.Json.{Json, str}
use wanfw.Pipeline.{failed}
use wanfw.Store.{list_trust_records}
use wanfw.Resolve.{
  Graph, ManifestLike, FrameworkSpec, out_of_fuel, search_graph, search, visit, scan, edges,
  color_of, slice_from, detect_cycle, dependency_graph,
}
use wanfw.Resolve.Cycles.{search_graph-ends}
use wanfw.Resolve.Report.{resolve_dependencies, resolve_stage, unique}
use wanfw.Tests.{trusting_store}

abbrev looped : Graph
looped = ("a", "b" ∷ "c" ∷ []) ∷ ("b", []) ∷ ("c", "d" ∷ []) ∷ ("d", "c" ∷ []) ∷ []

abbrev needs : List String → ManifestLike
needs plugins = record {
  id = "p";
  types = [];
  dependencies = some (record { settings = []; roles = "proxy" ∷ []; plugins = plugins });
}

abbrev two_manifests : List (String × ManifestLike)
two_manifests = ("caddy", needs ("dns" ∷ [])) ∷ ("dns", needs []) ∷ []

abbrev roles : List (String × String)
roles = ("proxy", "caddy") ∷ ("dnsProvider", "dns") ∷ []

cycle_found : detect_cycle two_manifests roles ≡ some ("caddy" ∷ "dns" ∷ "caddy" ∷ [])
unfolding detect_cycle search_graph dependency_graph search visit scan edges color_of slice_from
cycle_found = refl

abbrev spec : FrameworkSpec
spec = record {
  deployment_mode = some "subdomain";
  roles = ("deploy", "deploy-docker") ∷ [];
  fields = ("deploymentMode", str "subdomain") ∷ [];
}

abbrev show : Option Json → String
show none = "undefined"
show (some j) = "value"

abbrev manifest_of : String → Option ManifestLike
manifest_of sha256 = some (record {
  id = "deploy-docker";
  types = [];
  dependencies = some (record {
    settings = ("deploymentMode", str "subdomain") ∷ [];
    roles = "proxy" ∷ [];
    plugins = [];
  });
})

role_missing :
    resolve_stage show manifest_of trusting_store (some spec)
    ≡ failed (record {
      stage = "resolve";
      plugin = some "deploy-docker";
      message = "deploy-docker requires a 'proxy' role to be bound; none is";
    })
unfolding resolve_stage resolve_dependencies unique list_trust_records
role_missing = refl

search_graph-ends_example : search_graph looped ≢ out_of_fuel
search_graph-ends_example = search_graph-ends looped
