-- ===== src/Resolve.antt =====
-- Dependency resolution (packages/orchestrator/src/dependency-resolution/resolve.ts) and the resolve
-- stage (packages/orchestrator/src/reconciler/core-stages.ts). What JSON.stringify prints of a value,
-- or of none, is the argument `show`; the manifest of a bundle, where it can be read, is `manifest_of`.
-- The search for a cycle is given fuel, one more than the graph has nodes.
pub mod Graph
pub mod Order
pub mod Search
pub mod Cycles
pub mod Report
use wanfw.Common.{
  ℕ, zero, suc, String, Bool, true, false, not, ◌&&◌, ◌==◌, eqb, if◌then◌else◌, List, [], ◌∷◌, ◌++◌,
  Option, none, some, append, join, map, length, is_some, any,
}
use wanfw.Json.{Json, null, bool, num, str, arr, obj}
use wanfw.Pipeline.{lookup, StageError, StageResult, ok, failed}
use wanfw.Scope.{includes}
use wanfw.Store.{StateStore, TrustRecordRow, list_trust_records}

-- An absent list is empty here: the code skips both.
pub record ManifestDependencies : Type 0 where
  pub settings : List (String × Json)
  pub roles : List String
  pub plugins : List String

pub record ManifestLike : Type 0 where
  pub id : String
  pub types : List String
  pub dependencies : Option ManifestDependencies

-- `fields` holds every field of the document, `deploymentMode` among them.
pub record FrameworkSpec : Type 0 where
  pub deployment_mode : Option String
  pub roles : List (String × String)
  pub fields : List (String × Json)

pub data DependencyErrorKind : Type 0 where
  setting role plugin cycle unimplemented : DependencyErrorKind

pub record DependencyError : Type 0 where
  pub plugin_id : String
  pub kind : DependencyErrorKind
  pub message : String

pub record ResolutionResult : Type 0 where
  pub ok : Bool
  pub errors : List DependencyError

-- The edges of a plugin in the dependency graph, by its id.
abbrev pub Graph : Type 0
Graph = List (String × List String)

pub data Color : Type 0 where
  white gray black : Color

-- The colours set, the newest first, and the path from the first node to the one being visited.
pub record Visited : Type 0 where
  pub color : List (String × Color)
  pub path : List String

pub data Visit : Type 0 where
  found : List String → Visit
  finished : Visited → Visit
  out_of_fuel : Visit

-- `graph.get(node) ?? []`
abbrev pub edges_of : Option (List String) → List String
edges_of none = []
edges_of (some es) = es

unfoldable pub edges : Graph → String → List String
edges g node = edges_of (lookup node g)

abbrev pub color_or_white : Option Color → Color
color_or_white none = white
color_or_white (some c) = c

-- `color.get(node) ?? WHITE`
unfoldable pub color_of : List (String × Color) → String → Color
color_of cs node = color_or_white (lookup node cs)

-- `path.slice(path.indexOf(node))`
unfoldable pub slice_from : String → List String → List String
slice_from node [] = []
slice_from node (x ∷ xs) = if x == node then x ∷ xs else slice_from node xs

abbrev pub pop : List String → List String
pop [] = []
pop (x ∷ []) = []
pop (x ∷ y ∷ xs) = x ∷ pop (y ∷ xs)

abbrev pub enter : String → Visited → Visited
enter node st = record { color = (node, gray) ∷ st.color; path = st.path ++ node ∷ [] }

abbrev pub leave : String → Visited → Visited
leave node st = record { color = (node, black) ∷ st.color; path = pop st.path }

abbrev pub after : Visit → (Visited → Visit) → Visit
after (found c) k = found c
after (finished st) k = k st
after out_of_fuel k = out_of_fuel

-- One edge, where `visit` is the recursive call.
abbrev pub follow : (Visited → String → Visit) → Visited → String → Color → Visit
follow visit st next white = visit st next
follow visit st next gray = found (slice_from next st.path ++ next ∷ [])
follow visit st next black = finished st

unfoldable pub scan : (Visited → String → Visit) → List String → Visited → Visit
scan visit [] st = finished st
scan visit (next ∷ rest) st =
    after (follow visit st next (color_of st.color next)) (λ st'. scan visit rest st')

unfoldable pub visit : ℕ → Graph → Visited → String → Visit
visit zero g st node = out_of_fuel
visit (suc fuel) g st node =
    after (scan (visit fuel g) (edges g node) (enter node st)) (λ st'. finished (leave node st'))

abbrev pub start_at : (Visited → String → Visit) → Visited → String → Color → Visit
start_at visit st node white = visit st node
start_at visit st node gray = finished st
start_at visit st node black = finished st

-- The loop over `graph.keys()`
unfoldable pub search : (Visited → String → Visit) → Graph → Visited → Visit
search visit [] st = finished st
search visit ((node, es) ∷ g) st =
    after (start_at visit st node (color_of st.color node)) (λ st'. search visit g st')

abbrev pub unvisited : Visited
unvisited = record { color = []; path = [] }

unfoldable pub search_graph : Graph → Visit
unfolding search visit
search_graph g = search (visit (suc (length g)) g) g unvisited

-- `if (boundId)`: an empty id is none.
abbrev pub bound : Option String → List String
bound none = []
bound (some id) = if id == "" then [] else id ∷ []

abbrev pub role_edges : List (String × String) → List String → List String
role_edges roles [] = []
role_edges roles (r ∷ rs) = bound (lookup r roles) ++ role_edges roles rs

abbrev pub dependency_edges : List (String × String) → Option ManifestDependencies → List String
dependency_edges roles none = []
dependency_edges roles (some deps) = deps.plugins ++ role_edges roles deps.roles

unfoldable pub dependency_graph : List (String × ManifestLike) → List (String × String) → Graph
dependency_graph manifests roles =
    map (λ (m : String × ManifestLike). (m.0, dependency_edges roles m.1.dependencies)) manifests

abbrev pub cycle_of : Visit → Option (List String)
cycle_of (found c) = some c
cycle_of (finished st) = none
cycle_of out_of_fuel = none

unfoldable pub detect_cycle :
    List (String × ManifestLike) → List (String × String) → Option (List String)
unfolding dependency_graph search_graph
detect_cycle manifests roles = cycle_of (search_graph (dependency_graph manifests roles))
