-- ===== src/Resolve/Report.antt =====
-- The report of dependency resolution and the resolve stage
-- (packages/orchestrator/src/dependency-resolution/resolve.ts, reconciler/core-stages.ts). What
-- JSON.stringify prints of a value, or of undefined, is the argument `show`; the manifest of a bundle,
-- where it can be read, is `manifest_of`.
pub mod Accepts
use wanfw.Common.{
  ℕ, String, Bool, true, false, not, ◌&&◌, ◌==◌, eqb, if◌then◌else◌, List, [], ◌∷◌, ◌++◌, Option,
  none, some, append, join, map, filter, last,
}
use wanfw.Json.{Json, null, bool, num, str, arr, obj}
use wanfw.Pipeline.{lookup, StageError, StageResult, ok, failed}
use wanfw.Scope.{includes}
use wanfw.Store.{StateStore, TrustRecordRow, list_trust_records}
use wanfw.Resolve.{
  ManifestDependencies, ManifestLike, FrameworkSpec, DependencyError, setting, role, plugin, cycle,
  unimplemented, ResolutionResult, detect_cycle,
}

-- `a === b`, where two objects or two arrays of different documents are never the same.
abbrev pub strictly_equal : Option Json → Json → Bool
strictly_equal (some null) null = true
strictly_equal (some (bool true)) (bool b) = b
strictly_equal (some (bool false)) (bool b) = not b
strictly_equal (some (num m)) (num n) = eqb m n
strictly_equal (some (str s)) (str t) = s == t
strictly_equal _ _ = false

-- `new Set(...)`, in the order of the first occurrences
abbrev pub without_text : String → List String → List String
without_text x xs = filter (λ y. not (y == x)) xs

unfoldable pub unique : List String → List String
unique [] = []
unique (x ∷ xs) = x ∷ without_text x (unique xs)

-- `new Map(records.map(...)).get(pluginId)`: the last record of an id stands.
unfoldable pub trusted_record : StateStore → String → Option TrustRecordRow
trusted_record store plugin_id =
    last
      (filter (λ (r : TrustRecordRow). r.plugin_id == plugin_id) (list_trust_records store false))

abbrev pub found_manifest : String → Option ManifestLike → List (String × ManifestLike)
found_manifest id none = []
found_manifest id (some m) = (id, m) ∷ []

abbrev pub untrusted_error : String → DependencyError
untrusted_error id = record {
  plugin_id = id;
  kind = plugin;
  message = append "role binding references '" (append id "', which is not currently trusted");
}

-- A role without a plugin, or with an empty id, is not bound.
abbrev pub is_bound : Option String → Bool
is_bound none = false
is_bound (some id) = not (id == "")

abbrev pub trust_errors : String → Option TrustRecordRow → List DependencyError
trust_errors id none = untrusted_error id ∷ []
trust_errors id (some r) = []

unfoldable pub untrusted_errors : StateStore → List String → List DependencyError
unfolding trusted_record
untrusted_errors store [] = []
untrusted_errors store (id ∷ ids) =
    trust_errors id (trusted_record store id) ++ untrusted_errors store ids

abbrev pub port_errors : Option String → List DependencyError
port_errors none = []
port_errors (some mode) =
    if mode == "port"
    then record {
      plugin_id = "framework";
      kind = unimplemented;
      message = "deploymentMode=port is modeled but not implemented until v1.1";
    }
      ∷ []
    else []

unfoldable pub role_errors : FrameworkSpec → String → List String → List DependencyError
role_errors framework id [] = []
role_errors framework id (r ∷ rs) =
    (if is_bound (lookup r framework.roles)
      then []
      else record {
        plugin_id = id;
        kind = role;
        message = append id (append " requires a '" (append r "' role to be bound; none is"));
      }
        ∷ [])
    ++ role_errors framework id rs

abbrev pub required_error : String → String → Option TrustRecordRow → List DependencyError
required_error id wanted (some r) = []
required_error id wanted none =
    record {
      plugin_id = id;
      kind = plugin;
      message =
          append id (append " requires plugin '" (append wanted "' to be trusted; it is not"));
    }
    ∷ []

unfoldable pub plugin_errors : StateStore → String → List String → List DependencyError
unfolding trusted_record
plugin_errors store id [] = []
plugin_errors store id (wanted ∷ ids) =
    required_error id wanted (trusted_record store wanted) ++ plugin_errors store id ids

abbrev pub cycle_errors : Option (List String) → List DependencyError
cycle_errors none = []
cycle_errors (some []) = []
cycle_errors (some (id ∷ ids)) =
    record {
      plugin_id = id;
      kind = cycle;
      message = append "dependency cycle detected: " (join " -> " (id ∷ ids));
    }
    ∷ []

abbrev pub is_empty : List DependencyError → Bool
is_empty [] = true
is_empty (e ∷ es) = false

abbrev pub bound_ids : FrameworkSpec → List String
bound_ids framework = unique (map (λ (r : String × String). r.1) framework.roles)

abbrev pub first_failure : List DependencyError → StageResult
first_failure [] = ok
first_failure (e ∷ es) =
    failed (record { stage = "resolve"; plugin = some e.plugin_id; message = e.message })

module _ (show : Option Json → String) where
  abbrev pub setting_error : String → String → Json → Option Json → DependencyError
  setting_error id key expected actual = record {
    plugin_id = id;
    kind = setting;
    message = append id (
        append " requires " (
          append key
            (append "=" (append (show (some expected)) (append "; current: " (show actual))))));
  }

  unfoldable pub setting_errors :
      FrameworkSpec → String → List (String × Json) → List DependencyError
  setting_errors framework id [] = []
  setting_errors framework id ((key, expected) ∷ settings) =
      let actual = lookup key framework.fields in
      (if strictly_equal actual expected then [] else setting_error id key expected actual ∷ [])
      ++ setting_errors framework id settings

  abbrev pub dependency_errors :
      StateStore → FrameworkSpec → String → Option ManifestDependencies → List DependencyError
  dependency_errors store framework id none = []
  dependency_errors store framework id (some deps) =
      setting_errors framework id deps.settings
      ++ (role_errors framework id deps.roles ++ plugin_errors store id deps.plugins)

  unfoldable pub all_dependency_errors :
      StateStore → FrameworkSpec → List (String × ManifestLike) → List DependencyError
  unfolding setting_errors role_errors plugin_errors
  all_dependency_errors store framework [] = []
  all_dependency_errors store framework ((id, m) ∷ ms) =
      dependency_errors store framework id m.dependencies
      ++ all_dependency_errors store framework ms

module _ (manifest_of : String → Option ManifestLike) where
  abbrev pub manifest_with : String → Option TrustRecordRow → List (String × ManifestLike)
  manifest_with id none = []
  manifest_with id (some r) = found_manifest id (manifest_of r.sha256)

  unfoldable pub manifests : StateStore → List String → List (String × ManifestLike)
  unfolding trusted_record
  manifests store [] = []
  manifests store (id ∷ ids) = manifest_with id (trusted_record store id) ++ manifests store ids

module _ (show : Option Json → String) (manifest_of : String → Option ManifestLike) where
  abbrev pub resolution_errors : StateStore → FrameworkSpec → List DependencyError
  resolution_errors store framework =
      let ids = bound_ids framework in
      let ms = manifests manifest_of store ids in
      untrusted_errors store ids
      ++ (port_errors framework.deployment_mode
          ++ (all_dependency_errors show store framework ms
              ++ cycle_errors (detect_cycle ms framework.roles)))

  unfoldable pub resolve_dependencies : StateStore → FrameworkSpec → ResolutionResult
  unfolding manifests untrusted_errors all_dependency_errors
  resolve_dependencies store framework =
      let errors = resolution_errors store framework in
      record { ok = is_empty errors; errors = errors }

  -- The resolve stage; before `init` there is no framework document, and nothing to resolve.
  unfoldable pub resolve_stage : StateStore → Option FrameworkSpec → StageResult
  unfolding resolve_dependencies
  resolve_stage store none = ok
  resolve_stage store (some framework) = first_failure (resolve_dependencies store framework).errors

-- `checkServiceExposeStub`
unfoldable pub check_service_expose_stub : Option String → Option DependencyError
check_service_expose_stub none = none
check_service_expose_stub (some tier) =
    if tier == "quarantine"
    then some (record {
      plugin_id = "core";
      kind = unimplemented;
      message = "isolationTier=quarantine is modeled but not implemented until v1.1";
    })
    else none
