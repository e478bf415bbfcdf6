-- ===== src/Grants.antt =====
-- Grants as VALIDATE and the host API read them from the store
-- (packages/orchestrator/src/validate/grants-adapter.ts, host-api/dispatcher.ts). `JSON.parse` is the
-- argument `json_parse`; a scope's lists are read at the types to which the callers cast them.
use wanfw.Common.{ℕ, String, List, map, Option, none, some, false}
use wanfw.Json.{Json, obj, Fields, get_field, as_strings, as_nums}
use wanfw.Scope.{GrantScope, Grant}
use wanfw.Store.{StateStore, GrantRow, list_grants}

abbrev pub texts_under : String → Fields → Option (List String)
texts_under k fs = elim (get_field k fs) [ none ↦ none | some v ↦ some (as_strings v) ]

abbrev pub nums_under : String → Fields → Option (List ℕ)
nums_under k fs = elim (get_field k fs) [ none ↦ none | some v ↦ some (as_nums v) ]

abbrev pub no_scope : GrantScope
no_scope = record {
  repos = none;
  paths = none;
  names = none;
  zones = none;
  caps = none;
  ports = none;
}

-- A scope read as an object
unfoldable pub scope_of_json : Json → GrantScope
scope_of_json (obj fs) = record {
  repos = texts_under "repos" fs;
  paths = texts_under "paths" fs;
  names = texts_under "names" fs;
  zones = texts_under "zones" fs;
  caps = texts_under "caps" fs;
  ports = nums_under "ports" fs;
}
scope_of_json _ = no_scope

module _ (json_parse : String → Json) where
  abbrev pub grant_of_row : GrantRow → Grant
  grant_of_row r = record { cap = r.cap; scope = scope_of_json (json_parse r.scope_json) }

  -- The live grants of a plugin, read anew from the store
  unfoldable pub load_grants_for_plugin : StateStore → String → List Grant
  load_grants_for_plugin store plugin_id = map grant_of_row (list_grants store plugin_id false)
