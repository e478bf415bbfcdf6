-- ===== src/Resolve/Report/Accepts.antt =====
-- When dependency resolution has nothing to report
-- (packages/orchestrator/src/dependency-resolution/resolve.ts).
use wanfw.Common.{String, ◌≡◌, true, List, [], ◌∷◌, Option, none, some, is_some, All}
use wanfw.Json.{Json}
use wanfw.Pipeline.{lookup}
use wanfw.Store.{StateStore}
use wanfw.Resolve.{ManifestDependencies, ManifestLike, FrameworkSpec}
use wanfw.Resolve.Report.{strictly_equal, trusted_record, is_bound}

module _ (store : StateStore) (framework : FrameworkSpec) where
  abbrev pub IsTrusted : String → Type 0
  IsTrusted id = is_some (trusted_record store id) ≡ true

  abbrev pub HasSetting : String × Json → Type 0
  HasSetting (key, expected) = strictly_equal (lookup key framework.fields) expected ≡ true

  abbrev pub IsBound : String → Type 0
  IsBound r = is_bound (lookup r framework.roles) ≡ true

  -- Every setting has the expected value, every role is bound and every plugin is trusted.
  abbrev pub DependenciesHold : Option ManifestDependencies → Type 0
  DependenciesHold none = Unit {0}
  DependenciesHold (some deps) =
      All HasSetting deps.settings × (All IsBound deps.roles × All IsTrusted deps.plugins)

  abbrev pub AllHold : List (String × ManifestLike) → Type 0
  AllHold [] = Unit {0}
  AllHold ((id, m) ∷ ms) = DependenciesHold m.dependencies × AllHold ms
