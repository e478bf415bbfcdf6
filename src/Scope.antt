-- ===== src/Scope.antt =====
-- Scope matching (packages/orchestrator/src/host-api/scope-matcher.ts): canonical paths, path
-- globs, name prefixes, zones and ports, and the check of a capability against decoded grants.
-- A grant's scope is read at the types to which the callers cast it: lists of texts or of numbers.
pub mod Segments
pub mod Glob
pub mod Names
use Prim.Native.Char.{Char}
use wanfw.Common.{
  ℕ, String, Bool, true, false, not, ◌&&◌, ◌||◌, ◌==◌, eqb, if◌then◌else◌, List, [], ◌∷◌, Option,
  none, some, any, all, filter, append, starts_with, ends_with, but_last, split, join, or_else,
}

-- `{ repos?, paths?, names?, zones?, caps?, ports? }`, the scope shapes of the capability table
pub record GrantScope : Type 0 where
  pub repos : Option (List String)
  pub paths : Option (List String)
  pub names : Option (List String)
  pub zones : Option (List String)
  pub caps : Option (List String)
  pub ports : Option (List ℕ)

pub record Grant : Type 0 where
  pub cap : String
  pub scope : GrantScope

-- `xs.includes(x)`
abbrev pub includes : List String → String → Bool
includes xs x = any (λ y. y == x) xs

-- `s.length > 0`
abbrev pub is_nonempty : String → Bool
is_nonempty String.[] = false
is_nonempty (String.◌∷◌ c s) = true

abbrev pub path_segments : String → List String
path_segments path = filter is_nonempty (split b'/' path)

unfoldable pub canonicalize_path : String → Option String
canonicalize_path path =
    if not (starts_with path "/")
    then none
    else (let segments = path_segments path in
        if includes segments ".." || includes segments "."
        then none
        else some (append "/" (join "/" segments)))

-- `pattern.slice(0, -2) || "/"`
abbrev pub glob_dir : String → String
glob_dir pattern = let dir = but_last (but_last pattern) in if dir == "" then "/" else dir

-- The comparison of two canonical paths; `is_dir` tells that the pattern ended in `/*`.
abbrev pub match_canonical : Bool → String → String → Bool
match_canonical true dir path =
    if dir == "/" then true else path == dir || starts_with path (append dir "/")
match_canonical false dir path = path == dir

-- `match_canonical` where both paths are canonical, and `false` where one is not
abbrev pub match_both : Bool → Option String → Option String → Bool
match_both is_dir (some dir) (some path) = match_canonical is_dir dir path
match_both is_dir none path = false
match_both is_dir (some dir) none = false

unfoldable pub match_path_glob : String → String → Bool
match_path_glob pattern path =
    let is_dir = ends_with pattern "/*" in
    match_both is_dir (canonicalize_path (if is_dir then glob_dir pattern else pattern))
      (canonicalize_path path)

unfoldable pub match_any_path_glob : List String → String → Bool
match_any_path_glob patterns path = any (λ p. match_path_glob p path) patterns

-- One pattern of `matchNamePrefix`.
abbrev pub match_name : String → String → Bool
match_name p name =
    if ends_with p "/*" then starts_with name (but_last p) else if p == "*" then true else p == name

unfoldable pub match_name_prefix : List String → String → Bool
match_name_prefix patterns name = any (λ p. match_name p name) patterns

unfoldable pub match_zone : List String → String → Bool
match_zone zones zone = includes zones "*" || includes zones zone

unfoldable pub match_port : List ℕ → ℕ → Bool
match_port ports port = any (λ p. eqb p port) ports

unfoldable pub match_port_range : List ℕ → List ℕ → Bool
unfolding match_port
match_port_range ports requested = all (λ p. match_port ports p) requested

unfoldable pub has_grant : List Grant → String → (GrantScope → Bool) → Bool
has_grant grants cap matches = any (λ g. g.cap == cap && matches g.scope) grants
