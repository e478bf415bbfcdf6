-- ===== src/HostApi/Escape.antt =====
-- What a grant on one directory of secrets gives access to, where the name that a plugin asks for
-- holds "..": the grant is matched against the name as it is written, the file is looked up by the
-- path that path.join makes of it (packages/orchestrator/src/host-api/dispatcher.ts, secrets/store.ts).
use wanfw.Common.{String, ◌≡◌, refl, sym, ap, true, List, some, append, append_assoc, In}
use wanfw.Scope.{Grant}
use wanfw.Scope.Names.{NameCovers, below, match_name_prefix_iff, has_grant_iff}
use wanfw.HostState.{HostState, HostEnv, secrets_get, found, get_secret, secret_path, SecretFile}
use wanfw.HostApi.{dispatch, decoded_grants, secrets_get_handler, may_read_secret}

get_secret-joined :
    (env : HostEnv) (asked name : String) (files : List SecretFile)
    → env.join_path env.secrets_dir asked ≡ env.join_path env.secrets_dir name
    → get_secret env asked files ≡ get_secret env name files
unfolding get_secret secret_path
get_secret-joined env asked name files e = rw e refl

-- A plugin with a grant to read the secrets below one directory reads every secret, whoever owns it: it
-- asks for the secret's name behind the directory and "..", which path.join takes away again.
pub secrets_get-escapes :
    (env : HostEnv) (s : HostState) (plugin_id dir name : String) (g : Grant) (names : List String)
    → In g (decoded_grants env s plugin_id)
    → g.cap ≡ "secrets.read"
    → g.scope.names ≡ some names
    → In (append dir "/*") names
    → env.join_path env.secrets_dir (append dir (append "/../" name))
      ≡ env.join_path env.secrets_dir name
    → dispatch env s plugin_id (secrets_get (append dir (append "/../" name)))
      ≡ (found (get_secret env name s.secrets), s)
unfolding dispatch secrets_get_handler
secrets_get-escapes env s plugin_id dir name g names m cap scope covered joined =
    let asked : String = append dir (append "/../" name) in
    let covers : (q : String) × In q names × NameCovers q asked = (
      append dir "/*",
      covered,
      below dir (append "../" name) refl (sym (append_assoc dir "/" (append "../" name))),
    ) in
    let may : may_read_secret env s plugin_id asked ≡ true =
      (has_grant_iff (decoded_grants env s plugin_id) "secrets.read" _).1
        (g, m, cap, rw scope ((match_name_prefix_iff names asked).1 covers)) in
    rw may (ap (λ o. (found o, s)) (get_secret-joined env asked name s.secrets joined))
