-- ===== src/Tests/HostCalls.antt =====
-- Tests of the host API.
use wanfw.Common.{
  String, ◌≡◌, refl, inl, true, ◌==◌, List, [], ◌∷◌, none, some, if◌then◌else◌, append, ends_with,
  starts_with,
}
use wanfw.Json.{obj, field, end, strs}
use wanfw.Scope.{Grant, has_grant, match_name_prefix}
use wanfw.Store.{empty_store, get_plugin_kv, list_grants}
use wanfw.Grants.{load_grants_for_plugin, scope_of_json, grant_of_row}
use wanfw.HostState.{
  HostState, HostEnv, HostCall, SecretFile, done, secrets_get, state_put, ipam_release, found,
  get_secret,
}
use wanfw.HostApi.{dispatch, decoded_grants, secrets_get_handler}
use wanfw.HostApi.Refusals.{is_refusal, SameButDns, dispatch-refused_same}
use wanfw.HostApi.Isolation.{SameAuthority, NotBy, run_calls, run_calls-isolates}
use wanfw.HostApi.Authority.{Permitted, dispatch-Permitted, dispatch-untrust_plugin}
use wanfw.HostApi.Escape.{secrets_get-escapes}
use wanfw.Tests.{
  plugin_grant, trusted_plugin, trusting_store, untrusted_store, untrust_event, untrusted,
}

-- path.join on the paths of the tests
abbrev joined : String → String → String
joined dir name =
    if name == "camera/../acme/key" then "/s/acme/key" else append dir (append "/" name)

abbrev env : HostEnv
env = record {
  now = "t9";
  json_parse = λ s. obj (field "names" (strs ("camera/*" ∷ [])) end);
  number = λ s. none;
  join_path = joined;
  secrets_dir = "/s";
  manifest_types = λ s. some ("network-provider" ∷ []);
  roles = [];
  answer = λ before call. done none;
  probe_network = none;
  type_error = λ method. append method " was called without a receiver";
}

abbrev secret : String → String → SecretFile
secret path text = record { path = path; value = text }

abbrev host : HostState
host = record {
  store = record empty_store {
    trust_records = trusted_plugin ∷ [];
    grants = plugin_grant 1 "secrets.read" ∷ [];
    next_grant_id = 2;
  };
  ipam = record { ranges = []; allocations = [] };
  secrets = secret "/s/camera/token" "abc" ∷ secret "/s/acme/key" "xyz" ∷ [];
  certs = [];
  log = [];
  dns_calls = [];
  cert_changes = 0;
}

own_secret : (dispatch env host "deploy-docker" (secrets_get "camera/token")).0 ≡ found (some "abc")
unfolding dispatch secrets_get_handler has_grant decoded_grants load_grants_for_plugin list_grants
    match_name_prefix scope_of_json ends_with starts_with get_secret
own_secret = refl

other_secret : is_refusal (dispatch env host "deploy-docker" (secrets_get "acme/key")).0 ≡ true
unfolding dispatch secrets_get_handler has_grant decoded_grants load_grants_for_plugin list_grants
    match_name_prefix scope_of_json ends_with starts_with get_secret
other_secret = refl

dispatch-refused_same_example :
    SameButDns host (dispatch env host "deploy-docker" (secrets_get "acme/key")).1
dispatch-refused_same_example =
    dispatch-refused_same env host "deploy-docker" (secrets_get "acme/key") other_secret

dispatch-Permitted_example : Permitted env host "deploy-docker" (secrets_get "camera/token")
unfolding dispatch secrets_get_handler has_grant decoded_grants load_grants_for_plugin list_grants
    match_name_prefix scope_of_json ends_with starts_with get_secret
dispatch-Permitted_example =
    dispatch-Permitted env host "deploy-docker" (secrets_get "camera/token") refl

abbrev calls : List (String × HostCall)
calls =
    ("deploy-docker", state_put "a" "1")
    ∷ ("other", state_put "a" "2")
    ∷ ("deploy-docker", secrets_get "acme/key")
    ∷ []

run_calls-isolates_example :
    SameAuthority host.store (run_calls env calls host).store
    × ((q : String)
        → NotBy env q calls
        → (key : String)
        → get_plugin_kv (run_calls env calls host).store q key ≡ get_plugin_kv host.store q key)
run_calls-isolates_example = run_calls-isolates env calls host

dispatch-untrust_plugin_example :
    let s = record host { store = untrusted_store } in
    (is_refusal (dispatch env s "deploy-docker" (ipam_release "10.0.0.1")).0 ≡ true)
    × SameButDns s (dispatch env s "deploy-docker" (ipam_release "10.0.0.1")).1
dispatch-untrust_plugin_example =
    dispatch-untrust_plugin env (record host { store = untrusted_store }) "t3" trusting_store
      "deploy-docker" untrust_event (ipam_release "10.0.0.1") untrusted refl

abbrev camera_grant : Grant
camera_grant = grant_of_row env.json_parse (plugin_grant 1 "secrets.read")

secrets_get-escapes_example :
    dispatch env host "deploy-docker" (secrets_get "camera/../acme/key")
    ≡ (found (get_secret env "acme/key" host.secrets), host)
unfolding decoded_grants load_grants_for_plugin list_grants scope_of_json
secrets_get-escapes_example =
    secrets_get-escapes env host "deploy-docker" "camera" "acme/key" camera_grant ("camera/*" ∷ [])
      (inl refl) refl refl (inl refl) refl
