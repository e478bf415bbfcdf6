-- ===== src/Tests.antt =====
-- Data of the tests: one service, its specification, its plugin's grants, and a store that holds them.
mod Authority
mod Powers
mod Running
mod Leases
mod Status
mod Proxy
mod Attempts
mod Migrations
mod History
mod Certificates
mod HostCalls
mod Dependencies
mod Storing
mod Admin
mod Approvals
use wanfw.Common.{◌≡◌, refl, ℕ, String, Bool, true, false, List, [], ◌∷◌, Option, none, some}
use wanfw.Json.{str, Json, arr, obj, end, field, items, strs}
use wanfw.Spec.{ContainerSpec, bare_spec, bind, volume}
use wanfw.Store.{
  list_trust_records, list_grants, revoke_trust_record, revoke_grant, StateStore, TrustRecordRow,
  GrantRow, ApprovalRow, empty_store,
}
use wanfw.Pipeline.{ServiceDoc}
use wanfw.TrustFlow.{AuditEvent, done, untrust_plugin}

-- A stand-in for the digest
abbrev pub same_text : String → String
same_text s = s

-- The scope of every grant of the tests
abbrev pub any_repo : String → Json
any_repo s = obj (field "repos" (strs ("*" ∷ [])) end)

abbrev pub camera : ContainerSpec
camera = record (bare_spec "camera:1") {
  privileged = some true;
  env = some (("API_KEY", "x") ∷ []);
}

abbrev pub quiet_camera : ContainerSpec
quiet_camera = record (bare_spec "camera:1") { privileged = some true; restart = some "always" }

abbrev pub plugin_grant : ℕ → String → GrantRow
plugin_grant id cap = record {
  id = id;
  plugin_id = "deploy-docker";
  cap = cap;
  scope_json = "{}";
  sig = "";
  created_at = "t1";
  revoked_at = none;
}

abbrev pub trusted_plugin : TrustRecordRow
trusted_plugin = record {
  plugin_id = "deploy-docker";
  version = "1.0.0";
  sha256 = "aa";
  granted_caps_json = "[]";
  sig = "";
  created_at = "t1";
  revoked_at = none;
}

abbrev pub trusting_store : StateStore
trusting_store = record empty_store {
  trust_records = trusted_plugin ∷ [];
  grants = plugin_grant 1 "docker.image.pull" ∷ plugin_grant 2 "docker.privileged" ∷ [];
  next_grant_id = 3;
}

abbrev pub services : List ServiceDoc
services =
    record {
      id = "cam";
      deploy_plugin = some "deploy-docker";
      expose = record {
        hostname = "cam.example.org";
        backend_port = 80;
        backend_protocol = "http";
        remove_volumes_on_delete = none;
      };
      needs_persist = none;
    }
    ∷ []

abbrev pub approval : ApprovalRow
approval = record {
  projection_hash = "h1";
  service_id = "cam";
  human_rendering = "image: camera:1";
  sig = "";
  approved_at = "t2";
  revoked_at = none;
}

abbrev pub untrusted_store : StateStore
untrusted_store = record trusting_store {
  trust_records = record trusted_plugin { revoked_at = some "t3" } ∷ [];
  grants =
      record (plugin_grant 1 "docker.image.pull") { revoked_at = some "t3" }
      ∷ record (plugin_grant 2 "docker.privileged") { revoked_at = some "t3" }
      ∷ [];
}

abbrev pub untrust_event : AuditEvent
untrust_event = record {
  kind = "plugin.untrust";
  details = obj (field "pluginId" (str "deploy-docker") end);
}

pub untrusted :
    untrust_plugin "t3" trusting_store "deploy-docker" ≡ done untrusted_store untrust_event tt
unfolding untrust_plugin list_trust_records list_grants revoke_trust_record revoke_grant
untrusted = refl
