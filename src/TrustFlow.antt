-- ===== src/TrustFlow.antt =====
-- Trusting and untrusting a plugin (packages/orchestrator/src/trust/trust-flow.ts) and the payloads
-- that are signed (packages/orchestrator/src/signing-key.ts). The signature is the argument `sign`,
-- `JSON.parse` is `json_parse`, and what staging finds for an id and a hash is `staged`; the copies of
-- bundle files are not modelled. A call that throws leaves the store as it was.
pub mod Untrust
pub mod Upgrade
use wanfw.Common.{
  ℕ, String, Bool, true, false, not, ◌&&◌, ◌==◌, if◌then◌else◌, List, [], ◌∷◌, ◌++◌, map, filter,
  find, append, Option, none, some, last, is_some,
}
use wanfw.Json.{Json, str, bool, obj, Fields, end, field, strs, stringify, as_strings}
use wanfw.Scope.{includes}
use wanfw.Store.{
  StateStore, TrustRecordRow, GrantRow, insert_trust_record, list_trust_records,
  revoke_trust_record, insert_grant, list_grants, revoke_grant,
}

pub record ManifestCapability : Type 0 where
  pub cap : String
  pub scope : Json
  pub reason : String

-- The fields of a manifest that the orchestrator reads.
pub record Manifest : Type 0 where
  pub id : String
  pub version : String
  pub types : List String
  pub capabilities : List ManifestCapability

pub record CapabilityDiffEntry : Type 0 where
  pub cap : String
  pub reason : String

pub record UpgradeDiff : Type 0 where
  pub added : List CapabilityDiffEntry
  pub removed : List CapabilityDiffEntry

pub record AuditEvent : Type 0 where
  pub kind : String
  pub details : Json

pub record TrustResult : Type 0 where
  pub plugin_id : String
  pub version : String
  pub sha256 : String
  pub granted_caps : List String
  pub upgrade_diff : Option UpgradeDiff

-- `TrustFlowError`, or the new store, the audit event and the result
pub data TrustOutcome (A : Type 0) : Type 0 where
  refused : String → TrustOutcome A
  done : StateStore → AuditEvent → A → TrustOutcome A

abbrev pub caps_of : List ManifestCapability → List String
caps_of cs = map (λ (c : ManifestCapability). c.cap) cs

-- The capabilities of the first list that the second does not name.
unfoldable pub missing_from :
    List ManifestCapability → List ManifestCapability → List CapabilityDiffEntry
missing_from cs others =
    map (λ (c : ManifestCapability). record { cap = c.cap; reason = c.reason })
      (filter (λ (c : ManifestCapability). not (includes (caps_of others) c.cap)) cs)

unfoldable pub compute_upgrade_diff :
    Option (List ManifestCapability) → Manifest → Option UpgradeDiff
unfolding missing_from
compute_upgrade_diff none next = none
compute_upgrade_diff (some previous) next = some (record {
  added = missing_from next.capabilities previous;
  removed = missing_from previous next.capabilities;
})

-- A bundle in the staging directory (packages/orchestrator/src/trust/staging.ts)
pub record StagedBundle : Type 0 where
  pub sha256 : String
  pub manifest : Option Manifest

abbrev pub is_staged : String → String → StagedBundle → Bool
is_staged id sha256 b = elim b.manifest [ none ↦ false | some m ↦ m.id == id && b.sha256 == sha256 ]

unfoldable pub find_staged_bundle : List StagedBundle → String → String → Option StagedBundle
find_staged_bundle bundles id sha256 = find (is_staged id sha256) bundles

abbrev pub live_records : StateStore → String → List TrustRecordRow
live_records store id =
    filter (λ (r : TrustRecordRow). r.plugin_id == id) (list_trust_records store false)

module _ (json_parse : String → Json) (sign : String → String) where
  unfoldable pub canonical_trust_record_payload : String → String → String → String → String
  canonical_trust_record_payload plugin_id version sha256 granted_caps_json = stringify (
      obj (
        field "pluginId" (str plugin_id) (
          field "version" (str version) (
            field "sha256" (str sha256) (field "grantedCaps" (json_parse granted_caps_json) end)))))

  unfoldable pub canonical_grant_payload : String → String → String → String
  canonical_grant_payload plugin_id cap scope_json = stringify (
      obj (
        field "pluginId" (str plugin_id)
          (field "cap" (str cap) (field "scope" (json_parse scope_json) end))))

  -- One grant for each capability of the manifest.
  unfoldable pub insert_grants : String → String → StateStore → List ManifestCapability → StateStore
  unfolding canonical_grant_payload
  insert_grants now id store [] = store
  insert_grants now id store (c ∷ cs) =
      let scope_json = stringify c.scope in
      insert_grants now id
        (insert_grant store (record {
          id = 0;
          plugin_id = id;
          cap = c.cap;
          scope_json = scope_json;
          sig = sign (canonical_grant_payload id c.cap scope_json);
          created_at = now;
          revoked_at = none;
        })).0
        cs

  unfoldable pub record_trust_and_grants : String → StateStore → Manifest → String → StateStore
  unfolding canonical_trust_record_payload insert_grants
  record_trust_and_grants now store manifest sha256 =
      let granted_caps_json = stringify (strs (caps_of manifest.capabilities)) in
      insert_grants now manifest.id
        (insert_trust_record store (record {
          plugin_id = manifest.id;
          version = manifest.version;
          sha256 = sha256;
          granted_caps_json = granted_caps_json;
          sig = sign (
              canonical_trust_record_payload manifest.id manifest.version sha256 granted_caps_json);
          created_at = now;
          revoked_at = none;
        }))
        manifest.capabilities

  -- The capabilities of the last live trust record of the plugin.
  unfoldable pub previous_trusted_capabilities :
      StateStore → String → Option (List ManifestCapability)
  previous_trusted_capabilities store plugin_id = elim (last (live_records store plugin_id)) [
    | none ↦ none
    | some latest ↦ some (
        map (λ cap. record { cap = cap; scope = obj end; reason = "" })
          (as_strings (json_parse latest.granted_caps_json)))
  ]

  abbrev trust_details : String → String → String → Fields → Json
  trust_details id version sha256 more =
      obj (
        field "pluginId" (str id)
          (field "version" (str version) (field "sha256" (str sha256) more)))

  unfoldable pub trust_found :
      String → StateStore → Option StagedBundle → String → String → TrustOutcome TrustResult
  unfolding record_trust_and_grants previous_trusted_capabilities compute_upgrade_diff
  trust_found now store none id sha256 =
      refused (append "no staged bundle matches " (append id (append "@" sha256)))
  trust_found now store (some bundle) id sha256 = elim bundle.manifest [
    | none ↦ refused (append "no staged bundle matches " (append id (append "@" sha256)))
    | some manifest ↦
        done (record_trust_and_grants now store manifest sha256)
          (record { kind = "plugin.trust"; details = trust_details id manifest.version sha256 end })
          (record {
            plugin_id = id;
            version = manifest.version;
            sha256 = sha256;
            granted_caps = caps_of manifest.capabilities;
            upgrade_diff = compute_upgrade_diff (previous_trusted_capabilities store id) manifest;
          })
  ]

  unfoldable pub trust_staged_bundle :
      String → StateStore → List StagedBundle → String → String → TrustOutcome TrustResult
  unfolding trust_found find_staged_bundle
  trust_staged_bundle now store bundles id sha256 =
      trust_found now store (find_staged_bundle bundles id sha256) id sha256

  -- A built-in plugin, with the id, version, manifest and hash that the pluginhost reports
  unfoldable pub trust_builtin :
      String → StateStore → String → String → Manifest → String → TrustOutcome TrustResult
  trust_builtin now store id version manifest sha256 =
      done (record_trust_and_grants now store manifest sha256)
        (record {
          kind = "plugin.trust";
          details = trust_details id version sha256 (field "builtin" (bool true) end);
        })
        (record {
          plugin_id = id;
          version = version;
          sha256 = sha256;
          granted_caps = caps_of manifest.capabilities;
          upgrade_diff = compute_upgrade_diff (previous_trusted_capabilities store id) manifest;
        })

-- The loops of `untrustPlugin`
unfoldable pub revoke_records : String → StateStore → List TrustRecordRow → StateStore
revoke_records now store [] = store
revoke_records now store (r ∷ rs) =
    revoke_records now (revoke_trust_record now store r.plugin_id r.version) rs

unfoldable pub revoke_grants : String → StateStore → List GrantRow → StateStore
revoke_grants now store [] = store
revoke_grants now store (g ∷ gs) = revoke_grants now (revoke_grant now store g.id) gs

-- `untrustPlugin` with the live records that it has found
unfoldable pub untrust_found :
    String → StateStore → String → List TrustRecordRow → TrustOutcome (Unit {0})
unfolding revoke_records revoke_grants
untrust_found now store id [] = refused (append "plugin " (append id " is not currently trusted"))
untrust_found now store id (r ∷ rs) =
    let store' = revoke_records now store (r ∷ rs) in
    done (revoke_grants now store' (list_grants store' id false))
      (record { kind = "plugin.untrust"; details = obj (field "pluginId" (str id) end) }) tt

unfoldable pub untrust_plugin : String → StateStore → String → TrustOutcome (Unit {0})
unfolding untrust_found
untrust_plugin now store id = untrust_found now store id (live_records store id)
