-- ===== src/AdminSocket/Audited.antt =====
-- What the admin socket writes to the audit log (packages/orchestrator/src/admin-socket.ts).
use wanfw.Common.{String, ◌⊎◌, ◌≡◌, ◌≢◌, List, some}
use wanfw.Json.{Json, Fields}
use wanfw.Pipeline.{GatedService}
use wanfw.TrustFlow.{TrustOutcome, refused, done}
use wanfw.Audit.{append_entry}
use wanfw.AdminSocket.{
  internal_error, AdminEnv, AdminState, AdminRequest, key_rotate, key_import, plugins_trust,
  plugins_untrust, plans_approve, plans_revoke, secrets_set, secrets_unset, certs_rollback,
  framework_set, operator_info_set, Reply, runtime,
}

-- The type of the entry that a request leaves.
abbrev pub audit_kind : AdminRequest → String
audit_kind key_rotate = "key.rotate"
audit_kind (key_import pem) = "key.import"
audit_kind (plugins_trust id sha256) = "plugin.trust"
audit_kind (plugins_untrust id) = "plugin.untrust"
audit_kind (plans_approve service_id hash) = "plan.approve"
audit_kind (plans_revoke hash) = "plan.revoke"
audit_kind (secrets_set name text) = "secret.set"
audit_kind (secrets_unset name) = "secret.unset"
audit_kind (certs_rollback name) = "cert.rollback"
audit_kind (framework_set body) = "framework.set"
audit_kind (operator_info_set body) = "operator-info.set"

module _ (env : AdminEnv) (snapshot : List (String × GatedService)) where
  -- One more entry in the audit log, sealed under the key that is live in `t`.
  abbrev pub Logged : AdminState → String → AdminState → Type 0
  Logged s kind t =
      (details : Fields) × (t.audit
        ≡ append_entry (runtime env snapshot t) env.host.now
            (record { kind = kind; details = details }) s.audit)

  -- The publication of the composed schema after a trust or an untrust has failed.
  abbrev pub Unpublished : String → Reply → Type 0
  Unpublished kind (r, t) =
      ((kind ≡ "plugin.trust") ⊎ (kind ≡ "plugin.untrust"))
      × ((message : String) × ((env.publish_error t.store ≡ some message)
            × (r ≡ internal_error message)))

  -- A response of 200 goes with one more entry in the audit log, and another with the state as it was,
  -- unless the operation was done and logged and its publication failed.
  abbrev pub Recorded : AdminState → String → Reply → Type 0
  Recorded s kind (r, t) =
      (r.status ≢ 200 → (t ≡ s) ⊎ (Unpublished kind (r, t) × Logged s kind t))
      × (r.status ≡ 200 → Logged s kind t)

  -- The audit event of a trust operation, if there is one.
  abbrev EventKind : {A : Type 0} → String → TrustOutcome A → Type 0
  EventKind kind (refused m) = Unit {0}
  EventKind kind (done s e r) = e.kind ≡ kind
