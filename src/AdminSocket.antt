-- ===== src/AdminSocket.antt =====
-- The routes of the admin socket that change anything (packages/orchestrator/src/admin-socket.ts), but
-- for the trust of built-in plugins, plugin tasks and the uninstall, which call the plugin host or the
-- Docker daemon. Of the composed schema, which trust and untrust publish as a status file, the model has
-- whether the publication fails. Operations on files and the database do not fail. A field that the body
-- does not have is none.
pub mod Audited
pub mod Approving
use wanfw.Common.{
  ℕ, suc, String, Bool, true, false, ◌==◌, if◌then◌else◌, List, [], ◌∷◌, Option, none, some, find,
  append, or_else,
}
use wanfw.Json.{Json, Fields, null, bool, num, str, obj, end, field, stringify, decimal}
use wanfw.Pipeline.{GatedService, lookup}
use wanfw.Store.{StateStore, insert_approval, revoke_approval, set_meta}
use wanfw.TrustFlow.{
  AuditEvent, TrustResult, TrustOutcome, refused, done, StagedBundle, trust_staged_bundle,
  untrust_plugin,
}
use wanfw.Audit.{AuditEntry, AuditEntryInput, AuditLog, Runtime, append_entry}
use wanfw.SigningKey.{canonical_approval_payload, re_sign_all}
use wanfw.HostState.{SecretFile, HostEnv, put_secret, unset_secret}
use wanfw.Certs.{
  CertVolume, CertDir, RollbackResult, never_stored, no_earlier_generation, rolled_back, name_dir,
  put_dir, rollback_cert,
}

-- `sign` and `verify` take the private key first. `key_error` is what the crypto library has against a
-- text as a private key, and `publish_error` what publishComposedSchema throws for the trust records of
-- a store, if anything. `new_key` is what the next rotation generates, and
-- `envelope_error` what `validateEnvelope` has against a document, if anything.
pub record AdminEnv : Type 0 where
  pub host : HostEnv
  pub json_stringify : AuditEntry → String
  pub parse_entry : String → Option AuditEntry
  pub trim : String → String
  pub sha256 : String → String
  pub sign : String → String → String
  pub verify : String → String → String → Option String → Bool
  pub new_key : String
  pub key_error : String → Option String
  pub publish_error : StateStore → Option String
  pub staged : List StagedBundle
  pub envelope_error : Json → Option String

-- `reconciles` counts the calls of onApprovalChange, onCertChange and onFrameworkChange.
pub record AdminState : Type 0 where
  pub key : String
  pub store : StateStore
  pub audit : AuditLog
  pub secrets : List SecretFile
  pub certs : CertVolume
  pub reconciles : ℕ

pub data AdminRequest : Type 0 where
  key_rotate : AdminRequest
  key_import : Option String → AdminRequest
  plugins_trust : Option String → Option String → AdminRequest
  plugins_untrust : Option String → AdminRequest
  plans_approve : Option String → Option String → AdminRequest
  plans_revoke : Option String → AdminRequest
  secrets_set : Option String → Option String → AdminRequest
  secrets_unset : Option String → AdminRequest
  certs_rollback : Option String → AdminRequest
  framework_set : Option Json → AdminRequest
  operator_info_set : Option Json → AdminRequest

pub record Response : Type 0 where
  pub status : ℕ
  pub error : Option (String × String)

abbrev pub ok : Response
ok = record { status = 200; error = none }

abbrev pub refusal : ℕ → String → String → Response
refusal status error message = record { status = status; error = some (error, message) }

-- What the router makes of an error that a route throws.
abbrev pub internal_error : String → Response
internal_error message = refusal 500 "internal_error" message

abbrev pub usage : String → Response
usage message = refusal 400 "usage" message

-- `if (!x)`: an empty text is none.
abbrev pub given : Option String → Option String
given none = none
given (some s) = if s == "" then none else some s

abbrev pub Reply : Type 0
Reply = Response × AdminState

module _ (env : AdminEnv) (snapshot : List (String × GatedService)) where
  -- What the audit log asks of its surroundings, with the key that is live.
  abbrev pub runtime : AdminState → Runtime
  runtime s = record {
    json_stringify = env.json_stringify;
    json_parse = env.parse_entry;
    trim = env.trim;
    sha256 = env.sha256;
    sign = env.sign s.key;
    verify = env.verify s.key;
  }

  unfoldable pub audited : String → Fields → AdminState → AdminState
  audited kind details s = record s {
    audit =
        append_entry (runtime s) env.host.now (record { kind = kind; details = details }) s.audit;
  }

  abbrev pub triggered : AdminState → AdminState
  triggered s = record s { reconciles = suc s.reconciles }

  unfoldable pub rotate : AdminState → Reply
  unfolding audited
  rotate s = (
    ok,
    audited "key.rotate" end (record s {
      key = env.new_key;
      store = re_sign_all env.host.json_parse (env.sign env.new_key) s.store;
    }),
  )

  abbrev pub accept_key : AdminState → String → Option String → Reply
  accept_key s pem (some message) = (internal_error message, s)
  accept_key s pem none = (ok, audited "key.import" end (record s { key = pem }))

  unfoldable pub import_key : AdminState → Option String → Reply
  unfolding audited
  import_key s none = (usage "privateKeyPem is required", s)
  import_key s (some pem) = accept_key s pem (env.key_error pem)

  abbrev pub details_of : Json → Fields
  details_of (obj fs) = fs
  details_of _ = end

  -- The publication of the composed schema, and the response after it.
  abbrev pub published : AdminState → Option String → Reply
  published s none = (ok, s)
  published s (some message) = (internal_error message, s)

  abbrev pub recorded : AdminState → StateStore → AuditEvent → Reply
  recorded s store event =
      published (audited event.kind (details_of event.details) (record s { store = store }))
        (env.publish_error store)

  abbrev pub after_trust : AdminState → TrustOutcome TrustResult → Reply
  after_trust s (refused message) = (refusal 409 "refused" message, s)
  after_trust s (done store event result) = recorded s store event

  unfoldable pub trust : AdminState → Option String → Option String → Reply
  unfolding audited
  trust s (some id) (some sha256) = after_trust s (
      trust_staged_bundle env.host.json_parse (env.sign s.key) env.host.now s.store env.staged id
        sha256)
  trust s none sha256 = (usage "id and sha256 are required", s)
  trust s (some id) none = (usage "id and sha256 are required", s)

  abbrev pub after_untrust : AdminState → TrustOutcome (Unit {0}) → Reply
  after_untrust s (refused message) = (refusal 404 "not_found" message, s)
  after_untrust s (done store event result) = recorded s store event

  unfoldable pub untrust : AdminState → Option String → Reply
  unfolding audited
  untrust s none = (usage "id is required", s)
  untrust s (some id) = after_untrust s (untrust_plugin env.host.now s.store id)

  abbrev pub second : Option (String × GatedService) → Option GatedService
  second none = none
  second (some (id, plan)) = some plan

  -- The plan under the hash, where one is given, else under the service id.
  unfoldable pub plan_asked_for : Option String → Option String → Option GatedService
  plan_asked_for service_id (some hash) =
      second (find (λ (p : String × GatedService). p.1.projection_hash == hash) snapshot)
  plan_asked_for (some service_id) none = lookup service_id snapshot
  plan_asked_for none none = none

  abbrev pub plan_details : GatedService → Fields
  plan_details plan =
      field "serviceId" (str plan.service_id)
        (field "projectionHash" (str plan.projection_hash) end)

  abbrev pub approve_plan : AdminState → Option GatedService → Reply
  approve_plan s none = (
    refusal 404 "not_found"
        "no matching pending plan (it may already be approved, or the reconciler hasn't produced it yet)",
    s,
  )
  approve_plan s (some plan) =
      let approved = record s {
        store = insert_approval s.store (record {
          projection_hash = plan.projection_hash;
          service_id = plan.service_id;
          human_rendering = plan.human_rendering;
          sig = env.sign s.key (
              canonical_approval_payload plan.projection_hash plan.service_id plan.human_rendering);
          approved_at = env.host.now;
          revoked_at = none;
        });
      } in
      (ok, triggered (audited "plan.approve" (plan_details plan) approved))

  unfoldable pub approve : AdminState → Option String → Option String → Reply
  unfolding audited plan_asked_for
  approve s service_id hash = approve_plan s (plan_asked_for service_id hash)

  unfoldable pub revoke : AdminState → Option String → Reply
  unfolding audited
  revoke s none = (usage "projectionHash is required", s)
  revoke s (some hash) = (
    ok,
    triggered (
        audited "plan.revoke" (field "projectionHash" (str hash) end)
          (record s { store = revoke_approval env.host.now s.store hash })),
  )

  unfoldable pub set_secret : AdminState → Option String → Option String → Reply
  unfolding audited
  set_secret s (some name) (some text) = (
    ok,
    audited "secret.set" (field "name" (str name) end)
        (record s { secrets = put_secret env.host name text s.secrets }),
  )
  set_secret s none text = (usage "name and value are required", s)
  set_secret s (some name) none = (usage "name and value are required", s)

  unfoldable pub unset_secret_route : AdminState → Option String → Reply
  unfolding audited
  unset_secret_route s none = (usage "name is required", s)
  unset_secret_route s (some name) = (
    ok,
    audited "secret.unset" (field "name" (str name) end)
        (record s { secrets = unset_secret env.host name s.secrets }),
  )

  abbrev pub after_rollback : AdminState → String → RollbackResult → Reply
  after_rollback s name never_stored = (
    refusal 400 "rollback-failed" (append "no cert named '" (append name "' has ever been stored")),
    s,
  )
  after_rollback s name no_earlier_generation = (
    refusal 400 "rollback-failed" (
        append "no earlier generation to roll back to for '" (
          append name (
            append "' (current is gen-"
              (append (decimal (or_else (name_dir s.certs name).current 0)) ")")))),
    s,
  )
  after_rollback s name (rolled_back n dir) = (
    ok,
    triggered (
        audited "cert.rollback" (field "name" (str name) (field "rolledBackTo" (num n) end))
          (record s { certs = put_dir s.certs name dir })),
  )

  unfoldable pub rollback : AdminState → Option String → Reply
  unfolding audited
  rollback s none = (usage "name is required", s)
  rollback s (some name) = after_rollback s name (rollback_cert (name_dir s.certs name))

  -- `body === undefined || body === null`
  abbrev pub no_body : Option Json → Option Json
  no_body none = none
  no_body (some null) = none
  no_body (some j) = some j

  abbrev pub accept_framework : AdminState → Json → Option String → Reply
  accept_framework s doc (some message) = (refusal 400 "invalid" message, s)
  accept_framework s doc none = (
    ok,
    triggered (
        audited "framework.set" end
          (record s { store = set_meta s.store "framework_doc" (stringify doc) })),
  )

  unfoldable pub set_framework : AdminState → Option Json → Reply
  unfolding audited
  set_framework s none = (usage "a framework document body is required", s)
  set_framework s (some doc) = accept_framework s doc (env.envelope_error doc)

  unfoldable pub set_operator_info : AdminState → Option Json → Reply
  unfolding audited
  set_operator_info s none = (usage "operator info body is required", s)
  set_operator_info s (some info) = (
    ok,
    audited "operator-info.set" end
        (record s { store = set_meta s.store "operator_info" (stringify info) }),
  )

  unfoldable pub route : AdminState → AdminRequest → Reply
  unfolding rotate import_key trust untrust approve revoke set_secret unset_secret_route rollback
      set_framework set_operator_info
  route s key_rotate = rotate s
  route s (key_import pem) = import_key s (given pem)
  route s (plugins_trust id sha256) = trust s (given id) (given sha256)
  route s (plugins_untrust id) = untrust s (given id)
  route s (plans_approve service_id hash) = approve s (given service_id) (given hash)
  route s (plans_revoke hash) = revoke s (given hash)
  route s (secrets_set name text) = set_secret s (given name) text
  route s (secrets_unset name) = unset_secret_route s (given name)
  route s (certs_rollback name) = rollback s (given name)
  route s (framework_set body) = set_framework s (no_body body)
  route s (operator_info_set body) = set_operator_info s (no_body body)
