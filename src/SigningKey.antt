-- ===== src/SigningKey.antt =====
-- The re-signing of all live rows when the signing key is rotated, and the payload of an approval
-- (packages/orchestrator/src/signing-key.ts). The signature is the argument `sign`, JSON.parse is
-- `json_parse`; the key's file and the generation of a key are left out.
pub mod Resigned
use wanfw.Common.{ℕ, String, Bool, false, ◌&&◌, ◌==◌, eqb, List, [], ◌∷◌, filter, update_where}
use wanfw.Json.{Json, str, obj, end, field, stringify}
use wanfw.Store.{
  StateStore, TrustRecordRow, GrantRow, ApprovalRow, is_version, has_hash, is_null,
  list_trust_records, list_approvals,
}
use wanfw.TrustFlow.{canonical_trust_record_payload, canonical_grant_payload}

unfoldable pub canonical_approval_payload : String → String → String → String
canonical_approval_payload projection_hash service_id human_rendering = stringify (
    obj (
      field "projectionHash" (str projection_hash)
        (field "serviceId" (str service_id) (field "humanRendering" (str human_rendering) end))))

-- `SELECT * FROM grants WHERE revoked_at IS NULL`
unfoldable pub all_grants : StateStore → List GrantRow
all_grants s = filter (λ (g : GrantRow). is_null g.revoked_at) s.grants

-- For each row listed, UPDATE ... SET sig = ? WHERE the key is the row's.
unfoldable pub re_sign :
    {A : Type 0} → (A → A → Bool) → (A → String) → (String → A → A) → List A → List A → List A
re_sign same sig_for set_sig [] rows = rows
re_sign same sig_for set_sig (x ∷ xs) rows =
    re_sign same sig_for set_sig xs (update_where (same x) (set_sig (sig_for x)) rows)

abbrev pub same_version : TrustRecordRow → TrustRecordRow → Bool
same_version x r = is_version x.plugin_id x.version r

abbrev pub same_id : GrantRow → GrantRow → Bool
same_id x r = eqb r.id x.id

abbrev pub same_hash : ApprovalRow → ApprovalRow → Bool
same_hash x r = has_hash x.projection_hash r

abbrev pub set_trust_sig : String → TrustRecordRow → TrustRecordRow
set_trust_sig sig r = record r { sig = sig }

abbrev pub set_grant_sig : String → GrantRow → GrantRow
set_grant_sig sig r = record r { sig = sig }

abbrev pub set_approval_sig : String → ApprovalRow → ApprovalRow
set_approval_sig sig r = record r { sig = sig }

module _ (json_parse : String → Json) (sign : String → String) where
  abbrev pub trust_sig : TrustRecordRow → String
  trust_sig r = sign (
      canonical_trust_record_payload json_parse sign r.plugin_id r.version r.sha256
        r.granted_caps_json)

  abbrev pub grant_sig : GrantRow → String
  grant_sig r = sign (canonical_grant_payload json_parse sign r.plugin_id r.cap r.scope_json)

  abbrev pub approval_sig : ApprovalRow → String
  approval_sig r =
      sign (canonical_approval_payload r.projection_hash r.service_id r.human_rendering)

  unfoldable pub re_sign_all : StateStore → StateStore
  unfolding re_sign all_grants
  re_sign_all s = record s {
    trust_records =
        re_sign same_version trust_sig set_trust_sig (list_trust_records s false) s.trust_records;
    grants = re_sign same_id grant_sig set_grant_sig (all_grants s) s.grants;
    approvals =
        re_sign same_hash approval_sig set_approval_sig (list_approvals s false) s.approvals;
  }
