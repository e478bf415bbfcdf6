-- ===== src/Tests/Admin.antt =====
-- Tests of the admin socket and of the re-signing that it asks for.
use wanfw.Common.{
  Bool, ◌≡◌, refl, sym, ◌∙◌, inl, inr, true, false, ◌==◌, [], ◌∷◌, none, some, append, eqb,
  if◌then◌else◌,
}
use wanfw.Store.{StateStore, list_trust_records, list_approvals, revoke_approval}
use wanfw.HostState.{done}
use wanfw.Audit.{new_log}
use wanfw.SigningKey.{
  re_sign_all, re_sign, all_grants, canonical_approval_payload, same_version, same_hash, same_id,
  trust_sig, grant_sig, approval_sig, set_trust_sig, set_grant_sig, set_approval_sig,
}
use wanfw.SigningKey.Resigned.{
  HasKeys, IsKeyed, Resigned, is_live_trust, is_live_grant, is_live_approval, re_sign_all-Resigned,
}
use wanfw.AdminSocket.{
  AdminEnv, AdminState, plans_revoke, key_rotate, key_import, import_key, route, rotate, revoke,
  audited,
}
use wanfw.Tests.{same_text, any_repo, trusting_store, approval}

abbrev pub env : AdminEnv
env = record {
  host = record {
    now = "t9";
    json_parse = any_repo;
    number = λ s. none;
    join_path = λ dir name. append dir (append "/" name);
    secrets_dir = "/s";
    manifest_types = λ s. none;
    roles = [];
    answer = λ before call. done none;
    probe_network = none;
    type_error = λ method. append method " was called without a receiver";
  };
  json_stringify = λ e. if eqb e.base.seq 1 then "1" else "2";
  parse_entry = λ s. none;
  trim = same_text;
  sha256 = same_text;
  sign = λ key s. append key s;
  verify = λ key s sig other. sig == append key s;
  new_key = "new";
  key_error = λ pem. if pem == "pem" then none else some "unsupported";
  publish_error = λ store. none;
  staged = [];
  envelope_error = λ doc. none;
}

abbrev approved : StateStore
approved = record trusting_store { approvals = approval ∷ [] }

abbrev pub admin : AdminState
admin = record {
  key = "old";
  store = approved;
  audit = new_log;
  secrets = [];
  certs = [];
  reconciles = 0;
}

rotate_signs :
    (route env [] admin key_rotate).1.store.approvals
    ≡ record approval {
      sig = append "new" (canonical_approval_payload "h1" "cam" "image: camera:1");
    }
      ∷ []
unfolding route rotate audited re_sign_all re_sign all_grants list_trust_records list_approvals
    canonical_approval_payload
rotate_signs = refl

revoke_triggers : (route env [] admin (plans_revoke (some "h1"))).1.reconciles ≡ 1
unfolding route revoke audited revoke_approval
revoke_triggers = refl

empty_field : (route env [] admin (plans_revoke (some ""))).0.status ≡ 400
unfolding route revoke audited
empty_field = refl

bad_key : (route env [] admin (key_import (some "x"))).0.status ≡ 500
unfolding route import_key audited
bad_key = refl

approved-HasKeys : HasKeys approved
approved-HasKeys = record { versions = one same_version; ids = two; hashes = one same_hash }
  where
    one : {A : Type 0} (same : A → A → Bool) {a : A} → IsKeyed same (a ∷ [])
    one same x y (inl p) (inl q) e = sym p ∙ q
    one same x y (inr p) m e = elim p [ ]
    one same x y (inl p) (inr q) e = elim q [ ]

    two : IsKeyed same_id approved.grants
    two x y (inl p) (inl q) e = sym p ∙ q
    two x y (inr (inl p)) (inr (inl q)) e = sym p ∙ q
    two x y (inl p) (inr (inl q)) e = let bad : false ≡ true = (λ i. same_id (p i) (q i)) ∙ e in cc
    two x y (inr (inl p)) (inl q) e = let bad : false ≡ true = (λ i. same_id (p i) (q i)) ∙ e in cc
    two x y (inr (inr p)) m e = elim p [ ]
    two x y (inl p) (inr (inr q)) e = elim q [ ]
    two x y (inr (inl p)) (inr (inr q)) e = elim q [ ]

re_sign_all-Resigned_example :
    (let t = re_sign_all any_repo same_text approved in
      Resigned is_live_trust
        (trust_sig any_repo same_text)
        set_trust_sig
        approved.trust_records
        t.trust_records
      × Resigned is_live_grant (grant_sig any_repo same_text) set_grant_sig approved.grants t.grants
      × Resigned is_live_approval
          (approval_sig any_repo same_text)
          set_approval_sig
          approved.approvals
          t.approvals
      × (t ≡ record approved {
        trust_records = t.trust_records;
        grants = t.grants;
        approvals = t.approvals;
      }))
re_sign_all-Resigned_example = re_sign_all-Resigned any_repo same_text approved approved-HasKeys
