-- ===== src/Store.antt =====
-- The state store (packages/orchestrator/src/state-store/store.ts): each SQL table is the list of its
-- rows in insertion order, each method a function on the tables. The time at which a method runs is
-- its argument `now`.
pub mod Approvals
pub mod View
pub mod Trust
use wanfw.Common.{
  ℕ, suc, ◌+◌, String, Bool, true, false, not, ◌&&◌, ◌||◌, ◌==◌, eqb, leb, if◌then◌else◌, List, [],
  ◌∷◌, ◌++◌, Option, none, some, filter, find, is_some, sort, text_le, update_where, delete_where,
  upsert,
}

pub record TrustRecordRow : Type 0 where
  pub plugin_id : String
  pub version : String
  pub sha256 : String
  pub granted_caps_json : String
  pub sig : String
  pub created_at : String
  pub revoked_at : Option String

pub record GrantRow : Type 0 where
  pub id : ℕ
  pub plugin_id : String
  pub cap : String
  pub scope_json : String
  pub sig : String
  pub created_at : String
  pub revoked_at : Option String

pub record ApprovalRow : Type 0 where
  pub projection_hash : String
  pub service_id : String
  pub human_rendering : String
  pub sig : String
  pub approved_at : String
  pub revoked_at : Option String

pub record JournalRow : Type 0 where
  pub id : ℕ
  pub plan_id : String
  pub step : String
  pub payload_json : String
  pub result : String
  pub ts : String

pub record KvRow : Type 0 where
  pub plugin_id : String
  pub key : String
  pub value : String

pub record MetaRow : Type 0 where
  pub key : String
  pub value : String

-- The tables, and the counters of the two AUTOINCREMENT keys.
pub record StateStore : Type 0 where
  pub trust_records : List TrustRecordRow
  pub grants : List GrantRow
  pub next_grant_id : ℕ
  pub approvals : List ApprovalRow
  pub plugin_kv : List KvRow
  pub journal : List JournalRow
  pub next_journal_id : ℕ
  pub meta : List MetaRow

abbrev pub empty_store : StateStore
empty_store = record {
  trust_records = [];
  grants = [];
  next_grant_id = 1;
  approvals = [];
  plugin_kv = [];
  journal = [];
  next_journal_id = 1;
  meta = [];
}

-- `revoked_at IS NULL`
abbrev pub is_null : Option String → Bool
is_null o = not (is_some o)

-- meta

unfoldable pub get_meta : StateStore → String → Option String
get_meta s key = elim (find (λ (r : MetaRow). r.key == key) s.meta) [
  | none ↦ none
  | some r ↦ some r.value
]

unfoldable pub set_meta : StateStore → String → String → StateStore
set_meta s key value = record s {
  meta =
      upsert (λ (r : MetaRow). r.key == key) (λ r. record r { value = value })
        (record { key = key; value = value }) s.meta;
}

-- trust_records

abbrev pub is_version : String → String → TrustRecordRow → Bool
is_version plugin_id version r = r.plugin_id == plugin_id && r.version == version

-- The row inserted is live; over an existing row it clears `revoked_at`.
unfoldable pub insert_trust_record : StateStore → TrustRecordRow → StateStore
insert_trust_record s row = record s {
  trust_records =
      upsert (is_version row.plugin_id row.version)
        (λ r. record r {
          sha256 = row.sha256;
          granted_caps_json = row.granted_caps_json;
          sig = row.sig;
          created_at = row.created_at;
          revoked_at = none;
        })
        (record row { revoked_at = none }) s.trust_records;
}

unfoldable pub get_trust_record : StateStore → String → String → Option TrustRecordRow
get_trust_record s plugin_id version = find (is_version plugin_id version) s.trust_records

-- ORDER BY plugin_id, version
abbrev pub trust_le : TrustRecordRow → TrustRecordRow → Bool
trust_le a b =
    if a.plugin_id == b.plugin_id
    then text_le a.version b.version
    else text_le a.plugin_id b.plugin_id

unfoldable pub list_trust_records : StateStore → Bool → List TrustRecordRow
list_trust_records s include_revoked = sort trust_le (
    if include_revoked
    then s.trust_records
    else filter (λ (r : TrustRecordRow). is_null r.revoked_at) s.trust_records)

unfoldable pub revoke_trust_record : String → StateStore → String → String → StateStore
revoke_trust_record now s plugin_id version = record s {
  trust_records =
      update_where (λ r. is_version plugin_id version r && is_null r.revoked_at)
        (λ r. record r { revoked_at = some now }) s.trust_records;
}

-- grants

unfoldable pub insert_grant : StateStore → GrantRow → StateStore × ℕ
insert_grant s row = (
  record s {
    grants = s.grants ++ (record row { id = s.next_grant_id; revoked_at = none } ∷ []);
    next_grant_id = suc s.next_grant_id;
  },
  s.next_grant_id,
)

abbrev pub grant_le : GrantRow → GrantRow → Bool
grant_le a b = leb a.id b.id

unfoldable pub list_grants : StateStore → String → Bool → List GrantRow
list_grants s plugin_id include_revoked = sort grant_le (
    filter (λ (r : GrantRow). r.plugin_id == plugin_id && (include_revoked || is_null r.revoked_at))
      s.grants)

unfoldable pub revoke_grant : String → StateStore → ℕ → StateStore
revoke_grant now s id = record s {
  grants =
      update_where (λ (r : GrantRow). eqb r.id id && is_null r.revoked_at)
        (λ r. record r { revoked_at = some now }) s.grants;
}

-- approvals

abbrev pub has_hash : String → ApprovalRow → Bool
has_hash projection_hash r = r.projection_hash == projection_hash

unfoldable pub insert_approval : StateStore → ApprovalRow → StateStore
insert_approval s row = record s {
  approvals =
      upsert (has_hash row.projection_hash)
        (λ r. record r {
          service_id = row.service_id;
          human_rendering = row.human_rendering;
          sig = row.sig;
          approved_at = row.approved_at;
          revoked_at = none;
        })
        (record row { revoked_at = none }) s.approvals;
}

unfoldable pub get_approval : StateStore → String → Option ApprovalRow
get_approval s projection_hash = find (has_hash projection_hash) s.approvals

abbrev pub is_live : Option ApprovalRow → Bool
is_live none = false
is_live (some r) = is_null r.revoked_at

unfoldable pub is_approved : StateStore → String → Bool
unfolding get_approval
is_approved s projection_hash = is_live (get_approval s projection_hash)

-- ORDER BY approved_at
abbrev pub approval_le : ApprovalRow → ApprovalRow → Bool
approval_le a b = text_le a.approved_at b.approved_at

unfoldable pub list_approvals : StateStore → Bool → List ApprovalRow
list_approvals s include_revoked = sort approval_le (
    if include_revoked
    then s.approvals
    else filter (λ (r : ApprovalRow). is_null r.revoked_at) s.approvals)

unfoldable pub revoke_approval : String → StateStore → String → StateStore
revoke_approval now s projection_hash = record s {
  approvals =
      update_where (λ r. has_hash projection_hash r && is_null r.revoked_at)
        (λ r. record r { revoked_at = some now }) s.approvals;
}

-- plugin_kv

abbrev pub is_kv : String → String → KvRow → Bool
is_kv plugin_id key r = r.plugin_id == plugin_id && r.key == key

unfoldable pub get_plugin_kv : StateStore → String → String → Option String
get_plugin_kv s plugin_id key = elim (find (is_kv plugin_id key) s.plugin_kv) [
  | none ↦ none
  | some r ↦ some r.value
]

unfoldable pub set_plugin_kv : StateStore → String → String → String → StateStore
set_plugin_kv s plugin_id key value = record s {
  plugin_kv =
      upsert (is_kv plugin_id key) (λ r. record r { value = value })
        (record { plugin_id = plugin_id; key = key; value = value }) s.plugin_kv;
}

unfoldable pub delete_plugin_kv : StateStore → String → String → StateStore
delete_plugin_kv s plugin_id key = record s {
  plugin_kv = delete_where (is_kv plugin_id key) s.plugin_kv;
}

-- journal

unfoldable pub append_journal : StateStore → JournalRow → StateStore × ℕ
append_journal s row = (
  record s {
    journal = s.journal ++ (record row { id = s.next_journal_id } ∷ []);
    next_journal_id = suc s.next_journal_id;
  },
  s.next_journal_id,
)

abbrev pub journal_le : JournalRow → JournalRow → Bool
journal_le a b = leb a.id b.id

unfoldable pub list_journal : StateStore → String → List JournalRow
list_journal s plan_id =
    sort journal_le (filter (λ (r : JournalRow). r.plan_id == plan_id) s.journal)
