-- ===== src/Store/View.antt =====
-- What a client of the state store can observe of approvals, plugin state and meta over any sequence of
-- calls (packages/orchestrator/src/state-store/store.ts).
pub mod Rows
pub mod Refines
use wanfw.Common.{
  arith, ℕ, String, ◌≡◌, refl, sym, ap, ◌∙◌, Bool, true, false, not, ◌&&◌, ◌==◌, eq_iff, List, [],
  ◌∷◌, Option, none, some, find, filter, upsert, update_where, if◌then◌else◌, &&-eq-true,
}
use wanfw.Store.{
  StateStore, ApprovalRow, KvRow, MetaRow, TrustRecordRow, GrantRow, JournalRow, is_null,
  is_version, insert_trust_record, revoke_trust_record, get_trust_record, insert_grant,
  revoke_grant, append_journal, insert_approval, revoke_approval, is_approved, get_meta, set_meta,
  get_plugin_kv, set_plugin_kv, delete_plugin_kv, is_kv,
}

-- A version of a plugin is trusted: its record is not revoked.
abbrev pub is_live_trust : Option TrustRecordRow → Bool
is_live_trust none = false
is_live_trust (some r) = is_null r.revoked_at

unfoldable pub is_trusted : StateStore → String → String → Bool
unfolding get_trust_record
is_trusted s id version = is_live_trust (get_trust_record s id version)

-- Every method that changes the store. A method that reads the clock comes with its time.
pub data StoreOp : Type 0 where
  trust : TrustRecordRow → StoreOp
  untrust : String → String → String → StoreOp
  grant : GrantRow → StoreOp
  ungrant : String → ℕ → StoreOp
  approve : ApprovalRow → StoreOp
  unapprove : String → String → StoreOp
  put : String → String → String → StoreOp
  delete : String → String → StoreOp
  note : JournalRow → StoreOp
  put_meta : String → String → StoreOp

abbrev pub perform : StoreOp → StateStore → StateStore
perform (trust row) s = insert_trust_record s row
perform (untrust now id version) s = revoke_trust_record now s id version
perform (grant row) s = (insert_grant s row).0
perform (ungrant now id) s = revoke_grant now s id
perform (approve row) s = insert_approval s row
perform (unapprove now h) s = revoke_approval now s h
perform (put id key v) s = set_plugin_kv s id key v
perform (delete id key) s = delete_plugin_kv s id key
perform (note row) s = (append_journal s row).0
perform (put_meta key v) s = set_meta s key v

abbrev pub run : List StoreOp → StateStore → StateStore
run [] s = s
run (op ∷ ops) s = run ops (perform op s)

-- The abstract store: which versions are trusted and which hashes approved, and two maps.
pub record View : Type 0 where
  pub trusted : String → String → Bool
  pub approved : String → Bool
  pub kv : String → String → Option String
  pub meta : String → Option String

abbrev pub view : StateStore → View
view s = record {
  trusted = is_trusted s;
  approved = is_approved s;
  kv = get_plugin_kv s;
  meta = get_meta s;
}

-- The same calls on the abstract store.
abbrev pub observe : StoreOp → View → View
observe (trust row) a = record a {
  trusted = λ q w. if row.plugin_id == q && row.version == w then true else a.trusted q w;
}
observe (untrust now id version) a = record a {
  trusted = λ q w. if id == q && version == w then false else a.trusted q w;
}
observe (approve row) a = record a {
  approved = λ h. if row.projection_hash == h then true else a.approved h;
}
observe (unapprove now k) a = record a { approved = λ h. if k == h then false else a.approved h }
observe (put id key v) a = record a { kv = λ q j. if id == q && key == j then some v else a.kv q j }
observe (delete id key) a = record a { kv = λ q j. if id == q && key == j then none else a.kv q j }
observe (put_meta key v) a = record a { meta = λ j. if key == j then some v else a.meta j }
observe (grant row) a = a
observe (ungrant now id) a = a
observe (note row) a = a

abbrev pub replay : List StoreOp → View → View
replay [] a = a
replay (op ∷ ops) a = replay ops (observe op a)

pub record Agrees (a b : View) : Type 0 where
  pub trusted : (q w : String) → a.trusted q w ≡ b.trusted q w
  pub approved : (h : String) → a.approved h ≡ b.approved h
  pub kv : (q j : String) → a.kv q j ≡ b.kv q j
  pub meta : (j : String) → a.meta j ≡ b.meta j
