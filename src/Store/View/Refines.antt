-- ===== src/Store/View/Refines.antt =====
-- The state store against its abstract view (packages/orchestrator/src/state-store/store.ts).
use wanfw.Common.{refl, ap, ◌∙◌, true, false, ◌&&◌, ◌==◌, List, [], ◌∷◌, none, some, if◌then◌else◌}
use wanfw.Store.{
  StateStore, insert_trust_record, revoke_trust_record, get_trust_record, insert_grant,
  revoke_grant, append_journal, insert_approval, revoke_approval, is_approved, get_meta, set_meta,
  get_plugin_kv, set_plugin_kv, delete_plugin_kv,
}
use wanfw.Store.Approvals.{is_approved-insert_approval, is_approved-revoke_approval}
use wanfw.Store.View.{
  is_trusted, StoreOp, trust, untrust, grant, ungrant, approve, unapprove, put, delete, note,
  put_meta, perform, run, View, view, observe, replay, Agrees,
}
use wanfw.Store.View.Rows.{find-set, find-delete, find-set_meta, find-trust, find-revoke_trust}

view-perform : (op : StoreOp) (s : StateStore) → Agrees (view (perform op s)) (observe op (view s))
unfolding is_trusted is_approved get_plugin_kv get_meta insert_trust_record revoke_trust_record
    insert_grant revoke_grant set_plugin_kv delete_plugin_kv append_journal set_meta
    get_trust_record insert_approval revoke_approval
view-perform (trust row) s = record {
  trusted = λ q w.
      find-trust _ (record row { revoked_at = none }) q w s.trust_records (λ r. (refl, refl, refl))
        refl;
  approved = λ h. refl;
  kv = λ q j. refl;
  meta = λ j. refl;
}
view-perform (untrust now id version) s = record {
  trusted = λ q w. find-revoke_trust now id version q w s.trust_records;
  approved = λ h. refl;
  kv = λ q j. refl;
  meta = λ j. refl;
}
view-perform (approve row) s = record {
  trusted = λ q w. refl;
  approved = is_approved-insert_approval s row;
  kv = λ q j. refl;
  meta = λ j. refl;
}
view-perform (unapprove now k) s = record {
  trusted = λ q w. refl;
  approved = is_approved-revoke_approval now s k;
  kv = λ q j. refl;
  meta = λ j. refl;
}
view-perform (put id key v) s = record {
  trusted = λ q w. refl;
  approved = λ h. refl;
  kv = λ q j. find-set id key v q j s.plugin_kv;
  meta = λ j. refl;
}
view-perform (delete id key) s = record {
  trusted = λ q w. refl;
  approved = λ h. refl;
  kv = λ q j. find-delete id key q j s.plugin_kv;
  meta = λ j. refl;
}
view-perform (put_meta key v) s = record {
  trusted = λ q w. refl;
  approved = λ h. refl;
  kv = λ q j. refl;
  meta = λ j. find-set_meta key v j s.meta;
}
view-perform (grant row) s = record {
  trusted = λ q w. refl;
  approved = λ h. refl;
  kv = λ q j. refl;
  meta = λ j. refl;
}
view-perform (ungrant now id) s = record {
  trusted = λ q w. refl;
  approved = λ h. refl;
  kv = λ q j. refl;
  meta = λ j. refl;
}
view-perform (note row) s = record {
  trusted = λ q w. refl;
  approved = λ h. refl;
  kv = λ q j. refl;
  meta = λ j. refl;
}

Agrees-trans : (a b c : View) → Agrees a b → Agrees b c → Agrees a c
Agrees-trans a b c h k = record {
  trusted = λ q w. h.trusted q w ∙ k.trusted q w;
  approved = λ x. h.approved x ∙ k.approved x;
  kv = λ q j. h.kv q j ∙ k.kv q j;
  meta = λ j. h.meta j ∙ k.meta j;
}

observe-Agrees : (op : StoreOp) (a b : View) → Agrees a b → Agrees (observe op a) (observe op b)
observe-Agrees (trust row) a b h = record {
  trusted =
      λ q w. ap (λ x. if row.plugin_id == q && row.version == w then true else x) (h.trusted q w);
  approved = h.approved;
  kv = h.kv;
  meta = h.meta;
}
observe-Agrees (untrust now id version) a b h = record {
  trusted = λ q w. ap (λ x. if id == q && version == w then false else x) (h.trusted q w);
  approved = h.approved;
  kv = h.kv;
  meta = h.meta;
}
observe-Agrees (approve row) a b h = record {
  trusted = h.trusted;
  kv = h.kv;
  meta = h.meta;
  approved = λ k. ap (λ x. if row.projection_hash == k then true else x) (h.approved k);
}
observe-Agrees (unapprove now k) a b h = record {
  trusted = h.trusted;
  kv = h.kv;
  meta = h.meta;
  approved = λ j. ap (λ x. if k == j then false else x) (h.approved j);
}
observe-Agrees (put id key v) a b h = record {
  trusted = h.trusted;
  approved = h.approved;
  meta = h.meta;
  kv = λ q j. ap (λ x. if id == q && key == j then some v else x) (h.kv q j);
}
observe-Agrees (delete id key) a b h = record {
  trusted = h.trusted;
  approved = h.approved;
  meta = h.meta;
  kv = λ q j. ap (λ x. if id == q && key == j then none else x) (h.kv q j);
}
observe-Agrees (put_meta key v) a b h = record {
  trusted = h.trusted;
  approved = h.approved;
  kv = h.kv;
  meta = λ j. ap (λ x. if key == j then some v else x) (h.meta j);
}
observe-Agrees (grant row) a b h = h
observe-Agrees (ungrant now id) a b h = h
observe-Agrees (note row) a b h = h

replay-Agrees :
    (ops : List StoreOp) (a b : View) → Agrees a b → Agrees (replay ops a) (replay ops b)
replay-Agrees [] a b h = h
replay-Agrees (op ∷ ops) a b h =
    replay-Agrees ops (observe op a) (observe op b) (observe-Agrees op a b h)

-- After any sequence of the methods that change the store, what is trusted, what is approved, and each
-- value of plugin state and of meta is what the same calls give on two sets and two maps: the tables
-- with their upserts and revocation times implement these.
pub run_refines :
    (ops : List StoreOp) (s : StateStore) → Agrees (view (run ops s)) (replay ops (view s))
run_refines [] s = record {
  trusted = λ q w. refl;
  approved = λ h. refl;
  kv = λ q j. refl;
  meta = λ j. refl;
}
run_refines (op ∷ ops) s =
    Agrees-trans (view (run ops (perform op s))) (replay ops (view (perform op s))) _
      (run_refines ops (perform op s))
      (replay-Agrees ops (view (perform op s)) (observe op (view s)) (view-perform op s))
