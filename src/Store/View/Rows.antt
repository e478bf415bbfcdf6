-- ===== src/Store/View/Rows.antt =====
-- What a look-up finds after one change of a table of the state store
-- (packages/orchestrator/src/state-store/store.ts), in terms of what it found before.
use wanfw.Common.{
  arith, String, ◌≡◌, refl, Bool, true, false, not, ◌&&◌, ◌==◌, eq_iff, List, [], ◌∷◌, Option, none,
  some, find, filter, upsert, update_where, if◌then◌else◌, &&-eq-true,
}
use wanfw.Store.{KvRow, MetaRow, TrustRecordRow, is_null, is_version, is_kv}
use wanfw.Store.View.{is_live_trust}

abbrev pub kv_value : Option KvRow → Option String
kv_value o = elim o [ none ↦ none | some r ↦ some r.value ]

pub find-set :
    (p k v q j : String) (rows : List KvRow)
    → kv_value (
        find (is_kv q j) (
          upsert
            (is_kv p k)
            (λ r. record r { value = v })
            (record { plugin_id = p; key = k; value = v })
            rows))
      ≡ (if p == q && k == j then some v else kv_value (find (is_kv q j) rows))
find-set p k v q j [] = ground (arith, eq_iff p q, eq_iff k j)
find-set p k v q j (r ∷ rows) = ground (
  arith,
  find-set p k v q j rows,
  eq_iff r.plugin_id p,
  eq_iff r.plugin_id q,
  eq_iff p q,
  eq_iff r.key k,
  eq_iff r.key j,
  eq_iff k j,
)

pub find-delete :
    (p k q j : String) (rows : List KvRow)
    → kv_value (find (is_kv q j) (filter (λ r. not (is_kv p k r)) rows))
      ≡ (if p == q && k == j then none else kv_value (find (is_kv q j) rows))
find-delete p k q j [] = ground arith
find-delete p k q j (r ∷ rows) = ground (
  arith,
  find-delete p k q j rows,
  eq_iff r.plugin_id p,
  eq_iff r.plugin_id q,
  eq_iff p q,
  eq_iff r.key k,
  eq_iff r.key j,
  eq_iff k j,
)

abbrev pub meta_value : Option MetaRow → Option String
meta_value o = elim o [ none ↦ none | some r ↦ some r.value ]

pub find-set_meta :
    (k v j : String) (rows : List MetaRow)
    → meta_value (
        find
          (λ (r : MetaRow). r.key == j)
          (upsert
            (λ (r : MetaRow). r.key == k)
            (λ r. record r { value = v })
            (record { key = k; value = v })
            rows))
      ≡ (if k == j then some v else meta_value (find (λ (r : MetaRow). r.key == j) rows))
find-set_meta k v j [] = ground (arith, eq_iff k j)
find-set_meta k v j (r ∷ rows) =
    ground (arith, find-set_meta k v j rows, eq_iff r.key k, eq_iff r.key j, eq_iff k j)

pub find-trust :
    (f : TrustRecordRow → TrustRecordRow) (row : TrustRecordRow) (q w : String)
    (rows : List TrustRecordRow)
    → ((r : TrustRecordRow)
        → ((f r).plugin_id ≡ r.plugin_id) × ((f r).version ≡ r.version) × ((f r).revoked_at ≡ none))
    → row.revoked_at ≡ none
    → is_live_trust
        (find (is_version q w) (upsert (is_version row.plugin_id row.version) f row rows))
      ≡ (if row.plugin_id == q && row.version == w
          then true
          else is_live_trust (find (is_version q w) rows))
find-trust f row q w [] keep e = ground arith
find-trust f row q w (r ∷ rows) keep e = ground (
  arith,
  keep r,
  find-trust f row q w rows keep e,
  eq_iff r.plugin_id row.plugin_id,
  eq_iff r.plugin_id q,
  eq_iff row.plugin_id q,
  eq_iff r.version row.version,
  eq_iff r.version w,
  eq_iff row.version w,
)

-- Two tests on rows by their keys: where the keys are equal they are one test, else they exclude each
-- other.
same_test :
    (p v q w : String) (r : TrustRecordRow)
    → (p == q && v == w) ≡ true
    → is_version p v r ≡ is_version q w r
same_test p v q w r h =
    let (a, b) = &&-eq-true (p == q) (v == w) h in rw ((eq_iff p q).0 a, (eq_iff v w).0 b) refl

other_test :
    (p v q w : String) (r : TrustRecordRow)
    → (p == q && v == w) ≡ false
    → is_version p v r ≡ true
    → is_version q w r ≡ false
other_test p v q w r h k =
    let (a, b) = &&-eq-true (r.plugin_id == p) (r.version == v) k in
    rw ((eq_iff r.plugin_id p).0 a, (eq_iff r.version v).0 b) h

revoke_step :
    (now : String) (p q : TrustRecordRow → Bool) (b : Bool) (rows : List TrustRecordRow)
    → ((r : TrustRecordRow) → b ≡ true → p r ≡ q r)
    → ((r : TrustRecordRow) → b ≡ false → p r ≡ true → q r ≡ false)
    → ((r : TrustRecordRow) → q (record r { revoked_at = some now }) ≡ q r)
    → is_live_trust (
        find q (
          update_where
            (λ r. p r && is_null r.revoked_at)
            (λ r. record r { revoked_at = some now })
            rows))
      ≡ (if b then false else is_live_trust (find q rows))
revoke_step now p q b [] same other keep = ground arith
revoke_step now p q b (r ∷ rows) same other keep =
    ground (arith, revoke_step now p q b rows same other keep, same r, other r, keep r)

pub find-revoke_trust :
    (now p v q w : String) (rows : List TrustRecordRow)
    → is_live_trust (
        find (is_version q w) (
          update_where
            (λ r. is_version p v r && is_null r.revoked_at)
            (λ r. record r { revoked_at = some now })
            rows))
      ≡ (if p == q && v == w then false else is_live_trust (find (is_version q w) rows))
find-revoke_trust now p v q w rows =
    revoke_step now (is_version p v) (is_version q w) (p == q && v == w) rows (same_test p v q w)
      (other_test p v q w) (λ r. refl)
