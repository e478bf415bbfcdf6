-- ===== src/TrustFlow/Untrust.antt =====
-- What is left of a plugin's authority after it is untrusted.
use wanfw.Common.{
  inl, eq_iff, subst, String, ◌≡◌, refl, sym, Bool, true, false, ◌&&◌, ◌==◌, List, [], ◌∷◌, map,
  arith, In, In-map, In-sort, In-filter, In-of_sort, In-of_filter, All, All-of_In, of_All,
  &&-eq-true,
}
use wanfw.Json.{Json}
use wanfw.Spec.{ContainerSpec}
use wanfw.Validate.{validate_container_spec}
use wanfw.Validate.Authorized.{validate_container_spec-no_grants}
use wanfw.Grants.{load_grants_for_plugin}
use wanfw.Store.{
  StateStore, TrustRecordRow, GrantRow, is_null, list_trust_records, revoke_trust_record,
  list_grants, revoke_grant,
}
use wanfw.Store.Trust.{
  ids, PendingGrants, Pending-revoke, NoLiveGrant, list_grants_of_NoLiveGrant, PendingTrust,
  PendingTrust-revoke, NoLiveTrust,
}
use wanfw.TrustFlow.{
  untrust_found, AuditEvent, done, live_records, revoke_records, revoke_grants, untrust_plugin,
}

not_pending : (b : Bool) → (b ≡ true → ⊥) → b ≡ false
not_pending true h = absurd (h refl)
not_pending false h = refl

All-map :
    {A : Type 0} (P Q : A → Type 0) (xs : List A) → ((a : A) → P a → Q a) → All P xs → All Q xs
All-map P Q [] f h = tt
All-map P Q (x ∷ xs) f (p, h) = (f x p, All-map P Q xs f h)

revoke_grants-NoLiveGrant :
    (now id : String) (gs : List GrantRow) (s : StateStore)
    → PendingGrants id (ids gs) s.grants
    → NoLiveGrant id (revoke_grants now s gs).grants
unfolding revoke_grants revoke_grant
revoke_grants-NoLiveGrant now id [] s h =
    All-map _ _ s.grants (λ r p. not_pending (r.plugin_id == id && is_null r.revoked_at) p) h
revoke_grants-NoLiveGrant now id (g ∷ gs) s h =
    revoke_grants-NoLiveGrant now id gs (revoke_grant now s g.id)
      (Pending-revoke now id g.id (ids gs) s.grants h)

revoke_grants-trust_records :
    (now : String) (gs : List GrantRow) (s : StateStore)
    → (revoke_grants now s gs).trust_records ≡ s.trust_records
unfolding revoke_grants revoke_grant
revoke_grants-trust_records now [] s = refl
revoke_grants-trust_records now (g ∷ gs) s =
    revoke_grants-trust_records now gs (revoke_grant now s g.id)

-- The listed grants are all that are live.
pending_at_first :
    (id : String) (s : StateStore) → PendingGrants id (ids (list_grants s id false)) s.grants
unfolding list_grants
pending_at_first id s = All-of_In _ s.grants λ r m live.
    In-map (λ (g : GrantRow). g.id) r _
      (In-sort _ r _
        (In-filter (λ (g : GrantRow). g.plugin_id == id && is_null g.revoked_at) r s.grants m live))

abbrev versions : List TrustRecordRow → List String
versions rs = map (λ (r : TrustRecordRow). r.version) rs

revoke_records-NoLiveTrust :
    (now id : String) (rs : List TrustRecordRow) (s : StateStore)
    → All (λ r. r.plugin_id ≡ id) rs
    → PendingTrust id (versions rs) s.trust_records
    → NoLiveTrust id (revoke_records now s rs).trust_records
unfolding revoke_records revoke_trust_record
revoke_records-NoLiveTrust now id [] s own h =
    All-map _ _ s.trust_records (λ r p. not_pending (r.plugin_id == id && is_null r.revoked_at) p) h
revoke_records-NoLiveTrust now id (r ∷ rs) s (e, own) h =
    revoke_records-NoLiveTrust now id rs (revoke_trust_record now s r.plugin_id r.version) own
      (rw e (PendingTrust-revoke now id r.version (versions rs) s.trust_records h))

records_at_first :
    (id : String) (s : StateStore) → PendingTrust id (versions (live_records s id)) s.trust_records
unfolding list_trust_records
records_at_first id s = All-of_In _ s.trust_records λ r m live.
    let (same, null) = &&-eq-true (r.plugin_id == id) (is_null r.revoked_at) live in
    In-map (λ (t : TrustRecordRow). t.version) r (live_records s id)
      (In-filter (λ (t : TrustRecordRow). t.plugin_id == id) r _
        (In-sort _ r _
          (In-filter (λ (t : TrustRecordRow). is_null t.revoked_at) r s.trust_records m null))
        same)

live_records_own : (id : String) (s : StateStore) → All (λ r. r.plugin_id ≡ id) (live_records s id)
live_records_own id s = All-of_In _ (live_records s id) λ r m.
    (eq_iff r.plugin_id id).0 (In-of_filter (λ (t : TrustRecordRow). t.plugin_id == id) r _ m).1

-- Without a live row no live record is listed.
live_records_of_NoLiveTrust :
    (id : String) (s : StateStore) → NoLiveTrust id s.trust_records → live_records s id ≡ []
unfolding list_trust_records
live_records_of_NoLiveTrust id s h = nil_of_no_member (live_records s id) λ r m.
    let (n, same) = In-of_filter (λ (t : TrustRecordRow). t.plugin_id == id) r _ m in
    let (i, null) =
      In-of_filter (λ (t : TrustRecordRow). is_null t.revoked_at) r s.trust_records
        (In-of_sort _ r _ n) in
    cc (of_All _ r s.trust_records h i, both_true same null)
  where
    both_true : {b c : Bool} → b ≡ true → c ≡ true → (b && c) ≡ true
    both_true p q = ground arith

    nil_of_no_member : (xs : List TrustRecordRow) → ((r : TrustRecordRow) → In r xs → ⊥) → xs ≡ []
    nil_of_no_member [] k = refl
    nil_of_no_member (x ∷ xs) k = absurd (k x (inl refl))

-- The store after an untrust that goes through: no live trust record and no live grant of the plugin.
nothing_live :
    (now : String) (s : StateStore) (id : String) (rs : List TrustRecordRow)
    → rs ≡ live_records s id
    → (live_records
          (revoke_grants now
            (revoke_records now s rs)
            (list_grants (revoke_records now s rs) id false))
          id
        ≡ [])
      × (list_grants
            (revoke_grants now
              (revoke_records now s rs)
              (list_grants (revoke_records now s rs) id false))
            id
            false
          ≡ [])
nothing_live now s id rs e = (
  live_records_of_NoLiveTrust id _ (
      subst (NoLiveTrust id)
        (sym (
          revoke_grants-trust_records now (list_grants (revoke_records now s rs) id false)
            (revoke_records now s rs)))
        (rw e (
          revoke_records-NoLiveTrust now id (live_records s id) s (live_records_own id s)
            (records_at_first id s)))),
  list_grants_of_NoLiveGrant _ id (
      revoke_grants-NoLiveGrant now id _ (revoke_records now s rs)
        (pending_at_first id (revoke_records now s rs))),
)

nothing_live_found :
    (now : String) (s t : StateStore) (id : String) (event : AuditEvent) (rs : List TrustRecordRow)
    → rs ≡ live_records s id
    → untrust_found now s id rs ≡ done t event tt
    → (live_records t id ≡ []) × (list_grants t id false ≡ [])
unfolding untrust_found
nothing_live_found now s t id event [] e h = cc
nothing_live_found now s t id event (r ∷ rs) e h =
    let same : revoke_grants now (revoke_records now s (r ∷ rs))
          (list_grants (revoke_records now s (r ∷ rs)) id false)
        ≡ t =
      cc in
    subst (λ u. (live_records u id ≡ []) × (list_grants u id false ≡ [])) same
      (nothing_live now s id (r ∷ rs) e)

-- When an untrust goes through, no live trust record and no live grant of the plugin is left.
pub untrust_plugin-nothing_live :
    (now : String) (s t : StateStore) (id : String) (event : AuditEvent)
    → untrust_plugin now s id ≡ done t event tt
    → (live_records t id ≡ []) × (list_grants t id false ≡ [])
unfolding untrust_plugin
untrust_plugin-nothing_live now s t id event h =
    nothing_live_found now s t id event (live_records s id) refl h

-- After an untrust that goes through, VALIDATE refuses every specification that the plugin emits,
-- whatever the service.
pub validate-untrust_plugin :
    (sha256 : String → String) (json_parse : String → Json) (now : String) (s t : StateStore)
    (id : String) (event : AuditEvent)
    → untrust_plugin now s id ≡ done t event tt
    → (service_id : String) (spec : ContainerSpec)
    → (validate_container_spec sha256 service_id spec (load_grants_for_plugin json_parse t id)).ok
      ≡ false
unfolding load_grants_for_plugin
validate-untrust_plugin sha256 json_parse now s t id event h service_id spec =
    rw (untrust_plugin-nothing_live now s t id event h).1
      (validate_container_spec-no_grants sha256 service_id spec)
