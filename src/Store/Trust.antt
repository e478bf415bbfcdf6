-- ===== src/Store/Trust.antt =====
-- Trust records and grants: what is live after a trust, a revocation, and an untrust.
use wanfw.Common.{
  ℕ, String, ◌≡◌, refl, Bool, true, false, ◌&&◌, ◌==◌, eq_iff, eqb, if◌then◌else◌, List, [], ◌∷◌,
  some, arith, filter, update_where, Bool-cases, inl, inr, In, All, map,
}
use wanfw.Store.{StateStore, TrustRecordRow, GrantRow, is_null, is_version, list_grants}

-- No row of the plugin is live.
abbrev pub NoLiveTrust : String → List TrustRecordRow → Type 0
NoLiveTrust id rows = All (λ r. (r.plugin_id == id && is_null r.revoked_at) ≡ false) rows

abbrev pub NoLiveGrant : String → List GrantRow → Type 0
NoLiveGrant id rows = All (λ r. (r.plugin_id == id && is_null r.revoked_at) ≡ false) rows

-- Without a live grant the plugin's list of grants is empty.
filter_of_none :
    {A : Type 0} (p : A → Bool) (xs : List A) → All (λ x. p x ≡ false) xs → filter p xs ≡ []
filter_of_none p [] h = refl
filter_of_none p (x ∷ xs) (e, h) = rw e (filter_of_none p xs h)

pub list_grants_of_NoLiveGrant :
    (s : StateStore) (id : String) → NoLiveGrant id s.grants → list_grants s id false ≡ []
unfolding list_grants
list_grants_of_NoLiveGrant s id h =
    rw (filter_of_none (λ (r : GrantRow). r.plugin_id == id && is_null r.revoked_at) s.grants h)

abbrev pub ids : List GrantRow → List ℕ
ids gs = map (λ (g : GrantRow). g.id) gs

-- Every live grant of the plugin is among those with these keys.
abbrev pub PendingGrants : String → List ℕ → List GrantRow → Type 0
PendingGrants id ks rows =
    All (λ r. (r.plugin_id == id && is_null r.revoked_at) ≡ true → In r.id ks) rows

-- UPDATE grants SET revoked_at WHERE id = k AND revoked_at IS NULL, on one row
abbrev revoke_row : String → ℕ → GrantRow → GrantRow
revoke_row now k r =
    if eqb r.id k && is_null r.revoked_at then record r { revoked_at = some now } else r

pending_row :
    (now id : String) (k : ℕ) (ks : List ℕ) (r : GrantRow)
    → ((r.plugin_id == id && is_null r.revoked_at) ≡ true → In r.id (k ∷ ks))
    → ((revoke_row now k r).plugin_id == id && is_null (revoke_row now k r).revoked_at) ≡ true
    → In (revoke_row now k r).id ks
pending_row now id k ks r p h = elim (Bool-cases (eqb r.id k && is_null r.revoked_at)) [
  | inl e ↦ absurd (not_both _ (rw e at h))
  | inr e ↦
      rw e
        (elim (p (rw e at h)) [ inl same ↦ absurd (not_live r k same e (rw e at h)) | inr m ↦ m ])
]
  where
    not_both : (b : Bool) → (b && false) ≡ true → ⊥
    not_both b q = ground arith

    not_live :
        (r : GrantRow) (k : ℕ)
        → k ≡ r.id
        → (eqb r.id k && is_null r.revoked_at) ≡ false
        → (r.plugin_id == id && is_null r.revoked_at) ≡ true
        → ⊥
    not_live r k same e q = ground arith

pub Pending-revoke :
    (now id : String) (k : ℕ) (ks : List ℕ) (rows : List GrantRow)
    → PendingGrants id (k ∷ ks) rows
    → PendingGrants id ks (
        update_where
          (λ (r : GrantRow). eqb r.id k && is_null r.revoked_at)
          (λ r. record r { revoked_at = some now })
          rows)
Pending-revoke now id k ks [] h = tt
Pending-revoke now id k ks (r ∷ rows) (p, h) =
    (pending_row now id k ks r p, Pending-revoke now id k ks rows h)

-- Every live trust record of the plugin has one of these versions.
abbrev pub PendingTrust : String → List String → List TrustRecordRow → Type 0
PendingTrust id vs rows =
    All (λ r. (r.plugin_id == id && is_null r.revoked_at) ≡ true → In r.version vs) rows

-- UPDATE trust_records SET revoked_at WHERE plugin_id = id AND version = v AND revoked_at IS NULL, on
-- one row
abbrev revoke_version : String → String → String → TrustRecordRow → TrustRecordRow
revoke_version now id v r =
    if is_version id v r && is_null r.revoked_at then record r { revoked_at = some now } else r

pending_record :
    (now id v : String) (vs : List String) (r : TrustRecordRow)
    → ((r.plugin_id == id && is_null r.revoked_at) ≡ true → In r.version (v ∷ vs))
    → ((revoke_version now id v r).plugin_id == id
        && is_null (revoke_version now id v r).revoked_at)
      ≡ true
    → In (revoke_version now id v r).version vs
pending_record now id v vs r p h = elim (Bool-cases (is_version id v r && is_null r.revoked_at)) [
  | inl e ↦ absurd (not_both _ (rw e at h))
  | inr e ↦
      rw e (elim (p (rw e at h)) [ inl same ↦ absurd (not_live r same e (rw e at h)) | inr m ↦ m ])
]
  where
    not_both : (b : Bool) → (b && false) ≡ true → ⊥
    not_both b q = ground arith

    not_live :
        (r : TrustRecordRow)
        → v ≡ r.version
        → (is_version id v r && is_null r.revoked_at) ≡ false
        → (r.plugin_id == id && is_null r.revoked_at) ≡ true
        → ⊥
    not_live r same e q = ground (arith, eq_iff r.version v)

pub PendingTrust-revoke :
    (now id v : String) (vs : List String) (rows : List TrustRecordRow)
    → PendingTrust id (v ∷ vs) rows
    → PendingTrust id vs (
        update_where
          (λ r. is_version id v r && is_null r.revoked_at)
          (λ r. record r { revoked_at = some now })
          rows)
PendingTrust-revoke now id v vs [] h = tt
PendingTrust-revoke now id v vs (r ∷ rows) (p, h) =
    (pending_record now id v vs r p, PendingTrust-revoke now id v vs rows h)
