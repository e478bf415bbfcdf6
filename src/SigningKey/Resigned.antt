-- ===== src/SigningKey/Resigned.antt =====
-- What re-signing leaves: every live row carries the signature of its own payload, and nothing but
-- signatures has changed (packages/orchestrator/src/signing-key.ts).
use wanfw.Common.{
  arith, String, ◌≡◌, refl, sym, ap, ◌∙◌, inl, inr, Bool, true, false, ◌&&◌, eq_iff, eqb_iff, List,
  [], ◌∷◌, Bool-cases, In, In-filter, In-sort, In-of_filter, In-of_sort, filter, sort, map,
  update_where, if◌then◌else◌,
}
use wanfw.Json.{Json}
use wanfw.Store.{
  StateStore, TrustRecordRow, GrantRow, ApprovalRow, is_null, list_trust_records, list_approvals,
}
use wanfw.SigningKey.{
  re_sign, re_sign_all, all_grants, same_version, same_id, same_hash, trust_sig, grant_sig,
  approval_sig, set_trust_sig, set_grant_sig, set_approval_sig,
}

-- No two rows of the table have one key.
abbrev pub IsKeyed : {A : Type 0} → (A → A → Bool) → List A → Type 0
IsKeyed {A} same rows = (x y : A) → In x rows → In y rows → same x y ≡ true → x ≡ y

-- A row and what became of it: a live one is signed anew, another is as it was.
abbrev pub Resigned :
    {A : Type 0} → (A → Bool) → (A → String) → (String → A → A) → List A → List A → Type 0
Resigned live sig_for set_sig [] [] = Unit {0}
Resigned live sig_for set_sig (x ∷ xs) [] = ⊥
Resigned live sig_for set_sig [] (y ∷ ys) = ⊥
Resigned live sig_for set_sig (x ∷ xs) (y ∷ ys) =
    (y ≡ (if live x then set_sig (sig_for x) x else x)) × Resigned live sig_for set_sig xs ys

module _ {A : Type 0} (same : A → A → Bool) (live : A → Bool) (sig_for : A → String)
    (set_sig : String → A → A) (key_kept : (s : String) (x y : A) → same x (set_sig s y) ≡ same x y)
    (set_again : (s t : String) (x : A) → set_sig s (set_sig t x) ≡ set_sig s x)
    (self : (x : A) → same x x ≡ true) where
  -- What the updates make of one row.
  signed : List A → A → A
  signed [] y = y
  signed (x ∷ xs) y = signed xs (if same x y then set_sig (sig_for x) y else y)

  re_sign-signed : (xs rows : List A) → re_sign same sig_for set_sig xs rows ≡ map (signed xs) rows
  unfolding re_sign signed
  re_sign-signed [] [] = refl
  re_sign-signed [] (r ∷ rows) = ap (λ l. r ∷ l) (re_sign-signed [] rows)
  re_sign-signed (x ∷ xs) rows = re_sign-signed xs _ ∙ each rows
    where
      each :
          (rows : List A)
          → map (signed xs) (update_where (same x) (set_sig (sig_for x)) rows)
            ≡ map (λ y. signed xs (if same x y then set_sig (sig_for x) y else y)) rows
      each [] = refl
      each (r ∷ rows) =
          ap (λ l. signed xs (if same x r then set_sig (sig_for x) r else r) ∷ l) (each rows)

  -- Rows with the key of `y` are `y` itself.
  abbrev Only : List A → A → Type 0
  Only xs y = (x : A) → In x xs → same x y ≡ true → x ≡ y

  -- A row signed already stays so.
  signed-twice :
      (xs : List A) (y : A) → Only xs y → signed xs (set_sig (sig_for y) y) ≡ set_sig (sig_for y) y
  unfolding signed
  signed-twice [] y o = refl
  signed-twice (x ∷ xs) y o = elim (Bool-cases (same x y)) [
    | inl e ↦
        rw (key_kept (sig_for y) x y, e)
          (ap (signed xs) (
              set_again (sig_for x) (sig_for y) y
              ∙ ap (λ z. set_sig (sig_for z) y) (o x (inl refl) e))
            ∙ signed-twice xs y (λ z m. o z (inr m)))
    | inr e ↦ rw (key_kept (sig_for y) x y, e) (signed-twice xs y (λ z m. o z (inr m)))
  ]

  signed-In : (xs : List A) (y : A) → Only xs y → In y xs → signed xs y ≡ set_sig (sig_for y) y
  unfolding signed
  signed-In [] y o m = elim m [ ]
  signed-In (x ∷ xs) y o m = elim (Bool-cases (same x y)) [
    | inl e ↦ rw e (
        ap (signed xs) (ap (λ z. set_sig (sig_for z) y) (o x (inl refl) e))
        ∙ signed-twice xs y (λ z k. o z (inr k)))
    | inr e ↦ elim m [
      | inl here ↦ let bad : false ≡ true = sym e ∙ ap (same x) (sym here) ∙ self x in cc
      | inr later ↦ rw e (signed-In xs y (λ z k. o z (inr k)) later)
    ]
  ]

  signed-not_In : (xs : List A) (y : A) → Only xs y → (In y xs → ⊥) → signed xs y ≡ y
  unfolding signed
  signed-not_In [] y o n = refl
  signed-not_In (x ∷ xs) y o n = elim (Bool-cases (same x y)) [
    | inl e ↦ absurd (n (inl (o x (inl refl) e)))
    | inr e ↦ rw e (signed-not_In xs y (λ z k. o z (inr k)) (λ k. n (inr k)))
  ]

  -- The listed rows are the live ones of the table.
  abbrev IsListing : List A → List A → Type 0
  IsListing xs rows =
      (y : A) → (In y xs → In y rows × (live y ≡ true)) × (In y rows → live y ≡ true → In y xs)

  Resigned-map :
      (xs rows whole : List A)
      → IsKeyed same whole
      → IsListing xs whole
      → ((y : A) → In y rows → In y whole)
      → Resigned live sig_for set_sig rows (map (signed xs) rows)
  Resigned-map xs [] whole k l sub = tt
  Resigned-map xs (y ∷ rows) whole k l sub =
      let here = sub y (inl refl) in
      let only : Only xs y = λ x m e. k x y ((l x).0 m).0 here e in
      (
        elim (Bool-cases (live y)) [
          | inl e ↦ rw e (signed-In xs y only ((l y).1 here e))
          | inr e ↦
              rw e (
                signed-not_In xs y only (λ m. let bad : false ≡ true = sym e ∙ ((l y).0 m).1 in cc))
        ],
        Resigned-map xs rows whole k l (λ z m. sub z (inr m)),
      )

  re_sign-Resigned :
      (xs rows : List A)
      → IsKeyed same rows
      → IsListing xs rows
      → Resigned live sig_for set_sig rows (re_sign same sig_for set_sig xs rows)
  re_sign-Resigned xs rows k l =
      rw (re_sign-signed xs rows) (Resigned-map xs rows rows k l (λ y m. m))

-- The primary keys of the three tables.
pub record HasKeys (s : StateStore) : Type 0 where
  pub versions : IsKeyed same_version s.trust_records
  pub ids : IsKeyed same_id s.grants
  pub hashes : IsKeyed same_hash s.approvals

abbrev pub is_live_trust : TrustRecordRow → Bool
is_live_trust r = is_null r.revoked_at

abbrev pub is_live_grant : GrantRow → Bool
is_live_grant r = is_null r.revoked_at

abbrev pub is_live_approval : ApprovalRow → Bool
is_live_approval r = is_null r.revoked_at

-- Re-signing gives every live trust record, grant and approval the signature of its own payload under
-- the new key, leaves the revoked rows alone, and changes nothing else, given that no two rows of a
-- table have one key.
pub re_sign_all-Resigned :
    (json_parse : String → Json) (sign : String → String) (s : StateStore)
    → HasKeys s
    → let t = re_sign_all json_parse sign s in
      Resigned is_live_trust
        (trust_sig json_parse sign)
        set_trust_sig
        s.trust_records
        t.trust_records
      × Resigned is_live_grant (grant_sig json_parse sign) set_grant_sig s.grants t.grants
      × Resigned is_live_approval
          (approval_sig json_parse sign)
          set_approval_sig
          s.approvals
          t.approvals
      × (t ≡ record s {
        trust_records = t.trust_records;
        grants = t.grants;
        approvals = t.approvals;
      })
unfolding re_sign_all all_grants list_trust_records list_approvals
re_sign_all-Resigned json_parse sign s k = (
  re_sign-Resigned same_version is_live_trust (trust_sig json_parse sign) set_trust_sig
      (λ sig x y. refl) (λ a b x. refl)
      (λ x.
        both_true ((eq_iff x.plugin_id x.plugin_id).1 refl) ((eq_iff x.version x.version).1 refl))
      (list_trust_records s false) s.trust_records k.versions
      (listing_sorted is_live_trust _ s.trust_records),
  re_sign-Resigned same_id is_live_grant (grant_sig json_parse sign) set_grant_sig (λ sig x y. refl)
      (λ a b x. refl) (λ x. (eqb_iff x.id x.id).1 refl) (all_grants s) s.grants k.ids
      (listing is_live_grant s.grants),
  re_sign-Resigned same_hash is_live_approval (approval_sig json_parse sign) set_approval_sig
      (λ sig x y. refl) (λ a b x. refl) (λ x. (eq_iff x.projection_hash x.projection_hash).1 refl)
      (list_approvals s false) s.approvals k.hashes (listing_sorted is_live_approval _ s.approvals),
  refl,
)
  where
    both_true : {b c : Bool} → b ≡ true → c ≡ true → (b && c) ≡ true
    both_true p q = ground arith

    listing :
        {A : Type 0} (live : A → Bool) (rows : List A) (y : A)
        → (In y (filter live rows) → In y rows × (live y ≡ true))
          × (In y rows → live y ≡ true → In y (filter live rows))
    listing live rows y = (In-of_filter live y rows, In-filter live y rows)

    listing_sorted :
        {A : Type 0} (live : A → Bool) (le : A → A → Bool) (rows : List A) (y : A)
        → (In y (sort le (filter live rows)) → In y rows × (live y ≡ true))
          × (In y rows → live y ≡ true → In y (sort le (filter live rows)))
    listing_sorted live le rows y = (
      λ m. In-of_filter live y rows (In-of_sort le y _ m),
      λ m e. In-sort le y _ (In-filter live y rows m e),
    )
