-- ===== src/TrustFlow/Upgrade.antt =====
-- What trusting a plugin, or a new version of it, does to the grants.
use wanfw.Common.{
  arith, ◌+◌, ◌≤◌, ◌∙◌, ap, length, length-append, none, String, ◌≡◌, refl, inl, inr, true, false,
  ◌&&◌, ◌==◌, eq_iff, List, [], ◌∷◌, In, In-of_filter, In-filter, In-sort, In-of_sort,
  In-append_left, In-append_right,
}
use wanfw.Json.{Json, stringify}
use wanfw.Store.{
  StateStore, GrantRow, list_grants, insert_grant, insert_trust_record, is_null, grant_le,
}
use wanfw.TrustFlow.{
  ManifestCapability, Manifest, insert_grants, canonical_grant_payload, record_trust_and_grants,
}

module _ (json_parse : String → Json) (sign : String → String) (now : String) where
  insert_grants-In :
      (id : String) (g : GrantRow) (cs : List ManifestCapability) (s : StateStore)
      → In g s.grants
      → In g (insert_grants json_parse sign now id s cs).grants
  unfolding insert_grants insert_grant
  insert_grants-In id g [] s m = m
  insert_grants-In id g (c ∷ cs) s m = insert_grants-In id g cs _ (In-append_left g s.grants _ m)

  -- A live row for the capability, written now, with its scope and the signature of its own payload.
  abbrev pub IsGrantOf : String → ManifestCapability → GrantRow → Type 0
  IsGrantOf id c g =
      (g.plugin_id ≡ id)
      × (g.cap ≡ c.cap)
      × (g.scope_json ≡ stringify c.scope)
      × (g.sig ≡ sign (canonical_grant_payload json_parse sign id c.cap (stringify c.scope)))
      × (g.created_at ≡ now)
      × (g.revoked_at ≡ none)

  insert_grants-new :
      (id : String) (c : ManifestCapability) (cs : List ManifestCapability) (s : StateStore)
      → In c cs
      → (g : GrantRow) × In g (insert_grants json_parse sign now id s cs).grants
        × (s.next_grant_id ≤ g.id)
        × IsGrantOf id c g
  unfolding insert_grants insert_grant
  insert_grants-new id c [] s m = elim m [ ]
  insert_grants-new id c (d ∷ cs) s (inr m) =
      let (g, i, later, is) = insert_grants-new id c cs _ m in (g, i, omega arith, is)
  insert_grants-new id c (d ∷ cs) s (inl e) = (
    _,
    insert_grants-In id _ cs _ (In-append_right _ s.grants _ (inl refl)),
    omega arith,
    (
      refl,
      ap (λ (x : ManifestCapability). x.cap) e,
      ap (λ (x : ManifestCapability). stringify x.scope) e,
      ap
          (λ (x : ManifestCapability).
            sign (canonical_grant_payload json_parse sign id x.cap (stringify x.scope)))
          e,
      refl,
      refl,
    ),
  )

  length-insert_grants :
      (id : String) (cs : List ManifestCapability) (s : StateStore)
      → length (insert_grants json_parse sign now id s cs).grants ≡ length s.grants + length cs
  unfolding insert_grants insert_grant
  length-insert_grants id [] s = omega arith
  length-insert_grants id (c ∷ cs) s =
      length-insert_grants id cs _
      ∙ ap (λ n. n + length cs) (length-append s.grants _)
      ∙ omega arith

  -- Trusting a plugin, or a new version of it, leaves every live grant of the plugin live, those of
  -- earlier versions included, and adds for every capability of the manifest a live grant under a new
  -- id, with the capability's scope and the signature of its own payload: the table has as many rows
  -- more as the manifest has capabilities.
  pub record_trust_and_grants-list_grants :
      (s : StateStore) (manifest : Manifest) (sha256 : String)
      → let t = record_trust_and_grants json_parse sign now s manifest sha256 in
        ((g : GrantRow)
          → In g (list_grants s manifest.id false)
          → In g (list_grants t manifest.id false))
        × ((c : ManifestCapability)
            → In c manifest.capabilities
            → (g : GrantRow) × In g (list_grants t manifest.id false)
              × (s.next_grant_id ≤ g.id)
              × IsGrantOf manifest.id c g)
        × (length t.grants ≡ length s.grants + length manifest.capabilities)
  unfolding list_grants record_trust_and_grants insert_trust_record
  record_trust_and_grants-list_grants s manifest sha256 = (
    (λ g m.
        let (n, p) = In-of_filter _ g s.grants (In-of_sort grant_le g _ m) in
        In-sort grant_le g _
          (In-filter _ g _ (insert_grants-In manifest.id g manifest.capabilities _ n) p)),
    (λ c m.
        let (g, i, later, is) = insert_grants-new manifest.id c manifest.capabilities _ m in
        (g, In-sort grant_le g _ (In-filter _ g _ i (live g manifest.id is.0 is.5)), later, is)),
    length-insert_grants manifest.id manifest.capabilities _,
  )
    where
      live :
          (g : GrantRow) (id : String)
          → g.plugin_id ≡ id
          → g.revoked_at ≡ none
          → (g.plugin_id == id && is_null g.revoked_at) ≡ true
      live g id same null = rw ((eq_iff g.plugin_id id).1 same) (rw null refl)
