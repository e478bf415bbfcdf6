-- ===== src/HostApi/Authority.antt =====
-- Which calls of the host API a plugin's grants and type allow
-- (packages/orchestrator/src/host-api/dispatcher.ts).
use wanfw.Common.{
  String, not, sym, ◌==◌, eq_iff, ◌≡◌, refl, inl, inr, Bool, true, false, List, [], ◌∷◌, some,
  Bool-cases, Option-cases, ◌⊎◌, In, or_else, if◌then◌else◌,
}
use wanfw.Scope.{Grant, GrantScope, has_grant, match_name_prefix, includes}
use wanfw.Scope.Names.{
  NameCovers, includes_iff, match_name_prefix_iff, match_zone_iff, has_grant_iff,
}
use wanfw.Store.{StateStore, TrustRecordRow}
use wanfw.Grants.{load_grants_for_plugin}
use wanfw.TrustFlow.{AuditEvent, done, live_records, untrust_plugin}
use wanfw.TrustFlow.Untrust.{untrust_plugin-nothing_live}
use wanfw.HostState.{
  HostState, HostEnv, HostCall, state_get, state_put, state_delete, log_emit, secrets_get,
  secrets_put, dns_set_record, dns_delete_record, dns_query, certs_store, ipam_allocate,
  ipam_release, net_probe_network, unknown, Answer,
}
use wanfw.HostApi.{
  dispatch, unlisted, inherited_returning, inherited_throwing, decoded_grants, calling_plugin_types,
  types_of_first, broker_dns_apply, secrets_get_handler, secrets_put_handler, certs_store_handler,
  ipam_allocate_handler, ipam_release_handler, net_probe_handler, may_write_zone, may_store_certs,
  is_network_provider,
}
use wanfw.HostApi.Refusals.{is_refusal, SameButDns, dispatch-refused_same}

module _ (env : HostEnv) (s : HostState) (p : String) where
  -- A live grant of the plugin for the capability, whose scope covers what is asked for.
  abbrev pub Granted : String → (GrantScope → Type 0) → Type 0
  Granted cap covers = (g : Grant) × In g (decoded_grants env s p) × (g.cap ≡ cap) × covers g.scope

  -- The plugin's first live trust record names a bundle whose manifest has the type.
  abbrev pub IsNetworkProvider : Type 0
  IsNetworkProvider =
      (r : TrustRecordRow) × (rs : List TrustRecordRow) × (types : List String) × (live_records
          s.store p
        ≡ r ∷ rs)
      × (env.manifest_types r.sha256 ≡ some types)
      × In "network-provider" types

  abbrev pub NameCovered : String → GrantScope → Type 0
  NameCovered name scope = (q : String) × In q (or_else scope.names []) × NameCovers q name

  abbrev pub ZoneCovered : String → GrantScope → Type 0
  ZoneCovered zone scope = In "*" (or_else scope.zones []) ⊎ In zone (or_else scope.zones [])

  -- What each method asks of the caller.
  abbrev pub Permitted : HostCall → Type 0
  Permitted (secrets_get name) = Granted "secrets.read" (NameCovered name)
  Permitted (secrets_put name text) = Granted "secrets.write" (NameCovered name)
  Permitted (dns_set_record zone dns) = Granted "dns.record.write" (ZoneCovered zone)
  Permitted (dns_delete_record zone dns) = Granted "dns.record.write" (ZoneCovered zone)
  Permitted (certs_store name cert_pem key_pem meta) = Granted "certs.store" (λ scope. Unit {0})
  Permitted (ipam_allocate range_id owner) = IsNetworkProvider
  Permitted (ipam_release ip) = IsNetworkProvider
  Permitted (net_probe_network mode parent) = IsNetworkProvider
  Permitted (unknown method) = In method inherited_returning
  Permitted (state_get key) = Unit {0}
  Permitted (state_put key text) = Unit {0}
  Permitted (state_delete key) = Unit {0}
  Permitted (log_emit level msg fields) = Unit {0}
  Permitted (dns_query name kind r) = Unit {0}

  named :
      (cap name : String)
      → has_grant
          (decoded_grants env s p)
          cap
          (λ scope. match_name_prefix (or_else scope.names []) name)
        ≡ true
      → Granted cap (NameCovered name)
  named cap name h =
      let (g, m, e, c) = (has_grant_iff (decoded_grants env s p) cap _).0 h in
      (g, m, e, (match_name_prefix_iff (or_else g.scope.names []) name).0 c)

  zoned :
      (zone : String)
      → may_write_zone env s p zone ≡ true
      → Granted "dns.record.write" (ZoneCovered zone)
  zoned zone h =
      let (g, m, e, c) = (has_grant_iff (decoded_grants env s p) "dns.record.write" _).0 h in
      (g, m, e, (match_zone_iff (or_else g.scope.zones []) zone).0 c)

  types_of_first-IsNetworkProvider :
      (rs : List TrustRecordRow)
      → live_records s.store p ≡ rs
      → includes (types_of_first env rs) "network-provider" ≡ true
      → IsNetworkProvider
  types_of_first-IsNetworkProvider [] e h = cc
  types_of_first-IsNetworkProvider (r ∷ rs) e h =
      elim (Option-cases (env.manifest_types r.sha256)) [
        | inl none_there ↦ let bad : false ≡ true = rw none_there at h in cc
        | inr (types, there) ↦
            (r, rs, types, e, there, (includes_iff types "network-provider").0 (rw there at h))
      ]

  provider : is_network_provider env s p ≡ true → IsNetworkProvider
  unfolding calling_plugin_types
  provider h = types_of_first-IsNetworkProvider (live_records s.store p) refl h

  -- A call that is not refused was permitted: a guard that fails refuses it.
  guarded :
      {P : Type 0} (b : Bool) (x y : Answer × HostState)
      → (b ≡ true → P)
      → is_refusal y.0 ≡ true
      → is_refusal (if b then x else y).0 ≡ false
      → P
  guarded true x y give refused h = give refl
  guarded false x y give refused h = cc

  unlisted-inherited :
      (method : String) → is_refusal (unlisted env p method) ≡ false → In method inherited_returning
  unfolding unlisted
  unlisted-inherited method h = elim (Bool-cases (method == "constructor")) [
    | inl e ↦ inl (sym ((eq_iff method "constructor").0 e))
    | inr a ↦ elim (Bool-cases (method == "toString")) [
      | inl e ↦ inr (inl (sym ((eq_iff method "toString").0 e)))
      | inr b ↦ elim (Bool-cases (method == "isPrototypeOf")) [
        | inl e ↦ inr (inr (inl (sym ((eq_iff method "isPrototypeOf").0 e))))
        | inr c ↦ elim (Bool-cases (includes inherited_throwing method)) [
          | inl e ↦ let bad : true ≡ false = rw e at (rw c at (rw b at (rw a at h))) in cc
          | inr e ↦ let bad : true ≡ false = rw e at (rw c at (rw b at (rw a at h))) in cc
        ]
      ]
    ]
  ]

  -- A call that goes through has the authority that its method asks for: for secrets.get and
  -- secrets.put a live grant of the plugin with a pattern that covers the name, for the DNS records one
  -- that covers the zone, for certs.store one of any scope, for the addresses and the probe a trusted
  -- bundle of type network-provider. A method without a handler goes through only if its name is that
  -- of one of three functions which every object inherits: constructor, toString and isPrototypeOf.
  pub dispatch-Permitted :
      (call : HostCall) → is_refusal (dispatch env s p call).0 ≡ false → Permitted call
  unfolding dispatch broker_dns_apply secrets_get_handler secrets_put_handler certs_store_handler
      ipam_allocate_handler ipam_release_handler net_probe_handler
  dispatch-Permitted (secrets_get name) h = guarded _ _ _ (named "secrets.read" name) refl h
  dispatch-Permitted (secrets_put name text) h = guarded _ _ _ (named "secrets.write" name) refl h
  dispatch-Permitted (dns_set_record zone dns) h = guarded _ _ _ (zoned zone) refl h
  dispatch-Permitted (dns_delete_record zone dns) h = guarded _ _ _ (zoned zone) refl h
  dispatch-Permitted (certs_store name cert_pem key_pem meta) h = guarded _ _ _ certs refl h
    where
      certs : may_store_certs env s p ≡ true → Granted "certs.store" (λ scope. Unit {0})
      certs e =
          let (g, m, c, _) = (has_grant_iff (decoded_grants env s p) "certs.store" _).0 e in
          (g, m, c, tt)
  dispatch-Permitted (ipam_allocate range_id owner) h = guarded _ _ _ provider refl h
  dispatch-Permitted (ipam_release ip) h = guarded _ _ _ provider refl h
  dispatch-Permitted (net_probe_network mode parent) h = guarded _ _ _ provider refl h
  dispatch-Permitted (unknown method) h = unlisted-inherited method h
  dispatch-Permitted (state_get key) h = tt
  dispatch-Permitted (state_put key text) h = tt
  dispatch-Permitted (state_delete key) h = tt
  dispatch-Permitted (log_emit level msg fields) h = tt
  dispatch-Permitted (dns_query name kind r) h = tt

-- The methods for which a plugin needs a grant or a type.
abbrev pub needs_authority : HostCall → Bool
needs_authority (state_get key) = false
needs_authority (state_put key text) = false
needs_authority (state_delete key) = false
needs_authority (log_emit level msg fields) = false
needs_authority (dns_query name kind r) = false
needs_authority (unknown method) = not (includes inherited_returning method)
needs_authority _ = true

module _ (env : HostEnv) (s : HostState) (p : String) where
  nothing_granted :
      (cap : String) (covers : GrantScope → Type 0)
      → decoded_grants env s p ≡ []
      → Granted env s p cap covers
      → ⊥
  nothing_granted cap covers e (g, m, _, _) = let none_left : ⊥ = rw e at m in none_left

  no_provider : live_records s.store p ≡ [] → IsNetworkProvider env s p → ⊥
  no_provider e (r, rs, types, e', _, _) = cc

  -- Without a live grant and a live trust record, no method that needs authority is permitted.
  nothing-Permitted :
      (call : HostCall)
      → decoded_grants env s p ≡ []
      → live_records s.store p ≡ []
      → needs_authority call ≡ true
      → Permitted env s p call
      → ⊥
  nothing-Permitted (secrets_get name) g r h = nothing_granted _ _ g
  nothing-Permitted (secrets_put name text) g r h = nothing_granted _ _ g
  nothing-Permitted (dns_set_record zone dns) g r h = nothing_granted _ _ g
  nothing-Permitted (dns_delete_record zone dns) g r h = nothing_granted _ _ g
  nothing-Permitted (certs_store name cert_pem key_pem meta) g r h = nothing_granted _ _ g
  nothing-Permitted (ipam_allocate range_id owner) g r h = no_provider r
  nothing-Permitted (ipam_release ip) g r h = no_provider r
  nothing-Permitted (net_probe_network mode parent) g r h = no_provider r
  nothing-Permitted (unknown method) g r h = λ m.
      let found = (includes_iff inherited_returning method).1 m in
      let bad : false ≡ true = rw found at h in cc
  nothing-Permitted (state_get key) g r h = cc
  nothing-Permitted (state_put key text) g r h = cc
  nothing-Permitted (state_delete key) g r h = cc
  nothing-Permitted (log_emit level msg fields) g r h = cc
  nothing-Permitted (dns_query name kind v) g r h = cc

-- After an untrust that goes through, the host API refuses every call of the plugin that needs a grant
-- or a type, or whose method is neither a handler nor one of the three inherited functions that return,
-- and changes nothing by it.
pub dispatch-untrust_plugin :
    (env : HostEnv) (s : HostState) (now : String) (before : StateStore) (id : String)
    (event : AuditEvent) (call : HostCall)
    → untrust_plugin now before id ≡ done s.store event tt
    → needs_authority call ≡ true
    → (is_refusal (dispatch env s id call).0 ≡ true) × SameButDns s (dispatch env s id call).1
unfolding decoded_grants load_grants_for_plugin
dispatch-untrust_plugin env s now before id event call h needs =
    let (records, grants) = untrust_plugin-nothing_live now before s.store id event h in
    elim (Bool-cases (is_refusal (dispatch env s id call).0)) [
      | inl refused ↦ (refused, dispatch-refused_same env s id call refused)
      | inr through ↦ absurd (
          nothing-Permitted env s id call (rw grants refl) records needs
            (dispatch-Permitted env s id call through))
    ]
