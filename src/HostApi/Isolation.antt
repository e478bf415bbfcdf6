-- ===== src/HostApi/Isolation.antt =====
-- What the calls of plugins leave alone in the store
-- (packages/orchestrator/src/host-api/dispatcher.ts): the records of authority, and the keys of others.
use wanfw.Common.{
  arith, String, ◌≡◌, ◌≢◌, refl, sym, ap, ◌∙◌, ◌⊎◌, inl, inr, Bool, true, false, ◌==◌, eq_iff, List,
  [], ◌∷◌, Option, none, some, Bool-cases, find, find-upsert_ne, filter, not, if◌then◌else◌,
  &&-eq-true,
}
use wanfw.Pipeline.{lookup}
use wanfw.Store.{StateStore, KvRow, is_kv, get_plugin_kv, set_plugin_kv, delete_plugin_kv}
use wanfw.Ipam.{Allocation, allocated, no_range, exhausted, malformed, allocate_ip}
use wanfw.HostState.{
  DnsAction, set, delete, DnsRecord, DnsAnswer, done, rejected, HostState, HostEnv, HostCall,
  state_get, state_put, state_delete, log_emit, secrets_get, secrets_put, dns_set_record,
  dns_delete_record, dns_query, certs_store, ipam_allocate, ipam_release, net_probe_network,
  unknown,
}
use wanfw.HostApi.{
  dispatch, broker_dns_apply, secrets_get_handler, secrets_put_handler, certs_store_handler,
  ipam_allocate_handler, ipam_release_handler, net_probe_handler, may_write_zone, may_read_secret,
  may_write_secret, may_store_certs, is_network_provider, ask_provider, dns_reply, after_allocate,
  Reply,
}

-- What a call of `p` may do to the store.
abbrev StoreStep : String → StateStore → StateStore → Type 0
StoreStep p s t =
    (t ≡ s)
    ⊎ ((key : String) × (v : String) × (t ≡ set_plugin_kv s p key v))
    ⊎ ((key : String) × (t ≡ delete_plugin_kv s p key))

module _ (env : HostEnv) (s : HostState) (p : String) where
  dns_reply-store :
      (provider : String) (t : HostState) (a : DnsAnswer)
      → (dns_reply env provider t a).1.store ≡ t.store
  dns_reply-store provider t (done r) = refl
  dns_reply-store provider t (rejected m) = refl

  ask_provider-store :
      (zone : String) (action : DnsAction) (dns : DnsRecord) (o : Option String)
      → (ask_provider env s zone action dns o).1.store ≡ s.store
  ask_provider-store zone action dns none = refl
  ask_provider-store zone action dns (some provider) = elim (Bool-cases (provider == "")) [
    | inl e ↦ rw e refl
    | inr e ↦ rw e (dns_reply-store provider _ (env.answer s.dns_calls _))
  ]

  broker-store :
      (action : DnsAction) (zone : String) (dns : DnsRecord)
      → (broker_dns_apply env s p action zone dns).1.store ≡ s.store
  unfolding broker_dns_apply
  broker-store action zone dns = elim (Bool-cases (may_write_zone env s p zone)) [
    | inl e ↦ rw e (ask_provider-store zone action dns (lookup "dnsProvider" env.roles))
    | inr e ↦ rw e refl
  ]

  after_allocate-store :
      (range_id : String) (owner : Option String) (a : Allocation)
      → (after_allocate env s p range_id owner a).1.store ≡ s.store
  after_allocate-store range_id owner (allocated ip t) = refl
  after_allocate-store range_id owner no_range = refl
  after_allocate-store range_id owner exhausted = refl
  after_allocate-store range_id owner malformed = refl

  -- Whatever a test decides, the store after it is the same.
  either_way :
      (b : Bool) (x y : Reply)
      → x.1.store ≡ s.store
      → y.1.store ≡ s.store
      → (if b then x else y).1.store ≡ s.store
  either_way true x y h k = h
  either_way false x y h k = k

  dispatch-StoreStep : (call : HostCall) → StoreStep p s.store (dispatch env s p call).1.store
  unfolding dispatch secrets_get_handler secrets_put_handler certs_store_handler
      ipam_allocate_handler ipam_release_handler net_probe_handler
  dispatch-StoreStep (state_get key) = inl refl
  dispatch-StoreStep (state_put key text) = inr (inl (key, text, refl))
  dispatch-StoreStep (state_delete key) = inr (inr (key, refl))
  dispatch-StoreStep (log_emit level msg fields) = inl refl
  dispatch-StoreStep (dns_query name kind r) = inl refl
  dispatch-StoreStep (secrets_get name) =
      inl (either_way (may_read_secret env s p name) _ _ refl refl)
  dispatch-StoreStep (secrets_put name text) =
      inl (either_way (may_write_secret env s p name) _ _ refl refl)
  dispatch-StoreStep (dns_set_record zone dns) = inl (broker-store set zone dns)
  dispatch-StoreStep (dns_delete_record zone dns) = inl (broker-store delete zone dns)
  dispatch-StoreStep (certs_store name cert_pem key_pem meta) =
      inl (either_way (may_store_certs env s p) _ _ refl refl)
  dispatch-StoreStep (ipam_allocate range_id owner) = inl (
      either_way (is_network_provider env s p) _ _
        (after_allocate-store range_id owner (allocate_ip env.number env.now range_id owner s.ipam))
        refl)
  dispatch-StoreStep (ipam_release ip) =
      inl (either_way (is_network_provider env s p) _ _ refl refl)
  dispatch-StoreStep (net_probe_network mode parent) =
      inl (either_way (is_network_provider env s p) _ _ refl refl)
  dispatch-StoreStep (unknown method) = inl refl

-- The records of authority are as they were.
abbrev pub SameAuthority : StateStore → StateStore → Type 0
SameAuthority s t =
    (t.trust_records ≡ s.trust_records) × (t.grants ≡ s.grants) × (t.approvals ≡ s.approvals)

other_rows :
    (p q key key' : String) → p ≢ q → (r : KvRow) → is_kv p key r ≡ true → is_kv q key' r ≡ false
other_rows p q key key' d r h = elim (Bool-cases (r.plugin_id == q)) [
  | inl e ↦ absurd (
      d (
        sym ((eq_iff r.plugin_id p).0 (&&-eq-true (r.plugin_id == p) (r.key == key) h).0)
        ∙ (eq_iff r.plugin_id q).0 e))
  | inr e ↦ rw e refl
]

find-delete_ne :
    (p q : KvRow → Bool) (rows : List KvRow)
    → ((r : KvRow) → p r ≡ true → q r ≡ false)
    → find q (filter (λ r. not (p r)) rows) ≡ find q rows
find-delete_ne p q [] h = refl
find-delete_ne p q (r ∷ rows) h = elim (Bool-cases (p r)) [
  | inl e ↦ rw e (rw (h r e) (find-delete_ne p q rows h))
  | inr e ↦ rw e (ground (arith, find-delete_ne p q rows h))
]

get_plugin_kv-set_ne :
    (s : StateStore) (p q k v key : String)
    → p ≢ q
    → get_plugin_kv (set_plugin_kv s p k v) q key ≡ get_plugin_kv s q key
unfolding set_plugin_kv get_plugin_kv
get_plugin_kv-set_ne s p q k v key d =
    let row : KvRow = record { plugin_id = p; key = k; value = v } in
    let self : is_kv p k row ≡ true = ground (arith, (eq_iff p p).1 refl, (eq_iff k k).1 refl) in
    ap (λ (o : Option KvRow). elim o [ none ↦ none | some r ↦ some r.value ])
      (find-upsert_ne (is_kv p k) (is_kv q key) (λ r. record r { value = v }) row s.plugin_kv
        (other_rows p q k key d row self)
        (λ r h. (other_rows p q k key d r h, other_rows p q k key d r h)))

get_plugin_kv-delete_ne :
    (s : StateStore) (p q k key : String)
    → p ≢ q
    → get_plugin_kv (delete_plugin_kv s p k) q key ≡ get_plugin_kv s q key
unfolding delete_plugin_kv get_plugin_kv
get_plugin_kv-delete_ne s p q k key d =
    ap (λ (o : Option KvRow). elim o [ none ↦ none | some r ↦ some r.value ])
      (find-delete_ne (is_kv p k) (is_kv q key) s.plugin_kv (other_rows p q k key d))

StoreStep-SameAuthority : (p : String) (s t : StateStore) → StoreStep p s t → SameAuthority s t
unfolding set_plugin_kv delete_plugin_kv
StoreStep-SameAuthority p s t (inl e) = rw e (refl, refl, refl)
StoreStep-SameAuthority p s t (inr (inl (k, v, e))) = rw e (refl, refl, refl)
StoreStep-SameAuthority p s t (inr (inr (k, e))) = rw e (refl, refl, refl)

StoreStep-keys :
    (p q : String) (s t : StateStore)
    → p ≢ q
    → StoreStep p s t
    → (key : String) → get_plugin_kv t q key ≡ get_plugin_kv s q key
StoreStep-keys p q s t d (inl e) key = rw e refl
StoreStep-keys p q s t d (inr (inl (k, v, e))) key = rw e (get_plugin_kv-set_ne s p q k v key d)
StoreStep-keys p q s t d (inr (inr (k, e))) key = rw e (get_plugin_kv-delete_ne s p q k key d)

module _ (env : HostEnv) where
  -- The state after calls by several plugins, in the order in which they came.
  abbrev pub run_calls : List (String × HostCall) → HostState → HostState
  run_calls [] s = s
  run_calls ((p, call) ∷ calls) s = run_calls calls (dispatch env s p call).1

  abbrev pub NotBy : String → List (String × HostCall) → Type 0
  NotBy q [] = Unit {0}
  NotBy q ((p, call) ∷ calls) = (p ≢ q) × NotBy q calls

  run_calls-SameAuthority :
      (calls : List (String × HostCall)) (s : HostState)
      → SameAuthority s.store (run_calls calls s).store
  run_calls-SameAuthority [] s = (refl, refl, refl)
  run_calls-SameAuthority ((p, call) ∷ calls) s =
      let (t, g, a) = StoreStep-SameAuthority p _ _ (dispatch-StoreStep env s p call) in
      let (t', g', a') = run_calls-SameAuthority calls (dispatch env s p call).1 in
      (t' ∙ t, g' ∙ g, a' ∙ a)

  -- Whatever calls plugins make of the host API, no trust record, grant or approval changes, so that no
  -- plugin gains authority by its calls; and the keys of a plugin change by its own calls only.
  pub run_calls-isolates :
      (calls : List (String × HostCall)) (s : HostState)
      → SameAuthority s.store (run_calls calls s).store
        × ((q : String)
            → NotBy q calls
            → (key : String)
            → get_plugin_kv (run_calls calls s).store q key ≡ get_plugin_kv s.store q key)
  run_calls-isolates calls s = (run_calls-SameAuthority calls s, keys calls s)
    where
      keys :
          (calls : List (String × HostCall)) (s : HostState) (q : String)
          → NotBy q calls
          → (key : String)
          → get_plugin_kv (run_calls calls s).store q key ≡ get_plugin_kv s.store q key
      keys [] s q n key = refl
      keys ((p, call) ∷ calls) s q (d, n) key =
          keys calls (dispatch env s p call).1 q n key
          ∙ StoreStep-keys p q _ _ d (dispatch-StoreStep env s p call) key
