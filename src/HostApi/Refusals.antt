-- ===== src/HostApi/Refusals.antt =====
-- What a refused call of the host API leaves behind, and what no call changes
-- (packages/orchestrator/src/host-api/dispatcher.ts).
use wanfw.Common.{
  String, ◌≡◌, refl, inl, inr, Bool, true, false, ◌==◌, Option, none, some, Bool-cases,
}
use wanfw.Pipeline.{lookup}
use wanfw.Ipam.{Allocation, allocated, no_range, exhausted, malformed, allocate_ip}
use wanfw.HostState.{
  DnsAction, set, delete, DnsRecord, DnsAnswer, done, rejected, HostState, HostEnv, HostCall,
  state_get, state_put, state_delete, log_emit, secrets_get, secrets_put, dns_set_record,
  dns_delete_record, dns_query, certs_store, ipam_allocate, ipam_release, net_probe_network,
  unknown, Answer, capability_error, thrown,
}
use wanfw.HostApi.{
  dispatch, broker_dns_apply, secrets_get_handler, secrets_put_handler, certs_store_handler,
  ipam_allocate_handler, ipam_release_handler, net_probe_handler, may_write_zone, may_read_secret,
  may_write_secret, may_store_certs, is_network_provider, ask_provider, dns_reply, after_allocate,
  Reply,
}

abbrev pub is_refusal : Answer → Bool
is_refusal (capability_error m) = true
is_refusal (thrown m) = true
is_refusal _ = false

-- Two states that differ in the calls of dns-provider plugins at most.
abbrev pub SameButDns : HostState → HostState → Type 0
SameButDns s t = t ≡ record s { dns_calls = t.dns_calls }

abbrev Harmless : HostState → Reply → Type 0
Harmless s (a, t) = is_refusal a ≡ true → SameButDns s t

module _ (env : HostEnv) (s : HostState) (p : String) where
  dns_reply-Harmless :
      (provider : String) (t : HostState) (a : DnsAnswer)
      → SameButDns s t
      → Harmless s (dns_reply env provider t a)
  dns_reply-Harmless provider t (done r) e h = cc
  dns_reply-Harmless provider t (rejected m) e h = e

  ask_provider-Harmless :
      (zone : String) (action : DnsAction) (dns : DnsRecord) (o : Option String)
      → Harmless s (ask_provider env s zone action dns o)
  ask_provider-Harmless zone action dns none = λ h. refl
  ask_provider-Harmless zone action dns (some provider) = elim (Bool-cases (provider == "")) [
    | inl e ↦ rw e (λ h. refl)
    | inr e ↦ rw e (dns_reply-Harmless provider _ (env.answer s.dns_calls _) refl)
  ]

  broker-Harmless :
      (action : DnsAction) (zone : String) (dns : DnsRecord)
      → Harmless s (broker_dns_apply env s p action zone dns)
  unfolding broker_dns_apply
  broker-Harmless action zone dns = elim (Bool-cases (may_write_zone env s p zone)) [
    | inl e ↦ rw e (ask_provider-Harmless zone action dns (lookup "dnsProvider" env.roles))
    | inr e ↦ rw e (λ h. refl)
  ]

  after_allocate-Harmless :
      (range_id : String) (owner : Option String) (a : Allocation)
      → Harmless s (after_allocate env s p range_id owner a)
  after_allocate-Harmless range_id owner (allocated ip t) h = cc
  after_allocate-Harmless range_id owner no_range h = refl
  after_allocate-Harmless range_id owner exhausted h = refl
  after_allocate-Harmless range_id owner malformed h = refl

  -- A call of the host API that throws changes nothing: not the store, the addresses, the secrets, the
  -- certificates or the log; all it may have done is ask the dns-provider plugin, which refused.
  pub dispatch-refused_same :
      (call : HostCall)
      → is_refusal (dispatch env s p call).0 ≡ true
      → SameButDns s (dispatch env s p call).1
  unfolding dispatch secrets_get_handler secrets_put_handler certs_store_handler
      ipam_allocate_handler ipam_release_handler net_probe_handler
  dispatch-refused_same (state_get key) = λ h. refl
  dispatch-refused_same (state_put key text) = λ h. cc
  dispatch-refused_same (state_delete key) = λ h. cc
  dispatch-refused_same (log_emit level msg fields) = λ h. cc
  dispatch-refused_same (dns_query name kind r) = λ h. cc
  dispatch-refused_same (secrets_get name) = elim (Bool-cases (may_read_secret env s p name)) [
    | inl e ↦ rw e (λ h. refl)
    | inr e ↦ rw e (λ h. refl)
  ]
  dispatch-refused_same (secrets_put name text) =
      elim (Bool-cases (may_write_secret env s p name)) [
        | inl e ↦ rw e (λ h. cc)
        | inr e ↦ rw e (λ h. refl)
      ]
  dispatch-refused_same (dns_set_record zone dns) = broker-Harmless set zone dns
  dispatch-refused_same (dns_delete_record zone dns) = broker-Harmless delete zone dns
  dispatch-refused_same (certs_store name cert_pem key_pem meta) =
      elim (Bool-cases (may_store_certs env s p)) [
        | inl e ↦ rw e (λ h. cc)
        | inr e ↦ rw e (λ h. refl)
      ]
  dispatch-refused_same (ipam_allocate range_id owner) =
      elim (Bool-cases (is_network_provider env s p)) [
        | inl e ↦ rw e (
            after_allocate-Harmless range_id owner
              (allocate_ip env.number env.now range_id owner s.ipam))
        | inr e ↦ rw e (λ h. refl)
      ]
  dispatch-refused_same (ipam_release ip) = elim (Bool-cases (is_network_provider env s p)) [
    | inl e ↦ rw e (λ h. cc)
    | inr e ↦ rw e (λ h. refl)
  ]
  dispatch-refused_same (net_probe_network mode parent) =
      elim (Bool-cases (is_network_provider env s p)) [
        | inl e ↦ rw e (λ h. refl)
        | inr e ↦ rw e (λ h. refl)
      ]
  dispatch-refused_same (unknown method) = λ h. refl
