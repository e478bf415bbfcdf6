-- ===== src/HostApi.antt =====
-- The handlers of the host API (packages/orchestrator/src/host-api/dispatcher.ts). A handler gives its
-- answer and the state after it; one that throws answers with the error.
pub mod Refusals
pub mod Authority
pub mod Isolation
pub mod Escape
use wanfw.Common.{
  ℕ, suc, String, Bool, true, false, ◌==◌, if◌then◌else◌, List, [], ◌∷◌, ◌++◌, Option, none, some,
  append, find, or_else, upsert, filter, is_some,
}
use wanfw.Json.{Json, Fields, obj, bool, str, num, end, field}
use wanfw.Pipeline.{lookup}
use wanfw.Scope.{Grant, GrantScope, has_grant, match_name_prefix, match_zone, includes}
use wanfw.Store.{
  StateStore, TrustRecordRow, get_plugin_kv, set_plugin_kv, delete_plugin_kv, list_trust_records,
}
use wanfw.Grants.{load_grants_for_plugin}
use wanfw.TrustFlow.{live_records}
use wanfw.Ipam.{
  get_ipam_range, IpamRangeRow, Allocation, allocated, no_range, exhausted, malformed, allocate_ip,
  release_ip,
}
use wanfw.HostState.{
  LogLine, DnsAction, set, delete, DnsRecord, DnsCall, DnsAnswer, done, rejected, Probe, HostState,
  HostEnv, HostCall, state_get, state_put, state_delete, log_emit, secrets_get, secrets_put,
  dns_set_record, dns_delete_record, dns_query, certs_store, ipam_allocate, ipam_release,
  net_probe_network, unknown, Answer, empty, found, answered, generation, address, probed,
  capability_error, thrown, get_secret, put_secret,
}
use wanfw.Certs.{CertDir, name_dir, put_dir, put_field, store_cert}

-- `{ ...fields, ...more }`
abbrev pub spread : Fields → Fields → Fields
spread fields end = fields
spread fields (field k v more) = spread (put_field k v fields) more

abbrev pub info : String → Fields → HostState → HostState
info msg fields s = record s { log = s.log ++ (record { msg = msg; fields = fields } ∷ []) }

-- `{ component: "plugin", pluginId, ...more }`
abbrev pub plugin_fields : String → Fields → Fields
plugin_fields plugin_id more =
    spread (field "component" (str "plugin") (field "pluginId" (str plugin_id) end)) more

abbrev pub text_field : String → Option String → Fields → Fields
text_field k none fs = fs
text_field k (some v) fs = field k (str v) fs

-- The functions that every object inherits: those that return when they are called without a receiver,
-- and those that throw, with `__proto__`, which is no function.
abbrev pub inherited_returning : List String
inherited_returning = "constructor" ∷ "toString" ∷ "isPrototypeOf" ∷ []

abbrev pub inherited_throwing : List String
inherited_throwing =
    "hasOwnProperty" ∷ "propertyIsEnumerable" ∷ "toLocaleString" ∷ "valueOf" ∷ "__defineGetter__"
    ∷ "__defineSetter__" ∷ "__lookupGetter__" ∷ "__lookupSetter__" ∷ "__proto__" ∷ []

abbrev pub Reply : Type 0
Reply = Answer × HostState

module _ (env : HostEnv) where
  unfoldable pub decoded_grants : HostState → String → List Grant
  decoded_grants s plugin_id = load_grants_for_plugin env.json_parse s.store plugin_id

  abbrev pub types_of_first : List TrustRecordRow → List String
  types_of_first [] = []
  types_of_first (r ∷ rs) = or_else (env.manifest_types r.sha256) []

  unfoldable pub calling_plugin_types : HostState → String → List String
  calling_plugin_types s plugin_id = types_of_first (live_records s.store plugin_id)

  abbrev pub may_read_secret : HostState → String → String → Bool
  may_read_secret s plugin_id name =
      has_grant (decoded_grants s plugin_id) "secrets.read"
        (λ scope. match_name_prefix (or_else scope.names []) name)

  abbrev pub may_write_secret : HostState → String → String → Bool
  may_write_secret s plugin_id name =
      has_grant (decoded_grants s plugin_id) "secrets.write"
        (λ scope. match_name_prefix (or_else scope.names []) name)

  abbrev pub may_write_zone : HostState → String → String → Bool
  may_write_zone s plugin_id zone =
      has_grant (decoded_grants s plugin_id) "dns.record.write"
        (λ scope. match_zone (or_else scope.zones []) zone)

  abbrev pub may_store_certs : HostState → String → Bool
  may_store_certs s plugin_id = has_grant (decoded_grants s plugin_id) "certs.store" (λ scope. true)

  abbrev pub is_network_provider : HostState → String → Bool
  is_network_provider s plugin_id = includes (calling_plugin_types s plugin_id) "network-provider"

  abbrev pub dns_method : DnsAction → String
  dns_method set = "dns.setRecord"
  dns_method delete = "dns.deleteRecord"

  abbrev pub dns_reply : String → HostState → DnsAnswer → Reply
  dns_reply provider s (done r) = (answered (or_else r (obj end)), s)
  dns_reply provider s (rejected message) = (
    capability_error (
        append "dns-provider '" (
          append provider
            (append "' rejected the DNS change: " (or_else message "unknown error")))),
    s,
  )

  -- `if (!dnsProviderId)`: an empty id is none.
  abbrev pub ask_provider : HostState → String → DnsAction → DnsRecord → Option String → Reply
  ask_provider s zone action dns none =
      (capability_error "no dnsProvider role is currently bound in the framework document", s)
  ask_provider s zone action dns (some provider) =
      if provider == ""
      then (capability_error "no dnsProvider role is currently bound in the framework document", s)
      else (let call : DnsCall = record {
        provider = provider;
        zone = zone;
        action = action;
        dns_record = dns;
      } in
          dns_reply provider (record s { dns_calls = s.dns_calls ++ (call ∷ []) })
            (env.answer s.dns_calls call))

  unfoldable pub broker_dns_apply : HostState → String → DnsAction → String → DnsRecord → Reply
  broker_dns_apply s plugin_id action zone dns =
      if may_write_zone s plugin_id zone
      then ask_provider s zone action dns (lookup "dnsProvider" env.roles)
      else (
        capability_error (
            append (dns_method action) (
              append " denied: " (
                append plugin_id
                  (append " has no dns.record.write grant covering zone '" (append zone "'"))))),
        s,
      )

  -- A refusal that names the method and the plugin.
  abbrev pub denied : String → String → String → HostState → Reply
  denied method plugin_id why s =
      (capability_error (append method (append " denied: " (append plugin_id why))), s)

  abbrev pub not_a_provider : String
  not_a_provider = " is not a trusted network-provider plugin"

  abbrev pub text_or_undefined : String → Option String → Fields
  text_or_undefined k v = text_field k v end

  unfoldable pub secrets_get_handler : HostState → String → String → Reply
  secrets_get_handler s plugin_id name =
      if may_read_secret s plugin_id name
      then (found (get_secret env name s.secrets), s)
      else denied "secrets.get" plugin_id
          (append " has no secrets.read grant covering '" (append name "'")) s

  unfoldable pub secrets_put_handler : HostState → String → String → String → Reply
  secrets_put_handler s plugin_id name text =
      if may_write_secret s plugin_id name
      then (empty, record s { secrets = put_secret env name text s.secrets })
      else denied "secrets.put" plugin_id
          (append " has no secrets.write grant covering '" (append name "'")) s

  abbrev pub after_store_cert : HostState → String → String → CertDir × ℕ → Reply
  after_store_cert s plugin_id name (dir, n) =
      let stored = record s { certs = put_dir s.certs name dir } in
      let logged =
        info "certificate stored"
          (plugin_fields plugin_id (field "name" (str name) (field "generation" (num n) end)))
          stored in
      (generation n, record logged { cert_changes = suc s.cert_changes })

  unfoldable pub certs_store_handler :
      HostState → String → String → String → String → Option Fields → Reply
  certs_store_handler s plugin_id name cert_pem key_pem meta =
      if may_store_certs s plugin_id
      then after_store_cert s plugin_id name
          (store_cert env.now cert_pem key_pem (or_else meta end) (name_dir s.certs name))
      else denied "certs.store" plugin_id " has no certs.store grant" s

  abbrev pub cidr_text : Option IpamRangeRow → String
  cidr_text none = ""
  cidr_text (some r) = r.cidr

  -- One of the three messages of cidr.ts, which name the text that does not parse.
  abbrev pub invalid_cidr : String
  invalid_cidr = "invalid CIDR or IPv4 address"

  abbrev pub after_allocate : HostState → String → String → Option String → Allocation → Reply
  after_allocate s plugin_id range_id owner (allocated ip tables) = (
    address ip,
    info "ipam address allocated"
        (plugin_fields plugin_id
          (field "rangeId" (str range_id) (text_field "owner" owner (field "ip" (str ip) end))))
        (record s { ipam = tables }),
  )
  after_allocate s plugin_id range_id owner no_range =
      (thrown (append "no ipam range registered with id '" (append range_id "'")), s)
  after_allocate s plugin_id range_id owner exhausted = (
    capability_error (
        append "ipam range '" (
          append range_id (
            append "' ("
              (append (cidr_text (get_ipam_range range_id s.ipam)) ") has no free addresses")))),
    s,
  )
  after_allocate s plugin_id range_id owner malformed = (thrown invalid_cidr, s)

  unfoldable pub ipam_allocate_handler : HostState → String → String → Option String → Reply
  ipam_allocate_handler s plugin_id range_id owner =
      if is_network_provider s plugin_id
      then after_allocate s plugin_id range_id owner
          (allocate_ip env.number env.now range_id owner s.ipam)
      else denied "ipam.allocate" plugin_id not_a_provider s

  unfoldable pub ipam_release_handler : HostState → String → String → Reply
  ipam_release_handler s plugin_id ip =
      if is_network_provider s plugin_id
      then (
        empty,
        info "ipam address released" (plugin_fields plugin_id (field "ip" (str ip) end))
            (record s { ipam = release_ip env.now ip s.ipam }),
      )
      else denied "ipam.release" plugin_id not_a_provider s

  abbrev pub probe : Option (String → String → Probe) → String → String → Probe
  probe none mode parent = record {
    ok = false;
    reason = some "network probing is unavailable in this environment";
  }
  probe (some ask) mode parent = ask mode parent

  unfoldable pub net_probe_handler : HostState → String → String → String → Reply
  net_probe_handler s plugin_id mode parent =
      if is_network_provider s plugin_id
      then (probed (probe env.probe_network mode parent), s)
      else denied "net.probeNetwork" plugin_id not_a_provider s

  -- `handlers[method]` where `handlers` has no such method: the name of a function that every object
  -- inherits finds that function.
  unfoldable pub unlisted : String → String → Answer
  unlisted plugin_id method =
      if method == "constructor"
      then answered (str plugin_id)
      else if method == "toString"
      then answered (str "[object Undefined]")
      else if method == "isPrototypeOf"
      then answered (bool false)
      else if includes inherited_throwing method
      then thrown (env.type_error method)
      else capability_error (append "unknown host API method: " method)

  unfoldable pub dispatch : HostState → String → HostCall → Reply
  unfolding broker_dns_apply secrets_get_handler secrets_put_handler certs_store_handler
      ipam_allocate_handler ipam_release_handler net_probe_handler unlisted
  dispatch s plugin_id (state_get key) = (found (get_plugin_kv s.store plugin_id key), s)
  dispatch s plugin_id (state_put key text) =
      (empty, record s { store = set_plugin_kv s.store plugin_id key text })
  dispatch s plugin_id (state_delete key) =
      (empty, record s { store = delete_plugin_kv s.store plugin_id key })
  dispatch s plugin_id (log_emit level msg fields) = (
    empty,
    info (or_else msg "")
        (plugin_fields plugin_id (field "level" (str (or_else level "info")) fields)) s,
  )
  dispatch s plugin_id (secrets_get name) = secrets_get_handler s plugin_id name
  dispatch s plugin_id (secrets_put name text) = secrets_put_handler s plugin_id name text
  dispatch s plugin_id (dns_set_record zone dns) = broker_dns_apply s plugin_id set zone dns
  dispatch s plugin_id (dns_delete_record zone dns) = broker_dns_apply s plugin_id delete zone dns
  dispatch s plugin_id (dns_query name kind r) = (
    empty,
    info (append "dns.query (advisory, plugin-resolved): " (append name (append " " kind)))
        (plugin_fields plugin_id (field "result" r end)) s,
  )
  dispatch s plugin_id (certs_store name cert_pem key_pem meta) =
      certs_store_handler s plugin_id name cert_pem key_pem meta
  dispatch s plugin_id (ipam_allocate range_id owner) =
      ipam_allocate_handler s plugin_id range_id owner
  dispatch s plugin_id (ipam_release ip) = ipam_release_handler s plugin_id ip
  dispatch s plugin_id (net_probe_network mode parent) = net_probe_handler s plugin_id mode parent
  dispatch s plugin_id (unknown method) = (unlisted plugin_id method, s)
