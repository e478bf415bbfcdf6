-- ===== src/HostState.antt =====
-- What the host API's handlers read and change (packages/orchestrator/src/host-api/dispatcher.ts), and
-- the secrets store (packages/orchestrator/src/secrets/store.ts), a file by the path that path.join
-- gives. A call carries its method and the arguments that the method's handler reads; `unknown` stands
-- for the methods that no handler is listed under. The listing of the secrets is left out.
use wanfw.Common.{ℕ, String, Bool, not, ◌==◌, List, Option, none, some, filter, find, upsert}
use wanfw.Json.{Json, Fields}
use wanfw.Store.{StateStore}
use wanfw.Ipam.{IpamTables}
use wanfw.Certs.{CertVolume}

pub record SecretFile : Type 0 where
  pub path : String
  pub value : String

pub record LogLine : Type 0 where
  pub msg : String
  pub fields : Fields

pub data DnsAction : Type 0 where
  set delete : DnsAction

pub record DnsRecord : Type 0 where
  pub kind : String
  pub name : String
  pub value : String
  pub ttl : Option ℕ

-- What the broker asks of the bound dns-provider plugin.
pub record DnsCall : Type 0 where
  pub provider : String
  pub zone : String
  pub action : DnsAction
  pub dns_record : DnsRecord

pub data DnsAnswer : Type 0 where
  done : Option Json → DnsAnswer
  rejected : Option String → DnsAnswer

pub record Probe : Type 0 where
  pub ok : Bool
  pub reason : Option String

pub record HostState : Type 0 where
  pub store : StateStore
  pub ipam : IpamTables
  pub secrets : List SecretFile
  pub certs : CertVolume
  pub log : List LogLine
  -- The calls made of dns-provider plugins, and how often `onCertChange` ran.
  pub dns_calls : List DnsCall
  pub cert_changes : ℕ

-- The clock, JSON.parse, Number, path.join, the types in the manifest of a trusted bundle (none where
-- there is no readable manifest), the bound roles, the answers of the dns-provider plugins, which may
-- depend on what they were asked before, and the daemon's network probe.
pub record HostEnv : Type 0 where
  pub now : String
  pub json_parse : String → Json
  pub number : String → Option ℕ
  pub join_path : String → String → String
  pub secrets_dir : String
  pub manifest_types : String → Option (List String)
  pub roles : List (String × String)
  pub answer : List DnsCall → DnsCall → DnsAnswer
  pub probe_network : Option (String → String → Probe)
  -- The message of the TypeError that the call of an inherited function throws.
  pub type_error : String → String

pub data HostCall : Type 0 where
  state_get : String → HostCall
  state_put : String → String → HostCall
  state_delete : String → HostCall
  log_emit : Option String → Option String → Fields → HostCall
  secrets_get : String → HostCall
  secrets_put : String → String → HostCall
  dns_set_record : String → DnsRecord → HostCall
  dns_delete_record : String → DnsRecord → HostCall
  dns_query : String → String → Json → HostCall
  certs_store : String → String → String → Option Fields → HostCall
  ipam_allocate : String → Option String → HostCall
  ipam_release : String → HostCall
  net_probe_network : String → String → HostCall
  unknown : String → HostCall

pub data Answer : Type 0 where
  empty : Answer
  found : Option String → Answer
  answered : Json → Answer
  generation : ℕ → Answer
  address : String → Answer
  probed : Probe → Answer
  -- `CapabilityError`, and any other error
  capability_error : String → Answer
  thrown : String → Answer

-- secrets/store.ts

unfoldable pub secret_path : HostEnv → String → String
secret_path env name = env.join_path env.secrets_dir name

abbrev pub secret_value : Option SecretFile → Option String
secret_value none = none
secret_value (some f) = some f.value

unfoldable pub get_secret : HostEnv → String → List SecretFile → Option String
unfolding secret_path
get_secret env name files =
    secret_value (find (λ (f : SecretFile). f.path == secret_path env name) files)

unfoldable pub put_secret : HostEnv → String → String → List SecretFile → List SecretFile
unfolding secret_path
put_secret env name text files =
    let path = secret_path env name in
    upsert (λ (f : SecretFile). f.path == path) (λ f. record { path = path; value = text })
      (record { path = path; value = text }) files

unfoldable pub unset_secret : HostEnv → String → List SecretFile → List SecretFile
unfolding secret_path
unset_secret env name files =
    filter (λ (f : SecretFile). not (f.path == secret_path env name)) files
