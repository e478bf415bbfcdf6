-- ===== src/Ipam.antt =====
-- IPv4 ranges (packages/orchestrator/src/ipam/cidr.ts) and the address tables of the state store
-- (packages/orchestrator/src/state-store/store.ts): ranges keyed by id, allocations keyed by address.
-- `number` is JavaScript's `Number` of a text where that is an integer of at least 0, else none. An
-- error thrown is none, or an outcome of its own.
pub mod Hosts
pub mod Leases
use wanfw.Common.{
  ℕ, zero, suc, ◌+◌, ◌-◌, ◌*◌, ◌/◌, ◌%◌, ◌^◌, String, Bool, true, false, not, ◌&&◌, ◌||◌, ◌==◌, eqb,
  leb, ltb, if◌then◌else◌, List, [], ◌∷◌, map, Option, none, some, split, join, append, find,
  filter, any, upsert, update_where, sort, text_le, is_some, take,
}
use wanfw.Json.{decimal}

pub record ParsedCidr : Type 0 where
  pub network : ℕ
  pub broadcast : ℕ
  pub prefix_len : ℕ

pub record IpamRangeRow : Type 0 where
  pub id : String
  pub cidr : String
  pub gateway : String

pub record IpamAllocationRow : Type 0 where
  pub ip : String
  pub range_id : String
  pub allocated_at : String
  pub released_at : Option String
  pub owner : Option String

pub record IpamTables : Type 0 where
  pub ranges : List IpamRangeRow
  pub allocations : List IpamAllocationRow

-- What `allocateIp` does: it returns an address, or throws for a missing range, a range with no free
-- address, or a malformed one.
pub data Allocation : Type 0 where
  allocated : String → IpamTables → Allocation
  no_range exhausted malformed : Allocation

abbrev octet : Option ℕ → Option ℕ
octet none = none
octet (some p) = if leb p 255 then some p else none

abbrev octets : List (Option ℕ) → Option ℕ
octets (some a ∷ some b ∷ some c ∷ some d ∷ []) = some (a * 16777216 + b * 65536 + c * 256 + d)
octets _ = none

unfoldable pub int_to_ip : ℕ → String
int_to_ip n = join "." (
    decimal (n / 16777216 % 256)
    ∷ decimal (n / 65536 % 256)
    ∷ decimal (n / 256 % 256)
    ∷ decimal (n % 256)
    ∷ [])

abbrev pub is_excluded : ℕ → Option ℕ → Bool
is_excluded n none = false
is_excluded n (some e) = eqb n e

-- `for (n = from; n < from + count; n++)`, without the excluded address
unfoldable pub hosts_from : ℕ → ℕ → Option ℕ → List String
unfolding int_to_ip
hosts_from from zero exclude = []
hosts_from from (suc count) exclude =
    let rest = hosts_from (suc from) count exclude in
    if is_excluded from exclude then rest else int_to_ip from ∷ rest

-- The range of an address and a prefix length: the address with its host bits cleared, and with all of
-- them set.
unfoldable pub range_of : ℕ → ℕ → ParsedCidr
range_of address prefix_len =
    let size = 2 ^ (32 - prefix_len) in
    record {
      network = address / size * size;
      broadcast = address / size * size + (size - 1);
      prefix_len = prefix_len;
    }

-- The hosts between the network and the broadcast address; none in a /31 or /32
unfoldable pub hosts_of : ParsedCidr → Option ℕ → List String
unfolding hosts_from
hosts_of range exclude =
    let hosts = hosts_from (suc range.network) (range.broadcast - suc range.network) exclude in
    if leb 31 range.prefix_len then [] else hosts

abbrev is_blank : String → Bool
is_blank s = s == ""

abbrev two_parts : List String → Option (String × String)
two_parts (a ∷ p ∷ rest) = if is_blank a || is_blank p then none else some (a, p)
two_parts _ = none

module _ (number : String → Option ℕ) where
  unfoldable pub ip_to_int : String → Option ℕ
  ip_to_int ip = octets (map (λ s. octet (number s)) (split 46 ip))

  abbrev cidr_of : Option ℕ → Option ℕ → Option ParsedCidr
  cidr_of (some address) (some prefix_len) =
      if leb prefix_len 32 then some (range_of address prefix_len) else none
  cidr_of _ _ = none

  abbrev parse_parts : Option (String × String) → Option ParsedCidr
  parse_parts none = none
  parse_parts (some (address, prefix)) = cidr_of (ip_to_int address) (number prefix)

  -- Split at most once: what follows a second slash is dropped.
  unfoldable pub parse_cidr : String → Option ParsedCidr
  unfolding ip_to_int range_of
  parse_cidr cidr = parse_parts (two_parts (split 47 cidr))

  abbrev pub hosts_with : Option ParsedCidr → Option (Option ℕ) → Option (List String)
  hosts_with (some range) (some exclude) = some (hosts_of range exclude)
  hosts_with _ _ = none

  abbrev excluded : String → Option (Option ℕ)
  excluded address =
      if is_blank address
      then some none
      else elim (ip_to_int address) [ none ↦ none | some n ↦ some (some n) ]

  -- The usable addresses of the range without `exclude`, or none where the source throws
  unfoldable pub hosts_in_cidr : String → String → Option (List String)
  unfolding parse_cidr hosts_of
  hosts_in_cidr cidr exclude = hosts_with (parse_cidr cidr) (excluded exclude)

  abbrev within : Option ParsedCidr → Option ℕ → Option Bool
  within (some range) (some n) = some (leb range.network n && leb n range.broadcast)
  within _ _ = none

  unfoldable pub is_ip_in_cidr : String → String → Option Bool
  unfolding parse_cidr
  is_ip_in_cidr ip cidr = within (parse_cidr cidr) (ip_to_int ip)

-- A range is inserted, or its cidr and gateway replaced.
unfoldable pub set_ipam_range : IpamRangeRow → IpamTables → IpamTables
set_ipam_range row t = record {
  ranges =
      upsert (λ (r : IpamRangeRow). r.id == row.id)
        (λ r. record { id = r.id; cidr = row.cidr; gateway = row.gateway }) row t.ranges;
  allocations = t.allocations;
}

unfoldable pub get_ipam_range : String → IpamTables → Option IpamRangeRow
get_ipam_range id t = find (λ (r : IpamRangeRow). r.id == id) t.ranges

-- `range_id = ? AND released_at IS NULL`
abbrev pub live_in : String → IpamAllocationRow → Bool
live_in range_id a = a.range_id == range_id && not (is_some a.released_at)

abbrev owned_by : String → Option String → Bool
owned_by owner none = false
owned_by owner (some o) = o == owner

-- `range_id = ? AND owner = ? AND released_at IS NULL`
abbrev pub live_owned : String → String → IpamAllocationRow → Bool
live_owned range_id owner a = live_in range_id a && owned_by owner a.owner

-- The address is allocated in the range: it has a live row.
unfoldable pub is_taken : String → IpamTables → String → Bool
is_taken range_id t ip =
    any (λ (a : IpamAllocationRow). live_in range_id a && a.ip == ip) t.allocations

abbrev pub lease : String → String → String → Option String → IpamAllocationRow
lease now range_id ip owner = record {
  ip = ip;
  range_id = range_id;
  allocated_at = now;
  released_at = none;
  owner = owner;
}

-- INSERT ... ON CONFLICT(ip) DO UPDATE: the row of the address becomes the new one.
abbrev pub put_lease : IpamAllocationRow → IpamTables → IpamTables
put_lease row t = record {
  ranges = t.ranges;
  allocations = upsert (λ (a : IpamAllocationRow). a.ip == row.ip) (λ a. row) row t.allocations;
}

-- `if (owner)`: an empty owner is none.
abbrev pub existing : String → Option String → IpamTables → Option IpamAllocationRow
existing range_id none t = none
existing range_id (some owner) t =
    if is_blank owner then none else find (live_owned range_id owner) t.allocations

abbrev pub grant_candidate :
    String → String → Option String → IpamTables → Option String → Allocation
grant_candidate now range_id owner t none = exhausted
grant_candidate now range_id owner t (some ip) =
    allocated ip (put_lease (lease now range_id ip owner) t)

abbrev pub allocate_fresh :
    String → String → Option String → IpamTables → Option (List String) → Allocation
allocate_fresh now range_id owner t none = malformed
allocate_fresh now range_id owner t (some hosts) =
    grant_candidate now range_id owner t (find (λ ip. not (is_taken range_id t ip)) hosts)

abbrev pub allocate_unless :
    (String → Option ℕ)
    → String
    → String
    → IpamRangeRow
    → Option String
    → IpamTables
    → Option IpamAllocationRow
    → Allocation
allocate_unless number now range_id range owner t (some a) = allocated a.ip t
allocate_unless number now range_id range owner t none =
    allocate_fresh now range_id owner t (hosts_in_cidr number range.cidr range.gateway)

abbrev pub allocate_in :
    (String → Option ℕ)
    → String
    → String
    → Option String
    → IpamTables
    → Option IpamRangeRow
    → Allocation
allocate_in number now range_id owner t none = no_range
allocate_in number now range_id owner t (some range) =
    allocate_unless number now range_id range owner t (existing range_id owner t)

unfoldable pub allocate_ip :
    (String → Option ℕ) → String → String → Option String → IpamTables → Allocation
unfolding get_ipam_range is_taken hosts_in_cidr
allocate_ip number now range_id owner t =
    allocate_in number now range_id owner t (get_ipam_range range_id t)

unfoldable pub release_ip : String → String → IpamTables → IpamTables
release_ip now ip t = record {
  ranges = t.ranges;
  allocations =
      update_where (λ (a : IpamAllocationRow). a.ip == ip && not (is_some a.released_at))
        (λ a. record {
          ip = a.ip;
          range_id = a.range_id;
          allocated_at = a.allocated_at;
          released_at = some now;
          owner = a.owner;
        })
        t.allocations;
}
