-- ===== src/Tests/Leases.antt =====
-- Tests of the address ranges and the renewal of certificates.
use wanfw.Common.{
  arith, split, ℕ, String, ◌≡◌, ◌≢◌, ◌↔◌, refl, true, false, ◌==◌, List, [], ◌∷◌, Option, none,
  some, In, if◌then◌else◌,
}
use wanfw.Json.{decimal}
use wanfw.Ipam.{
  IpamRangeRow, IpamTables, allocated, ParsedCidr, allocate_ip, is_taken, hosts_of, hosts_in_cidr,
  get_ipam_range, lease, put_lease,
}
use wanfw.Ipam.Leases.{allocate_ip-fresh}
use wanfw.Ipam.Hosts.{IsHost, hosts_of_iff}
use wanfw.Renewal.{
  RenewalDecisionInput, compute_renewal_decision, is_escalated, less_than_days_left, wait_time,
}
use wanfw.Renewal.Decision.{
  NeedsRenewal, never_stored, Waited, attempt, pace_of, compute_renewal_decision-due_iff,
  compute_renewal_decision-within_28_hours,
}

-- The numbers of the tests' texts
abbrev small_number : String → Option ℕ
small_number s =
    if s == "10"
    then some 10
    else if s == "0"
    then some 0
    else if s == "1"
    then some 1
    else if s == "30"
    then some 30
    else if s == "240"
    then some 240
    else none

abbrev lan : IpamRangeRow
lan = record { id = "lan"; cidr = "10.0.0.240/30"; gateway = "10.0.0.1" }

abbrev no_leases : IpamTables
no_leases = record { ranges = lan ∷ []; allocations = [] }

abbrev one_lease : IpamTables
one_lease = put_lease (lease "t1" "lan" "10.0.0.241" (some "proxy")) no_leases

proxy_allocated :
    allocate_ip small_number "t1" "lan" (some "proxy") no_leases ≡ allocated "10.0.0.241" one_lease
unfolding allocate_ip split decimal
proxy_allocated = refl

allocate_ip-fresh_example :
    ((range : IpamRangeRow) × (hs : List String) × (get_ipam_range "lan" no_leases ≡ some range)
      × (hosts_in_cidr small_number range.cidr range.gateway ≡ some hs)
      × In "10.0.0.241" hs)
    × (is_taken "lan" no_leases "10.0.0.241" ≡ false)
    × (is_taken "lan" one_lease "10.0.0.241" ≡ true)
    × ((other any_range : String)
        → other ≢ "10.0.0.241"
        → is_taken any_range one_lease other ≡ is_taken any_range no_leases other)
allocate_ip-fresh_example =
    allocate_ip-fresh small_number "t1" "lan" (some "proxy") no_leases "10.0.0.241" one_lease
      proxy_allocated refl

abbrev slice : ParsedCidr
slice = record { network = 240; broadcast = 243; prefix_len = 30 }

hosts_of_iff_example :
    In "0.0.0.242" (hosts_of slice (some 241)) ↔ IsHost 241 243 (some 241) "0.0.0.242"
hosts_of_iff_example = hosts_of_iff slice (some 241) "0.0.0.242" (omega arith)

abbrev first_issue : RenewalDecisionInput
first_issue = record {
  now = 200000000;
  cert_name = "wildcard";
  stored_at = none;
  names_match = false;
  state = record {
    last_attempt_at = some 1000;
    last_success_at = none;
    consecutive_failures = 2;
    last_error = some ("acme", "no answer");
  };
}

compute_renewal_decision-due_iff_example : ((compute_renewal_decision first_issue).due ≡ true) ↔ (
    NeedsRenewal 200000000 none false
    × Waited (some 1000) 200000000 (wait_time first_issue.state (pace_of none false "wildcard")))
compute_renewal_decision-due_iff_example = compute_renewal_decision-due_iff first_issue

first_issue_due : (compute_renewal_decision first_issue).due ≡ true
first_issue_due =
    compute_renewal_decision-within_28_hours first_issue (never_stored refl)
      (attempt 1000 refl (omega arith))

late : is_escalated 7800000000 (some 100000000) true ≡ true
unfolding is_escalated less_than_days_left
late = refl
