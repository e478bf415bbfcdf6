-- ===== src/Ipam/Leases.antt =====
-- Allocated addresses: fresh in their range, kept by their owner, free again once released.
use wanfw.Common.{
  ℕ, String, ◌≡◌, ◌≢◌, refl, sym, ap, ◌∙◌, inl, inr, Bool, true, false, not, ◌&&◌, ◌||◌, ◌==◌,
  eq_iff, if◌then◌else◌, List, [], ◌∷◌, Option, none, some, arith, In, In-of_find, find, any,
  Bool-cases, Option-cases, upsert, update_where, some_inj, is_some,
}
use wanfw.Ipam.{
  IpamRangeRow, IpamAllocationRow, IpamTables, Allocation, allocated, no_range, exhausted,
  malformed, hosts_in_cidr, get_ipam_range, live_in, live_owned, is_taken, lease, put_lease,
  existing, allocate_fresh, allocate_ip, release_ip,
}

-- The first row that passes a test that only the new row passes
find-upsert_only :
    (p q : IpamAllocationRow → Bool) (row : IpamAllocationRow) (xs : List IpamAllocationRow)
    → find q xs ≡ none
    → q row ≡ true
    → find q (upsert p (λ a. row) row xs) ≡ some row
find-upsert_only p q row [] h k = rw k refl
find-upsert_only p q row (x ∷ xs) h k = elim (Bool-cases (q x)) [
  | inl e ↦ cc (rw e at h)
  | inr e ↦ elim (Bool-cases (p x)) [
    | inl px ↦ rw px (rw k refl)
    | inr px ↦ rw px (rw e (find-upsert_only p q row xs (rw e at h) k))
  ]
]

abbrev holds : String → String → IpamAllocationRow → Bool
holds range_id ip a = live_in range_id a && a.ip == ip

other_row :
    (range_id ip : String) (a : IpamAllocationRow)
    → (a.ip == ip) ≡ false
    → holds range_id ip a ≡ false
other_row range_id ip a h = rw h (ground arith)

any-upsert_other :
    (range_id ip : String) (row : IpamAllocationRow) (xs : List IpamAllocationRow)
    → (row.ip == ip) ≡ false
    → any (holds range_id ip) (upsert (λ (a : IpamAllocationRow). a.ip == row.ip) (λ a. row) row xs)
      ≡ any (holds range_id ip) xs
any-upsert_other range_id ip row [] h = rw (other_row range_id ip row h) refl
any-upsert_other range_id ip row (x ∷ xs) h = elim (Bool-cases (x.ip == row.ip)) [
  | inl e ↦
      let row_misses = other_row range_id ip row h in
      let x_misses = other_row range_id ip x (rw ((eq_iff x.ip row.ip).0 e) h) in
      rw e (rw row_misses (rw x_misses refl))
  | inr e ↦ rw e (rw (any-upsert_other range_id ip row xs h) refl)
]

any-upsert_self :
    (range_id ip : String) (row : IpamAllocationRow) (xs : List IpamAllocationRow)
    → holds range_id ip row ≡ true
    → any (holds range_id ip) (upsert (λ (a : IpamAllocationRow). a.ip == row.ip) (λ a. row) row xs)
      ≡ true
any-upsert_self range_id ip row [] h = rw h refl
any-upsert_self range_id ip row (x ∷ xs) h = elim (Bool-cases (x.ip == row.ip)) [
  | inl e ↦ rw e (rw h refl)
  | inr e ↦ rw e (rw (any-upsert_self range_id ip row xs h) (ground arith))
]

result_of : Allocation → Option (String × IpamTables)
result_of (allocated ip t) = some (ip, t)
result_of no_range = none
result_of exhausted = none
result_of malformed = none

allocated_inj :
    {ip ip' : String} {t t' : IpamTables}
    → allocated ip t ≡ allocated ip' t'
    → (ip ≡ ip') × (t ≡ t')
unfolding result_of
allocated_inj h =
    let pair_same = some_inj (ap result_of h) in (ap (λ p. p.0) pair_same, ap (λ p. p.1) pair_same)

-- A successful allocation with no lease of that owner is that of the first untaken host.
fresh_inv :
    (now range_id : String) (owner : Option String) (t : IpamTables) (hosts : Option (List String))
    (ip : String) (t' : IpamTables)
    → allocate_fresh now range_id owner t hosts ≡ allocated ip t'
    → (hs : List String) × (hosts ≡ some hs)
      × (find (λ h. not (is_taken range_id t h)) hs ≡ some ip)
      × (t' ≡ put_lease (lease now range_id ip owner) t)
fresh_inv now range_id owner t none ip t' h = cc
fresh_inv now range_id owner t (some hs) ip t' h =
    elim (Option-cases (find (λ h. not (is_taken range_id t h)) hs)) [
      | inl e ↦ cc (rw e at h)
      | inr (found, e) ↦
          let (same, tables) = allocated_inj (rw e at h) in
          (hs, refl, rw (← same) e, rw (← same) (sym tables))
    ]

-- The parts of a successful allocation that finds no lease of the owner
fresh_allocation :
    (number : String → Option ℕ) (now range_id : String) (owner : Option String) (t : IpamTables)
    (ip : String) (t' : IpamTables)
    → allocate_ip number now range_id owner t ≡ allocated ip t'
    → existing range_id owner t ≡ none
    → (range : IpamRangeRow) × (hs : List String) × (get_ipam_range range_id t ≡ some range)
      × (hosts_in_cidr number range.cidr range.gateway ≡ some hs)
      × (find (λ h. not (is_taken range_id t h)) hs ≡ some ip)
      × (t' ≡ put_lease (lease now range_id ip owner) t)
unfolding allocate_ip
fresh_allocation number now range_id owner t ip t' h none_of =
    elim (Option-cases (get_ipam_range range_id t)) [
      | inl e ↦ cc (rw e at h)
      | inr (range, e) ↦
          let (hs, g, f, k) =
            fresh_inv now range_id owner t (hosts_in_cidr number range.cidr range.gateway) ip t'
              (rw none_of at (rw e at h)) in
          (range, hs, e, g, f, k)
    ]

taken_after :
    (now range_id ip : String) (owner : Option String) (t : IpamTables)
    → is_taken range_id (put_lease (lease now range_id ip owner) t) ip ≡ true
unfolding is_taken
taken_after now range_id ip owner t =
    any-upsert_self range_id ip (lease now range_id ip owner) t.allocations
      (rw ((eq_iff range_id range_id).1 refl) (rw ((eq_iff ip ip).1 refl) refl))

differs : (a b : String) → a ≢ b → (a == b) ≡ false
differs a b ne = elim (Bool-cases (a == b)) [ inl e ↦ absurd (ne ((eq_iff a b).0 e)) | inr e ↦ e ]

others_after :
    (now range_id ip other : String) (owner : Option String) (t : IpamTables)
    → other ≢ ip
    → (any_range : String)
    → is_taken any_range (put_lease (lease now range_id ip owner) t) other
      ≡ is_taken any_range t other
unfolding is_taken
others_after now range_id ip other owner t ne any_range =
    any-upsert_other any_range other (lease now range_id ip owner) t.allocations
      (differs ip other (λ e. ne (sym e)))

-- A new address is one of the usable addresses of the range's cidr without its gateway, was free in
-- the range and is taken afterwards; every other address stays as it was, in every range.
pub allocate_ip-fresh :
    (number : String → Option ℕ) (now range_id : String) (owner : Option String) (t : IpamTables)
    (ip : String) (t' : IpamTables)
    → allocate_ip number now range_id owner t ≡ allocated ip t'
    → existing range_id owner t ≡ none
    → ((range : IpamRangeRow) × (hs : List String) × (get_ipam_range range_id t ≡ some range)
        × (hosts_in_cidr number range.cidr range.gateway ≡ some hs)
        × In ip hs)
      × (is_taken range_id t ip ≡ false)
      × (is_taken range_id t' ip ≡ true)
      × ((other any_range : String)
          → other ≢ ip
          → is_taken any_range t' other ≡ is_taken any_range t other)
allocate_ip-fresh number now range_id owner t ip t' h none_of =
    let (range, hs, g, k, f, e) = fresh_allocation number now range_id owner t ip t' h none_of in
    let (m, free) = In-of_find (λ h. not (is_taken range_id t h)) ip hs f in
    (
      (range, hs, g, k, m),
      ground arith,
      rw e (taken_after now range_id ip owner t),
      λ other any_range ne. rw e (others_after now range_id ip other owner t ne any_range),
    )

found_again :
    (number : String → Option ℕ) (now range_id owner : String) (t : IpamTables)
    (range : IpamRangeRow) (a : IpamAllocationRow)
    → get_ipam_range range_id t ≡ some range
    → existing range_id (some owner) t ≡ some a
    → allocate_ip number now range_id (some owner) t ≡ allocated a.ip t
unfolding allocate_ip
found_again number now range_id owner t range a g e = rw g (rw e refl)

existing_after :
    (now range_id ip owner : String) (t : IpamTables)
    → owner ≢ ""
    → existing range_id (some owner) t ≡ none
    → existing range_id (some owner) (put_lease (lease now range_id ip (some owner)) t)
      ≡ some (lease now range_id ip (some owner))
existing_after now range_id ip owner t named none_of =
    let blank = differs owner "" named in
    rw blank (
      find-upsert_only (λ (a : IpamAllocationRow). a.ip == ip) (live_owned range_id owner)
        (lease now range_id ip (some owner)) t.allocations (rw blank at none_of)
        (rw ((eq_iff range_id range_id).1 refl) (rw ((eq_iff owner owner).1 refl) refl)))

range_of_allocation :
    (number : String → Option ℕ) (now range_id : String) (owner : Option String) (t : IpamTables)
    (ip : String) (t' : IpamTables)
    → allocate_ip number now range_id owner t ≡ allocated ip t'
    → (range : IpamRangeRow) × (get_ipam_range range_id t ≡ some range)
unfolding allocate_ip
range_of_allocation number now range_id owner t ip t' h =
    elim (Option-cases (get_ipam_range range_id t)) [ inl e ↦ cc (rw e at h) | inr found ↦ found ]

-- Asking again for the same owner, which is not blank, gives the same address and changes nothing.
pub allocate_ip-again :
    (number : String → Option ℕ) (now later range_id owner : String) (t : IpamTables) (ip : String)
    (t' : IpamTables)
    → owner ≢ ""
    → allocate_ip number now range_id (some owner) t ≡ allocated ip t'
    → allocate_ip number later range_id (some owner) t' ≡ allocated ip t'
unfolding get_ipam_range
allocate_ip-again number now later range_id owner t ip t' named h =
    let (range, g) = range_of_allocation number now range_id (some owner) t ip t' h in
    elim (Option-cases (existing range_id (some owner) t)) [
      | inl e ↦
          let (_, _, _, _, _, after) =
            fresh_allocation number now range_id (some owner) t ip t' h e in
          rw after (
            found_again number later range_id owner
              (put_lease (lease now range_id ip (some owner)) t) range
              (lease now range_id ip (some owner)) g
              (existing_after now range_id ip owner t named e))
      | inr (a, e) ↦
          let (same, tables) =
            allocated_inj (sym (found_again number now range_id owner t range a g e) ∙ h) in
          rw (← tables) (rw (← same) (found_again number later range_id owner t range a g e))
    ]

or_false : {b : Bool} → b ≡ false → (b || false) ≡ false
or_false {b} h = rw h refl

released_misses :
    (now range_id ip : String) (x : IpamAllocationRow) (same released : Bool)
    → (x.ip == ip) ≡ same
    → is_some x.released_at ≡ released
    → holds range_id ip (
        if same && not released
        then record {
          ip = x.ip;
          range_id = x.range_id;
          allocated_at = x.allocated_at;
          released_at = some now;
          owner = x.owner;
        }
        else x)
      ≡ false
released_misses now range_id ip x false released e r = other_row range_id ip x e
released_misses now range_id ip x true true e r = rw r (ground arith)
released_misses now range_id ip x true false e r = ground arith

release_row :
    (now range_id ip : String) (xs : List IpamAllocationRow)
    → any (holds range_id ip) (
        update_where
          (λ (a : IpamAllocationRow). a.ip == ip && not (is_some a.released_at))
          (λ a. record {
            ip = a.ip;
            range_id = a.range_id;
            allocated_at = a.allocated_at;
            released_at = some now;
            owner = a.owner;
          })
          xs)
      ≡ false
release_row now range_id ip [] = refl
release_row now range_id ip (x ∷ xs) =
    rw (release_row now range_id ip xs)
      (or_false (released_misses now range_id ip x (x.ip == ip) (is_some x.released_at) refl refl))

-- A released address is free in every range.
pub release_ip-frees :
    (now ip : String) (t : IpamTables) (range_id : String)
    → is_taken range_id (release_ip now ip t) ip ≡ false
unfolding is_taken release_ip
release_ip-frees now ip t range_id = release_row now range_id ip t.allocations
