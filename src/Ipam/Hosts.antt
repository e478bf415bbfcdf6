-- ===== src/Ipam/Hosts.antt =====
-- Which addresses a range offers.
use wanfw.Common.{
  ℕ, zero, suc, ◌+◌, ◌-◌, ◌≤◌, ◌<◌, String, ◌≡◌, ◌≢◌, refl, sym, ap, ◌↔◌, ◌⊎◌, inl, inr, Bool, true,
  false, eqb, eqb_iff, leb, if◌then◌else◌, List, ◌∷◌, Option, none, some, some_inj, arith, In,
  Bool-cases,
}
use wanfw.Ipam.{ParsedCidr, is_excluded, int_to_ip, hosts_from, hosts_of}

-- The address is that of a number between the bounds that is not the excluded one.
pub IsHost : ℕ → ℕ → Option ℕ → String → Type 0
IsHost from upto exclude ip =
    (n : ℕ) × (from ≤ n) × (n < upto) × (exclude ≢ some n) × (ip ≡ int_to_ip n)

excluded_iff : (n : ℕ) (exclude : Option ℕ) → (is_excluded n exclude ≡ true) ↔ (exclude ≡ some n)
excluded_iff n none = ((λ h. cc), (λ h. cc))
excluded_iff n (some e) =
    ((λ h. ap some (sym ((eqb_iff n e).0 h))), (λ h. (eqb_iff n e).1 (sym (some_inj h))))

kept_of_ne : (n : ℕ) (exclude : Option ℕ) → exclude ≢ some n → is_excluded n exclude ≡ false
kept_of_ne n exclude ne = elim (Bool-cases (is_excluded n exclude)) [
  | inl e ↦ absurd (ne ((excluded_iff n exclude).0 e))
  | inr e ↦ e
]

IsHost-later :
    (from upto : ℕ) (exclude : Option ℕ) (ip : String)
    → IsHost (suc from) (suc from + upto) exclude ip
    → IsHost from (from + suc upto) exclude ip
unfolding IsHost
IsHost-later from upto exclude ip (n, lo, hi, ne, e) = (n, omega arith, omega arith, ne, e)

IsHost-of_head :
    (b : Bool) (from count : ℕ) (exclude : Option ℕ) (ip : String) (rest : List String)
    → is_excluded from exclude ≡ b
    → In ip (if b then rest else int_to_ip from ∷ rest)
    → IsHost from (from + suc count) exclude ip ⊎ In ip rest
unfolding IsHost
IsHost-of_head true from count exclude ip rest e m = inr m
IsHost-of_head false from count exclude ip rest e (inr m) = inr m
IsHost-of_head false from count exclude ip rest e (inl same) =
    inl (from, omega arith, omega arith, (λ h. cc (e, (excluded_iff from exclude).1 h)), sym same)

IsHost-of_In :
    (from count : ℕ) (exclude : Option ℕ) (ip : String)
    → In ip (hosts_from from count exclude)
    → IsHost from (from + count) exclude ip
unfolding hosts_from
IsHost-of_In from zero exclude ip m = elim m [ ]
IsHost-of_In from (suc count) exclude ip m =
    elim (IsHost-of_head (is_excluded from exclude) from count exclude ip
      (hosts_from (suc from) count exclude) refl m) [
        | inl here ↦ here
        | inr i ↦ IsHost-later from count exclude ip (IsHost-of_In (suc from) count exclude ip i)
      ]

In-hosts_from :
    (from count n : ℕ) (exclude : Option ℕ)
    → from ≤ n
    → n < from + count
    → is_excluded n exclude ≡ false
    → In (int_to_ip n) (hosts_from from count exclude)
unfolding hosts_from
In-hosts_from from zero n exclude lo hi kept = absurd (omega arith)
In-hosts_from from (suc count) n exclude lo hi kept = elim (Bool-cases (eqb from n)) [
  | inl e ↦ let same = (eqb_iff from n).0 e in rw same (rw kept (inl refl))
  | inr e ↦
      let i = In-hosts_from (suc from) count n exclude (ground arith) (omega arith) kept in
      elim (Bool-cases (is_excluded from exclude)) [ inl x ↦ rw x i | inr x ↦ rw x (inr i) ]
]

bounded :
    (network broadcast : ℕ) (exclude : Option ℕ) (ip : String)
    → IsHost (suc network) (suc network + (broadcast - suc network)) exclude ip
    → IsHost (suc network) broadcast exclude ip
unfolding IsHost
bounded network broadcast exclude ip (n, lo, hi, ne, e) = (n, lo, omega arith, ne, e)

-- A range with a prefix of at most 30 offers the addresses strictly between its network and its
-- broadcast address, without the excluded one, and no other.
pub hosts_of_iff :
    (range : ParsedCidr) (exclude : Option ℕ) (ip : String)
    → range.prefix_len < 31
    → In ip (hosts_of range exclude) ↔ IsHost (suc range.network) range.broadcast exclude ip
unfolding hosts_of IsHost
hosts_of_iff range exclude ip small =
    let wide : leb 31 range.prefix_len ≡ false = ground arith in
    (
      (λ m. bounded range.network range.broadcast exclude ip (
          IsHost-of_In (suc range.network) (range.broadcast - suc range.network) exclude ip
            (rw wide at m))),
      (λ (n, lo, hi, ne, e). rw wide (
          rw e (
            In-hosts_from (suc range.network) (range.broadcast - suc range.network) n exclude lo
              (omega arith) (kept_of_ne n exclude ne)))),
    )
