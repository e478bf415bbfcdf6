-- ===== src/Renewal.antt =====
-- The renewal decision (packages/orchestrator/src/renewal/scheduler.ts). A date is its time in
-- milliseconds; the days left on a certificate are compared in milliseconds, which spares the division.
pub mod Decision
pub mod Stage
use Prim.Native.Char.{Char, code}
use wanfw.Common.{
  ℕ, zero, suc, ◌+◌, ◌*◌, ◌%◌, ◌^◌, String, Bool, true, false, ◌||◌, ltb, leb, if◌then◌else◌,
  Option, none, some,
}

abbrev pub hour : ℕ
hour = 3600000

abbrev pub day : ℕ
day = 86400000

abbrev pub cert_lifetime_days : ℕ
cert_lifetime_days = 90

abbrev pub renew_within_days : ℕ
renew_within_days = 30

abbrev pub escalate_within_days : ℕ
escalate_within_days = 7

abbrev pub jitter_spread : ℕ
jitter_spread = 14400000

-- `BACKOFF_STEPS_MS[Math.min(failures - 1, 3)]`, of the failures before the last one
abbrev pub backoff_step : ℕ → ℕ
backoff_step zero = 3600000
backoff_step (suc zero) = 14400000
backoff_step (suc (suc zero)) = 43200000
backoff_step (suc (suc (suc n))) = 86400000

pub record RenewalState : Type 0 where
  pub last_attempt_at : Option ℕ
  pub last_success_at : Option ℕ
  pub consecutive_failures : ℕ
  pub last_error : Option (String × String)

abbrev pub initial_renewal_state : RenewalState
initial_renewal_state = record {
  last_attempt_at = none;
  last_success_at = none;
  consecutive_failures = 0;
  last_error = none;
}

pub record RenewalDecisionInput : Type 0 where
  pub now : ℕ
  pub cert_name : String
  pub stored_at : Option ℕ
  pub names_match : Bool
  pub state : RenewalState

pub data Reason : Type 0 where
  uncovered san_mismatch renewal_window not_yet_due backoff : Reason

pub record RenewalDecision : Type 0 where
  pub due : Bool
  pub reason : Reason

-- One round per character: `(hash * 31 + code) >>> 0`
abbrev name_hash : ℕ → String → ℕ
name_hash hash String.[] = hash
name_hash hash (String.◌∷◌ c s) = name_hash ((hash * 31 + code c) % 4294967296) s

unfoldable pub jitter : String → ℕ
jitter cert_name = name_hash 0 cert_name % jitter_spread

-- The least time between two attempts
abbrev pub wait_after : ℕ → ℕ → ℕ
wait_after zero pace = pace
wait_after (suc n) pace = backoff_step n

unfoldable pub wait_time : RenewalState → ℕ → ℕ
wait_time state pace = wait_after state.consecutive_failures pace

abbrev pub elapsed_since : Option ℕ → ℕ → ℕ → Bool
elapsed_since none now wait = true
elapsed_since (some t) now wait = leb (t + wait) now

unfoldable pub due_by_backoff_or_pace : ℕ → RenewalState → ℕ → Bool
unfolding wait_time
due_by_backoff_or_pace now state pace =
    elapsed_since state.last_attempt_at now (wait_time state pace)

-- `remainingDays(now, storedAt) > days`
unfoldable pub more_than_days_left : ℕ → ℕ → ℕ → Bool
more_than_days_left days now stored_at =
    ltb (days * day + now) (cert_lifetime_days * day + stored_at)

-- `remainingDays(now, storedAt) < days`
unfoldable pub less_than_days_left : ℕ → ℕ → ℕ → Bool
less_than_days_left days now stored_at =
    ltb (cert_lifetime_days * day + stored_at) (days * day + now)

abbrev pub due_or_backoff : Bool → Reason → RenewalDecision
due_or_backoff true reason = record { due = true; reason = reason }
due_or_backoff false reason = record { due = false; reason = backoff }

abbrev pub on_demand : ℕ → RenewalState → Reason → RenewalDecision
on_demand now state reason = due_or_backoff (due_by_backoff_or_pace now state 0) reason

abbrev pub paced : ℕ → String → RenewalState → RenewalDecision
paced now cert_name state =
    due_or_backoff (due_by_backoff_or_pace now state (day + jitter cert_name)) renewal_window

abbrev pub in_window : ℕ → ℕ → String → RenewalState → RenewalDecision
in_window now stored_at cert_name state =
    if more_than_days_left renew_within_days now stored_at
    then record { due = false; reason = not_yet_due }
    else paced now cert_name state

abbrev pub decide : ℕ → String → Option ℕ → Bool → RenewalState → RenewalDecision
decide now cert_name none names_match state = on_demand now state uncovered
decide now cert_name (some t) false state = on_demand now state san_mismatch
decide now cert_name (some t) true state = in_window now t cert_name state

unfoldable pub compute_renewal_decision : RenewalDecisionInput → RenewalDecision
unfolding due_by_backoff_or_pace jitter more_than_days_left
compute_renewal_decision input =
    decide input.now input.cert_name input.stored_at input.names_match input.state

abbrev pub escalated : Bool → Option ℕ → ℕ → Bool
escalated false stored_at now = false
escalated true none now = true
escalated true (some t) now = less_than_days_left escalate_within_days now t

unfoldable pub is_escalated : ℕ → Option ℕ → Bool → Bool
unfolding less_than_days_left
is_escalated now stored_at names_required = escalated names_required stored_at now
