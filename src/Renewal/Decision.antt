-- ===== src/Renewal/Decision.antt =====
-- When a renewal is attempted.
use wanfw.Common.{
  some_inj, ℕ, zero, suc, ◌+◌, ◌*◌, ◌≤◌, String, ◌≡◌, refl, ◌↔◌, inl, inr, Bool, true, false,
  Option, none, some, arith, Bool-cases,
}
use wanfw.Renewal.{
  RenewalState, RenewalDecisionInput, Reason, uncovered, san_mismatch, renewal_window, backoff_step,
  wait_after, jitter, wait_time, due_by_backoff_or_pace, more_than_days_left, less_than_days_left,
  compute_renewal_decision, is_escalated, elapsed_since, due_or_backoff, decide, day,
}

-- The stored certificate, if any, does not do: it covers other names, or has at most 30 of its 90 days
-- left.
pub data NeedsRenewal (now : ℕ) (stored_at : Option ℕ) (names_match : Bool) : Type 0 where
  never_stored : stored_at ≡ none → NeedsRenewal now stored_at names_match
  wrong_names : names_match ≡ false → NeedsRenewal now stored_at names_match
  aged :
      (t : ℕ)
      → stored_at ≡ some t
      → t + 60 * 86400000 ≤ now
      → NeedsRenewal now stored_at names_match

-- No attempt was made in the last `wait` milliseconds.
pub data Waited (last_attempt_at : Option ℕ) (now wait : ℕ) : Type 0 where
  no_attempt : last_attempt_at ≡ none → Waited last_attempt_at now wait
  attempt : (t : ℕ) → last_attempt_at ≡ some t → t + wait ≤ now → Waited last_attempt_at now wait

-- The pace of attempts that do not follow a failure: none for a certificate that is missing or covers
-- other names, else a day and the jitter of the name.
abbrev pub pace_of : Option ℕ → Bool → String → ℕ
pace_of none names_match cert_name = 0
pace_of (some t) false cert_name = 0
pace_of (some t) true cert_name = day + jitter cert_name

Waited-of_flag :
    (last : Option ℕ) (now wait : ℕ) → elapsed_since last now wait ≡ true → Waited last now wait
Waited-of_flag none now wait h = no_attempt refl
Waited-of_flag (some t) now wait h = attempt t refl (ground arith)

flag_of_Waited :
    (last : Option ℕ) (now wait : ℕ) → Waited last now wait → elapsed_since last now wait ≡ true
flag_of_Waited last now wait (no_attempt e) = rw e refl
flag_of_Waited last now wait (attempt t e h) = rw e (ground arith)

aged_iff : (now t : ℕ) → (more_than_days_left 30 now t ≡ false) ↔ (t + 60 * 86400000 ≤ now)
unfolding more_than_days_left
aged_iff now t = ((λ h. ground arith), (λ h. ground arith))

not_aged : (now t : ℕ) → more_than_days_left 30 now t ≡ true → NeedsRenewal now (some t) true → ⊥
not_aged now t e (never_stored h) = cc
not_aged now t e (wrong_names h) = cc
not_aged now t e (aged u same h) =
    let eq : t ≡ u = some_inj same in cc (e, (aged_iff now t).1 (omega arith))

due_when :
    (now : ℕ) (state : RenewalState) (pace : ℕ) (reason : Reason)
    → ((due_or_backoff (due_by_backoff_or_pace now state pace) reason).due ≡ true)
      ↔ Waited state.last_attempt_at now (wait_time state pace)
unfolding due_by_backoff_or_pace
due_when now state pace reason =
    elim (Bool-cases (elapsed_since state.last_attempt_at now (wait_time state pace))) [
      | inl e ↦ ((λ h. Waited-of_flag _ _ _ e), (λ w. rw e refl))
      | inr e ↦ ((λ h. cc (rw e at h)), (λ w. cc (e, flag_of_Waited _ _ _ w)))
    ]

decide_iff :
    (now : ℕ) (cert_name : String) (stored_at : Option ℕ) (names_match : Bool)
    (state : RenewalState)
    → ((decide now cert_name stored_at names_match state).due ≡ true) ↔ (
        NeedsRenewal now stored_at names_match
        × Waited state.last_attempt_at now
            (wait_time state (pace_of stored_at names_match cert_name)))
decide_iff now cert_name none names_match state =
    let (f, g) = due_when now state 0 uncovered in
    ((λ h. (never_stored refl, f h)), (λ (n, w). g w))
decide_iff now cert_name (some t) false state =
    let (f, g) = due_when now state 0 san_mismatch in
    ((λ h. (wrong_names refl, f h)), (λ (n, w). g w))
decide_iff now cert_name (some t) true state =
    let (f, g) = due_when now state (day + jitter cert_name) renewal_window in
    elim (Bool-cases (more_than_days_left 30 now t)) [
      | inl e ↦ ((λ h. cc (rw e at h)), (λ (n, w). absurd (not_aged now t e n)))
      | inr e ↦ ((λ h. (aged t refl ((aged_iff now t).0 e), f (rw e at h))), (λ (n, w). rw e (g w)))
    ]

-- A renewal is attempted exactly if the stored certificate is missing, covers other names than the
-- desired ones or has at most 30 days left, and the last attempt, if any, is at least the waiting time
-- ago: after failures the backoff of their number, else a day and the jitter of the name for a
-- certificate that covers the names, and no time for one that does not.
pub compute_renewal_decision-due_iff :
    (input : RenewalDecisionInput)
    → ((compute_renewal_decision input).due ≡ true) ↔ (
        NeedsRenewal input.now input.stored_at input.names_match
        × Waited input.state.last_attempt_at input.now
            (wait_time input.state (pace_of input.stored_at input.names_match input.cert_name)))
unfolding compute_renewal_decision
compute_renewal_decision-due_iff input =
    decide_iff input.now input.cert_name input.stored_at input.names_match input.state

backoff_step_le : (n : ℕ) → backoff_step n ≤ 86400000
backoff_step_le zero = omega arith
backoff_step_le (suc zero) = omega arith
backoff_step_le (suc (suc zero)) = omega arith
backoff_step_le (suc (suc (suc n))) = omega arith

jitter_le : (cert_name : String) → jitter cert_name ≤ 14400000
unfolding jitter
jitter_le cert_name = omega arith

pace_le :
    (stored_at : Option ℕ) (names_match : Bool) (cert_name : String)
    → pace_of stored_at names_match cert_name ≤ 100800000
pace_le none names_match cert_name = omega arith
pace_le (some t) false cert_name = omega arith
pace_le (some t) true cert_name = let h = jitter_le cert_name in omega arith

wait_le : (failures pace : ℕ) → pace ≤ 100800000 → wait_after failures pace ≤ 100800000
wait_le zero pace h = h
wait_le (suc n) pace h = let b = backoff_step_le n in omega arith

wait_time_le :
    (state : RenewalState) (stored_at : Option ℕ) (names_match : Bool) (cert_name : String)
    → wait_time state (pace_of stored_at names_match cert_name) ≤ 100800000
unfolding wait_time
wait_time_le state stored_at names_match cert_name =
    wait_le state.consecutive_failures _ (pace_le stored_at names_match cert_name)

-- However often renewal failed before, one is attempted once the certificate needs it and no attempt
-- was made in the last 28 hours.
pub compute_renewal_decision-within_28_hours :
    (input : RenewalDecisionInput)
    → NeedsRenewal input.now input.stored_at input.names_match
    → Waited input.state.last_attempt_at input.now 100800000
    → (compute_renewal_decision input).due ≡ true
compute_renewal_decision-within_28_hours input n (no_attempt e) =
    (compute_renewal_decision-due_iff input).1 (n, no_attempt e)
compute_renewal_decision-within_28_hours input n (attempt t e h) =
    let bound = wait_time_le input.state input.stored_at input.names_match input.cert_name in
    (compute_renewal_decision-due_iff input).1 (n, attempt t e (omega arith))

-- When the framework is degraded because a certificate is about to lapse, the certificate needs renewal.
pub is_escalated-NeedsRenewal :
    (now : ℕ) (stored_at : Option ℕ) (names_match names_required : Bool)
    → is_escalated now stored_at names_required ≡ true
    → NeedsRenewal now stored_at names_match
unfolding is_escalated less_than_days_left
is_escalated-NeedsRenewal now stored_at names_match false h = cc
is_escalated-NeedsRenewal now none names_match true h = never_stored refl
is_escalated-NeedsRenewal now (some t) names_match true h = aged t refl (ground arith)
