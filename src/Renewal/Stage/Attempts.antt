-- ===== src/Renewal/Stage/Attempts.antt =====
-- A failed attempt is not repeated before its backoff is over.
use wanfw.Common.{
  some_inj, ℕ, ◌+◌, ◌<◌, String, ◌≡◌, sym, ap, ◌∙◌, inl, inr, true, not, ◌&&◌, ◌==◌, &&-eq-true,
  List, [], ◌∷◌, Option, none, some, arith, Bool-cases, Option-cases,
}
use wanfw.Renewal.{RenewalState, backoff_step, wait_time, compute_renewal_decision}
use wanfw.Renewal.Decision.{Waited, no_attempt, attempt, compute_renewal_decision-due_iff}
use wanfw.Renewal.Stage.{
  StageInput, EnsureCall, decision_input, attempted, with_issuer, with_names, renewal_stage,
}

-- A call is made only when one is due, and the state is then that after an attempt.
call_inv :
    (input : StageInput) (issuer : Option String) (answer : EnsureCall → Option (String × String))
    (at : ℕ) (c : EnsureCall)
    → (with_issuer input issuer answer at).call ≡ some c
    → ((compute_renewal_decision (decision_input input)).due ≡ true)
      × ((with_issuer input issuer answer at).written ≡ some (attempted at input.state (answer c)))
call_inv input none answer at c h = cc
call_inv input (some issuer) answer at c h =
    elim (Bool-cases
      (not (issuer == "") && (compute_renewal_decision (decision_input input)).due)) [
        | inl e ↦
            let same = some_inj (rw e at h) in
            ((&&-eq-true _ _ e).1, rw e (ap (λ k. some (attempted at input.state (answer k))) same))
        | inr e ↦ cc (rw e at h)
      ]

names_inv :
    (names : List String) (input : StageInput) (answer : EnsureCall → Option (String × String))
    (at : ℕ) (c : EnsureCall)
    → (with_names names input answer at).call ≡ some c
    → ((compute_renewal_decision (decision_input input)).due ≡ true)
      × ((with_names names input answer at).written ≡ some (attempted at input.state (answer c)))
names_inv [] input answer at c h = cc
names_inv (n ∷ ns) input answer at c h = call_inv input input.cert_issuer answer at c h

stage_inv :
    (input : StageInput) (answer : EnsureCall → Option (String × String)) (at : ℕ) (c : EnsureCall)
    → (renewal_stage input answer at).call ≡ some c
    → ((compute_renewal_decision (decision_input input)).due ≡ true)
      × ((renewal_stage input answer at).written ≡ some (attempted at input.state (answer c)))
unfolding renewal_stage
stage_inv input answer at c h = names_inv input.names input answer at c h

not-Waited :
    (s : RenewalState) (err : String × String) (at now pace : ℕ)
    → now < at + backoff_step s.consecutive_failures
    → Waited
        (attempted at s (some err)).last_attempt_at
        now
        (wait_time (attempted at s (some err)) pace)
    → ⊥
unfolding attempted wait_time
not-Waited s err at now pace early (no_attempt e) = cc
not-Waited s err at now pace early (attempt t e h) =
    let same : at ≡ t = some_inj e in absurd (omega arith)

-- After an attempt that the issuer refuses, no run of the stage on the written state calls an issuer
-- before the backoff of the failures so far is over, whatever names are required then, whatever
-- certificate is stored and whoever the issuer is.
pub renewal_stage-backs_off :
    (input later : StageInput) (answer answer' : EnsureCall → Option (String × String)) (at at' : ℕ)
    (c : EnsureCall) (err : String × String)
    → (renewal_stage input answer at).call ≡ some c
    → answer c ≡ some err
    → (renewal_stage input answer at).written ≡ some later.state
    → later.now < at + backoff_step input.state.consecutive_failures
    → (renewal_stage later answer' at').call ≡ none
renewal_stage-backs_off input later answer answer' at at' c err h refused stored early =
    let (_, w) = stage_inv input answer at c h in
    let state_same : attempted at input.state (some err) ≡ later.state =
      ap (attempted at input.state) (sym refused) ∙ some_inj (sym w ∙ stored) in
    elim (Option-cases (renewal_stage later answer' at').call) [
      | inl e ↦ e
      | inr (c', e) ↦
          let (due, _) = stage_inv later answer' at' c' e in
          let (_, waited) = (compute_renewal_decision-due_iff (decision_input later)).0 due in
          absurd (not-Waited input.state err at later.now _ early (rw (← state_same) at waited))
    ]
