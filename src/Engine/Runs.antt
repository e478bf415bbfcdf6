-- ===== src/Engine/Runs.antt =====
-- A run stops at the first stage that fails or throws.
use wanfw.Common.{
  inl, inr, ap, ◌≡◌, refl, Bool, true, false, List, [], ◌∷◌, ◌++◌, Option, none, some, Bool-cases,
  ◌↔◌,
}
use wanfw.Pipeline.{StageError}
use wanfw.Engine.{
  Ended, fine, failed, threw, live, degraded, error, ReconcileOutcome, NamedStage, stopped_by,
  continue_with, run_stages, outcome_of, run_once,
}

module _ {Context : Type 0} where
  -- The stages run one after the other without an error, from the first context to the last.
  pub data Passes : List (NamedStage Context) → Context → Context → Type 0 where
    none_left : (c : Context) → Passes [] c c
    passes :
        (stage : NamedStage Context) (stages : List (NamedStage Context)) (c d e : Context)
        → stage.run c ≡ (d, fine)
        → Passes stages d e
        → Passes (stage ∷ stages) c e

  -- The first stage that stops the run, the stages before it, and those after it, which are not run
  pub data Stops : List (NamedStage Context) → Context → Context → StageError → Type 0 where
    stops :
        (before after : List (NamedStage Context)) (stage : NamedStage Context) (c d e : Context)
        (ended : Ended) (err : StageError)
        → Passes before c d
        → stage.run d ≡ (e, ended)
        → stopped_by stage.name ended ≡ some (some err)
        → Stops (before ++ stage ∷ after) c e err

  Stops-later :
      (stage : NamedStage Context) (stages : List (NamedStage Context)) (c d e : Context)
      (err : StageError)
      → stage.run c ≡ (d, fine)
      → Stops stages d e err
      → Stops (stage ∷ stages) c e err
  Stops-later stage _ c d e err r (stops before after last _ f _ ended _ p k h) =
      stops (stage ∷ before) after last c f e ended err (passes stage before c d f r p) k h

  Stops-here :
      (stage : NamedStage Context) (stages : List (NamedStage Context)) (c d e : Context)
      (ended : Ended) (o : Option StageError) (err : StageError)
      → stage.run c ≡ (d, ended)
      → stopped_by stage.name ended ≡ some o
      → Path (Context × Option StageError) (d, o) (e, some err)
      → Stops (stage ∷ stages) c e err
  Stops-here stage stages c d e ended o err r k h =
      let same : d ≡ e = ap (λ p. p.0) h in
      let error_same : o ≡ some err = ap (λ p. p.1) h in
      stops [] stages stage c c e ended err (none_left c) (rw (← same) r) (rw (← error_same) k)

  Stops-of_round :
      (stage : NamedStage Context) (stages : List (NamedStage Context)) (c d e : Context)
      (ended : Ended) (err : StageError)
      → stage.run c ≡ (d, ended)
      → (run_stages stages d ≡ (e, some err) → Stops stages d e err)
      → continue_with (stopped_by stage.name ended) d (run_stages stages d) ≡ (e, some err)
      → Stops (stage ∷ stages) c e err
  Stops-of_round stage stages c d e fine err r later h =
      Stops-later stage stages c d e err r (later h)
  Stops-of_round stage stages c d e (failed o) err r later h =
      Stops-here stage stages c d e (failed o) o err r refl h
  Stops-of_round stage stages c d e (threw m) err r later h =
      Stops-here stage stages c d e (threw m) _ err r refl h

  Stops-of_error :
      (stages : List (NamedStage Context)) (c e : Context) (err : StageError)
      → run_stages stages c ≡ (e, some err)
      → Stops stages c e err
  unfolding run_stages
  Stops-of_error [] c e err h = cc
  Stops-of_error (stage ∷ stages) c e err h =
      Stops-of_round stage stages c (stage.run c).0 e (stage.run c).1 err refl
        (Stops-of_error stages (stage.run c).0 e err) h

  run_stages-Stops :
      (stages : List (NamedStage Context)) (c e : Context) (err : StageError)
      → Stops stages c e err
      → run_stages stages c ≡ (e, some err)
  unfolding run_stages
  run_stages-Stops _ c e err (stops [] after stage _ d _ ended _ (none_left _) k h) =
      rw k (rw h refl)
  run_stages-Stops _ c e err
        (stops (s ∷ before) after stage _ d _ ended _ (passes _ _ _ f _ r p) k h) =
      rw r (
        run_stages-Stops (before ++ stage ∷ after) f e err
          (stops before after stage f d e ended err p k h))

  run_stages-Passes :
      (stages : List (NamedStage Context)) (c d : Context)
      → Passes stages c d
      → run_stages stages c ≡ (d, none)
  unfolding run_stages
  run_stages-Passes _ c _ (none_left _) = refl
  run_stages-Passes (_ ∷ _) c d (passes stage stages _ f _ r p) =
      rw r (run_stages-Passes stages f d p)

module _ {Context : Type 0} (empty : Context) (is_degraded : Context → Bool)
    (reason : Context → Option StageError) where
  error_phase_inv :
      (p : Context × Option StageError) (err : StageError)
      → outcome_of is_degraded reason p ≡ record { phase = error; last_error = some err }
      → p.1 ≡ some err
  error_phase_inv (c, some e) err h = ap (λ (o : ReconcileOutcome). o.last_error) h
  error_phase_inv (c, none) err h = elim (Bool-cases (is_degraded c)) [
    | inl e ↦ cc (rw e at h)
    | inr e ↦ cc (rw e at h)
  ]

  -- A run ends in phase error with an error exactly if the stages before some stage pass, and that
  -- stage then fails with the error or throws its message; the stages after it play no part.
  pub run_once-error_iff :
      (stages : List (NamedStage Context)) (err : StageError)
      → (run_once empty is_degraded reason stages ≡ record { phase = error; last_error = some err })
        ↔ ((last : Context) × Stops stages empty last err)
  unfolding run_once
  run_once-error_iff stages err = (
    (λ h. (
      (run_stages stages empty).0,
      Stops-of_error stages empty _ err (
          ap (λ o. ((run_stages stages empty).0, o))
            (error_phase_inv (run_stages stages empty) err h)),
    )),
    (λ (last, s). rw (run_stages-Stops stages empty last err s) refl),
  )

  -- A run in which every stage passes ends in phase live, or, with the context flagged, in phase
  -- degraded with the context's reason.
  pub run_once-Passes :
      (stages : List (NamedStage Context)) (last : Context)
      → Passes stages empty last
      → (is_degraded last ≡ false
          → run_once empty is_degraded reason stages ≡ record { phase = live; last_error = none })
        × (is_degraded last ≡ true
            → run_once empty is_degraded reason stages
              ≡ record { phase = degraded; last_error = reason last })
  unfolding run_once
  run_once-Passes stages last p =
      let e = run_stages-Passes stages empty last p in
      ((λ h. rw e (rw h refl)), (λ h. rw e (rw h refl)))
