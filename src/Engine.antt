-- ===== src/Engine.antt =====
-- The reconcile engine (packages/orchestrator/src/reconciler/engine.ts): one run of the stages, and
-- the coalescing of triggers that arrive during a run. A stage reads and changes the run's context; it
-- returns a result, whose error may be missing, or throws.
pub mod Runs
pub mod Triggers
use wanfw.Common.{
  ℕ, suc, String, ◌≡◌, Bool, true, false, if◌then◌else◌, List, [], ◌∷◌, Option, none, some,
}
use wanfw.Pipeline.{StageError}

pub data Ended : Type 0 where
  fine : Ended
  failed : Option StageError → Ended
  threw : String → Ended

pub data Phase : Type 0 where
  live degraded error : Phase

-- The outcome of a run; `last_error` is the degradation's reason in phase degraded.
pub record ReconcileOutcome : Type 0 where
  pub phase : Phase
  pub last_error : Option StageError

module _ (Context : Type 0) where
  pub record NamedStage : Type 0 where
    pub name : String
    pub run : Context → Context × Ended

-- What the loop breaks with, if it does
abbrev pub stopped_by : String → Ended → Option (Option StageError)
stopped_by name fine = none
stopped_by name (failed o) = some o
stopped_by name (threw message) =
    some (some (record { stage = name; plugin = none; message = message }))

module _ {Context : Type 0} where
  abbrev pub continue_with :
      Option (Option StageError)
      → Context
      → Context × Option StageError
      → Context × Option StageError
  continue_with none ctx rest = rest
  continue_with (some o) ctx rest = (ctx, o)

  -- The loop over the stages: the context at its end, and `lastError`
  unfoldable pub run_stages : List (NamedStage Context) → Context → Context × Option StageError
  run_stages [] ctx = (ctx, none)
  run_stages (stage ∷ stages) ctx =
      let (after, ended) = stage.run ctx in
      continue_with (stopped_by stage.name ended) after (run_stages stages after)

  abbrev pub outcome_of :
      (Context → Bool)
      → (Context → Option StageError)
      → Context × Option StageError
      → ReconcileOutcome
  outcome_of is_degraded reason (ctx, some e) = record { phase = error; last_error = some e }
  outcome_of is_degraded reason (ctx, none) =
      if is_degraded ctx
      then record { phase = degraded; last_error = reason ctx }
      else record { phase = live; last_error = none }

  -- A run starts from the empty context; `is_degraded` and `reason` read its flag and its reason.
  unfoldable pub run_once :
      Context
      → (Context → Bool)
      → (Context → Option StageError)
      → List (NamedStage Context)
      → ReconcileOutcome
  unfolding run_stages
  run_once empty is_degraded reason stages = outcome_of is_degraded reason (run_stages stages empty)

-- `running` tells that `runningPromise` is set.
pub record EngineState : Type 0 where
  pub running : Bool
  pub pending_rerun : Bool
  pub run_count : ℕ

abbrev pub initial_engine : EngineState
initial_engine = record { running = false; pending_rerun = false; run_count = 0 }

-- A trigger is called, or the run in flight ends.
pub data Event : Type 0 where
  trigger finish : Event

-- The head of the loop in `trigger`: a run begins.
abbrev pub begin_run : EngineState → EngineState
begin_run s = record { running = true; pending_rerun = false; run_count = suc s.run_count }

abbrev pub on_trigger : EngineState → EngineState
on_trigger s =
    if s.running
    then record { running = true; pending_rerun = true; run_count = s.run_count }
    else begin_run s

-- The end of the loop's body: another round, or the engine is idle again.
abbrev pub on_finish : EngineState → EngineState
on_finish s =
    if s.pending_rerun
    then begin_run s
    else record { running = false; pending_rerun = false; run_count = s.run_count }

-- A run can end only while one is in flight.
pub data Step : EngineState → Event → EngineState → Type 0 where
  triggered : (s : EngineState) → Step s trigger (on_trigger s)
  finished : (s : EngineState) → s.running ≡ true → Step s finish (on_finish s)

pub data Steps : EngineState → List Event → EngineState → Type 0 where
  done : (s : EngineState) → Steps s [] s
  step :
      (s t u : EngineState) (e : Event) (es : List Event)
      → Step s e t
      → Steps t es u
      → Steps s (e ∷ es) u
