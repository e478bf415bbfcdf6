-- ===== src/Engine/Triggers.antt =====
-- Triggers coalesce, and none is lost.
use wanfw.Common.{
  ℕ, zero, suc, ◌+◌, ◌≤◌, ◌≡◌, refl, true, false, List, [], ◌∷◌, ◌++◌, arith, if◌then◌else◌,
}
use wanfw.Engine.{
  EngineState, initial_engine, Event, trigger, finish, on_trigger, Step, triggered, finished, Steps,
  done, step,
}

abbrev pub count_triggers : List Event → ℕ
count_triggers [] = 0
count_triggers (trigger ∷ es) = suc (count_triggers es)
count_triggers (finish ∷ es) = count_triggers es

-- A run is asked for only while one is in flight.
Sound : EngineState → Type 0
Sound s = s.running ≡ false → s.pending_rerun ≡ false

-- The runs that were begun, with the one that is owed
abbrev pub owed : EngineState → ℕ
owed s = if s.pending_rerun then suc s.run_count else s.run_count

owed-Step :
    (s t : EngineState) (e : Event)
    → Step s e t
    → (owed s ≤ owed t) × (owed t ≤ owed s + count_triggers (e ∷ []))
owed-Step s t e (triggered _) = (ground arith, ground arith)
owed-Step s t e (finished _ r) = (ground arith, ground arith)

Sound-Step : (s t : EngineState) (e : Event) → Step s e t → Sound t
unfolding Sound
Sound-Step s t e (triggered _) h = ground arith
Sound-Step s t e (finished _ r) h = ground arith

Sound-Steps : (s t : EngineState) (es : List Event) → Steps s es t → Sound s → Sound t
Sound-Steps s t es (done _) h = h
Sound-Steps s t es (step _ u _ e es' one rest) h = Sound-Steps u t es' rest (Sound-Step s u e one)

count_one :
    (e : Event) (es : List Event)
    → count_triggers (e ∷ es) ≡ count_triggers (e ∷ []) + count_triggers es
count_one trigger es = omega arith
count_one finish es = omega arith

owed-Steps :
    (s t : EngineState) (es : List Event)
    → Steps s es t
    → (owed s ≤ owed t) × (owed t ≤ owed s + count_triggers es)
owed-Steps s t es (done _) = (omega arith, omega arith)
owed-Steps s t es (step _ u _ e es' one rest) =
    let (lo, hi) = owed-Step s u e one in
    let (lo_rest, hi_rest) = owed-Steps u t es' rest in
    let split_count = count_one e es' in (omega arith, omega arith)

runs_le_owed : (s : EngineState) → s.run_count ≤ owed s
runs_le_owed s = ground arith

-- However triggers and ends of runs interleave, no more runs are begun than triggers were called.
pub run_count-bounded :
    (es : List Event) (s : EngineState)
    → Steps initial_engine es s
    → s.run_count ≤ count_triggers es
run_count-bounded es s h =
    let (_, hi) = owed-Steps initial_engine s es h in let below = runs_le_owed s in omega arith

idle_owed : (t : EngineState) → Sound t → t.running ≡ false → owed t ≡ t.run_count
unfolding Sound
idle_owed t sound idle = rw (sound idle) refl

trigger_owes : (s : EngineState) → suc s.run_count ≤ owed (on_trigger s)
trigger_owes s = ground arith

-- Once the engine is idle again after a trigger, a run was begun after that trigger, whatever else
-- happened in between and in whatever state the trigger found the engine.
pub trigger-not_lost :
    (s t : EngineState) (es : List Event)
    → Steps s (trigger ∷ es) t
    → t.running ≡ false
    → suc s.run_count ≤ t.run_count
trigger-not_lost s t es (step _ _ _ _ _ (triggered _) rest) idle =
    let (lo, _) = owed-Steps (on_trigger s) t es rest in
    let owes = trigger_owes s in
    let sound =
      Sound-Steps (on_trigger s) t es rest (Sound-Step s (on_trigger s) trigger (triggered s)) in
    let same = idle_owed t sound idle in omega arith

-- `n` triggers in a row
abbrev pub triggers : ℕ → List Event
triggers zero = []
triggers (suc n) = trigger ∷ triggers n

abbrev waiting : ℕ → EngineState
waiting runs = record { running = true; pending_rerun = true; run_count = runs }

after_finishes :
    (runs : ℕ) (t : EngineState)
    → Steps (waiting runs) (finish ∷ finish ∷ []) t
    → t ≡ record { running = false; pending_rerun = false; run_count = suc runs }
after_finishes runs t (step _ _ _ _ _ (finished _ _) (step _ _ _ _ _ (finished _ _) (done _))) =
    refl

after_triggers :
    (runs n : ℕ) (es : List Event) (t : EngineState)
    → Steps (waiting runs) (triggers n ++ es) t
    → Steps (waiting runs) es t
after_triggers runs zero es t h = h
after_triggers runs (suc n) es t (step _ _ _ _ _ (triggered _) rest) =
    after_triggers runs n es t rest

-- Any number of triggers, at least one, that arrive during a run are answered by one more run, after
-- which the engine is idle.
pub triggers-coalesce :
    (s t : EngineState) (n : ℕ)
    → s.running ≡ true
    → Steps s (triggers (suc n) ++ finish ∷ finish ∷ []) t
    → t ≡ record { running = false; pending_rerun = false; run_count = suc s.run_count }
triggers-coalesce s t n busy (step _ _ _ _ _ (triggered _) rest) =
    after_finishes s.run_count t
      (after_triggers s.run_count n (finish ∷ finish ∷ []) t (rw busy at rest))
