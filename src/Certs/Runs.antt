-- ===== src/Certs/Runs.antt =====
-- Any sequence of stores, some of them cut off by a crash, and of rollbacks
-- (packages/orchestrator/src/certs/store.ts).
use wanfw.Common.{
  ℕ, zero, suc, String, ◌≡◌, ◌⊎◌, refl, ap, inl, inr, true, eqb, List, [], ◌∷◌, ◌++◌, take, drop,
  is_some, Bool-cases,
}
use wanfw.Json.{Fields}
use wanfw.Certs.{
  Generation, CertDir, CertFile, FsStep, rename_into, write_current, remove_gen, empty_dir, run,
  next_gen, store_steps, new_generation, stripped, interrupt, cut_store, current_cert,
  RollbackResult, never_stored, no_earlier_generation, rolled_back, rollback_cert,
}
use wanfw.Certs.Crash.{IsValid, run-take, store_steps-atomic}
use wanfw.Certs.Rollback.{AllWhole, rollback_cert-earlier}

-- A store stops after a number of its steps, or runs to its end where the number is large enough; within
-- the step after them it has deleted these files.
pub data CertOp : Type 0 where
  store : String → String → String → Fields → List CertFile → ℕ → CertOp
  roll_back : CertOp

-- A rollback that throws changes nothing.
abbrev pub dir_after : CertDir → RollbackResult → CertDir
dir_after d never_stored = d
dir_after d no_earlier_generation = d
dir_after d (rolled_back n d') = d'

abbrev pub perform : CertOp → CertDir → CertDir
perform (store now cert key meta fs k) d =
    cut_store fs k (new_generation now cert key meta (next_gen d)) d
perform roll_back d = dir_after d (rollback_cert d)

abbrev pub perform_all : List CertOp → CertDir → CertDir
perform_all [] d = d
perform_all (op ∷ ops) d = perform_all ops (perform op d)

-- No store is cut off within the removal of a generation.
abbrev pub RemovesWhole : List CertOp → Type 0
RemovesWhole [] = Unit {0}
RemovesWhole (store now cert key meta [] k ∷ ops) = RemovesWhole ops
RemovesWhole (store now cert key meta (f ∷ fs) k ∷ ops) = ⊥
RemovesWhole (roll_back ∷ ops) = RemovesWhole ops

abbrev pub OnlyStores : List CertOp → Type 0
OnlyStores [] = Unit {0}
OnlyStores (store now cert key meta fs k ∷ ops) = OnlyStores ops
OnlyStores (roll_back ∷ ops) = ⊥

stripped-nil : (n : ℕ) (gens : List Generation) → stripped [] n gens ≡ gens
stripped-nil n [] = refl
stripped-nil n (g ∷ gens) = elim (Bool-cases (eqb g.number n)) [
  | inl e ↦ rw e (ap (λ l. g ∷ l) (stripped-nil n gens))
  | inr e ↦ rw e (ap (λ l. g ∷ l) (stripped-nil n gens))
]

interrupt-nil : (steps : List FsStep) (d : CertDir) → interrupt [] steps d ≡ d
unfolding interrupt
interrupt-nil [] d = refl
interrupt-nil (rename_into g ∷ steps) d = refl
interrupt-nil (write_current n ∷ steps) d = refl
interrupt-nil (remove_gen n ∷ steps) d =
    ap (λ (gens : List Generation). record d { generations = gens }) (stripped-nil n d.generations)

AllWhole-snoc :
    (gens : List Generation) (g : Generation)
    → AllWhole gens
    → is_some g.fullchain ≡ true
    → AllWhole (gens ++ g ∷ [])
AllWhole-snoc [] g w h = (h, tt)
AllWhole-snoc (x ∷ gens) g (k, w) h = (k, AllWhole-snoc gens g w h)

AllWhole-drop : (i : ℕ) (gens : List Generation) → AllWhole gens → AllWhole (drop i gens)
AllWhole-drop zero gens w = w
AllWhole-drop (suc i) [] w = tt
AllWhole-drop (suc i) (g ∷ gens) (k, w) = AllWhole-drop i gens w

-- A store that is not cut off within a removal leaves whole generations only.
store-AllWhole :
    (now cert key : String) (meta : Fields) (k : ℕ) (d : CertDir)
    → IsValid d
    → AllWhole d.generations
    → AllWhole (cut_store [] k (new_generation now cert key meta (next_gen d)) d).generations
unfolding cut_store
store-AllWhole now cert key meta k d v w =
    let g : Generation = new_generation now cert key meta (next_gen d) in
    let whole = AllWhole-snoc d.generations g w refl in
    rw (interrupt-nil (drop k (store_steps g d)) (run (take k (store_steps g d)) d))
      (elim (run-take g d v refl refl k) [
        | inl e ↦ rw e w
        | inr (inl e) ↦ rw e whole
        | inr (inr (i, h, e)) ↦ rw e (AllWhole-drop i (d.generations ++ g ∷ []) whole)
      ])

dir_after-IsValid :
    (d : CertDir) (r : RollbackResult)
    → rollback_cert d ≡ r
    → IsValid d
    → AllWhole d.generations
    → IsValid (dir_after d r) × AllWhole (dir_after d r).generations
dir_after-IsValid d never_stored e v w = (v, w)
dir_after-IsValid d no_earlier_generation e v w = (v, w)
dir_after-IsValid d (rolled_back n d') e v w =
    let (_, same, after) = rollback_cert-earlier d d' n v w e in (after, rw same w)

whole_runs :
    (ops : List CertOp) (d : CertDir)
    → RemovesWhole ops
    → IsValid d
    → AllWhole d.generations
    → IsValid (perform_all ops d)
whole_runs [] d r v w = v
whole_runs (store now cert key meta [] k ∷ ops) d r v w =
    whole_runs ops _ r (store_steps-atomic now cert key meta d [] k v).1
      (store-AllWhole now cert key meta k d v w)
whole_runs (store now cert key meta (f ∷ fs) k ∷ ops) d r v w = elim r [ ]
whole_runs (roll_back ∷ ops) d r v w =
    let (v', w') = dir_after-IsValid d (rollback_cert d) refl v w in whole_runs ops _ r v' w'

store_runs :
    (ops : List CertOp) (d : CertDir) → OnlyStores ops → IsValid d → IsValid (perform_all ops d)
store_runs [] d r v = v
store_runs (store now cert key meta fs k ∷ ops) d r v =
    store_runs ops _ r (store_steps-atomic now cert key meta d fs k v).1
store_runs (roll_back ∷ ops) d r v = elim r [ ]

IsValid-empty_dir : IsValid empty_dir
unfolding current_cert
IsValid-empty_dir = record { ascends = tt; pointed = refl }

-- Whatever stores and rollbacks a new directory goes through, in any order and each store cut off
-- anywhere or not, the generations ascend and the `current` pointer, once there is one, names a
-- generation that has its certificate, provided that no store is cut off within the removal of a
-- generation, or that there are no rollbacks.
pub perform_all-never_dangles :
    (ops : List CertOp) → RemovesWhole ops ⊎ OnlyStores ops → IsValid (perform_all ops empty_dir)
perform_all-never_dangles ops (inl r) = whole_runs ops empty_dir r IsValid-empty_dir tt
perform_all-never_dangles ops (inr r) = store_runs ops empty_dir r IsValid-empty_dir
