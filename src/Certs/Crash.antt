-- ===== src/Certs/Crash.antt =====
-- Storing a certificate that may be cut off anywhere
-- (packages/orchestrator/src/certs/store.ts).
use wanfw.Common.{
  arith, ℕ, suc, zero, String, ◌+◌, ◌-◌, ◌≤◌, ◌<◌, ◌≡◌, refl, sym, ap, ◌∙◌, inl, inr, ◌⊎◌, true,
  false, leb, List, [], ◌∷◌, ◌++◌, Option, none, some, map, length, take, drop, sort, is_some,
  Option-cases, Bool-cases, eqb, length-append,
}
use wanfw.Json.{Fields}
use wanfw.Certs.{
  Generation, CertDir, FsStep, rename_into, write_current, remove_gen, CertFile, fullchain_file,
  key_file, meta_file, without_file, without_files, stripped, interrupt, cut_store, with_fullchain,
  numbers, list_generations, apply, run, next_gen, to_prune, retained_generations, store_steps,
  store_cert, new_generation, generation_of, current_cert,
}
use wanfw.Certs.Ascending.{
  AscendsFrom, end_from, AscendsFrom-snoc, AscendsFrom-drop, sort-ascending, numbers-append,
  run-prune, next_gen-end, drop-snoc, find-snoc, find-append_some, length-numbers, end_from-drop,
  le-end_from,
}

-- The numbers are positive and ascend, and the pointer, if there is one, names a generation that has its
-- certificate.
pub record IsValid (d : CertDir) : Type 0 where
  pub ascends : AscendsFrom 0 d.generations
  pub pointed : is_some (current_cert d) ≡ is_some d.current

-- The directory after a store of `g` of which `i` generations have been pruned.
abbrev pub stored : ℕ → Generation → CertDir → CertDir
stored i g d = record {
  generations = drop i (d.generations ++ g ∷ []);
  current = some g.number;
  renewal_state = d.renewal_state;
}

abbrev pub pruned : CertDir → ℕ
pruned d = length d.generations + 1 - retained_generations

take-map-take :
    (k m : ℕ) (xs : List ℕ)
    → (i : ℕ) × (i ≤ m) × (take k (map remove_gen (take m xs)) ≡ map remove_gen (take i xs))
take-map-take zero m xs = (0, omega arith, refl)
take-map-take (suc k) zero xs = (0, omega arith, refl)
take-map-take (suc k) (suc m) [] = (0, omega arith, refl)
take-map-take (suc k) (suc m) (x ∷ xs) =
    let (i, h, e) = take-map-take k m xs in (suc i, omega arith, ap (λ l. remove_gen x ∷ l) e)

take_all : (xs : List FsStep) → take (length xs) xs ≡ xs
take_all [] = refl
take_all (x ∷ xs) = ap (λ l. x ∷ l) (take_all xs)

numbers-stripped : (fs : List CertFile) (g : Generation) → (without_files fs g).number ≡ g.number
numbers-stripped [] g = refl
numbers-stripped (fullchain_file ∷ fs) g = numbers-stripped fs (without_file fullchain_file g)
numbers-stripped (key_file ∷ fs) g = numbers-stripped fs (without_file key_file g)
numbers-stripped (meta_file ∷ fs) g = numbers-stripped fs (without_file meta_file g)

AscendsFrom-stripped :
    (fs : List CertFile) (n b : ℕ) (gens : List Generation)
    → AscendsFrom b gens
    → AscendsFrom b (stripped fs n gens)
AscendsFrom-stripped fs n b [] a = tt
AscendsFrom-stripped fs n b (g ∷ gens) (k, a) = elim (Bool-cases (eqb g.number n)) [
  | inl e ↦ rw (e, numbers-stripped fs g) (k, AscendsFrom-stripped fs n g.number gens a)
  | inr e ↦ rw e (k, AscendsFrom-stripped fs n g.number gens a)
]

-- Deleting files of one generation leaves another as it is.
find-stripped :
    (fs : List CertFile) (n c : ℕ) (gens : List Generation)
    → n < c
    → generation_of (some c) (stripped fs n gens) ≡ generation_of (some c) gens
find-stripped fs n c [] h = refl
find-stripped fs n c (g ∷ gens) h = elim (Bool-cases (eqb g.number n)) [
  | inl e ↦
      let other : eqb g.number c ≡ false = ground arith in
      rw (e, numbers-stripped fs g, other) (find-stripped fs n c gens h)
  | inr e ↦ rw (e, find-stripped fs n c gens h) refl
]

-- The steps remove generations under `c` only.
abbrev PrunesBelow : ℕ → List FsStep → Type 0
PrunesBelow c [] = Unit {0}
PrunesBelow c (remove_gen n ∷ steps) = (n < c) × PrunesBelow c steps
PrunesBelow c (rename_into g ∷ steps) = ⊥
PrunesBelow c (write_current n ∷ steps) = ⊥

PrunesBelow-numbers :
    (c k b : ℕ) (gens : List Generation)
    → AscendsFrom b gens
    → end_from b gens < c
    → PrunesBelow c (map remove_gen (take k (numbers gens)))
PrunesBelow-numbers c zero b gens a h = tt
PrunesBelow-numbers c (suc k) b [] a h = tt
PrunesBelow-numbers c (suc k) b (g ∷ gens) (l, a) h =
    (omega (arith, le-end_from g.number gens a), PrunesBelow-numbers c k g.number gens a h)

PrunesBelow-drop :
    (c i : ℕ) (steps : List FsStep) → PrunesBelow c steps → PrunesBelow c (drop i steps)
PrunesBelow-drop c zero steps p = p
PrunesBelow-drop c (suc i) [] p = tt
PrunesBelow-drop c (suc i) (remove_gen n ∷ steps) (h, p) = PrunesBelow-drop c i steps p
PrunesBelow-drop c (suc i) (rename_into g ∷ steps) p = elim p [ ]
PrunesBelow-drop c (suc i) (write_current n ∷ steps) p = elim p [ ]

take-snoc :
    (k : ℕ) (gens : List Generation) (g : Generation)
    → k ≤ length gens
    → take k (numbers (gens ++ g ∷ [])) ≡ take k (numbers gens)
take-snoc zero gens g h = refl
take-snoc (suc k) [] g h = absurd (omega arith)
take-snoc (suc k) (x ∷ gens) g h = ap (λ l. x.number ∷ l) (take-snoc k gens g (omega arith))

module _ (g : Generation) (d : CertDir) (v : IsValid d) (fresh : g.number ≡ next_gen d)
    (whole : is_some g.fullchain ≡ true) where
  pub newest : end_from 0 d.generations < g.number
  newest = omega (arith, next_gen-end d v.ascends)

  pub ascends_whole : AscendsFrom 0 (d.generations ++ g ∷ [])
  ascends_whole = AscendsFrom-snoc 0 d.generations g v.ascends newest

  all_numbers : sort leb (list_generations d ++ g.number ∷ []) ≡ numbers (d.generations ++ g ∷ [])
  unfolding list_generations
  all_numbers =
      rw (sort-ascending 0 d.generations v.ascends, ← numbers-append d.generations (g ∷ []))
        (sort-ascending 0 (d.generations ++ g ∷ []) ascends_whole)

  prune_count :
      to_prune (sort leb (list_generations d ++ g.number ∷ []))
      ≡ take (pruned d) (numbers (d.generations ++ g ∷ []))
  prune_count =
      let same : length (numbers (d.generations ++ g ∷ [])) ≡ length d.generations + 1 =
        length-numbers (d.generations ++ g ∷ []) ∙ length-append d.generations (g ∷ []) in
      rw (all_numbers, same) refl

  -- Where a store that is cut off leaves the directory.
  pub run-take :
      (k : ℕ)
      → (run (take k (store_steps g d)) d ≡ d)
        ⊎ (run (take k (store_steps g d)) d ≡ record d { generations = d.generations ++ g ∷ [] })
        ⊎ ((i : ℕ) × (i ≤ pruned d) × (run (take k (store_steps g d)) d ≡ stored i g d))
  unfolding store_steps run apply
  run-take zero = inl refl
  run-take (suc zero) = inr (inl refl)
  run-take (suc (suc k)) =
      let (i, h, e) = take-map-take k (pruned d) (numbers (d.generations ++ g ∷ [])) in
      inr (
        inr (
          i,
          h,
          rw (prune_count, e)
              (run-prune i 0 (d.generations ++ g ∷ []) (some g.number) d.renewal_state
                ascends_whole),
        ))

  pub run-store_steps : run (store_steps g d) d ≡ stored (pruned d) g d
  unfolding store_steps run apply
  run-store_steps = rw prune_count (
      run-prune (pruned d) 0 (d.generations ++ g ∷ []) (some g.number) d.renewal_state
        ascends_whole)

  pub drop-stored :
      (i : ℕ) → i ≤ pruned d → drop i (d.generations ++ g ∷ []) ≡ drop i d.generations ++ g ∷ []
  drop-stored i h = drop-snoc i d.generations g (omega arith)

  pub current_cert-stored : (i : ℕ) → i ≤ pruned d → current_cert (stored i g d) ≡ some g
  unfolding current_cert
  current_cert-stored i h = rw (drop-stored i h) (
      ap with_fullchain (
        find-snoc 0 (drop i d.generations) g (AscendsFrom-drop i 0 d.generations v.ascends)
          (omega (arith, end_from-drop i 0 d.generations v.ascends, newest)))
      ∙ rw whole refl)

  pub IsValid-stored : (i : ℕ) → i ≤ pruned d → IsValid (stored i g d)
  IsValid-stored i h = record {
    ascends = AscendsFrom-drop i 0 (d.generations ++ g ∷ []) ascends_whole;
    pointed = ap is_some (current_cert-stored i h);
  }

  abbrev renamed : CertDir
  renamed = record d { generations = d.generations ++ g ∷ [] }

  found_again :
      (c : Option ℕ)
      → is_some (with_fullchain (generation_of c d.generations)) ≡ is_some c
      → generation_of c (d.generations ++ g ∷ []) ≡ generation_of c d.generations
  found_again none h = refl
  found_again (some n) h = elim (Option-cases (generation_of (some n) d.generations)) [
    | inl missing ↦ let bad : false ≡ true = rw missing at h in cc
    | inr (x, found) ↦ find-append_some n d.generations (g ∷ []) x found ∙ sym found
  ]

  pub current_cert-renamed : current_cert renamed ≡ current_cert d
  unfolding current_cert
  current_cert-renamed = ap with_fullchain (found_again d.current v.pointed)

  IsValid-renamed : IsValid renamed
  IsValid-renamed = record {
    ascends = ascends_whole;
    pointed = ap is_some current_cert-renamed ∙ v.pointed;
  }

  -- What the directory is like after a cut.
  abbrev pub Atomic : CertDir → Type 0
  Atomic d' = ((current_cert d' ≡ current_cert d) ⊎ (current_cert d' ≡ some g)) × IsValid d'

  run-take-Atomic : (k : ℕ) → Atomic (run (take k (store_steps g d)) d)
  run-take-Atomic k = elim (run-take k) [
    | inl e ↦ rw e (inl refl, v)
    | inr (inl e) ↦ rw e (inl current_cert-renamed, IsValid-renamed)
    | inr (inr (i, h, e)) ↦ rw e (inr (current_cert-stored i h), IsValid-stored i h)
  ]

  prunes_below : (i : ℕ) → PrunesBelow g.number (drop (suc (suc i)) (store_steps g d))
  unfolding store_steps
  prunes_below i = PrunesBelow-drop g.number i _ (
      rw (prune_count, take-snoc (pruned d) d.generations g (omega arith))
        (PrunesBelow-numbers g.number (pruned d) 0 d.generations v.ascends newest))

  -- A removal that is cut off does not reach the new generation.
  interrupt-Atomic :
      (fs : List CertFile) (steps : List FsStep) (i : ℕ)
      → i ≤ pruned d
      → PrunesBelow g.number steps
      → Atomic (interrupt fs steps (stored i g d))
  unfolding interrupt current_cert
  interrupt-Atomic fs [] i h p = (inr (current_cert-stored i h), IsValid-stored i h)
  interrupt-Atomic fs (rename_into x ∷ steps) i h p = elim p [ ]
  interrupt-Atomic fs (write_current n ∷ steps) i h p = elim p [ ]
  interrupt-Atomic fs (remove_gen n ∷ steps) i h (below, p) =
      let same =
        ap with_fullchain (find-stripped fs n g.number (stored i g d).generations below)
        ∙ current_cert-stored i h in
      (
        inr same,
        record {
          ascends = AscendsFrom-stripped fs n 0 _ (IsValid-stored i h).ascends;
          pointed = ap is_some same;
        },
      )

  -- Past its first two steps the store has pruned some generations.
  run-take_past :
      (k : ℕ)
      → (i : ℕ) × (i ≤ pruned d) × (run (take (suc (suc k)) (store_steps g d)) d ≡ stored i g d)
  unfolding store_steps run apply
  run-take_past k =
      let (i, h, e) = take-map-take k (pruned d) (numbers (d.generations ++ g ∷ [])) in
      (
        i,
        h,
        rw (prune_count, e)
            (run-prune i 0 (d.generations ++ g ∷ []) (some g.number) d.renewal_state ascends_whole),
      )

  -- Cut off anywhere, the store leaves a directory in which the current certificate is the one before
  -- or the new one.
  pub cut_store-Atomic : (fs : List CertFile) (i : ℕ) → Atomic (cut_store fs i g d)
  unfolding cut_store interrupt store_steps
  cut_store-Atomic fs zero = run-take-Atomic 0
  cut_store-Atomic fs (suc zero) = run-take-Atomic 1
  cut_store-Atomic fs (suc (suc k)) =
      let (i, h, e) = run-take_past k in rw e (interrupt-Atomic fs _ i h (prunes_below k))

pub store_steps-atomic :
    (now cert_pem key_pem : String) (meta : Fields) (d : CertDir) (fs : List CertFile) (k : ℕ)
    → IsValid d
    → let g = new_generation now cert_pem key_pem meta (next_gen d) in
      let d' = cut_store fs k g d in
      ((current_cert d' ≡ current_cert d) ⊎ (current_cert d' ≡ some g)) × IsValid d'
store_steps-atomic now cert_pem key_pem meta d fs k v =
    cut_store-Atomic (new_generation now cert_pem key_pem meta (next_gen d)) d v refl refl fs k

length-drop : (i : ℕ) (gens : List Generation) → length (drop i gens) ≡ length gens - i
length-drop zero gens = omega arith
length-drop (suc i) [] = omega arith
length-drop (suc i) (g ∷ gens) = omega (arith, length-drop i gens)

-- After a store the current certificate is the one stored, under a number over all before it, and at
-- most three generations are left.
pub store_cert-current :
    (now cert_pem key_pem : String) (meta : Fields) (d : CertDir)
    → IsValid d
    → let (d', n) = store_cert now cert_pem key_pem meta d in
      (current_cert d' ≡ some (new_generation now cert_pem key_pem meta n))
      × (end_from 0 d.generations < n)
      × (length d'.generations ≤ 3)
      × IsValid d'
unfolding store_cert
store_cert-current now cert_pem key_pem meta d v =
    let g = new_generation now cert_pem key_pem meta (next_gen d) in
    rw (run-store_steps g d v refl refl) (
      current_cert-stored g d v refl refl (pruned d) (omega arith),
      newest g d v refl refl,
      omega (
        arith,
        length-drop (pruned d) (d.generations ++ g ∷ []),
        length-append d.generations (g ∷ []),
      ),
      IsValid-stored g d v refl refl (pruned d) (omega arith),
    )
