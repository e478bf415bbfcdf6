-- ===== src/Certs/Ascending.antt =====
-- Generations in ascending order (packages/orchestrator/src/certs/store.ts): what sorting, appending
-- the next one and pruning the oldest do to them.
use wanfw.Common.{
  arith, ℕ, suc, zero, ◌≤◌, ◌<◌, ◌≡◌, refl, ap, ◌∙◌, true, not, leb, ltb, eqb, List, [], ◌∷◌, ◌++◌,
  Option, some, map, filter, find, last, length, take, drop, sort, or_else,
}
use wanfw.Renewal.{RenewalState}
use wanfw.Certs.{Generation, CertDir, remove_gen, numbers, list_generations, apply, run, next_gen}

-- Every number of the list is over `b`, and each over the one before.
abbrev pub AscendsFrom : ℕ → List Generation → Type 0
AscendsFrom b [] = Unit {0}
AscendsFrom b (g ∷ gens) = (b < g.number) × AscendsFrom g.number gens

abbrev pub end_from : ℕ → List Generation → ℕ
end_from b [] = b
end_from b (g ∷ gens) = end_from g.number gens

pub le-end_from : (b : ℕ) (gens : List Generation) → AscendsFrom b gens → b ≤ end_from b gens
le-end_from b [] a = omega arith
le-end_from b (g ∷ gens) (h, a) = omega (arith, le-end_from g.number gens a)

pub AscendsFrom-snoc :
    (b : ℕ) (gens : List Generation) (g : Generation)
    → AscendsFrom b gens
    → end_from b gens < g.number
    → AscendsFrom b (gens ++ g ∷ [])
AscendsFrom-snoc b [] g a h = (h, tt)
AscendsFrom-snoc b (x ∷ gens) g (k, a) h = (k, AscendsFrom-snoc x.number gens g a h)

-- A list in order is its own sorting.
pub sort-ascending :
    (b : ℕ) (gens : List Generation) → AscendsFrom b gens → sort leb (numbers gens) ≡ numbers gens
sort-ascending b [] a = refl
sort-ascending b (g ∷ []) a = refl
sort-ascending b (g ∷ h ∷ gens) (k, (l, a)) =
    rw (sort-ascending g.number (h ∷ gens) (l, a)) (ground arith)

remove-above :
    (n b : ℕ) (gens : List Generation)
    → n ≤ b
    → AscendsFrom b gens
    → filter (λ (g : Generation). not (eqb g.number n)) gens ≡ gens
remove-above n b [] h a = refl
remove-above n b (g ∷ gens) h (k, a) = ground (arith, remove-above n g.number gens)

-- Removing the first numbers one by one drops these generations.
pub run-prune :
    (k b : ℕ) (gens : List Generation) (c : Option ℕ) (w : Option RenewalState)
    → AscendsFrom b gens
    → run
        (map remove_gen (take k (numbers gens)))
        (record { generations = gens; current = c; renewal_state = w })
      ≡ record { generations = drop k gens; current = c; renewal_state = w }
unfolding run apply
run-prune zero b gens c w a = refl
run-prune (suc k) b [] c w a = refl
run-prune (suc k) b (g ∷ gens) c w (h, a) =
    let self : eqb g.number g.number ≡ true = ground arith in
    rw self
      (rw (remove-above g.number g.number gens (omega arith) a) (run-prune k g.number gens c w a))

pub numbers-append :
    (gens others : List Generation) → numbers (gens ++ others) ≡ numbers gens ++ numbers others
numbers-append [] others = refl
numbers-append (g ∷ gens) others = ap (λ l. g.number ∷ l) (numbers-append gens others)

last-default :
    (x : ℕ) (xs : List ℕ) (b c : ℕ) → or_else (last (x ∷ xs)) b ≡ or_else (last (x ∷ xs)) c
last-default x [] b c = refl
last-default x (y ∷ xs) b c = last-default y xs b c

pub last-ascending :
    (b : ℕ) (gens : List Generation) → or_else (last (numbers gens)) b ≡ end_from b gens
last-ascending b [] = refl
last-ascending b (g ∷ []) = refl
last-ascending b (g ∷ h ∷ gens) =
    last-default h.number (numbers gens) b g.number ∙ last-ascending g.number (h ∷ gens)

-- The next number is over all others.
pub next_gen-end :
    (d : CertDir) → AscendsFrom 0 d.generations → next_gen d ≡ suc (end_from 0 d.generations)
unfolding list_generations
next_gen-end d a = rw (sort-ascending 0 d.generations a) (ap suc (last-ascending 0 d.generations))

pub AscendsFrom-le :
    (a b : ℕ) (gens : List Generation) → a ≤ b → AscendsFrom b gens → AscendsFrom a gens
AscendsFrom-le a b [] h k = tt
AscendsFrom-le a b (g ∷ gens) h (k, l) = (omega arith, l)

pub AscendsFrom-drop :
    (i b : ℕ) (gens : List Generation) → AscendsFrom b gens → AscendsFrom b (drop i gens)
AscendsFrom-drop zero b gens h = h
AscendsFrom-drop (suc i) b [] h = tt
AscendsFrom-drop (suc i) b (g ∷ gens) (k, h) =
    AscendsFrom-drop i b gens (AscendsFrom-le b g.number gens (omega arith) h)

end_from_mono : (b c : ℕ) (gens : List Generation) → b ≤ c → end_from b gens ≤ end_from c gens
end_from_mono b c [] h = h
end_from_mono b c (g ∷ gens) h = omega arith

pub end_from-drop :
    (i b : ℕ) (gens : List Generation)
    → AscendsFrom b gens
    → end_from b (drop i gens) ≤ end_from b gens
end_from-drop zero b gens h = omega arith
end_from-drop (suc i) b [] h = omega arith
end_from-drop (suc i) b (g ∷ gens) (k, h) =
    let a = AscendsFrom-le b g.number gens (omega arith) h in
    omega (arith, end_from-drop i b gens a, end_from_mono b g.number gens (omega arith))

pub drop-snoc :
    (i : ℕ) (gens : List Generation) (g : Generation)
    → i ≤ length gens
    → drop i (gens ++ g ∷ []) ≡ drop i gens ++ g ∷ []
drop-snoc zero gens g h = refl
drop-snoc (suc i) [] g h = absurd (omega arith)
drop-snoc (suc i) (x ∷ gens) g h = drop-snoc i gens g (omega arith)

-- The newest generation is found by its number.
pub find-snoc :
    (b : ℕ) (gens : List Generation) (g : Generation)
    → AscendsFrom b gens
    → end_from b gens < g.number
    → find (λ (x : Generation). eqb x.number g.number) (gens ++ g ∷ []) ≡ some g
find-snoc b [] g a h = ground arith
find-snoc b (x ∷ gens) g (k, a) h =
    ground (arith, find-snoc x.number gens g a h, le-end_from x.number gens a)

-- What is found stays found when a generation is added at the end.
pub find-append_some :
    (n : ℕ) (gens others : List Generation) (x : Generation)
    → find (λ (x : Generation). eqb x.number n) gens ≡ some x
    → find (λ (x : Generation). eqb x.number n) (gens ++ others) ≡ some x
find-append_some n [] others x h = cc
find-append_some n (y ∷ gens) others x h = ground (arith, find-append_some n gens others x)

pub filter-below :
    (b : ℕ) (gens : List Generation) (n : ℕ)
    → AscendsFrom b gens
    → end_from b gens < n
    → filter (λ m. ltb m n) (numbers gens ++ n ∷ []) ≡ numbers gens
filter-below b [] n a h = ground arith
filter-below b (x ∷ gens) n (k, a) h =
    ground (arith, filter-below x.number gens n a h, le-end_from x.number gens a)

pub length-numbers : (gens : List Generation) → length (numbers gens) ≡ length gens
length-numbers [] = refl
length-numbers (g ∷ gens) = ap suc (length-numbers gens)
