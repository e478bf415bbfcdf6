-- ===== src/Certs/Rollback.antt =====
-- Rolling a certificate back, and what any sequence of stores and rollbacks leaves
-- (packages/orchestrator/src/certs/store.ts).
use wanfw.Common.{
  ◌↔◌, arith, ℕ, suc, zero, String, ◌<◌, ◌≡◌, refl, sym, ap, ◌∙◌, inl, inr, true, leb, ltb, List,
  [], ◌∷◌, ◌++◌, Option, none, some, filter, last, length, drop, sort, is_some, Option-cases,
  Bool-cases, eqb, In, In-of_filter, some_inj,
}
use wanfw.Json.{Fields}
use wanfw.Certs.{
  Generation, CertDir, numbers, list_generations, apply, next_gen, store_cert, new_generation,
  generation_of, with_fullchain, current_cert, never_stored, rolled_back, point_to, rollback_from,
  rollback_cert,
}
use wanfw.Certs.Ascending.{
  AscendsFrom, AscendsFrom-drop, sort-ascending, numbers-append, filter-below, end_from-drop,
  find-append_some,
}
use wanfw.Certs.Crash.{IsValid, stored, pruned, run-store_steps, drop-stored, newest, ascends_whole}

In-last : (n : ℕ) (ns : List ℕ) → last ns ≡ some n → In n ns
In-last n [] h = cc
In-last n (m ∷ []) h = inl (some_inj h)
In-last n (m ∷ k ∷ ns) h = inr (In-last n (k ∷ ns) h)

-- A number in the directory names a generation.
found :
    (n : ℕ) (gens : List Generation)
    → In n (numbers gens)
    → is_some (generation_of (some n) gens) ≡ true
found n [] m = elim m [ ]
found n (g ∷ gens) (inl e) = ground arith
found n (g ∷ gens) (inr m) = ground (arith, found n gens m)

abbrev below : ℕ → CertDir → Option ℕ
below c d = last (filter (λ n. ltb n c) (list_generations d))

point_to-eq :
    (d d' : CertDir) (n : ℕ) (o : Option ℕ)
    → point_to d o ≡ rolled_back n d'
    → (o ≡ some n) × (d' ≡ record d { current = some n })
unfolding apply
point_to-eq d d' n none h = cc
point_to-eq d d' n (some m) h = (cc, cc)

rollback_from-eq :
    (d d' : CertDir) (n : ℕ) (o : Option ℕ)
    → rollback_from d o ≡ rolled_back n d'
    → (c : ℕ) × (o ≡ some c) × (below c d ≡ some n) × (d' ≡ record d { current = some n })
rollback_from-eq d d' n none h = cc
rollback_from-eq d d' n (some c) h =
    let (e, same) = point_to-eq d d' n (below c d) h in (c, refl, e, same)

-- Every generation has its certificate.
abbrev pub AllWhole : List Generation → Type 0
AllWhole [] = Unit {0}
AllWhole (g ∷ gens) = (is_some g.fullchain ≡ true) × AllWhole gens

AllWhole-found :
    (n : ℕ) (gens : List Generation)
    → AllWhole gens
    → is_some (generation_of (some n) gens) ≡ true
    → is_some (with_fullchain (generation_of (some n) gens)) ≡ true
AllWhole-found n [] w h = cc
AllWhole-found n (g ∷ gens) (k, w) h = elim (Bool-cases (eqb g.number n)) [
  | inl e ↦ rw (e, k) refl
  | inr e ↦ rw e (AllWhole-found n gens w (rw e at h))
]

-- A rollback that goes through leaves every generation in place and the pointer at one that is stored
-- and earlier than the one that was current, and that has its certificate if every generation does.
pub rollback_cert-earlier :
    (d d' : CertDir) (n : ℕ)
    → IsValid d
    → AllWhole d.generations
    → rollback_cert d ≡ rolled_back n d'
    → ((c : ℕ) × (d.current ≡ some c) × (n < c)) × (d' ≡ record d { current = some n }) × IsValid d'
unfolding rollback_cert list_generations current_cert
rollback_cert-earlier d d' n v w h =
    let (c, e, at_n, same) = rollback_from-eq d d' n d.current h in
    let (m, less) =
      In-of_filter (λ m. ltb m c) n (sort leb (numbers d.generations)) (In-last n _ at_n) in
    let stored_n = found n d.generations (rw (sort-ascending 0 d.generations v.ascends) at m) in
    rw same (
      (c, e, ground arith),
      refl,
      record { ascends = v.ascends; pointed = AllWhole-found n d.generations w stored_n },
    )

rollback_from-none : (d : CertDir) (o : Option ℕ) → rollback_from d o ≡ never_stored ↔ (o ≡ none)
rollback_from-none d none = (λ h. refl, λ h. refl)
rollback_from-none d (some c) = elim (Option-cases (below c d)) [
  | inl e ↦ rw e (λ h. cc, λ h. cc)
  | inr (n, e) ↦ rw e (λ h. cc, λ h. cc)
]

last-drop : (i : ℕ) (gens : List Generation) → i < length gens → last (drop i gens) ≡ last gens
last-drop zero gens h = refl
last-drop (suc i) [] h = refl
last-drop (suc i) (g ∷ []) h = absurd (omega arith)
last-drop (suc i) (g ∷ k ∷ gens) h = last-drop i (k ∷ gens) (omega arith)

last-numbers :
    (gens : List Generation) (g : Generation)
    → last gens ≡ some g
    → last (numbers gens) ≡ some g.number
last-numbers [] g h = cc
last-numbers (x ∷ []) g h =
    ap (λ (o : Option Generation). elim o [ none ↦ none | some x ↦ some x.number ]) h
last-numbers (x ∷ y ∷ gens) g h = last-numbers (y ∷ gens) g h

length-pos : (gens : List Generation) (g : Generation) → last gens ≡ some g → 0 < length gens
length-pos [] g h = cc
length-pos (x ∷ gens) g h = omega arith

lt-last :
    (b : ℕ) (gens : List Generation) (g : Generation)
    → AscendsFrom b gens
    → last gens ≡ some g
    → b < g.number
lt-last b [] g a h = cc
lt-last b (x ∷ []) g (k, a) h = rw (← some_inj h) k
lt-last b (x ∷ y ∷ gens) g (k, a) h = omega (arith, lt-last x.number (y ∷ gens) g a h)

find-last :
    (b : ℕ) (gens : List Generation) (g : Generation)
    → AscendsFrom b gens
    → last gens ≡ some g
    → generation_of (some g.number) gens ≡ some g
find-last b [] g a h = cc
find-last b (x ∷ []) g a h = rw (← some_inj h) (ground arith)
find-last b (x ∷ y ∷ gens) g (k, a) h =
    ground (arith, lt-last x.number (y ∷ gens) g a h, find-last x.number (y ∷ gens) g a h)

below-stored :
    (n g : Generation) (d : CertDir)
    → IsValid d
    → n.number ≡ next_gen d
    → is_some n.fullchain ≡ true
    → last (drop (pruned d) d.generations) ≡ some g
    → below n.number (stored (pruned d) n d) ≡ some g.number
unfolding list_generations
below-stored n g d v fresh whole kept =
    let rest : List Generation = drop (pruned d) d.generations in
    rw
      (sort-ascending 0 (drop (pruned d) (d.generations ++ n ∷ []))
        (AscendsFrom-drop (pruned d) 0 _ (ascends_whole n d v fresh whole)))
      (rw (drop-stored n d v fresh whole (pruned d) (omega arith)) (
        rw (numbers-append rest (n ∷ [])) (
          rw
            (filter-below 0 rest n.number (AscendsFrom-drop (pruned d) 0 d.generations v.ascends) (
              omega (
                arith,
                newest n d v fresh whole,
                end_from-drop (pruned d) 0 d.generations v.ascends,
              )))
            (last-numbers rest g kept))))

-- Rolling back right after a store makes the newest of the generations before it current again, so it
-- undoes the store of a directory whose current generation was its newest.
pub rollback_cert-store_cert :
    (now cert_pem key_pem : String) (meta : Fields) (d : CertDir) (g : Generation)
    → IsValid d
    → last d.generations ≡ some g
    → d.current ≡ some g.number
    → (d' : CertDir) × (rollback_cert (store_cert now cert_pem key_pem meta d).0
        ≡ rolled_back g.number d')
      × (current_cert d' ≡ current_cert d)
unfolding rollback_cert store_cert apply current_cert
rollback_cert-store_cert now cert_pem key_pem meta d g v newest_g points =
    let n : Generation = new_generation now cert_pem key_pem meta (next_gen d) in
    let rest : List Generation = drop (pruned d) d.generations in
    let kept : last rest ≡ some g =
      last-drop (pruned d) d.generations (omega (arith, length-pos d.generations g newest_g))
      ∙ newest_g in
    let up : AscendsFrom 0 rest = AscendsFrom-drop (pruned d) 0 d.generations v.ascends in
    (
      record (stored (pruned d) n d) { current = some g.number },
      rw (run-store_steps n d v refl refl)
          (ap (point_to (stored (pruned d) n d)) (below-stored n g d v refl refl kept)),
      rw (drop-stored n d v refl refl (pruned d) (omega arith), points)
          (ap with_fullchain (
            find-append_some g.number rest (n ∷ []) g (find-last 0 rest g up kept)
            ∙ sym (find-last 0 d.generations g v.ascends newest_g))),
    )
