-- ===== src/Common/Lists.antt =====
-- `some`, `every`, `filter`, `find` and `includes` of JavaScript's arrays, with Boolean tests, and
-- the predicates that say what they decide.
use Prim.Native.Nat.{ℕ, zero, suc, ◌+◌}
use mathlib.Core.Path.{◌≡◌, refl, ap}
use mathlib.Core.Logic.{◌⊎◌, inl, inr, ◌↔◌}
use mathlib.Core.Bool.{Bool, true, false, ◌&&◌, ◌||◌}
use mathlib.Core.Option.{Option, none, some}
use mathlib.Core.List.{List, [], ◌∷◌, ◌++◌}
use native.Mathlib.Omega.{arith}
use wanfw.Common.Tests.{if◌then◌else◌, Bool-cases}

module _ {ℓ} {A : Type ℓ} where
  abbrev pub length : List A → ℕ
  length [] = 0
  length (x ∷ xs) = suc (length xs)

  abbrev pub any : (A → Bool) → List A → Bool
  any p [] = false
  any p (x ∷ xs) = p x || any p xs

  abbrev pub all : (A → Bool) → List A → Bool
  all p [] = true
  all p (x ∷ xs) = p x && all p xs

  abbrev pub filter : (A → Bool) → List A → List A
  filter p [] = []
  filter p (x ∷ xs) = if p x then x ∷ filter p xs else filter p xs

  abbrev pub find : (A → Bool) → List A → Option A
  find p [] = none
  find p (x ∷ xs) = if p x then some x else find p xs

  abbrev pub last : List A → Option A
  last [] = none
  last (x ∷ []) = some x
  last (x ∷ y ∷ xs) = last (y ∷ xs)

  -- `xs.at(-1)` and the like are written with `take` and `drop`.
  abbrev pub take : ℕ → List A → List A
  take zero xs = []
  take (suc n) [] = []
  take (suc n) (x ∷ xs) = x ∷ take n xs

  abbrev pub drop : ℕ → List A → List A
  drop zero xs = xs
  drop (suc n) [] = []
  drop (suc n) (x ∷ xs) = drop n xs

  pub length-append : (xs ys : List A) → length (xs ++ ys) ≡ length xs + length ys
  length-append [] ys = omega arith
  length-append (x ∷ xs) ys = omega (arith, length-append xs ys)

module _ {A : Type 0} where
  -- Membership by recursion, which the tactics read.
  abbrev pub In : A → List A → Type 0
  In a [] = ⊥
  In a (x ∷ xs) = (x ≡ a) ⊎ In a xs

  pub In-append_left : (a : A) (xs ys : List A) → In a xs → In a (xs ++ ys)
  In-append_left a (x ∷ xs) ys (inl e) = inl e
  In-append_left a (x ∷ xs) ys (inr h) = inr (In-append_left a xs ys h)
  In-append_left a [] ys h = elim h [ ]

  pub In-append_right : (a : A) (xs ys : List A) → In a ys → In a (xs ++ ys)
  In-append_right a [] ys h = h
  In-append_right a (x ∷ xs) ys h = inr (In-append_right a xs ys h)

  pub In-append : (a : A) (xs ys : List A) → In a (xs ++ ys) → In a xs ⊎ In a ys
  In-append a [] ys h = inr h
  In-append a (x ∷ xs) ys (inl e) = inl (inl e)
  In-append a (x ∷ xs) ys (inr h) = elim (In-append a xs ys h) [
    | inl l ↦ inl (inr l)
    | inr r ↦ inr r
  ]

  kept : (a x : A) (xs : List A) → In a (x ∷ xs) → (x ≡ a) ⊎ In a xs
  kept a x xs m = m

  any-true : (p : A → Bool) (xs : List A) → any p xs ≡ true → (x : A) × In x xs × (p x ≡ true)
  any-true p [] h = cc
  any-true p (x ∷ xs) h = elim (Bool-cases (p x)) [
    | inl e ↦ (x, inl refl, e)
    | inr e ↦ let (y, m, q) = any-true p xs (rw e at h) in (y, inr m, q)
  ]

  pub any_of_In : (p : A → Bool) (x : A) (xs : List A) → In x xs → p x ≡ true → any p xs ≡ true
  any_of_In p x (y ∷ xs) (inl e) h = rw (ap p e, h)
  any_of_In p x (y ∷ xs) (inr m) h = ground (arith, any_of_In p x xs m h)
  any_of_In p x [] m h = elim m [ ]

  -- `xs.some(p)`
  pub any_iff :
      (p : A → Bool) (xs : List A) → (any p xs ≡ true) ↔ ((x : A) × In x xs × (p x ≡ true))
  any_iff p xs = (any-true p xs, λ (x, m, h). any_of_In p x xs m h)

  pub In-of_filter :
      (p : A → Bool) (a : A) (xs : List A) → In a (filter p xs) → In a xs × (p a ≡ true)
  In-of_filter p a [] m = elim m [ ]
  In-of_filter p a (x ∷ xs) m = elim (Bool-cases (p x)) [
    | inl e ↦ elim (kept a x (filter p xs) (rw e at m)) [
      | inl same ↦ (inl same, rw (← same) e)
      | inr later ↦ let (k, h) = In-of_filter p a xs later in (inr k, h)
    ]
    | inr e ↦ let (k, h) = In-of_filter p a xs (rw e at m) in (inr k, h)
  ]

  pub In-filter : (p : A → Bool) (a : A) (xs : List A) → In a xs → p a ≡ true → In a (filter p xs)
  In-filter p a (x ∷ xs) (inl same) h = rw (ap p same, h) (inl same)
  In-filter p a (x ∷ xs) (inr m) h = elim (Bool-cases (p x)) [
    | inl e ↦ rw e (inr (In-filter p a xs m h))
    | inr e ↦ rw e (In-filter p a xs m h)
  ]
  In-filter p a [] m h = elim m [ ]
