-- ===== src/Common/Tables.antt =====
-- SQL tables as lists of rows: update, upsert and delete by a test on the row, and what a look-up
-- finds afterwards.
use Prim.Native.Nat.{◌≤◌}
use mathlib.Core.Path.{◌≡◌, refl, ap}
use mathlib.Core.Logic.{inl, inr}
use mathlib.Core.Bool.{Bool, true, false, not}
use mathlib.Core.Option.{Option, none, some}
use mathlib.Core.List.{List, [], ◌∷◌, Permᴰ}
use mathlib.Core.List.Permᴰ.{symm as perm_symm}
use native.Mathlib.Omega.{arith}
use wanfw.Common.Tests.{if◌then◌else◌, Bool-cases}
use wanfw.Common.Lists.{filter, find, length, In}
use wanfw.Common.Sorting.{sort, perm-sort}

module _ {A : Type 0} where
  -- UPDATE ... SET f WHERE p
  abbrev pub update_where : (A → Bool) → (A → A) → List A → List A
  update_where p f [] = []
  update_where p f (x ∷ xs) = (if p x then f x else x) ∷ update_where p f xs

  -- DELETE WHERE p
  abbrev pub delete_where : (A → Bool) → List A → List A
  delete_where p xs = filter (λ x. not (p x)) xs

  -- INSERT row ... ON CONFLICT DO UPDATE SET f, where `p` tells the rows with the key of `row`
  abbrev pub upsert : (A → Bool) → (A → A) → A → List A → List A
  upsert p f row [] = row ∷ []
  upsert p f row (x ∷ xs) = if p x then f x ∷ xs else x ∷ upsert p f row xs

  -- A row that is found is in the table and passes the test.
  pub In-of_find :
      (p : A → Bool) (a : A) (xs : List A) → find p xs ≡ some a → In a xs × (p a ≡ true)
  In-of_find p a [] h = cc
  In-of_find p a (x ∷ xs) h = elim (Bool-cases (p x)) [
    | inl e ↦ let same : x ≡ a = ground arith in (inl same, rw (← same) e)
    | inr e ↦ let (m, q) = In-of_find p a xs (rw e at h) in (inr m, q)
  ]

  pub find-none : (p : A → Bool) (a : A) (xs : List A) → find p xs ≡ none → In a xs → p a ≡ false
  find-none p a [] h m = elim m [ ]
  find-none p a (x ∷ xs) h (inl same) = rw (← same) (ground arith)
  find-none p a (x ∷ xs) h (inr m) = find-none p a xs (ground arith) m

  -- The row under a key after an upsert of that key.
  pub find-upsert_self :
      (p : A → Bool) (f : A → A) (row : A) (xs : List A)
      → p row ≡ true
      → ((a : A) → p a ≡ true → p (f a) ≡ true)
      → ((a : A) → f a ≡ row)
      → find p (upsert p f row xs) ≡ some row
  find-upsert_self p f row [] h k e = rw h
  find-upsert_self p f row (x ∷ xs) h k e = elim (Bool-cases (p x)) [
    | inl px ↦ rw px (rw (k x px) (ap some (e x)))
    | inr px ↦ rw px (rw px (find-upsert_self p f row xs h k e))
  ]

  -- The row under another key is what it was.
  pub find-upsert_ne :
      (p q : A → Bool) (f : A → A) (row : A) (xs : List A)
      → q row ≡ false
      → ((a : A) → p a ≡ true → (q a ≡ false) × (q (f a) ≡ false))
      → find q (upsert p f row xs) ≡ find q xs
  find-upsert_ne p q f row [] h k = rw h
  find-upsert_ne p q f row (x ∷ xs) h k = elim (Bool-cases (p x)) [
    | inl px ↦ rw px (let (a, b) = k x px in rw (a, b))
    | inr px ↦ rw px (ground (arith, find-upsert_ne p q f row xs h k))
  ]

  pub find-update_where :
      (p q : A → Bool) (f : A → A) (xs : List A)
      → ((a : A) → q (f a) ≡ q a)
      → find q (update_where p f xs) ≡ elim (find q xs) as (λ o. Option A) [
        | none ↦ none
        | some a ↦ some (if p a then f a else a)
      ]
  find-update_where p q f [] h = refl
  find-update_where p q f (x ∷ xs) h = ground (arith, h x, find-update_where p q f xs h)

  -- A table never loses a row by an update or an upsert.
  pub length-update_where :
      (p : A → Bool) (f : A → A) (xs : List A) → length (update_where p f xs) ≡ length xs
  length-update_where p f [] = refl
  length-update_where p f (x ∷ xs) = omega (arith, length-update_where p f xs)

  pub length-le-upsert :
      (p : A → Bool) (f : A → A) (row : A) (xs : List A) → length xs ≤ length (upsert p f row xs)
  length-le-upsert p f row [] = omega arith
  length-le-upsert p f row (x ∷ xs) = ground (arith, length-le-upsert p f row xs)

  In-perm : (a : A) {xs ys : List A} → Permᴰ xs ys → In a xs → In a ys
  In-perm a (Permᴰ.cons e p) (inl same) = inl (cc (e, same))
  In-perm a (Permᴰ.cons e p) (inr m) = inr (In-perm a p m)
  In-perm a (Permᴰ.swap e f) (inl same) = inr (inl (cc (e, same)))
  In-perm a (Permᴰ.swap e f) (inr (inl same)) = inl (cc (f, same))
  In-perm a (Permᴰ.swap e f) (inr (inr m)) = inr (inr m)
  In-perm a (Permᴰ.trans p q) m = In-perm a q (In-perm a p m)
  In-perm a Permᴰ.nil m = m

  -- ORDER BY keeps the rows.
  pub In-sort : (le : A → A → Bool) (a : A) (xs : List A) → In a xs → In a (sort le xs)
  In-sort le a xs m = In-perm a (perm-sort le xs) m

  pub In-of_sort : (le : A → A → Bool) (a : A) (xs : List A) → In a (sort le xs) → In a xs
  In-of_sort le a xs m = In-perm a (perm_symm (perm-sort le xs)) m
