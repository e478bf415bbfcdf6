-- ===== src/Common/Sorting.antt =====
-- `Array.prototype.sort` as insertion, for a comparison that is a total order: the sorted list does
-- not depend on the order in which the elements came.
use Prim.Native.Nat.{ℕ}
use Prim.Native.Char.{code}
use Prim.Native.String.{String}
use mathlib.Core.Path.{◌≡◌, refl, ap₂, ◌∙◌}
use mathlib.Core.Logic.{◌⊎◌, ◌↔◌, inl, inr}
use mathlib.Core.Bool.{Bool, true, false, ◌&&◌}
use mathlib.Core.List.{List, [], ◌∷◌, Permᴰ}
use mathlib.Core.List.Permᴰ.{refl as perm_refl, symm as perm_symm}
use native.Mathlib.Omega.{arith}
use text.Mathlib.TextEquality.{Char-path}
use wanfw.Common.Tests.{ltb, leb, eqb, if◌then◌else◌, Bool-cases}

-- A comparison that sorts without ties between different elements.
pub record TotalOrder (A : Type 0) : Type 0 where
  pub le : A → A → Bool
  pub total : (a b : A) → (le a b ≡ true) ⊎ (le b a ≡ true)
  pub le_trans : (a b c : A) → le a b ≡ true → le b c ≡ true → le a c ≡ true
  pub antisymm : (a b : A) → le a b ≡ true → le b a ≡ true → a ≡ b

module _ {A : Type 0} (le : A → A → Bool) where
  abbrev pub insert_sorted : A → List A → List A
  insert_sorted a [] = a ∷ []
  insert_sorted a (x ∷ xs) = if le a x then a ∷ x ∷ xs else x ∷ insert_sorted a xs

  abbrev pub sort : List A → List A
  sort [] = []
  sort (x ∷ xs) = insert_sorted x (sort xs)

module _ {A : Type 0} (o : TotalOrder A) where
  insert_comm :
      (a b : A) (xs : List A)
      → insert_sorted o.le a (insert_sorted o.le b xs)
        ≡ insert_sorted o.le b (insert_sorted o.le a xs)
  insert_comm a b [] = ground (arith, o.total a b, o.antisymm a b)
  insert_comm a b (x ∷ xs) = ground (
    arith,
    insert_comm a b xs,
    o.total a b,
    o.total a x,
    o.total b x,
    o.antisymm a b,
    o.le_trans a b x,
    o.le_trans b a x,
    o.le_trans a x b,
    o.le_trans b x a,
  )

  -- Sorting forgets the order of its input.
  pub sort-perm : {xs ys : List A} → Permᴰ xs ys → sort o.le xs ≡ sort o.le ys
  sort-perm Permᴰ.nil = refl
  sort-perm (Permᴰ.cons {b = b} e p) = ap₂ (insert_sorted o.le) e (sort-perm p)
  sort-perm (Permᴰ.swap {a = a} {b = b} {l = l} e f) = rw (← e, ← f) (insert_comm a b (sort o.le l))
  sort-perm (Permᴰ.trans p q) = sort-perm p ∙ sort-perm q

module _ {A : Type 0} (le : A → A → Bool) where
  insert-perm : (a : A) (xs : List A) → Permᴰ (insert_sorted le a xs) (a ∷ xs)
  insert-perm a [] = Permᴰ.cons refl Permᴰ.nil
  insert-perm a (x ∷ xs) = elim (Bool-cases (le a x)) [
    | inl e ↦ rw e (perm_refl (a ∷ x ∷ xs))
    | inr e ↦ rw e (Permᴰ.trans (Permᴰ.cons refl (insert-perm a xs)) (Permᴰ.swap refl refl))
  ]

  -- Sorting keeps the elements.
  pub perm-sort : (xs : List A) → Permᴰ xs (sort le xs)
  perm-sort [] = Permᴰ.nil
  perm-sort (x ∷ xs) =
      Permᴰ.trans (Permᴰ.cons refl (perm-sort xs)) (perm_symm (insert-perm x (sort le xs)))

-- Two lists are sorted to one list exactly if they hold the same elements, as often.
pub sort-eq_iff :
    {A : Type 0} (o : TotalOrder A) (xs ys : List A) → (sort o.le xs ≡ sort o.le ys) ↔ Permᴰ xs ys
sort-eq_iff o xs ys = (
  λ e. Permᴰ.trans (perm-sort o.le xs) (rw e (perm_symm (perm-sort o.le ys))),
  λ p. sort-perm o p,
)

-- `a < b` and the like on texts, by code points.
abbrev pub text_le : String → String → Bool
text_le String.[] t = true
text_le (String.◌∷◌ c s) String.[] = false
text_le (String.◌∷◌ c s) (String.◌∷◌ d t) =
    if ltb (code c) (code d) then true else eqb (code c) (code d) && text_le s t

pub text_le_total : (s t : String) → (text_le s t ≡ true) ⊎ (text_le t s ≡ true)
text_le_total String.[] t = inl refl
text_le_total (String.◌∷◌ c s) String.[] = inr refl
text_le_total (String.◌∷◌ c s) (String.◌∷◌ d t) = ground (arith, text_le_total s t)

pub text_le_trans : (s t u : String) → text_le s t ≡ true → text_le t u ≡ true → text_le s u ≡ true
text_le_trans String.[] t u h k = refl
text_le_trans (String.◌∷◌ c s) String.[] u h k = cc
text_le_trans (String.◌∷◌ c s) (String.◌∷◌ d t) String.[] h k = cc
text_le_trans (String.◌∷◌ c s) (String.◌∷◌ d t) (String.◌∷◌ e u) h k =
    ground (arith, text_le_trans s t u)

pub text_le_antisymm : (s t : String) → text_le s t ≡ true → text_le t s ≡ true → s ≡ t
text_le_antisymm String.[] String.[] h k = refl
text_le_antisymm String.[] (String.◌∷◌ d t) h k = cc
text_le_antisymm (String.◌∷◌ c s) String.[] h k = cc
text_le_antisymm (String.◌∷◌ c s) (String.◌∷◌ d t) h k =
    ground (arith, text_le_antisymm s t, Char-path c d)

abbrev pub text_order : TotalOrder String
text_order = record {
  le = text_le;
  total = text_le_total;
  le_trans = text_le_trans;
  antisymm = text_le_antisymm;
}

pub leb_total : (a b : ℕ) → (leb a b ≡ true) ⊎ (leb b a ≡ true)
leb_total a b = ground arith

pub leb_trans : (a b c : ℕ) → leb a b ≡ true → leb b c ≡ true → leb a c ≡ true
leb_trans a b c h k = ground arith

pub leb_antisymm : (a b : ℕ) → leb a b ≡ true → leb b a ≡ true → a ≡ b
leb_antisymm a b h k = ground arith

abbrev pub nat_order : TotalOrder ℕ
nat_order = record { le = leb; total = leb_total; le_trans = leb_trans; antisymm = leb_antisymm }
