-- ===== src/Common/Words.antt =====
-- `split` and `join` are inverse on texts that hold no separator.
use Prim.Native.Nat.{ℕ}
use Prim.Native.Char.{Char, code}
use Prim.Native.String.{String}
use mathlib.Core.Path.{◌≡◌, refl, ap, ◌∙◌, subst}
use wanfw.Common.Lists.{In}
use mathlib.Core.Logic.{inl, inr, ◌≢◌}
use mathlib.Core.List.{List, [], ◌∷◌, ◌++◌, map}
use native.Mathlib.Omega.{arith}
use wanfw.Common.Tests.{eqb, eqb_iff, Bool-cases}
use wanfw.Common.Texts.{append, append_assoc, split, join, extend}

-- A predicate on every element, by recursion.
abbrev pub All {ℓ κ} : {A : Type ℓ} → (A → Type κ) → List A → Type κ
All P [] = Unit
All P (x ∷ xs) = P x × All P xs

-- No character of the text has this code.
abbrev pub IsFree : ℕ → String → Type 0
IsFree sep String.[] = Unit
IsFree sep (String.◌∷◌ c s) = (code c ≢ sep) × IsFree sep s

extend-append :
    (c : Char) (w : String) (ws vs : List String)
    → extend c ((w ∷ ws) ++ vs) ≡ extend c (w ∷ ws) ++ vs
extend-append c w ws vs = refl

split-cons : (sep : ℕ) (s : String) → (w : String) × (ws : List String) × (split sep s ≡ w ∷ ws)
unfolding split
split-cons sep String.[] = (String.[], [], refl)
split-cons sep (String.◌∷◌ c s) =
    let (w, ws, e) = split-cons sep s in
    elim (Bool-cases (eqb (code c) sep)) [
      | inl h ↦ (String.[], split sep s, rw h)
      | inr h ↦ (String.◌∷◌ c w, ws, rw (h, e))
    ]

-- The separator is a text of one character, `sep` its code.
module _ (sep : Char) where
  abbrev pub sep_text : String
  sep_text = String.◌∷◌ sep String.[]

  -- Splitting at a separator that stands between two texts.
  pub split-append_sep :
      (u r : String)
      → split (code sep) (append u (append sep_text r)) ≡ split (code sep) u ++ split (code sep) r
  unfolding split
  split-append_sep String.[] r = rw ((eqb_iff (code sep) (code sep)).1 refl)
  split-append_sep (String.◌∷◌ c u) r = elim (Bool-cases (eqb (code c) (code sep))) [
    | inl h ↦ rw h (ap (λ ws. String.[] ∷ ws) (split-append_sep u r))
    | inr h ↦
        let (w, ws, e) = split-cons (code sep) u in rw h (rw (split-append_sep u r) (rw e refl))
  ]

  split_of_IsFree : (w : String) → IsFree (code sep) w → split (code sep) w ≡ w ∷ []
  unfolding split
  split_of_IsFree String.[] h = refl
  split_of_IsFree (String.◌∷◌ c w) (ne, h) =
      ground (arith, split_of_IsFree w h, eqb_iff (code c) (code sep))

  pub split-join :
      (w : String) (ws : List String)
      → All (IsFree (code sep)) (w ∷ ws)
      → split (code sep) (join sep_text (w ∷ ws)) ≡ w ∷ ws
  split-join w [] (h, _) = split_of_IsFree w h
  split-join w (v ∷ ws) (h, hs) =
      split-append_sep w (join sep_text (v ∷ ws))
      ∙ rw (split_of_IsFree w h) (ap (λ vs. w ∷ vs) (split-join v ws hs))

  extend-IsFree :
      (c : Char) (ws : List String)
      → code c ≢ code sep
      → All (IsFree (code sep)) ws
      → All (IsFree (code sep)) (extend c ws)
  extend-IsFree c [] ne h = ((ne, tt), tt)
  extend-IsFree c (w ∷ ws) ne (h, hs) = ((ne, h), hs)

  -- What `split` returns holds no separator.
  pub split-IsFree : (s : String) → All (IsFree (code sep)) (split (code sep) s)
  unfolding split
  split-IsFree String.[] = (tt, tt)
  split-IsFree (String.◌∷◌ c s) = elim (Bool-cases (eqb (code c) (code sep))) [
    | inl h ↦ rw h (tt, split-IsFree s)
    | inr h ↦ rw h (
        extend-IsFree c (split (code sep) s) (λ e. ground (arith, eqb_iff (code c) (code sep)))
          (split-IsFree s))
  ]

  pub join-append :
      (w : String) (ws : List String) (v : String) (vs : List String)
      → join sep_text ((w ∷ ws) ++ (v ∷ vs))
        ≡ append (join sep_text (w ∷ ws)) (append sep_text (join sep_text (v ∷ vs)))
  join-append w [] v vs = refl
  join-append w (x ∷ ws) v vs = rw (join-append x ws v vs) (
      rw
        (append_assoc w (append sep_text (join sep_text (x ∷ ws)))
          (append sep_text (join sep_text (v ∷ vs))))
        refl)

pub All-of_In : {A : Type 0} (P : A → Type 0) (xs : List A) → ((x : A) → In x xs → P x) → All P xs
All-of_In P [] h = tt
All-of_In P (x ∷ xs) h = (h x (inl refl), All-of_In P xs (λ y m. h y (inr m)))

pub In-map : {A B : Type 0} (f : A → B) (a : A) (xs : List A) → In a xs → In (f a) (map f xs)
In-map f a [] m = m
In-map f a (x ∷ xs) (inl e) = inl (ap f e)
In-map f a (x ∷ xs) (inr m) = inr (In-map f a xs m)

pub of_All : {A : Type 0} (P : A → Type 0) (a : A) (xs : List A) → All P xs → In a xs → P a
of_All P a [] h m = elim m [ ]
of_All P a (x ∷ xs) (p, h) (inl e) = subst P e p
of_All P a (x ∷ xs) (p, h) (inr m) = of_All P a xs h m
