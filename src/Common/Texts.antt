-- ===== src/Common/Texts.antt =====
-- JavaScript's operations on strings, character by character.
use Prim.Native.Nat.{ℕ}
use Prim.Native.Char.{Char, code}
use Prim.Native.String.{String}
use mathlib.Core.Path.{◌≡◌, refl, ap}
use mathlib.Core.Logic.{inl, inr}
use mathlib.Core.Bool.{Bool, true, false, ◌&&◌, ◌||◌}
use mathlib.Core.List.{List, [], ◌∷◌}
use native.Mathlib.Omega.{arith}
use text.Mathlib.Text.{◌==◌}
use text.Mathlib.TextEquality.{Char-path, eq_iff}
use wanfw.Common.Tests.{eqb, eqb_iff, if◌then◌else◌, &&-eq-true, Bool-cases}

-- `s + t`
abbrev pub append : String → String → String
append String.[] t = t
append (String.◌∷◌ c s) t = String.◌∷◌ c (append s t)

-- `s.startsWith(t)`
unfoldable pub starts_with : String → String → Bool
starts_with s String.[] = true
starts_with String.[] (String.◌∷◌ d t) = false
starts_with (String.◌∷◌ c s) (String.◌∷◌ d t) = eqb (code c) (code d) && starts_with s t

-- `s.endsWith(t)`
unfoldable pub ends_with : String → String → Bool
ends_with String.[] t = String.[] == t
ends_with (String.◌∷◌ c s) t = ((String.◌∷◌ c s) == t) || ends_with s t

-- `s.slice(0, -1)`
abbrev pub but_last : String → String
but_last String.[] = String.[]
but_last (String.◌∷◌ c String.[]) = String.[]
but_last (String.◌∷◌ c (String.◌∷◌ d s)) = String.◌∷◌ c (but_last (String.◌∷◌ d s))

-- The texts between separators, as a character joins the first of them.
abbrev pub extend : Char → List String → List String
extend c [] = String.◌∷◌ c String.[] ∷ []
extend c (w ∷ ws) = String.◌∷◌ c w ∷ ws

-- `s.split(sep)` for a separator of one character
unfoldable pub split : ℕ → String → List String
split sep String.[] = String.[] ∷ []
split sep (String.◌∷◌ c s) =
    if eqb (code c) sep then String.[] ∷ split sep s else extend c (split sep s)

-- `ws.join(sep)`
abbrev pub join : String → List String → String
join sep [] = String.[]
join sep (w ∷ []) = w
join sep (w ∷ v ∷ ws) = append w (append sep (join sep (v ∷ ws)))

pub append_nil : (s : String) → append s String.[] ≡ s
append_nil String.[] = refl
append_nil (String.◌∷◌ c s) = ap (String.◌∷◌ c) (append_nil s)

pub append_assoc : (s t u : String) → append (append s t) u ≡ append s (append t u)
append_assoc String.[] t u = refl
append_assoc (String.◌∷◌ c s) t u = ap (String.◌∷◌ c) (append_assoc s t u)

pub starts_with-append : (s t : String) → starts_with (append s t) s ≡ true
unfolding starts_with
starts_with-append String.[] t = elim t as (λ t. starts_with t String.[] ≡ true) [
  | String.[] ↦ refl
  | String.◌∷◌ c t ↦ refl
]
starts_with-append (String.◌∷◌ c s) t = ground (arith, starts_with-append s t)

pub append_of_starts_with :
    (s t : String) → starts_with s t ≡ true → (r : String) × (s ≡ append t r)
unfolding starts_with
append_of_starts_with s String.[] h = (s, refl)
append_of_starts_with String.[] (String.◌∷◌ d t) h = cc
append_of_starts_with (String.◌∷◌ c s) (String.◌∷◌ d t) h =
    let (same, rest) = &&-eq-true (eqb (code c) (code d)) (starts_with s t) h in
    let (r, e) = append_of_starts_with s t rest in (r, cc (Char-path c d ((eqb_iff _ _).0 same), e))

pub append_of_ends_with : (s t : String) → ends_with s t ≡ true → (r : String) × (s ≡ append r t)
unfolding ends_with
append_of_ends_with String.[] t h = (String.[], (eq_iff String.[] t).0 h)
append_of_ends_with (String.◌∷◌ c s) t h = elim (Bool-cases ((String.◌∷◌ c s) == t)) [
  | inl e ↦ (String.[], (eq_iff _ t).0 e)
  | inr e ↦
      let (r, p) = append_of_ends_with s t (rw e at h) in (String.◌∷◌ c r, ap (String.◌∷◌ c) p)
]

pub ends_with_self : (t : String) → ends_with t t ≡ true
unfolding ends_with
ends_with_self String.[] = refl
ends_with_self (String.◌∷◌ c t) = rw ((eq_iff (String.◌∷◌ c t) _).1 refl)

pub ends_with-append : (r t : String) → ends_with (append r t) t ≡ true
unfolding ends_with
ends_with-append String.[] t = ends_with_self t
ends_with-append (String.◌∷◌ c r) t = ground (arith, ends_with-append r t)
