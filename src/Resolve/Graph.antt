-- ===== src/Resolve/Graph.antt =====
-- Walks in the dependency graph, and what the search keeps about colours and its path
-- (packages/orchestrator/src/dependency-resolution/resolve.ts).
use wanfw.Common.{
  arith, ℕ, ◌+◌, ◌≤◌, ◌<◌, String, ◌≡◌, ◌≢◌, refl, sym, ap, ◌∙◌, ◌⊎◌, inl, inr, true, false, ◌==◌,
  eq_iff, List, [], ◌∷◌, ◌++◌, none, some, Bool-cases, In, length,
}
use wanfw.Pipeline.{lookup}
use wanfw.Resolve.{Graph, Color, white, gray, black, edges, color_of, slice_from, pop}

-- Every element but the last has an edge to the one after it.
abbrev pub IsWalk : Graph → List String → Type 0
IsWalk g [] = Unit {0}
IsWalk g (a ∷ []) = Unit {0}
IsWalk g (a ∷ b ∷ r) = In b (edges g a) × IsWalk g (b ∷ r)

-- A walk along at least one edge that ends where it begins.
abbrev pub IsCycle : Graph → List String → Type 0
IsCycle g c = (a : String) × (r : List String) × (c ≡ a ∷ (r ++ a ∷ [])) × IsWalk g c

-- One node leads to another along at least one edge.
pub data Leads (g : Graph) : String → String → Type 0 where
  edge : {a b : String} → In b (edges g a) → Leads g a b
  then_edge : {a b c : String} → Leads g a b → In c (edges g b) → Leads g a c

pub IsWalk-snoc :
    (g : Graph) (path : List String) (a b : String)
    → IsWalk g (path ++ a ∷ [])
    → In b (edges g a)
    → IsWalk g ((path ++ a ∷ []) ++ b ∷ [])
IsWalk-snoc g [] a b w m = (m, tt)
IsWalk-snoc g (x ∷ []) a b (e, w) m = (e, (m, tt))
IsWalk-snoc g (x ∷ y ∷ path) a b (e, w) m = (e, IsWalk-snoc g (y ∷ path) a b w m)

IsWalk-tail : (g : Graph) (x : String) (xs : List String) → IsWalk g (x ∷ xs) → IsWalk g xs
IsWalk-tail g x [] w = tt
IsWalk-tail g x (y ∷ xs) (e, w) = w

-- The part of a walk from a node that it passes, closed by an edge back to that node.
pub slice_from-IsCycle :
    (g : Graph) (path : List String) (next : String)
    → In next path
    → IsWalk g (path ++ next ∷ [])
    → IsCycle g (slice_from next path ++ next ∷ [])
unfolding slice_from
slice_from-IsCycle g [] next m w = elim m [ ]
slice_from-IsCycle g (x ∷ path) next m w = elim (Bool-cases (x == next)) [
  | inl e ↦ rw e (next, path, rw ((eq_iff x next).0 e) refl, w)
  | inr e ↦ elim m [
    | inl same ↦ let bad : false ≡ true = sym e ∙ (eq_iff x next).1 same in cc
    | inr later ↦
        rw e (slice_from-IsCycle g path next later (IsWalk-tail g x (path ++ next ∷ []) w))
  ]
]

pub pop-snoc : (xs : List String) (x : String) → pop (xs ++ x ∷ []) ≡ xs
pop-snoc [] x = refl
pop-snoc (y ∷ []) x = refl
pop-snoc (y ∷ z ∷ xs) x = ap (λ l. y ∷ l) (pop-snoc (z ∷ xs) x)

pub color_of_self :
    (cs : List (String × Color)) (n : String) (c : Color) → color_of ((n, c) ∷ cs) n ≡ c
unfolding color_of
color_of_self cs n c = rw ((eq_iff n n).1 refl) refl

pub color_of-other :
    (cs : List (String × Color)) (n m : String) (c : Color)
    → n ≢ m
    → color_of ((n, c) ∷ cs) m ≡ color_of cs m
unfolding color_of
color_of-other cs n m c d = elim (Bool-cases (n == m)) [
  | inl e ↦ absurd (d ((eq_iff n m).0 e))
  | inr e ↦ rw e refl
]

-- The colours that one list sets stand in the other.
abbrev pub Kept : List (String × Color) → List (String × Color) → Type 0
Kept cs ds = (n : String) → color_of cs n ≢ white → color_of ds n ≡ color_of cs n

abbrev is_white : Color → ℕ
is_white white = 1
is_white gray = 0
is_white black = 0

-- How many nodes of the graph are still white.
abbrev pub whites : Graph → List (String × Color) → ℕ
whites [] cs = 0
whites ((n, es) ∷ g) cs = is_white (color_of cs n) + whites g cs

pub Color-cases : (c : Color) → (c ≡ white) ⊎ (c ≡ gray) ⊎ (c ≡ black)
Color-cases white = inl refl
Color-cases gray = inr (inl refl)
Color-cases black = inr (inr refl)

is_white_le : (c d : Color) → (c ≢ white → d ≡ c) → is_white d ≤ is_white c
is_white_le white white h = omega arith
is_white_le white gray h = omega arith
is_white_le white black h = omega arith
is_white_le gray d h = rw (h (λ e. cc)) (omega arith)
is_white_le black d h = rw (h (λ e. cc)) (omega arith)

is_white_le_one : (c : Color) → is_white c ≤ 1
is_white_le_one white = omega arith
is_white_le_one gray = omega arith
is_white_le_one black = omega arith

pub whites_le : (g : Graph) (cs : List (String × Color)) → whites g cs ≤ length g
whites_le [] cs = omega arith
whites_le ((n, es) ∷ g) cs = omega (arith, is_white_le_one (color_of cs n), whites_le g cs)

pub whites-Kept :
    (g : Graph) (cs ds : List (String × Color)) → Kept cs ds → whites g ds ≤ whites g cs
whites-Kept [] cs ds k = omega arith
whites-Kept ((n, es) ∷ g) cs ds k =
    omega (arith, is_white_le (color_of cs n) (color_of ds n) (k n), whites-Kept g cs ds k)

pub Kept-enter :
    (cs : List (String × Color)) (n : String) (c : Color)
    → color_of cs n ≡ white
    → Kept cs ((n, c) ∷ cs)
Kept-enter cs n c w m d = color_of-other cs n m c (λ same. d (rw (← same) w))

pub Kept-trans : (cs ds es : List (String × Color)) → Kept cs ds → Kept ds es → Kept cs es
Kept-trans cs ds es h k n d = k n (λ e. d (sym (h n d) ∙ e)) ∙ h n d

-- Entering a white node of the graph leaves fewer white nodes.
pub whites-enter :
    (g : Graph) (cs : List (String × Color)) (n : String) (es : List String)
    → lookup n g ≡ some es
    → color_of cs n ≡ white
    → whites g ((n, gray) ∷ cs) < whites g cs
whites-enter [] cs n es h w = cc
whites-enter ((m, fs) ∷ g) cs n es h w = elim (Bool-cases (m == n)) [
  | inl e ↦
      let same : m ≡ n = (eq_iff m n).0 e in
      let rest = whites-Kept g cs ((n, gray) ∷ cs) (Kept-enter cs n gray w) in
      rw same (rw (w, color_of_self cs n gray) (omega (arith, rest)))
  | inr e ↦
      let other : n ≢ m =
        λ same. let bad : false ≡ true = sym e ∙ (eq_iff m n).1 (sym same) in cc in
      rw (color_of-other cs n m gray other) (omega (arith, whites-enter g cs n es (rw e at h) w))
]

pub edges-absent : (g : Graph) (n : String) → lookup n g ≡ none → edges g n ≡ []
unfolding edges
edges-absent g n h = rw h refl
