-- ===== src/Resolve/Order.antt =====
-- The order in which nodes turn black (packages/orchestrator/src/dependency-resolution/resolve.ts): a
-- node does so after all that it has an edge to, so no black node leads to itself.
use wanfw.Common.{
  arith, ℕ, suc, ◌≤◌, ◌<◌, String, ◌≡◌, ◌≢◌, refl, sym, ap, ◌∙◌, inl, inr, true, false, ◌==◌,
  eq_iff, List, [], ◌∷◌, Bool-cases, In, length, if◌then◌else◌,
}
use wanfw.Resolve.{Graph, Color, white, gray, black, edges, color_of}
use wanfw.Resolve.Graph.{Leads, edge, then_edge, color_of_self, color_of-other}

-- A node turns gray from white, and black from gray, when all that it has an edge to is black.
abbrev pub Ordered : Graph → List (String × Color) → Type 0
Ordered g [] = Unit {0}
Ordered g ((n, white) ∷ cs) = ⊥
Ordered g ((n, gray) ∷ cs) = (color_of cs n ≡ white) × Ordered g cs
Ordered g ((n, black) ∷ cs) =
    (color_of cs n ≡ gray)
    × ((e : String) → In e (edges g n) → color_of cs e ≡ black)
    × Ordered g cs

-- When the colour of a node was set last.
abbrev rank : List (String × Color) → String → ℕ
rank [] n = 0
rank ((m, c) ∷ cs) n = if m == n then suc (length cs) else rank cs n

rank_le : (cs : List (String × Color)) (n : String) → rank cs n ≤ length cs
rank_le [] n = omega arith
rank_le ((m, c) ∷ cs) n = ground (arith, rank_le cs n)

rank-other :
    (cs : List (String × Color)) (m n : String) (c : Color)
    → m ≢ n
    → rank ((m, c) ∷ cs) n ≡ rank cs n
rank-other cs m n c d = elim (Bool-cases (m == n)) [
  | inl e ↦ absurd (d ((eq_iff m n).0 e))
  | inr e ↦ rw e refl
]

Ordered-tail :
    (g : Graph) (n : String) (c : Color) (cs : List (String × Color))
    → Ordered g ((n, c) ∷ cs)
    → Ordered g cs
Ordered-tail g n white cs o = absurd o
Ordered-tail g n gray cs (w, o) = o
Ordered-tail g n black cs (w, e, o) = o

-- A colour is set on a node that is not black.
set_before :
    (g : Graph) (n : String) (c : Color) (cs : List (String × Color))
    → Ordered g ((n, c) ∷ cs)
    → color_of cs n ≢ black
set_before g n white cs o = absurd o
set_before g n gray cs (w, o) = λ b. cc
set_before g n black cs (w, e, o) = λ b. cc

color_of-nil : (n : String) → color_of [] n ≡ white
unfolding color_of
color_of-nil n = refl

-- A black node keeps its colour and its rank when another colour is set.
stays :
    (g : Graph) (k : String) (c : Color) (cs : List (String × Color)) (e : String)
    → Ordered g ((k, c) ∷ cs)
    → color_of cs e ≡ black
    → (color_of ((k, c) ∷ cs) e ≡ black) × (rank ((k, c) ∷ cs) e ≡ rank cs e)
stays g k c cs e o b =
    let other : k ≢ e = λ same. set_before g k c cs o (rw same b) in
    (color_of-other cs k e c other ∙ b, rank-other cs k e c other)

newest :
    (g : Graph) (n : String) (c : Color) (cs : List (String × Color)) (e : String)
    → Ordered g ((n, c) ∷ cs)
    → c ≡ black
    → In e (edges g n)
    → color_of cs e ≡ black
newest g n white cs e o b m = absurd o
newest g n gray cs e o b m = cc
newest g n black cs e (w, ready, o) b m = ready e m

edge_black :
    (g : Graph) (cs : List (String × Color)) (n e : String)
    → Ordered g cs
    → color_of cs n ≡ black
    → In e (edges g n)
    → (color_of cs e ≡ black) × (rank cs e < rank cs n)
edge_black g [] n e o b m = let bad : white ≡ black = sym (color_of-nil n) ∙ b in cc
edge_black g ((k, c) ∷ cs) n e o b m = elim (Bool-cases (k == n)) [
  | inl at_n ↦
      let same : k ≡ n = (eq_iff k n).0 at_n in
      let c_black : c ≡ black = sym (color_of_self cs k c) ∙ ap (color_of ((k, c) ∷ cs)) same ∙ b in
      let ready = newest g k c cs e o c_black (rw same m) in
      let (now, r) = stays g k c cs e o ready in (now, rw (r, at_n) (omega (arith, rank_le cs e)))
  | inr e' ↦
      let other : k ≢ n = λ same. let bad : false ≡ true = sym e' ∙ (eq_iff k n).1 same in cc in
      let before : color_of cs n ≡ black = sym (color_of-other cs k n c other) ∙ b in
      let (ready, less) = edge_black g cs n e (Ordered-tail g k c cs o) before m in
      let (now, r) = stays g k c cs e o ready in (now, rw (r, rank-other cs k n c other) less)
]

Leads-down :
    {g : Graph} {a b : String} (cs : List (String × Color))
    → Ordered g cs
    → color_of cs a ≡ black
    → Leads g a b
    → (color_of cs b ≡ black) × (rank cs b < rank cs a)
Leads-down {g} cs o h (edge {a} {b} m) = edge_black g cs a b o h m
Leads-down {g} cs o h (then_edge {a} {b} {c} l m) =
    let (black_b, less) = Leads-down cs o h l in
    let (black_c, less') = edge_black g cs b c o black_b m in (black_c, omega arith)

-- No black node leads to itself.
pub black_no_cycle :
    (g : Graph) (cs : List (String × Color)) (n : String)
    → Ordered g cs
    → color_of cs n ≡ black
    → Leads g n n
    → ⊥
black_no_cycle g cs n o b l = let (_, less) = Leads-down cs o b l in absurd (omega arith)
