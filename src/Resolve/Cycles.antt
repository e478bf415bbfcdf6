-- ===== src/Resolve/Cycles.antt =====
-- What `detectCycle` decides (packages/orchestrator/src/dependency-resolution/resolve.ts).
use wanfw.Common.{
  arith, suc, String, ◌≡◌, ◌≢◌, refl, sym, ◌∙◌, ◌⊎◌, inl, inr, ◌==◌, eq_iff, List, [], ◌∷◌, ◌++◌,
  none, some, some_inj, Bool-cases, Option-cases, In, length, subst,
}
use wanfw.Pipeline.{lookup}
use wanfw.Resolve.{
  Graph, ManifestLike, Color, white, gray, black, Visited, Visit, found, finished, out_of_fuel,
  edges, color_of, visit, start_at, search, search_graph, unvisited, dependency_graph, detect_cycle,
  cycle_of,
}
use wanfw.Resolve.Graph.{IsWalk, IsCycle, Leads, edge, then_edge, whites_le, edges-absent}
use wanfw.Resolve.Order.{Ordered, black_no_cycle}
use wanfw.Resolve.Search.{
  Inv, Next, Next-refl, Next-trans, Good, after-Good, IsBlack, VisitsWell, visit_good,
}

abbrev IsKey : String → Graph → Type 0
IsKey n [] = ⊥
IsKey n ((m, es) ∷ g) = (m ≡ n) ⊎ IsKey n g

IsKey-of_lookup : (g : Graph) (n : String) (es : List String) → lookup n g ≡ some es → IsKey n g
IsKey-of_lookup [] n es h = cc
IsKey-of_lookup ((m, fs) ∷ g) n es h = elim (Bool-cases (m == n)) [
  | inl e ↦ inl ((eq_iff m n).0 e)
  | inr e ↦ inr (IsKey-of_lookup g n es (rw e at h))
]

abbrev AllKeys : Graph → Graph → Visited → Type 0
AllKeys g h st = (n : String) → IsKey n h → IsBlack g n st

module _ (g : Graph) (v : Visited → String → Visit) (well : VisitsWell g (suc (length g)) v) where
  start-Good :
      (st : Visited) (n : String) (c : Color)
      → Inv g st
      → st.path ≡ []
      → color_of st.color n ≡ c
      → Good g st (IsBlack g n) (start_at v st n c)
  start-Good st n white i e w = well st n i (rw e tt) w (omega (arith, whites_le g st.color))
  start-Good st n gray i e w = let none_there : ⊥ = rw e at (i.grays n w) in absurd none_there
  start-Good st n black i e w = (Next-refl g st i, w)

  search-Good :
      (h : Graph) (st : Visited) → Inv g st → st.path ≡ [] → Good g st (AllKeys g h) (search v h st)
  unfolding search
  search-Good [] st i e = (Next-refl g st i, λ n k. absurd k)
  search-Good ((n, es) ∷ h) st i e =
      after-Good g st (IsBlack g n) (AllKeys g ((n, es) ∷ h)) _ (λ st'. search v h st')
        (start-Good st n (color_of st.color n) i e refl)
        (λ st' k b. keep st' (search v h st') k b (search-Good h st' k.inv (k.path ∙ e)))
    where
      keep :
          (st' : Visited) (r : Visit)
          → Next g st st'
          → IsBlack g n st'
          → Good g st' (AllKeys g h) r
          → Good g st (AllKeys g ((n, es) ∷ h)) r
      keep st' (found c) k b good = good
      keep st' out_of_fuel k b good = good
      keep st' (finished t) k b (m, all) = (
        Next-trans g st st' t k m,
        λ x key. elim key [
          | inl same ↦ rw (← same) (m.kept n (λ w. let bad : black ≡ white = sym b ∙ w in cc) ∙ b)
          | inr later ↦ all x later
        ],
      )

unvisited-Inv : (g : Graph) → Inv g unvisited
unfolding color_of
unvisited-Inv g = record { ordered = tt; grays = λ x h. cc }

-- The search ends: with a cycle, or with every node of the graph black and in order.
abbrev Decides : Graph → Visit → Type 0
Decides g (found c) = IsCycle g c
Decides g (finished st) =
    Ordered g st.color × ((n : String) → IsKey n g → color_of st.color n ≡ black)
Decides g out_of_fuel = ⊥

Decides-of_Good : (g : Graph) (r : Visit) → Good g unvisited (AllKeys g g) r → Decides g r
Decides-of_Good g (found c) h = h
Decides-of_Good g (finished st) (n, all) = (n.inv.ordered, all)
Decides-of_Good g out_of_fuel h = h

search_graph-Decides : (g : Graph) → Decides g (search_graph g)
unfolding search_graph
search_graph-Decides g = Decides-of_Good g (search (visit (suc (length g)) g) g unvisited) (
    search-Good g (visit (suc (length g)) g) (visit_good g (suc (length g))) g unvisited
      (unvisited-Inv g) refl)

ends : (g : Graph) (r : Visit) → Decides g r → r ≢ out_of_fuel
ends g (found c) d e = cc
ends g (finished st) d e = cc
ends g out_of_fuel d e = d

-- The search for a cycle ends on every graph: the fuel, one more than the nodes, never runs out.
pub search_graph-ends : (g : Graph) → search_graph g ≢ out_of_fuel
search_graph-ends g = ends g (search_graph g) (search_graph-Decides g)

first_edge : {g : Graph} {a b : String} → Leads g a b → (c : String) × In c (edges g a)
first_edge (edge {a} {b} m) = (b, m)
first_edge (then_edge l m) = first_edge l

-- A node that leads anywhere is a node of the graph.
IsKey-of_Leads : (g : Graph) (a b : String) → Leads g a b → IsKey a g
IsKey-of_Leads g a b l =
    let (c, m) = first_edge l in
    elim (Option-cases (lookup a g)) [
      | inl absent ↦ let none_there : ⊥ = rw (edges-absent g a absent) at m in absurd none_there
      | inr (es, there) ↦ IsKey-of_lookup g a es there
    ]

decided :
    (g : Graph) (r : Visit)
    → Decides g r
    → ((c : List String) → cycle_of r ≡ some c → IsCycle g c)
      × (cycle_of r ≡ none → (n : String) → ¬ (Leads g n n))
decided g (found c) d = (λ c' e. subst (IsCycle g) (some_inj e) d, λ e. cc)
decided g (finished st) (o, keys) =
    (λ c e. cc, λ e n l. black_no_cycle g st.color n o (keys n (IsKey-of_Leads g n n l)) l)
decided g out_of_fuel d = absurd d

-- `detectCycle` decides whether the dependency graph of the bound plugins has a cycle: what it returns
-- is a walk along dependencies that ends where it begins, and when it returns nothing no plugin leads
-- back to itself along any number of dependencies.
pub detect_cycle-decides :
    (manifests : List (String × ManifestLike)) (roles : List (String × String))
    → ((c : List String)
        → detect_cycle manifests roles ≡ some c
        → IsCycle (dependency_graph manifests roles) c)
      × (detect_cycle manifests roles ≡ none
          → (n : String) → ¬ (Leads (dependency_graph manifests roles) n n))
unfolding detect_cycle
detect_cycle-decides manifests roles =
    let g : Graph = dependency_graph manifests roles in
    decided g (search_graph g) (search_graph-Decides g)

walk-Leads :
    (g : Graph) (start x a : String) (r : List String)
    → Leads g start x
    → IsWalk g (x ∷ (r ++ a ∷ []))
    → Leads g start a
walk-Leads g start x a [] l (m, w) = then_edge l m
walk-Leads g start x a (y ∷ r) l (m, w) = walk-Leads g start y a r (then_edge l m) w

closed-Leads :
    (g : Graph) (a : String) (r : List String) → IsWalk g (a ∷ (r ++ a ∷ [])) → Leads g a a
closed-Leads g a [] (m, w) = edge m
closed-Leads g a (y ∷ r) (m, w) = walk-Leads g a y a r (edge m) w

-- The first plugin of a cycle leads to itself.
pub Leads-of_IsCycle :
    (g : Graph) (c : List String)
    → IsCycle g c
    → (a : String) × (rest : List String) × (c ≡ a ∷ rest) × Leads g a a
Leads-of_IsCycle g c (a, r, e, w) = (a, r ++ a ∷ [], e, closed-Leads g a r (rw e at w))
