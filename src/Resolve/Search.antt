-- ===== src/Resolve/Search.antt =====
-- The depth-first search for a cycle (packages/orchestrator/src/dependency-resolution/resolve.ts): it
-- ends within its fuel, what it finds is a cycle, and what it leaves black is in order.
use wanfw.Common.{
  arith, ℕ, zero, suc, ◌<◌, String, ◌≡◌, ◌≢◌, refl, sym, ap, ◌∙◌, inl, inr, true, false, ◌==◌,
  eq_iff, List, [], ◌∷◌, ◌++◌, Bool-cases, Option-cases, In, In-append, In-append_left,
  In-append_right,
}
use wanfw.Pipeline.{lookup}
use wanfw.Resolve.{
  Graph, Color, white, gray, black, Visited, Visit, found, finished, out_of_fuel, edges, color_of,
  pop, enter, leave, after, follow, scan, visit,
}
use wanfw.Resolve.Graph.{
  IsWalk, IsCycle, IsWalk-snoc, slice_from-IsCycle, pop-snoc, color_of_self, color_of-other, Kept,
  Kept-trans, whites, whites-Kept, whites-enter, edges-absent,
}
use wanfw.Resolve.Order.{Ordered}

module _ (g : Graph) where
  -- Between two calls: the colours are in order, and what is gray is on the path.
  pub record Inv (st : Visited) : Type 0 where
    pub ordered : Ordered g st.color
    pub grays : (x : String) → color_of st.color x ≡ gray → In x st.path

  -- A part of the search that returns to its caller leaves the path and the colours that were set.
  pub record Next (st st' : Visited) : Type 0 where
    pub kept : Kept st.color st'.color
    pub path : st'.path ≡ st.path
    pub inv : Inv st'

  -- A part of the search ends; if it finds a cycle, it is one, and if it returns, `P` holds.
  abbrev pub Good : Visited → (Visited → Type 0) → Visit → Type 0
  Good st P (found c) = IsCycle g c
  Good st P (finished st') = Next st st' × P st'
  Good st P out_of_fuel = ⊥

  pub after-Good :
      (st : Visited) (P Q : Visited → Type 0) (r : Visit) (k : Visited → Visit)
      → Good st P r
      → ((st' : Visited) → Next st st' → P st' → Good st Q (k st'))
      → Good st Q (after r k)
  after-Good st P Q (found c) k h f = h
  after-Good st P Q (finished st') k (n, p) f = f st' n p
  after-Good st P Q out_of_fuel k h f = absurd h

  pub Next-trans : (a b c : Visited) → Next a b → Next b c → Next a c
  Next-trans a b c h k = record {
    kept = Kept-trans a.color b.color c.color h.kept k.kept;
    path = k.path ∙ h.path;
    inv = k.inv;
  }

  pub Next-refl : (st : Visited) → Inv st → Next st st
  Next-refl st i = record { kept = λ n d. refl; path = refl; inv = i }

  abbrev pub IsBlack : String → Visited → Type 0
  IsBlack n st = color_of st.color n ≡ black

  abbrev AllBlack : List String → Visited → Type 0
  AllBlack es st = (e : String) → In e es → IsBlack e st

  -- What a call of `visit` is for: a white node, next on the path, and enough fuel.
  abbrev pub VisitsWell : ℕ → (Visited → String → Visit) → Type 0
  VisitsWell fuel v =
      (st : Visited) (n : String)
      → Inv st
      → IsWalk g (st.path ++ n ∷ [])
      → color_of st.color n ≡ white
      → whites g st.color < fuel
      → Good st (IsBlack n) (v st n)

  cons_black :
      (next : String) (rest : List String) (st st' : Visited) (r : Visit)
      → Next st st'
      → IsBlack next st'
      → Good st' (AllBlack rest) r
      → Good st (AllBlack (next ∷ rest)) r
  cons_black next rest st st' (found c) n b h = h
  cons_black next rest st st' out_of_fuel n b h = h
  cons_black next rest st st' (finished t) n b (m, all) = (
    Next-trans st st' t n m,
    λ e k. elim k [
      | inl same ↦ rw (← same) (m.kept next (λ w. let bad : black ≡ white = sym b ∙ w in cc) ∙ b)
      | inr later ↦ all e later
    ],
  )

  module _ (fuel : ℕ) (v : Visited → String → Visit) (well : VisitsWell fuel v) (base : List String)
      (node : String) (walked : IsWalk g (base ++ node ∷ [])) where
    follow-Good :
        (st : Visited) (next : String)
        → Inv st
        → st.path ≡ base ++ node ∷ []
        → In next (edges g node)
        → whites g st.color < fuel
        → (c : Color) → color_of st.color next ≡ c
        → Good st (IsBlack next) (follow v st next c)
    follow-Good st next i at m less white e =
        well st next i (rw at (IsWalk-snoc g base node next walked m)) e less
    follow-Good st next i at m less gray e =
        slice_from-IsCycle g st.path next (i.grays next e)
          (rw at (IsWalk-snoc g base node next walked m))
    follow-Good st next i at m less black e = (Next-refl st i, e)

    scan-Good :
        (es : List String) (st : Visited)
        → Inv st
        → st.path ≡ base ++ node ∷ []
        → ((e : String) → In e es → In e (edges g node))
        → whites g st.color < fuel
        → Good st (AllBlack es) (scan v es st)
    unfolding scan
    scan-Good [] st i at m less = (Next-refl st i, λ e k. elim k [ ])
    scan-Good (next ∷ rest) st i at m less =
        after-Good st (IsBlack next) (AllBlack (next ∷ rest)) _ (λ st'. scan v rest st')
          (follow-Good st next i at (m next (inl refl)) less (color_of st.color next) refl)
          (λ st' n b. cons_black next rest st st' (scan v rest st') n b (
            scan-Good rest st' n.inv (n.path ∙ at) (λ e k. m e (inr k))
              (omega (arith, whites-Kept g st.color st'.color n.kept))))

  enter-Inv : (st : Visited) (n : String) → Inv st → color_of st.color n ≡ white → Inv (enter n st)
  enter-Inv st n i w = record {
    ordered = (w, i.ordered);
    grays = λ x h. elim (Bool-cases (n == x)) [
      | inl e ↦ In-append_right x st.path (n ∷ []) (inl ((eq_iff n x).0 e))
      | inr e ↦
          let other : n ≢ x = λ same. let bad : false ≡ true = sym e ∙ (eq_iff n x).1 same in cc in
          In-append_left x st.path (n ∷ [])
            (i.grays x (sym (color_of-other st.color n x gray other) ∙ h))
    ];
  }

  -- Leaving a node, all that it has an edge to being black, makes it black.
  leave-Next :
      (st st' : Visited) (n : String)
      → color_of st.color n ≡ white
      → Next (enter n st) st'
      → AllBlack (edges g n) st'
      → Next st (leave n st') × IsBlack n (leave n st')
  leave-Next st st' n w k ready =
      let still : color_of st'.color n ≡ gray =
        k.kept n (λ e. let bad : gray ≡ white = sym (color_of_self st.color n gray) ∙ e in cc)
        ∙ color_of_self st.color n gray in
      let back : pop st'.path ≡ st.path = rw k.path (pop-snoc st.path n) in
      (
        record {
          kept = λ m d. kept_there m d;
          path = back;
          inv = record {
            ordered = (still, ready, k.inv.ordered);
            grays = λ x h. rw back (gray_there x h);
          };
        },
        color_of_self st'.color n black,
      )
    where
      kept_there :
          (m : String)
          → color_of st.color m ≢ white
          → color_of ((n, black) ∷ st'.color) m ≡ color_of st.color m
      kept_there m d =
          let other : n ≢ m = λ same. d (rw (← same) w) in
          let before = color_of-other st.color n m gray other in
          color_of-other st'.color n m black other ∙ k.kept m (λ e. d (sym before ∙ e)) ∙ before

      gray_there : (x : String) → color_of ((n, black) ∷ st'.color) x ≡ gray → In x st.path
      gray_there x h = elim (Bool-cases (n == x)) [
        | inl e ↦
            let bad : black ≡ gray =
              sym (color_of_self st'.color n black)
              ∙ ap (color_of ((n, black) ∷ st'.color)) ((eq_iff n x).0 e)
              ∙ h in
            cc
        | inr e ↦
            let other : n ≢ x =
              λ same. let bad : false ≡ true = sym e ∙ (eq_iff n x).1 same in cc in
            let on_path = k.inv.grays x (sym (color_of-other st'.color n x black other) ∙ h) in
            elim (In-append x st.path (n ∷ []) (rw k.path at on_path)) [
              | inl m ↦ m
              | inr m ↦ elim m [ inl same ↦ absurd (other same) | inr f ↦ absurd f ]
            ]
      ]

  leave-Good :
      (st : Visited) (n : String) (r : Visit)
      → color_of st.color n ≡ white
      → Good (enter n st) (AllBlack (edges g n)) r
      → Good st (IsBlack n) (after r (λ st'. finished (leave n st')))
  leave-Good st n (found c) w h = h
  leave-Good st n (finished st') w (k, ready) = leave-Next st st' n w k ready
  leave-Good st n out_of_fuel w h = h

  scan_nothing :
      (v : Visited → String → Visit) (es : List String) (st : Visited)
      → es ≡ []
      → Inv st
      → Good st (AllBlack es) (scan v es st)
  unfolding scan
  scan_nothing v es st e i = rw e (Next-refl st i, λ x k. elim k [ ])

  pub visit_good : (fuel : ℕ) → VisitsWell fuel (visit fuel g)
  unfolding visit
  visit_good zero st n i w c less = absurd (omega arith)
  visit_good (suc fuel) st n i w c less =
      leave-Good st n (scan (visit fuel g) (edges g n) (enter n st)) c
        (elim (Option-cases (lookup n g)) [
          | inl absent ↦
              scan_nothing (visit fuel g) (edges g n) (enter n st) (edges-absent g n absent)
                (enter-Inv st n i c)
          | inr (es, there) ↦
              scan-Good fuel (visit fuel g) (visit_good fuel) st.path n w (edges g n) (enter n st)
                (enter-Inv st n i c) refl (λ e k. k)
                (omega (arith, whites-enter g st.color n es there c))
        ])
