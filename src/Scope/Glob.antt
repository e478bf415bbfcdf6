-- ===== src/Scope/Glob.antt =====
-- `matchPathGlob` decides coverage of paths segment by segment, although it compares texts.
use Prim.Native.Char.{Char}
use mathlib.Core.List.{append-nil}
use wanfw.Common.{
  String, ◌≡◌, refl, sym, ap, ◌∙◌, ◌↔◌, Bool, true, false, ◌==◌, eq_iff, List, [], ◌∷◌, ◌++◌,
  Option, none, some, inl, inr, arith, filter, append, append_assoc, starts_with, split, join,
  join-append, All, Bool-cases, starts_with-append, append_of_starts_with, split-append_sep,
  ends_with,
}
use wanfw.Scope.{is_nonempty, glob_dir, path_segments, match_canonical, match_both, match_path_glob}
use wanfw.Scope.Segments.{
  IsPlain, path_of, Denotes, Denotes-of_canonicalize_path, canonicalize_path_of_Denotes,
  path_of-injective, path_segments-path_of,
}

abbrev slash : Char
slash = "/"

filter-append :
    (ws vs : List String)
    → filter is_nonempty (ws ++ vs) ≡ filter is_nonempty ws ++ filter is_nonempty vs
filter-append [] vs = refl
filter-append (w ∷ ws) vs = ground (arith, filter-append ws vs)

-- The segments of a path that starts with the text of another.
path_segments-append :
    (u r : String) → path_segments (append (append u "/") r) ≡ path_segments u ++ path_segments r
path_segments-append u r =
    rw (append_assoc u "/" r)
      (rw (split-append_sep slash u r) (filter-append (split b'/' u) (split b'/' r)))

path_of-cons :
    (w : String) (ws : List String) (v : String) (vs : List String)
    → path_of ((w ∷ ws) ++ (v ∷ vs)) ≡ append (append (path_of (w ∷ ws)) "/") (join "/" (v ∷ vs))
path_of-cons w ws v vs =
    ap (append "/")
      (join-append slash w ws v vs ∙ sym (append_assoc (join "/" (w ∷ ws)) "/" (join "/" (v ∷ vs))))

-- A directory that is not the root, and a path, both by their segments.
module _ (d : String) (ds ps : List String) (hd : All IsPlain (d ∷ ds)) (hp : All IsPlain ps) where
  covered_of_equal : path_of ps ≡ path_of (d ∷ ds) → (rest : List String) × (ps ≡ (d ∷ ds) ++ rest)
  covered_of_equal e = ([], path_of-injective ps (d ∷ ds) hp hd e ∙ sym (append-nil (d ∷ ds)))

  covered_of_prefix :
      starts_with (path_of ps) (append (path_of (d ∷ ds)) "/") ≡ true
      → (rest : List String) × (ps ≡ (d ∷ ds) ++ rest)
  covered_of_prefix h =
      let (r, e) = append_of_starts_with (path_of ps) (append (path_of (d ∷ ds)) "/") h in
      (
        path_segments r,
        sym (path_segments-path_of ps hp)
            ∙ ap path_segments e
            ∙ path_segments-append (path_of (d ∷ ds)) r
            ∙ ap (λ ws. ws ++ path_segments r) (path_segments-path_of (d ∷ ds) hd),
      )

  not_root : (path_of (d ∷ ds) == "/") ≡ false
  not_root = elim (Bool-cases (path_of (d ∷ ds) == "/")) [
    | inl e ↦ cc (path_of-injective (d ∷ ds) [] hd tt ((eq_iff _ _).0 e))
    | inr e ↦ e
  ]

  covered_of_match :
      match_canonical true (path_of (d ∷ ds)) (path_of ps) ≡ true
      → (rest : List String) × (ps ≡ (d ∷ ds) ++ rest)
  covered_of_match h = elim (Bool-cases (path_of ps == path_of (d ∷ ds))) [
    | inl e ↦ covered_of_equal ((eq_iff _ _).0 e)
    | inr e ↦ covered_of_prefix (rw (not_root, e) at h)
  ]

match_of_covered :
    (d : String) (ds rest : List String)
    → All IsPlain (d ∷ ds)
    → match_canonical true (path_of (d ∷ ds)) (path_of ((d ∷ ds) ++ rest)) ≡ true
match_of_covered d ds [] h =
    rw (append-nil ds) (ground (arith, eq_iff (path_of (d ∷ ds)) (path_of (d ∷ ds))))
match_of_covered d ds (v ∷ vs) h =
    rw (path_of-cons d ds v vs)
      (ground (arith, starts_with-append (append (path_of (d ∷ ds)) "/") (join "/" (v ∷ vs))))

-- A canonical directory covers a canonical path exactly if its segments come first.
pub match_canonical_iff :
    (ds ps : List String)
    → All IsPlain ds
    → All IsPlain ps
    → (match_canonical true (path_of ds) (path_of ps) ≡ true)
      ↔ ((rest : List String) × (ps ≡ ds ++ rest))
match_canonical_iff [] ps hd hp = ((λ h. (ps, refl)), (λ h. refl))
match_canonical_iff (d ∷ ds) ps hd hp =
    (covered_of_match d ds ps hd hp, λ (rest, e). rw e (match_of_covered d ds rest hd))

-- What `matchPathGlob` decides: for a pattern `D/*`, that the segments of `D` come first in the
-- path; for any other pattern, that it has the path's segments. Both must be canonical.
pub data Covers (pattern path : String) : Type 0 where
  under :
      (ds rest : List String)
      → ends_with pattern "/*" ≡ true
      → Denotes (glob_dir pattern) ds
      → Denotes path (ds ++ rest)
      → Covers pattern path
  exact :
      (ws : List String)
      → ends_with pattern "/*" ≡ false
      → Denotes pattern ws
      → Denotes path ws
      → Covers pattern path

match_both-true :
    (is_dir : Bool) (p q : Option String)
    → match_both is_dir p q ≡ true
    → (d : String) × (t : String) × (p ≡ some d)
      × (q ≡ some t)
      × (match_canonical is_dir d t ≡ true)
match_both-true is_dir (some d) (some t) h = (d, t, refl, refl, h)
match_both-true is_dir none q h = cc
match_both-true is_dir (some d) none h = cc

-- Two canonical paths that match, as what they denote.
Covers-of_match :
    (pattern path : String) → match_path_glob pattern path ≡ true → Covers pattern path
unfolding match_path_glob
Covers-of_match pattern path h = elim (Bool-cases (ends_with pattern "/*")) [
  | inl e ↦
      let (d, t, he, te, m) = match_both-true true _ _ (rw e at h) in
      let (ds, dd, same_d) = Denotes-of_canonicalize_path (glob_dir pattern) d he in
      let (ts, dt, same_t) = Denotes-of_canonicalize_path path t te in
      let (rest, p) = (match_canonical_iff ds ts dd.plain dt.plain).0 (rw (same_d, same_t) at m) in
      under ds rest e dd (rw p at dt)
  | inr e ↦
      let (d, t, he, te, m) = match_both-true false _ _ (rw e at h) in
      let (ds, dd, same_d) = Denotes-of_canonicalize_path pattern d he in
      let (ts, dt, same_t) = Denotes-of_canonicalize_path path t te in
      let p : ts ≡ ds = path_of-injective ts ds dt.plain dd.plain (cc ((eq_iff t d).0 m)) in
      exact ds e dd (rw p at dt)
]

match_of_Covers :
    (pattern path : String) → Covers pattern path → match_path_glob pattern path ≡ true
unfolding match_path_glob
match_of_Covers pattern path (under ds rest e dd dt) =
    rw (e, canonicalize_path_of_Denotes _ _ dd, canonicalize_path_of_Denotes _ _ dt)
      ((match_canonical_iff ds (ds ++ rest) dd.plain dt.plain).1 (rest, refl))
match_of_Covers pattern path (exact ws e dd dt) =
    rw (e, canonicalize_path_of_Denotes _ _ dd, canonicalize_path_of_Denotes _ _ dt)
      ((eq_iff (path_of ws) (path_of ws)).1 refl)

-- A path glob matches a path exactly if it covers it: a pattern that ends in `/*` covers the paths
-- whose segments begin with those of its directory, any other the paths with its own segments, and
-- both texts must be absolute with no `.` or `..` among their segments.
pub match_path_glob_iff :
    (pattern path : String) → (match_path_glob pattern path ≡ true) ↔ Covers pattern path
match_path_glob_iff pattern path = (Covers-of_match pattern path, match_of_Covers pattern path)
