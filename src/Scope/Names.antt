-- ===== src/Scope/Names.antt =====
-- What `matchNamePrefix`, `matchZone`, `matchPortRange` and `hasGrant` decide.
use wanfw.Common.{
  ℕ, String, ◌≡◌, refl, ap, ◌↔◌, ◌⊎◌, Bool, true, false, ◌&&◌, ◌==◌, eq_iff, eqb, eqb_iff, List, [],
  ◌∷◌, inl, inr, arith, append, starts_with-append, append_of_starts_with, append_of_ends_with,
  ends_with, ends_with-append, but_last, In, any_iff, any_of_In, Bool-cases, &&-eq-true, All,
}
use wanfw.Scope.{
  GrantScope, Grant, includes, match_name, match_name_prefix, match_zone, match_port,
  match_port_range, has_grant,
}

-- A pattern names every name, one name, or every name below a directory.
pub data NameCovers (p name : String) : Type 0 where
  everything : p ≡ "*" → NameCovers p name
  same : ends_with p "/*" ≡ false → p ≡ name → NameCovers p name
  below :
      (dir rest : String)
      → p ≡ append dir "/*"
      → name ≡ append (append dir "/") rest
      → NameCovers p name

but_last-append : (dir : String) → but_last (append dir "/*") ≡ append dir "/"
but_last-append String.[] = refl
but_last-append (String.◌∷◌ c String.[]) = refl
but_last-append (String.◌∷◌ c (String.◌∷◌ d s)) =
    ap (String.◌∷◌ c) (but_last-append (String.◌∷◌ d s))

NameCovers-of_match : (p name : String) → match_name p name ≡ true → NameCovers p name
NameCovers-of_match p name h = elim (Bool-cases (ends_with p "/*")) [
  | inl e ↦
      let (dir, q) = append_of_ends_with p "/*" e in
      let (rest, r) = append_of_starts_with name (but_last p) (rw e at h) in
      below dir rest q (cc (r, but_last-append dir, q))
  | inr e ↦ elim (Bool-cases (p == "*")) [
    | inl s ↦ everything ((eq_iff _ _).0 s)
    | inr s ↦ same e ((eq_iff _ _).0 (rw (e, s) at h))
  ]
]

match_of_NameCovers : (p name : String) → NameCovers p name → match_name p name ≡ true
unfolding ends_with
match_of_NameCovers p name (everything e) = rw e refl
match_of_NameCovers p name (same e q) = rw e (ground (arith, eq_iff p name))
match_of_NameCovers p name (below dir rest q r) =
    rw (q, r)
      (rw (ends_with-append dir "/*", but_last-append dir)
        (starts_with-append (append dir "/") rest))

-- A list of patterns matches a name exactly if one of them covers it.
pub match_name_prefix_iff :
    (patterns : List String) (name : String)
    → (match_name_prefix patterns name ≡ true) ↔ ((p : String) × In p patterns × NameCovers p name)
unfolding match_name_prefix
match_name_prefix_iff patterns name = (
  λ h.
      let (p, m, e) = (any_iff (λ p. match_name p name) patterns).0 h in
      (p, m, NameCovers-of_match p name e),
  λ (p, m, c). (any_iff (λ p. match_name p name) patterns).1 (p, m, match_of_NameCovers p name c),
)

pub includes_iff : (xs : List String) (x : String) → (includes xs x ≡ true) ↔ In x xs
includes_iff xs x = (
  λ h. let (y, m, e) = (any_iff (λ y. y == x) xs).0 h in rw ((eq_iff y x).0 e) at m,
  λ m. any_of_In (λ y. y == x) x xs m ((eq_iff x x).1 refl),
)

-- A zone is covered exactly if the list holds it, or holds the wildcard.
pub match_zone_iff :
    (zones : List String) (zone : String)
    → (match_zone zones zone ≡ true) ↔ (In "*" zones ⊎ In zone zones)
unfolding match_zone
match_zone_iff zones zone = (
  λ h. elim (Bool-cases (includes zones "*")) [
    | inl e ↦ inl ((includes_iff zones "*").0 e)
    | inr e ↦ inr ((includes_iff zones zone).0 (rw e at h))
  ],
  λ m. elim m [
    | inl w ↦ rw ((includes_iff zones "*").1 w)
    | inr z ↦ ground (arith, (includes_iff zones zone).1 z)
  ],
)

match_port_iff : (ports : List ℕ) (p : ℕ) → (match_port ports p ≡ true) ↔ In p ports
unfolding match_port
match_port_iff ports p = (
  λ h. let (q, m, e) = (any_iff (λ q. eqb q p) ports).0 h in rw ((eqb_iff q p).0 e) at m,
  λ m. any_of_In (λ q. eqb q p) p ports m ((eqb_iff p p).1 refl),
)

-- A list of ports is covered exactly if the scope holds each of them.
pub match_port_range_iff :
    (ports requested : List ℕ)
    → (match_port_range ports requested ≡ true) ↔ All (λ p. In p ports) requested
unfolding match_port_range
match_port_range_iff ports [] = ((λ h. tt), (λ h. refl))
match_port_range_iff ports (p ∷ ps) = (
  λ h.
      let (e, r) = &&-eq-true (match_port ports p) _ h in
      ((match_port_iff ports p).0 e, (match_port_range_iff ports ps).0 r),
  λ (m, r). rw ((match_port_iff ports p).1 m) ((match_port_range_iff ports ps).1 r),
)

-- A capability is granted exactly if some grant names it and its scope passes the test.
pub has_grant_iff :
    (grants : List Grant) (cap : String) (matches : GrantScope → Bool)
    → (has_grant grants cap matches ≡ true)
      ↔ ((g : Grant) × In g grants × (g.cap ≡ cap) × (matches g.scope ≡ true))
unfolding has_grant
has_grant_iff grants cap matches = (
  λ h.
      let (g, m, e) = (any_iff (λ (g : Grant). g.cap == cap && matches g.scope) grants).0 h in
      let (a, b) = &&-eq-true (g.cap == cap) (matches g.scope) e in
      (g, m, (eq_iff g.cap cap).0 a, b),
  λ (g, m, a, b).
      any_of_In (λ (g : Grant). g.cap == cap && matches g.scope) g grants m
        (rw (a, (eq_iff cap cap).1 refl) b),
)
