-- ===== src/Scope/Segments.antt =====
-- A canonical path is the text of its segments, which are plain: not empty, no `.` or `..`, no
-- slash.
use Prim.Native.Char.{Char}
use wanfw.Common.{
  String, ◌≡◌, refl, sym, ap, ◌∙◌, ◌≢◌, true, false, eq_iff, List, [], ◌∷◌, some, inl, inr, arith,
  filter, append, starts_with, split, join, All, IsFree, split-IsFree, split-join, Bool-cases,
}
use wanfw.Scope.{is_nonempty, includes, path_segments, canonicalize_path}

abbrev slash : Char
slash = "/"

-- A segment that names an entry of its directory and nothing else.
abbrev pub IsPlain : String → Type 0
IsPlain w = (is_nonempty w ≡ true) × (w ≢ ".") × (w ≢ "..") × IsFree b'/' w

-- The path with these segments.
abbrev pub path_of : List String → String
path_of ws = append "/" (join "/" ws)

-- The path is absolute, and its segments, which are plain, are `ws`.
pub record Denotes (path : String) (ws : List String) : Type 0 where
  pub absolute : starts_with path "/" ≡ true
  pub segments : path_segments path ≡ ws
  pub plain : All IsPlain ws

filter_of_IsPlain : (ws : List String) → All IsPlain ws → filter is_nonempty ws ≡ ws
filter_of_IsPlain [] h = refl
filter_of_IsPlain (w ∷ ws) (p, h) = rw (p.0) (ap (λ vs. w ∷ vs) (filter_of_IsPlain ws h))

All-IsFree : (ws : List String) → All IsPlain ws → All (IsFree b'/') ws
All-IsFree [] h = tt
All-IsFree (w ∷ ws) (p, h) = (p.3, All-IsFree ws h)

pub path_segments-path_of : (ws : List String) → All IsPlain ws → path_segments (path_of ws) ≡ ws
unfolding split
path_segments-path_of [] h = refl
path_segments-path_of (w ∷ ws) h =
    rw (split-join slash w ws (All-IsFree (w ∷ ws) h)) (filter_of_IsPlain (w ∷ ws) h)

starts_with-path_of : (ws : List String) → starts_with (path_of ws) "/" ≡ true
unfolding starts_with
starts_with-path_of ws = elim (join "/" ws) as (λ t. starts_with (append "/" t) "/" ≡ true) [
  | String.[] ↦ refl
  | String.◌∷◌ c s ↦ refl
]

pub Denotes-path_of : (ws : List String) → All IsPlain ws → Denotes (path_of ws) ws
Denotes-path_of ws h = record {
  absolute = starts_with-path_of ws;
  segments = path_segments-path_of ws h;
  plain = h;
}

not_first :
    (w : String) (ws : List String) (x : String)
    → includes (w ∷ ws) x ≡ false
    → (w ≢ x) × (includes ws x ≡ false)
not_first w ws x h = ((λ e. ground (arith, eq_iff w x)), ground arith)

-- The tests of `canonicalizePath` on the segments, one segment at a time.
IsPlain-of_tests :
    (ws : List String)
    → All (IsFree b'/') ws
    → includes (filter is_nonempty ws) ".." ≡ false
    → includes (filter is_nonempty ws) "." ≡ false
    → All IsPlain (filter is_nonempty ws)
IsPlain-of_tests [] f h k = tt
IsPlain-of_tests (w ∷ ws) (f, fs) h k = elim (Bool-cases (is_nonempty w)) [
  | inl e ↦
      let (here_up, up) = not_first w (filter is_nonempty ws) ".." (rw e at h) in
      let (here_dot, dot) = not_first w (filter is_nonempty ws) "." (rw e at k) in
      rw e ((e, here_dot, here_up, f), IsPlain-of_tests ws fs up dot)
  | inr e ↦ rw e (IsPlain-of_tests ws fs (rw e at h) (rw e at k))
]

tests_of_plain :
    (ws : List String) → All IsPlain ws → (includes ws ".." ≡ false) × (includes ws "." ≡ false)
tests_of_plain [] h = (refl, refl)
tests_of_plain (w ∷ ws) (p, h) = ground (arith, tests_of_plain ws h, eq_iff w ".", eq_iff w "..")

pub Denotes-of_canonicalize_path :
    (path q : String)
    → canonicalize_path path ≡ some q
    → (ws : List String) × Denotes path ws × (q ≡ path_of ws)
unfolding canonicalize_path
Denotes-of_canonicalize_path path q h = (
  path_segments path,
  record {
    absolute = ground arith;
    segments = refl;
    plain =
        IsPlain-of_tests (split b'/' path) (split-IsFree slash path) (ground arith) (ground arith);
  },
  ground arith,
)

pub canonicalize_path_of_Denotes :
    (path : String) (ws : List String)
    → Denotes path ws
    → canonicalize_path path ≡ some (path_of ws)
unfolding canonicalize_path
canonicalize_path_of_Denotes path ws d =
    let (up, dot) = tests_of_plain ws d.plain in rw (d.absolute, d.segments) (rw (up, dot))

-- Canonicalising a path that is canonical changes nothing.
pub canonicalize_path_idempotent :
    (path q : String) → canonicalize_path path ≡ some q → canonicalize_path q ≡ some q
canonicalize_path_idempotent path q h =
    let (ws, d, e) = Denotes-of_canonicalize_path path q h in
    rw e (canonicalize_path_of_Denotes (path_of ws) ws (Denotes-path_of ws d.plain))

-- Two lists of plain segments with one path are one list.
pub path_of-injective :
    (us ws : List String) → All IsPlain us → All IsPlain ws → path_of us ≡ path_of ws → us ≡ ws
path_of-injective us ws hu hw e =
    sym (path_segments-path_of us hu) ∙ ap path_segments e ∙ path_segments-path_of ws hw
