-- ===== src/Audit/Chain.antt =====
-- The hash chain of the audit log (packages/orchestrator/src/audit-log.ts): what `append` writes, what
-- `readAll` reads back, and what `verify` finds.
use Prim.Native.Char.{code}
use mathlib.Core.List.{append-nil}
use wanfw.Common.{
  arith, ℕ, String, ◌≡◌, ◌≢◌, refl, sym, ap, ◌∙◌, inl, inr, Bool, true, false, not, ◌&&◌, ◌==◌,
  eq_iff, eqb, List, [], ◌∷◌, ◌++◌, Option, some, Bool-cases, filter, append, append_assoc,
  append_nil, split, &&-eq-true,
}
use wanfw.Audit.{
  accepted, AuditEntry, Runtime, hashable_fields, parse_lines, is_blank, read_all, failed,
  signature_valid, verify_from,
}

-- A text without a line break.
abbrev pub one_line : String → Bool
one_line String.[] = true
one_line (String.◌∷◌ c s) = not (eqb (code c) 10) && one_line s

pub split-append_line :
    (s t : String) → one_line s ≡ true → split 10 (append s (append "\n" t)) ≡ s ∷ split 10 t
unfolding split
split-append_line String.[] t h = refl
split-append_line (String.◌∷◌ c s) t h =
    let (other, later) = &&-eq-true (not (eqb (code c) 10)) (one_line s) h in
    let differs : eqb (code c) 10 ≡ false = ground arith in
    rw differs (rw (split-append_line s t later) refl)

pub split-one_line : (s : String) → one_line s ≡ true → split 10 s ≡ s ∷ []
unfolding split
split-one_line String.[] h = refl
split-one_line (String.◌∷◌ c s) h =
    let (other, later) = &&-eq-true (not (eqb (code c) 10)) (one_line s) h in
    let differs : eqb (code c) 10 ≡ false = ground arith in
    rw differs (rw (split-one_line s later) refl)

module _ (r : Runtime) where
  -- JSON.stringify writes the entry on one line, which is not blank, and JSON.parse reads it back.
  pub record Reads (e : AuditEntry) : Type 0 where
    pub one : one_line (r.json_stringify e) ≡ true
    pub not_blank : is_blank r (r.json_stringify e) ≡ false
    pub parses : r.json_parse (r.json_stringify e) ≡ some e

  abbrev pub AllRead : List AuditEntry → Type 0
  AllRead [] = Unit {0}
  AllRead (e ∷ es) = Reads e × AllRead es

  -- The file that holds the entries, a line each.
  abbrev pub render : List AuditEntry → String
  render [] = ""
  render (e ∷ es) = append (r.json_stringify e) (append "\n" (render es))

  pub render-append : (es fs : List AuditEntry) → render (es ++ fs) ≡ append (render es) (render fs)
  render-append [] fs = refl
  render-append (e ∷ es) fs =
      rw (render-append es fs)
        (sym (append_assoc (r.json_stringify e) (append "\n" (render es)) (render fs)))

  abbrev pub read_lines : List String → List AuditEntry
  read_lines lines = parse_lines r (filter (λ line. not (is_blank r line)) lines)

  read_lines_one :
      (e : AuditEntry) (lines : List String)
      → Reads e
      → read_lines (r.json_stringify e ∷ lines) ≡ e ∷ read_lines lines
  read_lines_one e lines k = rw k.not_blank (rw k.parses refl)

  -- A file that starts with entries reads as these and then the rest of the file.
  pub read_all-render :
      (es : List AuditEntry) (t : String)
      → AllRead es
      → read_all r (append (render es) t) ≡ es ++ read_all r t
  unfolding read_all
  read_all-render [] t h = refl
  read_all-render (e ∷ es) t (k, h) =
      rw (append_assoc (r.json_stringify e) (append "\n" (render es)) t) (
        rw (split-append_line (r.json_stringify e) (append (render es) t) k.one)
          (read_lines_one e _ k ∙ ap (λ l. e ∷ l) (read_all-render es t h)))

  -- The hash that the next entry has to name.
  abbrev pub end_hash : String → List AuditEntry → String
  end_hash prev [] = prev
  end_hash prev (e ∷ es) = end_hash e.hash es

  -- Each entry names the hash of the one before it, carries the digest of its own fields, and has a
  -- valid signature if it has one.
  abbrev pub Linked : Option String → String → List AuditEntry → Type 0
  Linked key prev [] = Unit {0}
  Linked key prev (e ∷ es) =
      (e.base.prev_hash ≡ prev)
      × (r.sha256 (hashable_fields e.base) ≡ e.hash)
      × (signature_valid r key e ≡ true)
      × Linked key e.hash es

  pub verify_from-Linked :
      (key : Option String) (n : ℕ) (prev : String) (es fs : List AuditEntry)
      → Linked key prev es
      → verify_from r key n prev (es ++ fs) ≡ verify_from r key n (end_hash prev es) fs
  unfolding verify_from
  verify_from-Linked key n prev [] fs l = refl
  verify_from-Linked key n prev (e ∷ es) fs (p, d, s, l) = rw ((eq_iff e.base.prev_hash prev).1 p) (
      rw ((eq_iff (r.sha256 (hashable_fields e.base)) e.hash).1 d)
        (rw s (verify_from-Linked key n e.hash es fs l)))

  -- An entry that does not name the hash before it fails the check.
  pub verify_from-broken :
      (key : Option String) (n : ℕ) (prev : String) (e : AuditEntry) (es : List AuditEntry)
      → e.base.prev_hash ≢ prev
      → verify_from r key n prev (e ∷ es) ≡ failed n e "prevHash mismatch"
  unfolding verify_from
  verify_from-broken key n prev e es d = elim (Bool-cases (e.base.prev_hash == prev)) [
    | inl same ↦ absurd (d ((eq_iff e.base.prev_hash prev).0 same))
    | inr other ↦ rw other refl
  ]

  pub Linked-of_verify :
      (key : Option String) (n : ℕ) (prev : String) (es : List AuditEntry)
      → (verify_from r key n prev es).valid ≡ true
      → Linked key prev es
  unfolding verify_from
  Linked-of_verify key n prev [] h = tt
  Linked-of_verify key n prev (e ∷ es) h = elim (Bool-cases (e.base.prev_hash == prev)) [
    | inl p ↦ elim (Bool-cases (r.sha256 (hashable_fields e.base) == e.hash)) [
      | inl d ↦ elim (Bool-cases (signature_valid r key e)) [
        | inl s ↦ (
          (eq_iff e.base.prev_hash prev).0 p,
          (eq_iff (r.sha256 (hashable_fields e.base)) e.hash).0 d,
          s,
          Linked-of_verify key n e.hash es (rw s at (rw d at (rw p at h))),
        )
        | inr s ↦ let bad : false ≡ true = rw s at (rw d at (rw p at h)) in cc
      ]
      | inr d ↦ let bad : false ≡ true = rw d at (rw p at h) in cc
    ]
    | inr p ↦ let bad : false ≡ true = rw p at h in cc
  ]

  pub end_hash-append :
      (prev : String) (es fs : List AuditEntry)
      → end_hash prev (es ++ fs) ≡ end_hash (end_hash prev es) fs
  end_hash-append prev [] fs = refl
  end_hash-append prev (e ∷ es) fs = end_hash-append e.hash es fs

  pub Linked-append :
      (key : Option String) (prev : String) (es fs : List AuditEntry)
      → Linked key prev es
      → Linked key (end_hash prev es) fs
      → Linked key prev (es ++ fs)
  Linked-append key prev [] fs l k = k
  Linked-append key prev (e ∷ es) fs (p, d, s, l) k = (p, d, s, Linked-append key e.hash es fs l k)

  pub Linked-prefix :
      (key : Option String) (prev : String) (es fs : List AuditEntry)
      → Linked key prev (es ++ fs)
      → Linked key prev es × Linked key (end_hash prev es) fs
  Linked-prefix key prev [] fs k = (tt, k)
  Linked-prefix key prev (e ∷ es) fs (p, d, s, l) =
      let (a, b) = Linked-prefix key e.hash es fs l in ((p, d, s, a), b)

  pub verify_from-accepted :
      (key : Option String) (n : ℕ) (prev : String) (es : List AuditEntry)
      → Linked key prev es
      → verify_from r key n prev es ≡ accepted n
  unfolding verify_from
  verify_from-accepted key n prev [] l = refl
  verify_from-accepted key n prev (e ∷ es) (p, d, s, l) = rw ((eq_iff e.base.prev_hash prev).1 p) (
      rw ((eq_iff (r.sha256 (hashable_fields e.base)) e.hash).1 d)
        (rw s (verify_from-accepted key n e.hash es l)))

  -- A file of entries reads as these.
  pub read_all-render_self :
      (es : List AuditEntry) → r.trim "" ≡ "" → AllRead es → read_all r (render es) ≡ es
  unfolding split read_all
  read_all-render_self es blank h =
      rw (← append_nil (render es))
        (read_all-render es "" h ∙ (rw ((eq_iff (r.trim "") "").1 blank) (append-nil es)))

  pub AllRead-drop :
      (es : List AuditEntry) (e : AuditEntry) (fs : List AuditEntry)
      → AllRead (es ++ e ∷ fs)
      → AllRead (es ++ fs)
  AllRead-drop [] e fs (k, h) = h
  AllRead-drop (d ∷ es) e fs (k, h) = (k, AllRead-drop es e fs h)
