-- ===== src/Audit/Torn.antt =====
-- What `verify` reports of an audit log that lost an entry: one removed from the file, or one written
-- after a torn line (packages/orchestrator/src/audit-log.ts).
use wanfw.Common.{
  inl, inr, Bool-cases, ◌≡◌, ◌≢◌, refl, sym, ap, ◌∙◌, ℕ, String, true, List, [], ◌∷◌, ◌++◌, Option,
  none, some, length, append, append_assoc, split, last, &&-eq-true,
}
use mathlib.Core.List.{append-nil}
use wanfw.Audit.{
  accepted, AuditEntry, AuditEntryInput, AuditLog, Runtime, genesis_hash, new_base, seal,
  append_entry, is_blank, read_all, open_log, resume, failed, verify,
}
use wanfw.Audit.Chain.{
  AllRead-drop, read_all-render_self, verify_from-accepted, Reads, AllRead, render, read_all-render,
  end_hash, Linked, verify_from-Linked, verify_from-broken, one_line, read_lines, split-append_line,
  split-one_line, Linked-of_verify, Linked-prefix,
}

module _ (r : Runtime) where
  -- An entry taken out of the inside of a log file that verifies is noticed: `verify` then fails at the
  -- entry that followed it, for its link, given that the entry's hash is not also its predecessor's,
  -- that each line is one that JSON.parse reads back, and that trimming the empty text leaves it empty.
  pub verify-removed :
      (key : Option String) (es : List AuditEntry) (e f : AuditEntry) (fs : List AuditEntry)
      → r.trim "" ≡ ""
      → AllRead r (es ++ e ∷ f ∷ fs)
      → (verify r key (render r (es ++ e ∷ f ∷ fs))).valid ≡ true
      → e.hash ≢ e.base.prev_hash
      → verify r key (render r (es ++ f ∷ fs))
        ≡ failed (length (es ++ f ∷ fs)) f "prevHash mismatch"
  unfolding verify
  verify-removed key es e f fs blank reads v d =
      let n : ℕ = length (es ++ e ∷ f ∷ fs) in
      let m : ℕ = length (es ++ f ∷ fs) in
      let whole = read_all-render_self r (es ++ e ∷ f ∷ fs) blank reads in
      let chain = Linked-of_verify r key n genesis_hash (es ++ e ∷ f ∷ fs) (rw whole at v) in
      let (before, (link, _, _, (link_f, _, _, _))) =
        Linked-prefix r key genesis_hash es (e ∷ f ∷ fs) chain in
      rw (read_all-render_self r (es ++ f ∷ fs) blank (AllRead-drop r es e (f ∷ fs) reads)) (
        verify_from-Linked r key m genesis_hash es (f ∷ fs) before
        ∙ verify_from-broken r key m (end_hash r genesis_hash es) f fs
            (λ same. d (sym link_f ∙ same ∙ sym link)))

one_line-append :
    (s t : String) → one_line s ≡ true → one_line t ≡ true → one_line (append s t) ≡ true
one_line-append String.[] t h k = k
one_line-append (String.◌∷◌ c s) t h k =
    let (other, later) = &&-eq-true _ (one_line s) h in rw (other, one_line-append s t later k) refl

module _ (r : Runtime) where
  -- A line that JSON.parse refuses reads as no entry.
  read_lines-unread :
      (line : String) (lines : List String)
      → r.json_parse line ≡ none
      → read_lines r (line ∷ lines) ≡ read_lines r lines
  read_lines-unread line lines bad = elim (Bool-cases (is_blank r line)) [
    | inl blank ↦ rw blank refl
    | inr text ↦ rw text (rw bad refl)
  ]

  -- The last entry of a log that has one.
  abbrev newest : AuditEntry → List AuditEntry → AuditEntry
  newest e [] = e
  newest e (d ∷ es) = newest d es

  last-newest : (e : AuditEntry) (es : List AuditEntry) → last (e ∷ es) ≡ some (newest e es)
  last-newest e [] = refl
  last-newest e (d ∷ es) = last-newest d es

  end_hash-newest :
      (prev : String) (e : AuditEntry) (es : List AuditEntry)
      → (newest e es).hash ≡ end_hash r prev (e ∷ es)
  end_hash-newest prev e [] = refl
  end_hash-newest prev e (d ∷ es) = end_hash-newest e.hash d es

  last_hash-resume :
      (es : List AuditEntry) (file : String)
      → (resume r (last es) file).last_hash ≡ end_hash r genesis_hash es
  last_hash-resume [] file = refl
  last_hash-resume (e ∷ es) file = rw (last-newest e es) (end_hash-newest genesis_hash e es)

  file-resume : (o : Option AuditEntry) (file : String) → (resume r o file).file ≡ file
  file-resume none file = refl
  file-resume (some e) file = refl

  read_all-unread :
      (line : String) → one_line line ≡ true → r.json_parse line ≡ none → read_all r line ≡ []
  unfolding read_all
  read_all-unread line one bad = rw (split-one_line line one) (read_lines-unread line [] bad)

  -- What the file holds after a torn line and two more entries.
  read_all-torn :
      (es : List AuditEntry) (torn line : String) (e : AuditEntry)
      → r.trim "" ≡ ""
      → AllRead r es
      → one_line torn ≡ true
      → one_line line ≡ true
      → r.json_parse (append torn line) ≡ none
      → Reads r e
      → read_all r (
          append
            (append (append (render r es) torn) (append line "\n"))
            (append (r.json_stringify e) "\n"))
        ≡ es ++ e ∷ []
  unfolding read_all
  read_all-torn es torn line e blank reads one one' bad read =
      let after : String = append (r.json_stringify e) "\n" in
      let merged : append (append (append (render r es) torn) (append line "\n")) after
          ≡ append (render r es) (append (append torn line) (append "\n" after)) =
        simp append_assoc in
      rw merged (
        read_all-render r es (append (append torn line) (append "\n" after)) reads
        ∙ ap (λ l. es ++ l)
            (rw (split-append_line (append torn line) after (one_line-append torn line one one')) (
              read_lines-unread (append torn line) (split 10 after) bad
              ∙ read_all-render_self r (e ∷ []) blank (read, tt))))

  module _ (es : List AuditEntry) (torn : String) (ts ts' : String)
      (input input' : AuditEntryInput) where
    -- The log that a restart opens on a file whose last line was torn, and the log after one append.
    abbrev torn_log : AuditLog
    torn_log = open_log r (append (render r es) torn)

    abbrev lost : AuditEntry
    lost = seal r (new_base r ts input torn_log)

    abbrev next_log : AuditLog
    next_log = append_entry r ts input torn_log

    abbrev follower : AuditEntry
    follower = seal r (new_base r ts' input' next_log)

    read_all-torn_file :
        r.trim "" ≡ ""
        → AllRead r es
        → one_line torn ≡ true
        → r.json_parse torn ≡ none
        → read_all r (append (render r es) torn) ≡ es
    read_all-torn_file blank reads one bad =
        read_all-render r es torn reads ∙ rw (read_all-unread torn one bad) (append-nil es)

    hash-torn_log :
        r.trim "" ≡ ""
        → AllRead r es
        → one_line torn ≡ true
        → r.json_parse torn ≡ none
        → torn_log.last_hash ≡ end_hash r genesis_hash es
    unfolding open_log
    hash-torn_log blank reads one bad =
        rw (read_all-torn_file blank reads one bad) (last_hash-resume es _)

    file-after :
        (append_entry r ts' input' next_log).file
        ≡ append
            (append (append (render r es) torn) (append (r.json_stringify lost) "\n"))
            (append (r.json_stringify follower) "\n")
    unfolding append_entry open_log
    file-after =
        ap
          (λ (f : String).
            append (append f (append (r.json_stringify lost) "\n"))
              (append (r.json_stringify follower) "\n"))
          (file-resume _ (append (render r es) torn))

    link-follower : follower.base.prev_hash ≡ lost.hash
    unfolding append_entry
    link-follower = refl

    -- A log whose last line was torn by an interrupted write verifies, up to its last whole line; the
    -- next entry is written behind the torn line, on the same line, so that it is never read back, and
    -- `verify` fails at the entry after it, for its link, as if the log had been tampered with.
    pub torn_line-breaks :
        r.trim "" ≡ ""
        → AllRead r es
        → Linked r none genesis_hash es
        → one_line torn ≡ true
        → r.json_parse torn ≡ none
        → one_line (r.json_stringify lost) ≡ true
        → r.json_parse (append torn (r.json_stringify lost)) ≡ none
        → Reads r follower
        → lost.hash ≢ lost.base.prev_hash
        → let file = (append_entry r ts' input' next_log).file in
          (verify r none (append (render r es) torn) ≡ accepted (length es))
          × (read_all r file ≡ es ++ follower ∷ [])
          × (verify r none file
              ≡ failed (length (es ++ follower ∷ [])) follower "prevHash mismatch")
    unfolding verify
    torn_line-breaks blank reads linked one bad one' bad' read d =
        let n : ℕ = length (es ++ follower ∷ []) in
        let back =
          ap (read_all r) file-after
          ∙ read_all-torn es torn (r.json_stringify lost) follower blank reads one one' bad' read in
        (
          rw (read_all-torn_file blank reads one bad)
              (verify_from-accepted r none (length es) genesis_hash es linked),
          back,
          rw back (
              verify_from-Linked r none n genesis_hash es (follower ∷ []) linked
              ∙ verify_from-broken r none n (end_hash r genesis_hash es) follower []
                  (λ same. d (sym link-follower ∙ same ∙ sym (hash-torn_log blank reads one bad)))),
        )
