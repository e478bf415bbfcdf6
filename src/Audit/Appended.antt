-- ===== src/Audit/Appended.antt =====
-- What a run of appends leaves in the audit log (packages/orchestrator/src/audit-log.ts).
use mathlib.Core.List.{append-nil, append_assoc as list_assoc}
use wanfw.Common.{
  String, ◌≡◌, refl, sym, inl, inr, true, List, [], ◌∷◌, ◌++◌, none, some, Bool-cases, length, last,
}
use wanfw.Audit.{
  accepted, new_log, AuditEntry, AuditEntryInput, AuditLog, EntryBase, Runtime, genesis_hash,
  hashable_fields, new_base, seal, append_entry, read_all, resume, open_log, signature_valid,
  verify, is_checkpoint,
}
use wanfw.Audit.Chain.{
  verify_from-accepted, read_all-render_self, Reads, AllRead, render, render-append, end_hash,
  Linked, end_hash-append, Linked-append,
}

module _ (r : Runtime) where
  -- The entries that a run of appends writes, and the log after it. Each input comes with its time.
  abbrev pub written : List (String × AuditEntryInput) → AuditLog → List AuditEntry
  written [] log = []
  written ((ts, input) ∷ inputs) log =
      seal r (new_base r ts input log) ∷ written inputs (append_entry r ts input log)

  abbrev pub append_all : List (String × AuditEntryInput) → AuditLog → AuditLog
  append_all [] log = log
  append_all ((ts, input) ∷ inputs) log = append_all inputs (append_entry r ts input log)

  -- The log's file holds the entries, and the log is where its constructor would resume.
  pub record Holds (es : List AuditEntry) (log : AuditLog) : Type 0 where
    pub file : log.file ≡ render r es
    pub reads : AllRead r es
    pub linked : Linked r none genesis_hash es
    pub next : log.last_hash ≡ end_hash r genesis_hash es
    pub resumed : resume r (last es) log.file ≡ log

  AllRead-append : (es fs : List AuditEntry) → AllRead r es → AllRead r fs → AllRead r (es ++ fs)
  AllRead-append [] fs h k = k
  AllRead-append (e ∷ es) fs (a, h) k = (a, AllRead-append es fs h k)

  last_snoc : (es : List AuditEntry) (e : AuditEntry) → last (es ++ e ∷ []) ≡ some e
  last_snoc [] e = refl
  last_snoc (d ∷ []) e = refl
  last_snoc (d ∷ c ∷ es) e = last_snoc (c ∷ es) e

  signature_of_seal :
      ((h : String) → r.verify h (r.sign h) none ≡ true)
      → (b : EntryBase) → signature_valid r none (seal r b) ≡ true
  signature_of_seal signs b = elim (Bool-cases (is_checkpoint b.seq b.kind)) [
    | inl c ↦ rw c (signs (r.sha256 (hashable_fields b)))
    | inr c ↦ rw c refl
  ]

  module _ (signs : (h : String) → r.verify h (r.sign h) none ≡ true) where
    Holds-append_entry :
        (es : List AuditEntry) (log : AuditLog) (ts : String) (input : AuditEntryInput)
        → Reads r (seal r (new_base r ts input log))
        → Holds es log
        → Holds (es ++ seal r (new_base r ts input log) ∷ []) (append_entry r ts input log)
    unfolding append_entry
    Holds-append_entry es log ts input read h =
        let e = seal r (new_base r ts input log) in
        record {
          file = rw h.file (sym (render-append r es (e ∷ [])));
          reads = AllRead-append es (e ∷ []) h.reads (read, tt);
          linked =
              Linked-append r none genesis_hash es (e ∷ []) h.linked
                (h.next, refl, signature_of_seal signs e.base, tt);
          next = sym (end_hash-append r genesis_hash es (e ∷ []));
          resumed = rw (last_snoc es e) refl;
        }

    Holds-append_all :
        (inputs : List (String × AuditEntryInput)) (es : List AuditEntry) (log : AuditLog)
        → AllRead r (written inputs log)
        → Holds es log
        → Holds (es ++ written inputs log) (append_all inputs log)
    Holds-append_all [] es log k h = rw (append-nil es) h
    Holds-append_all ((ts, input) ∷ inputs) es log (read, k) h =
        rw
          (sym (
            list_assoc es (seal r (new_base r ts input log) ∷ [])
              (written inputs (append_entry r ts input log))))
          (Holds-append_all inputs (es ++ seal r (new_base r ts input log) ∷ [])
            (append_entry r ts input log) k (Holds-append_entry es log ts input read h))

  -- What a log that holds entries reads, verifies and resumes as.
  pub read_all-Holds :
      (es : List AuditEntry) (log : AuditLog)
      → r.trim "" ≡ ""
      → Holds es log
      → read_all r log.file ≡ es
  read_all-Holds es log blank h = rw h.file (read_all-render_self r es blank h.reads)

  open_log-Holds :
      (es : List AuditEntry) (log : AuditLog)
      → r.trim "" ≡ ""
      → Holds es log
      → open_log r log.file ≡ log
  unfolding open_log
  open_log-Holds es log blank h = rw (read_all-Holds es log blank h) h.resumed

  verify-Holds :
      (es : List AuditEntry) (log : AuditLog)
      → r.trim "" ≡ ""
      → Holds es log
      → verify r none log.file ≡ accepted (length es)
  unfolding verify
  verify-Holds es log blank h =
      rw (read_all-Holds es log blank h)
        (verify_from-accepted r none (length es) genesis_hash es h.linked)

  -- After any run of appends to a new log, `readAll` gives back exactly the entries written, in order,
  -- `verify` accepts them all, and a restart resumes in the very state that the run ended in, given
  -- that each entry's JSON text is one line, not blank, that JSON.parse reads back, and that the key
  -- verifies what it signs.
  pub append_all-reads_back :
      ((h : String) → r.verify h (r.sign h) none ≡ true)
      → r.trim "" ≡ ""
      → (inputs : List (String × AuditEntryInput)) → AllRead r (written inputs new_log)
      → let log = append_all inputs new_log in
        (read_all r log.file ≡ written inputs new_log)
        × (verify r none log.file ≡ accepted (length (written inputs new_log)))
        × (open_log r log.file ≡ log)
  append_all-reads_back signs blank inputs k =
      let start : Holds [] new_log = record {
        file = refl;
        reads = tt;
        linked = tt;
        next = refl;
        resumed = refl;
      } in
      let h = Holds-append_all signs inputs [] new_log k start in
      (read_all-Holds _ _ blank h, verify-Holds _ _ blank h, open_log-Holds _ _ blank h)
