-- ===== src/Tests/History.antt =====
-- Tests of the audit log.
use wanfw.Common.{
  String, ◌≡◌, refl, true, false, ◌==◌, eq_iff, List, [], ◌∷◌, none, some, if◌then◌else◌, eqb,
  split, length,
}
use wanfw.Json.{field, str, end, canonical_json_stringify}
use wanfw.Audit.{
  accepted, new_log, AuditEntryInput, AuditEntry, Runtime, genesis_hash, hashable_fields, seal,
  new_base, append_entry, read_all, open_log, verify_from, verify, failed,
}
use wanfw.Audit.Chain.{Reads, render}
use wanfw.Audit.Appended.{written, append_all, append_all-reads_back}
use wanfw.Audit.Torn.{verify-removed, torn_line-breaks}
use wanfw.Tests.{same_text}

abbrev approve : AuditEntryInput
approve = record { kind = "plan.approve"; details = field "service" (str "cam") end }

abbrev started : AuditEntryInput
started = record { kind = "boot"; details = end }

abbrev two_events : List (String × AuditEntryInput)
two_events = ("t1", approve) ∷ ("t2", started) ∷ []

-- A runtime that writes an entry as its number, and reads nothing.
abbrev writer : Runtime
writer = record {
  json_stringify = λ e. if eqb e.base.seq 1 then "1" else "2";
  json_parse = λ s. none;
  trim = same_text;
  sha256 = same_text;
  sign = λ s. "sig";
  verify = λ s sig key. sig == "sig";
}

abbrev first : AuditEntry
first = seal writer (new_base writer "t1" approve new_log)

abbrev second : AuditEntry
second = seal writer (new_base writer "t2" started (append_entry writer "t1" approve new_log))

-- The same runtime, which reads the two entries.
abbrev reader : Runtime
reader = record writer {
  json_parse = λ s. if s == "1" then some first else if s == "2" then some second else none;
}

two_events_verify : verify reader none (append_all reader two_events new_log).file ≡ accepted 2
unfolding verify verify_from read_all append_entry split hashable_fields canonical_json_stringify
two_events_verify = refl

removed_fails : verify reader none "2\n" ≡ failed 1 second "prevHash mismatch"
unfolding verify verify_from read_all append_entry split hashable_fields canonical_json_stringify
removed_fails = refl

first-Reads : Reads reader first
first-Reads = record { one = refl; not_blank = refl; parses = refl }

second-Reads : Reads reader second
unfolding append_entry
second-Reads = record { one = refl; not_blank = refl; parses = refl }

append_all-reads_back_example :
    (read_all reader (append_all reader two_events new_log).file
      ≡ written reader two_events new_log)
    × (verify reader none (append_all reader two_events new_log).file
        ≡ accepted (length (written reader two_events new_log)))
    × (open_log reader (append_all reader two_events new_log).file
        ≡ append_all reader two_events new_log)
unfolding append_entry
append_all-reads_back_example =
    append_all-reads_back reader (λ h. refl) refl two_events (first-Reads, (second-Reads, tt))

verify-removed_example :
    verify reader none (render reader (second ∷ [])) ≡ failed 1 second "prevHash mismatch"
unfolding verify verify_from read_all append_entry split hashable_fields canonical_json_stringify
verify-removed_example =
    verify-removed reader none [] first second [] refl (first-Reads, (second-Reads, tt)) refl
      (λ same. let bad : false ≡ true = (eq_iff first.hash genesis_hash).1 same in cc)

torn_line-breaks_example :
    (verify reader none "{" ≡ accepted 0)
    × (read_all reader "{1\n2\n" ≡ second ∷ [])
    × (verify reader none "{1\n2\n" ≡ failed 1 second "prevHash mismatch")
unfolding verify verify_from read_all append_entry open_log split hashable_fields
    canonical_json_stringify
torn_line-breaks_example =
    torn_line-breaks reader [] "{" "t1" "t2" approve started refl tt tt refl refl refl refl
      second-Reads (λ same. let bad : false ≡ true = (eq_iff first.hash genesis_hash).1 same in cc)
