-- ===== src/Audit.antt =====
-- The audit log (packages/orchestrator/src/audit-log.ts). The log file is its text; what the class
-- keeps is its counter, its last hash and the file. The runtime's calls are the fields of `Runtime`.
-- What `readAll` prints on stderr about a line that it skips is left out.
pub mod Chain
pub mod Appended
pub mod Torn
use wanfw.Common.{
  ℕ, zero, suc, ◌%◌, String, Bool, true, false, not, ◌||◌, ◌==◌, eqb, if◌then◌else◌, List, [], ◌∷◌,
  Option, none, some, any, filter, last, length, append, split,
}
use wanfw.Json.{Json, Fields, num, str, obj, end, field, canonical_json_stringify}

pub record AuditEntryInput : Type 0 where
  pub kind : String
  pub details : Fields

-- The fields of an entry that are hashed.
pub record EntryBase : Type 0 where
  pub seq : ℕ
  pub ts : String
  pub kind : String
  pub details : Fields
  pub prev_hash : String

pub record AuditEntry : Type 0 where
  pub base : EntryBase
  pub hash : String
  pub checkpoint_sig : Option String

-- JSON.stringify and JSON.parse of one entry, String.trim, the digest, and the key manager's `sign`
-- and `verify`, whose last argument is an optional public key.
pub record Runtime : Type 0 where
  pub json_stringify : AuditEntry → String
  pub json_parse : String → Option AuditEntry
  pub trim : String → String
  pub sha256 : String → String
  pub sign : String → String
  pub verify : String → String → Option String → Bool

pub record AuditVerifyResult : Type 0 where
  pub valid : Bool
  pub entry_count : ℕ
  pub failed_at_seq : Option ℕ
  pub reason : Option String

pub record AuditLog : Type 0 where
  pub seq : ℕ
  pub last_hash : String
  pub file : String

abbrev pub genesis_hash : String
genesis_hash = "0000000000000000000000000000000000000000000000000000000000000000"

abbrev pub checkpoint_interval : ℕ
checkpoint_interval = 100

abbrev pub security_relevant_types : List String
security_relevant_types =
    "plugin.trust" ∷ "plugin.untrust" ∷ "grant.create" ∷ "grant.revoke" ∷ "plan.approve"
    ∷ "plan.revoke" ∷ "key.rotate" ∷ "key.import" ∷ "powerful.execute" ∷ "secret.set"
    ∷ "secret.unset" ∷ "plugin.invoke.refused" ∷ "framework.uninstall" ∷ []

base_json : EntryBase → Json
base_json b = obj (
    field "seq" (num b.seq) (
      field "ts" (str b.ts) (
        field "type" (str b.kind)
          (field "details" (obj b.details) (field "prevHash" (str b.prev_hash) end)))))

unfoldable pub hashable_fields : EntryBase → String
unfolding base_json
hashable_fields b = canonical_json_stringify (base_json b)

abbrev pub is_checkpoint : ℕ → String → Bool
is_checkpoint seq kind =
    eqb (seq % checkpoint_interval) 0 || any (λ t. t == kind) security_relevant_types

-- The log on a new file.
abbrev pub new_log : AuditLog
new_log = record { seq = 0; last_hash = genesis_hash; file = "" }

abbrev pub accepted : ℕ → AuditVerifyResult
accepted n = record { valid = true; entry_count = n; failed_at_seq = none; reason = none }

abbrev pub failed : ℕ → AuditEntry → String → AuditVerifyResult
failed count entry reason = record {
  valid = false;
  entry_count = count;
  failed_at_seq = some entry.base.seq;
  reason = some reason;
}

module _ (r : Runtime) where
  -- `(hash)`, with the time `ts` at which the entry is written
  abbrev pub new_base : String → AuditEntryInput → AuditLog → EntryBase
  new_base ts input log = record {
    seq = suc log.seq;
    ts = ts;
    kind = input.kind;
    details = input.details;
    prev_hash = log.last_hash;
  }

  abbrev pub seal : EntryBase → AuditEntry
  seal base =
      let hash = r.sha256 (hashable_fields base) in
      record {
        base = base;
        hash = hash;
        checkpoint_sig = if is_checkpoint base.seq base.kind then some (r.sign hash) else none;
      }

  unfoldable pub append_entry : String → AuditEntryInput → AuditLog → AuditLog
  append_entry ts input log =
      let entry = seal (new_base ts input log) in
      record {
        seq = entry.base.seq;
        last_hash = entry.hash;
        file = append log.file (append (r.json_stringify entry) "\n");
      }

  -- The entries of the lines that parse.
  abbrev pub parse_lines : List String → List AuditEntry
  parse_lines [] = []
  parse_lines (line ∷ lines) = elim (r.json_parse line) [
    | none ↦ parse_lines lines
    | some entry ↦ entry ∷ parse_lines lines
  ]

  abbrev pub is_blank : String → Bool
  is_blank line = r.trim line == ""

  unfoldable pub read_all : String → List AuditEntry
  read_all file = parse_lines (filter (λ line. not (is_blank line)) (split 10 file))

  abbrev pub resume : Option AuditEntry → String → AuditLog
  resume none file = record { seq = 0; last_hash = genesis_hash; file = file }
  resume (some e) file = record { seq = e.base.seq; last_hash = e.hash; file = file }

  -- The constructor on a log file; one that is not there is created empty.
  unfoldable pub open_log : String → AuditLog
  open_log file = resume (last (read_all file)) file

  abbrev pub signature_valid : Option String → AuditEntry → Bool
  signature_valid public_key entry = elim entry.checkpoint_sig [
    | none ↦ true
    | some sig ↦ r.verify entry.hash sig public_key
  ]

  unfoldable pub verify_from : Option String → ℕ → String → List AuditEntry → AuditVerifyResult
  verify_from public_key count prev_hash [] = accepted count
  verify_from public_key count prev_hash (entry ∷ entries) =
      let rest = verify_from public_key count entry.hash entries in
      if not (entry.base.prev_hash == prev_hash)
      then failed count entry "prevHash mismatch"
      else if not (r.sha256 (hashable_fields entry.base) == entry.hash)
      then failed count entry "hash mismatch"
      else if not (signature_valid public_key entry)
      then failed count entry "checkpoint signature invalid"
      else rest

  unfoldable pub verify : Option String → String → AuditVerifyResult
  verify public_key file =
      let entries = read_all file in verify_from public_key (length entries) genesis_hash entries
