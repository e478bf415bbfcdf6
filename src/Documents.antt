-- ===== src/Documents.antt =====
-- Migration of documents of the desired state (packages/orchestrator/src/desired-state/migrations.ts).
-- The current version and the table of migrations, which the source keeps as constants that later
-- versions extend, are arguments; a specification is of any type.
pub mod Chain
use wanfw.Common.{
  ℕ, zero, suc, ◌+◌, ◌-◌, String, Bool, true, false, ltb, eqb, if◌then◌else◌, Option, none, some,
}

pub record MigrationResult (Spec : Type 0) : Type 0 where
  pub spec : Spec
  pub final_version : ℕ
  pub needs_persist : Option ℕ

-- What the migration does: it returns a result, or throws that the document is too new.
pub data Migration (Spec : Type 0) : Type 0 where
  migrated : MigrationResult Spec → Migration Spec
  too_new : ℕ → Migration Spec

-- `CURRENT_SCHEMA_VERSION`
abbrev pub current_schema_version : ℕ
current_schema_version = 1

module _ {Spec : Type 0} where
  -- `CORE_MIGRATIONS`, which has no entry
  abbrev pub core_migrations : ℕ → Option (Spec → Spec)
  core_migrations version = none

  abbrev pub finish : ℕ → ℕ → Spec → MigrationResult Spec
  finish from version spec = record {
    spec = spec;
    final_version = version;
    needs_persist = if eqb version from then none else some version;
  }

  abbrev pub hop_or_stop :
      ℕ → ℕ → Spec → Option (Spec → Spec) → (Spec → MigrationResult Spec) → MigrationResult Spec
  hop_or_stop from version spec none next = finish from version spec
  hop_or_stop from version spec (some migrate) next = next (migrate spec)

  -- The loop, which has as many rounds left as versions are missing
  unfoldable pub migrate_loop : (ℕ → Option (Spec → Spec)) → ℕ → ℕ → ℕ → Spec → MigrationResult Spec
  migrate_loop migrations from zero version spec = finish from version spec
  migrate_loop migrations from (suc rounds) version spec =
      hop_or_stop from version spec (migrations version)
        (migrate_loop migrations from rounds (suc version))

  unfoldable pub migrate_document_spec : (ℕ → Option (Spec → Spec)) → ℕ → ℕ → Spec → Migration Spec
  unfolding migrate_loop
  migrate_document_spec migrations current schema_version spec =
      if ltb current schema_version
      then too_new schema_version
      else migrated
          (migrate_loop migrations schema_version (current - schema_version) schema_version spec)
