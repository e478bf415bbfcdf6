-- ===== src/Tests/Migrations.antt =====
-- Tests of the migration of documents.
use wanfw.Common.{ℕ, ◌+◌, ◌≤◌, ◌<◌, ◌≡◌, refl, Option, none, some, eqb, if◌then◌else◌}
use wanfw.Documents.{
  MigrationResult, migrated, too_new, migrate_document_spec, core_migrations,
  current_schema_version,
}
use wanfw.Documents.Chain.{Followed, migrate_document_spec-Followed}

-- A migration from version 1 that adds ten, and none from version 2
abbrev one_hop : ℕ → Option (ℕ → ℕ)
one_hop version = if eqb version 1 then some (λ n. n + 10) else none

migrated_once :
    migrate_document_spec one_hop 3 1 5
    ≡ migrated (record { spec = 15; final_version = 2; needs_persist = some 2 })
unfolding migrate_document_spec
migrated_once = refl

refused_newer :
    migrate_document_spec {Spec = ℕ} core_migrations current_schema_version 2 5 ≡ too_new 2
unfolding migrate_document_spec
refused_newer = refl

migrate_document_spec-Followed_example :
    (3 < 1 → migrate_document_spec one_hop 3 1 5 ≡ too_new 1)
    × (1 ≤ 3
        → (r : MigrationResult ℕ) × (migrate_document_spec one_hop 3 1 5 ≡ migrated r)
          × Followed one_hop 3 1 1 5 r)
migrate_document_spec-Followed_example = migrate_document_spec-Followed one_hop 3 1 5
