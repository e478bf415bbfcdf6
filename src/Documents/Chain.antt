-- ===== src/Documents/Chain.antt =====
-- The migrated document is the end of the chain of registered migrations.
use wanfw.Common.{
  ℕ, zero, suc, ◌+◌, ◌-◌, ◌≤◌, ◌<◌, ◌≡◌, refl, ◌⊎◌, inl, inr, true, false, ltb, eqb, if◌then◌else◌,
  Option, none, some, arith, Option-cases,
}
use wanfw.Documents.{MigrationResult, migrated, too_new, migrate_loop, migrate_document_spec}

module _ {Spec : Type 0} (migrations : ℕ → Option (Spec → Spec)) where
  -- The registered migrations lead from one version of a specification to another.
  pub data Leads : ℕ → Spec → ℕ → Spec → Type 0 where
    here : (v : ℕ) (s : Spec) → Leads v s v s
    hop :
        (v w : ℕ) (s t : Spec) (migrate : Spec → Spec)
        → migrations v ≡ some migrate
        → Leads (suc v) (migrate s) w t
        → Leads v s w t

  -- The chain was followed as far as it goes, and a change of version is flagged.
  pub record Followed (current from version : ℕ) (spec : Spec) (r : MigrationResult Spec)
      : Type 0 where
    pub leads : Leads version spec r.final_version r.spec
    pub least : version ≤ r.final_version
    pub most : r.final_version ≤ current
    pub stop : (r.final_version ≡ current) ⊎ (migrations r.final_version ≡ none)
    pub flagged :
        r.needs_persist ≡ (if eqb r.final_version from then none else some r.final_version)

  Followed-migrate_loop :
      (current from rounds version : ℕ) (spec : Spec)
      → version + rounds ≡ current
      → Followed current from version spec (migrate_loop migrations from rounds version spec)
  unfolding migrate_loop
  Followed-migrate_loop current from zero version spec e = record {
    leads = here version spec;
    least = omega arith;
    most = omega arith;
    stop = inl (omega arith);
    flagged = refl;
  }
  Followed-migrate_loop current from (suc rounds) version spec e =
      elim (Option-cases (migrations version)) [
        | inl none_of ↦ rw none_of (record {
          leads = here version spec;
          least = omega arith;
          most = omega arith;
          stop = inr none_of;
          flagged = refl;
        })
        | inr (migrate, one) ↦
            let rest =
              Followed-migrate_loop current from rounds (suc version) (migrate spec)
                (omega arith) in
            rw one (record {
              leads = hop version _ spec _ migrate one rest.leads;
              least = let more = rest.least in omega arith;
              most = rest.most;
              stop = rest.stop;
              flagged = rest.flagged;
            })
      ]

  -- A document that is not newer than the framework comes out at the end of the chain of registered
  -- migrations, at the current version or at one with no migration, and is flagged for persisting
  -- exactly if its version changed; a newer one is refused.
  pub migrate_document_spec-Followed :
      (current version : ℕ) (spec : Spec)
      → (current < version
          → migrate_document_spec migrations current version spec ≡ too_new version)
        × (version ≤ current
            → (r : MigrationResult Spec) × (migrate_document_spec migrations current version spec
                ≡ migrated r)
              × Followed current version version spec r)
  unfolding migrate_document_spec
  migrate_document_spec-Followed current version spec = (
    (λ newer. let e : ltb current version ≡ true = ground arith in rw e refl),
    (λ old.
        let e : ltb current version ≡ false = ground arith in
        (
          migrate_loop migrations version (current - version) version spec,
          rw e refl,
          Followed-migrate_loop current version (current - version) version spec (omega arith),
        )),
  )
