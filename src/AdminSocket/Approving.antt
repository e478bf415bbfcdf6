-- ===== src/AdminSocket/Approving.antt =====
-- What approving and revoking a plan on the admin socket changes in the next reconcile
-- (packages/orchestrator/src/admin-socket.ts, reconciler/gate-stage.ts, reconciler/execute-stage.ts).
use wanfw.Common.{
  String, ◌≡◌, refl, sym, ◌∙◌, inl, inr, Bool, true, false, not, ◌==◌, List, [], ◌∷◌, Option, none,
  some, Bool-cases, Option-cases, if◌then◌else◌,
}
use wanfw.Json.{Json}
use wanfw.Spec.{ContainerSpec}
use wanfw.Projection.{compute_powerful_projection_hash, projection_input_for}
use wanfw.Pipeline.{ServiceDoc, Classification, GatedService, lookup}
use wanfw.Grants.{load_grants_for_plugin}
use wanfw.Store.{
  StateStore, ApprovalRow, insert_approval, revoke_approval, is_approved, list_grants,
}
use wanfw.Store.Approvals.{is_approved-insert_approval, is_approved-revoke_approval}
use wanfw.ValidateStage.{classified, validate_services, bound_deploy_plugin_id}
use wanfw.ValidateStage.Accepts.{validate_services-Accepted}
use wanfw.Execute.{skips}
use wanfw.Gate.{gate_services, gated_service}
use wanfw.Gate.Sound.{
  NeedsApproval, skips-unapproved, lookup-gate_services, requires_of_needs, own_hash,
}
use wanfw.AdminSocket.{
  AdminEnv, AdminState, plans_approve, plans_revoke, ok, route, approve, plan_asked_for, audited,
  revoke,
}

load-same_grants :
    (json_parse : String → Json) (s t : StateStore)
    → t.grants ≡ s.grants
    → (plugin : String)
    → load_grants_for_plugin json_parse t plugin ≡ load_grants_for_plugin json_parse s plugin
unfolding load_grants_for_plugin list_grants
load-same_grants json_parse s t g plugin = rw g refl

-- VALIDATE reads nothing of the store but the grants.
validate_services-same_grants :
    (sha256 : String → String) (json_parse : String → Json) (s t : StateStore)
    (services : List ServiceDoc)
    → t.grants ≡ s.grants
    → (plans : List (String × ContainerSpec))
    → validate_services sha256 json_parse t services plans
      ≡ validate_services sha256 json_parse s services plans
unfolding validate_services
validate_services-same_grants sha256 json_parse s t services g [] = refl
validate_services-same_grants sha256 json_parse s t services g ((id, spec) ∷ plans) =
    elim (Option-cases (bound_deploy_plugin_id services id)) [
      | inl e ↦ rw e refl
      | inr (p, e) ↦
          rw
            (
              e,
              load-same_grants json_parse s t g p,
              validate_services-same_grants sha256 json_parse s t services g plans,
            )
            refl
    ]

-- Skipped is not approved, before and after a change to what the Boolean `c` says.
skips_flip :
    (c to skipped_after skipped_before approved_after approved_before : Bool)
    → skipped_after ≡ not approved_after
    → approved_after ≡ (if c then to else approved_before)
    → skipped_before ≡ not approved_before
    → skipped_after ≡ (if c then not to else skipped_before)
skips_flip c to x y a b p q r = elim (Bool-cases c) [
  | inl e ↦ rw (p, q, e) refl
  | inr e ↦ rw (p, q, e, r) refl
]

module _ (env : AdminEnv) (services : List ServiceDoc) (strict : Option String)
    (plans : List (String × ContainerSpec)) (cs : List (String × Classification)) where
  -- The snapshot of GATE on a store.
  abbrev pub gated : StateStore → List (String × GatedService)
  gated store = gate_services env.sha256 store strict plans cs

  abbrev pub hash_of : String → ContainerSpec → String
  hash_of id spec = compute_powerful_projection_hash env.sha256 (projection_input_for id spec)

  -- VALIDATE lets the plans through.
  abbrev pub Validates : StateStore → Type 0
  Validates store =
      validate_services env.sha256 env.host.json_parse store services plans ≡ classified cs

  -- A service of the plans that needs an approval.
  abbrev pub Gates : String → ContainerSpec → Type 0
  Gates id spec = (lookup id plans ≡ some spec) × NeedsApproval strict id spec

  module _ (s : AdminState) (v : Validates s.store) where
    -- What the route for approvals does to the store.
    approve-store :
        (id : String) (spec : ContainerSpec)
        → Gates id spec
        → (id == "") ≡ false
        → (row : ApprovalRow) × ((row.projection_hash ≡ hash_of id spec)
            × (((route env (gated s.store) s (plans_approve (some id) none)).0 ≡ ok)
                × ((route env (gated s.store) s (plans_approve (some id) none)).1.store
                    ≡ insert_approval s.store row)))
    unfolding route approve plan_asked_for audited gated_service
    approve-store id spec (l, n) ne =
        let a =
          validate_services-Accepted env.sha256 env.host.json_parse s.store services plans cs v id
            spec l in
        let grants = load_grants_for_plugin env.host.json_parse s.store a.plugin in
        rw
          (
            ne,
            lookup-gate_services env.sha256 s.store strict plans cs id spec _ l a.recorded (
                requires_of_needs env.sha256 env.host.json_parse s.store services strict id spec
                  grants n),
          )
          (
            _,
            (
              own_hash env.sha256 env.host.json_parse s.store services strict id spec grants,
              (refl, refl),
            ),
          )

    -- A service that needs an approval is skipped exactly if the table has none for its hash.
    skips_after :
        (t : StateStore)
        → t.grants ≡ s.store.grants
        → (id : String) (spec : ContainerSpec) → Gates id spec
        → (Validates t × (skips (gated t) id ≡ not (is_approved t (hash_of id spec))))
    skips_after t g id spec (l, n) =
        let w =
          validate_services-same_grants env.sha256 env.host.json_parse s.store t services g plans
          ∙ v in
        (
          w,
          skips-unapproved env.sha256 env.host.json_parse t services strict plans cs id spec w l n,
        )

    -- For plans that VALIDATE lets through, a request on GATE's snapshot of them to approve a service that
    -- needs an approval, by its non-empty id, is answered with 200; VALIDATE lets the same plans through
    -- afterwards, and of the services that need an approval EXECUTE then skips just those it skipped
    -- before, less the ones whose powerful projection has the hash that was approved.
    pub plans_approve-skips :
        (id : String) (spec : ContainerSpec)
        → Gates id spec
        → (id == "") ≡ false
        → (other : String) (other_spec : ContainerSpec) → Gates other other_spec
        → let (r, t) = route env (gated s.store) s (plans_approve (some id) none) in
          (r ≡ ok)
          × (Validates t.store
              × (skips (gated t.store) other ≡ (
                  if hash_of id spec == hash_of other other_spec
                  then false
                  else skips (gated s.store) other)))
    unfolding insert_approval
    plans_approve-skips id spec g ne other other_spec go =
        let (row, (h, (answer, e))) = approve-store id spec g ne in
        let after = skips_after (insert_approval s.store row) refl other other_spec go in
        let before = skips_after s.store refl other other_spec go in
        let flips = is_approved-insert_approval s.store row (hash_of other other_spec) in
        rw e (answer, (after.0, skips_flip _ true _ _ _ _ after.1 (rw (sym h) flips) before.1))

    -- For plans that VALIDATE lets through, a request to revoke a non-empty hash is answered with 200;
    -- VALIDATE lets the same plans through afterwards, and of the services that need an approval EXECUTE
    -- then skips those it skipped before and every one whose powerful projection has that hash.
    pub plans_revoke-skips :
        (hash : String)
        → (hash == "") ≡ false
        → (other : String) (other_spec : ContainerSpec) → Gates other other_spec
        → let (r, t) = route env (gated s.store) s (plans_revoke (some hash)) in
          (r ≡ ok)
          × (Validates t.store
              × (skips (gated t.store) other ≡ (
                  if hash == hash_of other other_spec then true else skips (gated s.store) other)))
    unfolding route revoke audited revoke_approval
    plans_revoke-skips hash ne other other_spec go =
        let t = revoke_approval env.host.now s.store hash in
        let after = skips_after t refl other other_spec go in
        let before = skips_after s.store refl other other_spec go in
        let flips =
          is_approved-revoke_approval env.host.now s.store hash (hash_of other other_spec) in
        rw ne (refl, (after.0, skips_flip _ false _ _ _ _ after.1 flips before.1))
