-- ===== src/Tests/Approvals.antt =====
-- Tests of approving a plan: a request on the admin socket, then the next reconcile.
use wanfw.Common.{String, ◌≡◌, refl, true, false, ◌==◌, some, none, if◌then◌else◌}
use wanfw.Validate.Tier.{privileged}
use wanfw.Gate.Sound.{powers}
use wanfw.Execute.{skips}
use wanfw.AdminSocket.{AdminState, plans_approve, plans_revoke, ok, route}
use wanfw.AdminSocket.Approving.{
  Validates, Gates, gated, hash_of, plans_approve-skips, plans_revoke-skips,
}
use wanfw.Tests.{trusting_store, services, camera}
use wanfw.Tests.Authority.{plans, classes, plans_classified}
use wanfw.Tests.Admin.{env, admin}

abbrev waiting : AdminState
waiting = record admin { store = trusting_store }

camera-Gates : Gates env services none plans classes "cam" camera
camera-Gates = (refl, powers (privileged refl))

abbrev camera_hash : String
camera_hash = hash_of env services none plans classes "cam" camera

plans_approve-skips_example :
    let (r, t) =
      route env
        (gated env services none plans classes trusting_store)
        waiting
        (plans_approve (some "cam") none) in
    (r ≡ ok)
    × (Validates env services none plans classes t.store
        × (skips (gated env services none plans classes t.store) "cam" ≡ (
            if camera_hash == camera_hash
            then false
            else skips (gated env services none plans classes trusting_store) "cam")))
plans_approve-skips_example =
    plans_approve-skips env services none plans classes waiting plans_classified "cam" camera
      camera-Gates refl "cam" camera camera-Gates

plans_revoke-skips_example :
    let (r, t) =
      route env
        (gated env services none plans classes trusting_store)
        waiting
        (plans_revoke (some "h1")) in
    (r ≡ ok)
    × (Validates env services none plans classes t.store
        × (skips (gated env services none plans classes t.store) "cam" ≡ (
            if "h1" == camera_hash
            then true
            else skips (gated env services none plans classes trusting_store) "cam")))
plans_revoke-skips_example =
    plans_revoke-skips env services none plans classes waiting plans_classified "h1" refl "cam"
      camera camera-Gates
