-- ===== src/Tests/Storing.antt =====
-- Tests of the state store against its abstract view.
use wanfw.Common.{List, ◌∷◌, []}
use wanfw.Store.{empty_store}
use wanfw.Store.View.{
  StoreOp, trust, untrust, approve, unapprove, put, delete, run, view, replay, Agrees,
}
use wanfw.Store.View.Refines.{run_refines}
use wanfw.Tests.{trusted_plugin, approval}

abbrev calls : List StoreOp
calls =
    trust trusted_plugin
    ∷ approve approval
    ∷ put "deploy-docker" "a" "1"
    ∷ put "deploy-docker" "a" "2"
    ∷ unapprove "t3" "h1"
    ∷ delete "other" "a"
    ∷ untrust "t4" "deploy-docker" "1.0.0"
    ∷ []

run_refines_example : Agrees (view (run calls empty_store)) (replay calls (view empty_store))
run_refines_example = run_refines calls empty_store
