-- ===== src/Tests/Certificates.antt =====
-- Tests of the certificate volume.
use wanfw.Common.{arith, ℕ, ◌<◌, ◌≤◌, ◌≡◌, refl, inl, List, [], ◌∷◌, none, some, length}
use wanfw.Json.{end}
use wanfw.Certs.{
  cut_store, interrupt, fullchain_file, Generation, CertDir, empty_dir, run, apply, store_steps,
  store_cert, new_generation, current_cert, rollback_cert, rolled_back, no_earlier_generation,
  list_generations,
}
use wanfw.Certs.Crash.{IsValid, store_cert-current}
use wanfw.Certs.Rollback.{rollback_cert-store_cert}
use wanfw.Certs.Runs.{CertOp, store, roll_back, perform_all, perform_all-never_dangles}

abbrev generation : ℕ → Generation
generation n = new_generation "t1" "cert" "key" end n

abbrev three : CertDir
three = record empty_dir {
  generations = generation 2 ∷ generation 3 ∷ generation 4 ∷ [];
  current = some 4;
}

three-IsValid : IsValid three
unfolding current_cert
three-IsValid = record { ascends = (omega arith, (omega arith, (omega arith, tt))); pointed = refl }

oldest_pruned : list_generations (store_cert "t2" "new" "key" end three).0 ≡ 3 ∷ 4 ∷ 5 ∷ []
unfolding store_cert store_steps run apply list_generations
oldest_pruned = refl

nothing_earlier :
    rollback_cert (store_cert "t2" "new" "key" end empty_dir).0 ≡ no_earlier_generation
unfolding rollback_cert store_cert store_steps run apply list_generations
nothing_earlier = refl

store_cert-current_example :
    let (d', n) = store_cert "t2" "new" "key" end three in
    (current_cert d' ≡ some (new_generation "t2" "new" "key" end n))
    × (4 < n)
    × (length d'.generations ≤ 3)
    × IsValid d'
store_cert-current_example = store_cert-current "t2" "new" "key" end three three-IsValid

rollback_cert-store_cert_example :
    (d' : CertDir) × (rollback_cert (store_cert "t2" "new" "key" end three).0 ≡ rolled_back 4 d')
    × (current_cert d' ≡ current_cert three)
rollback_cert-store_cert_example =
    rollback_cert-store_cert "t2" "new" "key" end three (generation 4) three-IsValid refl refl

abbrev stores_and_rollback : List CertOp
stores_and_rollback = store "t1" "a" "k" end [] 9 ∷ store "t2" "b" "k" end [] 1 ∷ roll_back ∷ []

perform_all-never_dangles_example : IsValid (perform_all stores_and_rollback empty_dir)
perform_all-never_dangles_example = perform_all-never_dangles stores_and_rollback (inl tt)

-- A crash within the removal of a generation, and then rollbacks to what it left of it.
abbrev rolled_too_far : CertDir
rolled_too_far =
    perform_all
      (store "t2" "new" "key" end (fullchain_file ∷ []) 2 ∷ roll_back ∷ roll_back ∷ roll_back ∷ [])
      three

half_removed : (rolled_too_far.current ≡ some 2) × (current_cert rolled_too_far ≡ none)
unfolding cut_store interrupt store_steps run apply list_generations rollback_cert current_cert
half_removed = (refl, refl)
