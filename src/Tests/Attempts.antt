-- ===== src/Tests/Attempts.antt =====
-- Tests of the renewal stage.
use wanfw.Common.{ℕ, String, ◌≡◌, refl, [], ◌∷◌, Option, none, some, arith}
use wanfw.Renewal.{RenewalState, initial_renewal_state, compute_renewal_decision}
use wanfw.Renewal.Stage.{StageInput, EnsureCall, renewal_stage}
use wanfw.Renewal.Stage.Attempts.{renewal_stage-backs_off}

abbrev no_answer : String × String
no_answer = ("acme", "no answer")

abbrev pub refusing : EnsureCall → Option (String × String)
refusing call = some no_answer

abbrev pub input_at : ℕ → RenewalState → StageInput
input_at now state = record {
  now = now;
  names = "web.example.org" ∷ [];
  cert_issuer = some "cert-letsencrypt-dns01";
  meta = none;
  state = state;
  zone = some "example.org";
}

abbrev pub refused_once : RenewalState
refused_once = record {
  last_attempt_at = some 2000;
  last_success_at = none;
  consecutive_failures = 1;
  last_error = some no_answer;
}

abbrev first_call : EnsureCall
first_call = record {
  plugin = "cert-letsencrypt-dns01";
  cert_name = "wildcard";
  names = "web.example.org" ∷ [];
  zone = some "example.org";
}

called : (renewal_stage (input_at 1000 initial_renewal_state) refusing 2000).call ≡ some first_call
unfolding renewal_stage compute_renewal_decision
called = refl

stored :
    (renewal_stage (input_at 1000 initial_renewal_state) refusing 2000).written ≡ some refused_once
unfolding renewal_stage compute_renewal_decision
stored = refl

renewal_stage-backs_off_example :
    (renewal_stage (input_at 3000 refused_once) refusing 4000).call ≡ none
renewal_stage-backs_off_example =
    renewal_stage-backs_off (input_at 1000 initial_renewal_state) (input_at 3000 refused_once)
      refusing refusing 2000 4000 first_call no_answer called refl stored (omega arith)
