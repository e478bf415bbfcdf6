-- ===== src/Renewal/Stage.antt =====
-- The RENEWAL stage (packages/orchestrator/src/reconciler/renewal-stage.ts). Its collaborators are
-- data: the names that the plan graph requires, the issuer bound to the role, the meta of the stored
-- certificate, the stored state, the time, and the answer that the issuer would give.
pub mod Attempts
use wanfw.Common.{
  not, ℕ, suc, String, Bool, true, false, ◌&&◌, ◌==◌, if◌then◌else◌, List, [], ◌∷◌, Option, none,
  some, append, join, sort, text_le, is_some,
}
use wanfw.Pipeline.{StageError}
use wanfw.Renewal.{
  RenewalState, RenewalDecisionInput, RenewalDecision, compute_renewal_decision, is_escalated,
}

pub record StoredCert : Type 0 where
  pub stored_at : ℕ
  pub names : List String

pub record StageInput : Type 0 where
  pub now : ℕ
  pub names : List String
  pub cert_issuer : Option String
  pub meta : Option StoredCert
  pub state : RenewalState
  pub zone : Option String

-- What the stage asks of the issuer
pub record EnsureCall : Type 0 where
  pub plugin : String
  pub cert_name : String
  pub names : List String
  pub zone : Option String

-- The degradation that it flags, the call that it makes, the state that it writes, and whether it
-- announces a new certificate
pub record StageEffect : Type 0 where
  pub degraded_reason : Option StageError
  pub call : Option EnsureCall
  pub written : Option RenewalState
  pub cert_changed : Bool

abbrev pub wildcard_cert_name : String
wildcard_cert_name = "wildcard"

abbrev pub stored_at_of : Option StoredCert → Option ℕ
stored_at_of none = none
stored_at_of (some m) = some m.stored_at

-- `[...names].sort().join(",")`
abbrev name_key : List String → String
name_key names = join "," (sort text_le names)

abbrev pub names_match : Option StoredCert → List String → Bool
names_match none names = false
names_match (some m) names = name_key m.names == name_key names

abbrev failure_note : String → Option (String × String) → String
failure_note intro none = ""
failure_note intro (some (code, message)) = append intro message

abbrev reason_text : StageInput → Option StoredCert → String
reason_text input (some m) =
    append "cert 'wildcard' has fewer than 7 days remaining and has not been renewed in time"
      (failure_note "; last renewal attempt failed: " input.state.last_error)
reason_text input none = append "no cert has ever been issued for required names [" (
    append (join ", " input.names)
      (append "]" (failure_note "; last attempt failed: " input.state.last_error)))

unfoldable pub degradation : StageInput → Option StageError
degradation input =
    if is_escalated input.now (stored_at_of input.meta) true
    then some (record { stage = "renewal"; plugin = none; message = reason_text input input.meta })
    else none

abbrev pub decision_input : StageInput → RenewalDecisionInput
decision_input input = record {
  now = input.now;
  cert_name = wildcard_cert_name;
  stored_at = stored_at_of input.meta;
  names_match = names_match input.meta input.names;
  state = input.state;
}

-- The state after an attempt, by the error that the issuer answered with
unfoldable pub attempted : ℕ → RenewalState → Option (String × String) → RenewalState
attempted at state none = record {
  last_attempt_at = some at;
  last_success_at = some at;
  consecutive_failures = 0;
  last_error = none;
}
attempted at state (some error) = record {
  last_attempt_at = some at;
  last_success_at = state.last_success_at;
  consecutive_failures = suc state.consecutive_failures;
  last_error = some error;
}

abbrev pub no_attempt_made : StageInput → StageEffect
no_attempt_made input = record {
  degraded_reason = degradation input;
  call = none;
  written = none;
  cert_changed = false;
}

abbrev pub attempt_made :
    StageInput → String → (EnsureCall → Option (String × String)) → ℕ → StageEffect
attempt_made input issuer answer at =
    let call : EnsureCall = record {
      plugin = issuer;
      cert_name = wildcard_cert_name;
      names = input.names;
      zone = input.zone;
    } in
    record {
      degraded_reason = degradation input;
      call = some call;
      written = some (attempted at input.state (answer call));
      cert_changed = if is_some (answer call) then false else true;
    }

abbrev pub with_issuer :
    StageInput → Option String → (EnsureCall → Option (String × String)) → ℕ → StageEffect
with_issuer input none answer at = no_attempt_made input
with_issuer input (some issuer) answer at =
    if not (issuer == "") && (compute_renewal_decision (decision_input input)).due
    then attempt_made input issuer answer at
    else no_attempt_made input

abbrev pub with_names :
    List String → StageInput → (EnsureCall → Option (String × String)) → ℕ → StageEffect
with_names [] input answer at = record {
  degraded_reason = none;
  call = none;
  written = none;
  cert_changed = false;
}
with_names (n ∷ ns) input answer at = with_issuer input input.cert_issuer answer at

-- `answer` is the error of the issuer's answer, or none where it succeeds; `at` is the time after it.
unfoldable pub renewal_stage :
    StageInput → (EnsureCall → Option (String × String)) → ℕ → StageEffect
unfolding degradation attempted
renewal_stage input answer at = with_names input.names input answer at
