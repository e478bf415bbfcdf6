-- ===== src/Validate.antt =====
-- VALIDATE (packages/orchestrator/src/validate/validate-plan.ts and core-authority.ts): the check of
-- an emitted specification against the grants of the plugin that emitted it.
pub mod Authorized
pub mod Tier
use Prim.Native.Char.{Char, code}
use wanfw.Common.{
  ℕ, zero, suc, ◌-◌, String, Bool, true, false, not, ◌&&◌, ◌||◌, ◌==◌, List, [], ◌∷◌, ◌++◌, map,
  Option, none, some, or_else, any, all, append, join, starts_with, ltb, leb, eqb, if◌then◌else◌,
}
use wanfw.Json.{decimal}
use wanfw.Scope.{
  GrantScope, Grant, includes, has_grant, match_name_prefix, match_any_path_glob, match_port_range,
}
use wanfw.Spec.{MountType, volume, bind, MountSpec, ContainerSpec, service_network_name}
use wanfw.Projection.{projection_input_for, compute_powerful_projection_hash, is_bind}
use wanfw.FieldChecks.{FieldViolation, spec_violations, each, is_host, is_privileged}

pub data FieldTier : Type 0 where
  baseline powerful : FieldTier

pub record Warning : Type 0 where
  pub field : String
  pub message : String

pub record ValidationResult : Type 0 where
  pub ok : Bool
  pub tier : FieldTier
  pub violations : List FieldViolation
  pub warnings : List Warning
  pub projection_hash : Option String

-- `xs.length > 0`, of a list that may be absent
abbrev pub has_some : {A : Type 0} → Option (List A) → Bool
has_some none = false
has_some (some []) = false
has_some (some (x ∷ xs)) = true

-- The flag `powerful` after all checks.
unfoldable pub is_powerful : ContainerSpec → Bool
is_powerful spec =
    any is_bind (or_else spec.mounts [])
    || (has_some spec.devices
        || (is_host spec || (is_privileged spec || (has_some spec.cap_add || has_some spec.ports))))

-- A Latin letter in capitals, by its code.
abbrev upper : ℕ → ℕ
upper c = if leb 97 c && leb c 122 then c - 32 else c

abbrev same_upper : String → String → Bool
same_upper String.[] String.[] = true
same_upper (String.◌∷◌ c s) (String.◌∷◌ d t) = eqb (upper (code c)) (code d) && same_upper s t
same_upper String.[] (String.◌∷◌ d t) = false
same_upper (String.◌∷◌ c s) String.[] = false

-- The text ends in `t`, in any capitalisation.
abbrev ends_upper : String → String → Bool
ends_upper String.[] t = same_upper String.[] t
ends_upper (String.◌∷◌ c s) t = same_upper (String.◌∷◌ c s) t || ends_upper s t

-- `/(_TOKEN|_KEY|_SECRET|PASSWORD)$/i`
unfoldable pub looks_secret : String → Bool
looks_secret key =
    ends_upper key "_TOKEN"
    || (ends_upper key "_KEY" || (ends_upper key "_SECRET" || ends_upper key "PASSWORD"))

unfoldable pub env_warnings : String × String → List Warning
unfolding looks_secret
env_warnings (key, value) =
    if looks_secret key
    then record {
      field = append "env." key;
      message = append "env var '" (
          append key
            "' looks like a secret; consider the secrets mechanism (secrets.get/put) instead of a plaintext env value");
    }
      ∷ []
    else []

-- `xs.length === 0`
abbrev pub is_empty : {A : Type 0} → List A → Bool
is_empty [] = true
is_empty (x ∷ xs) = false

abbrev pub tier_of : Bool → FieldTier
tier_of p = if p then powerful else baseline

-- The projection hash is set only for a powerful specification.
abbrev pub hash_if : Bool → String → Option String
hash_if p hash = if p then some hash else none

module _ (sha256 : String → String) where
  unfoldable pub validate_container_spec : String → ContainerSpec → List Grant → ValidationResult
  unfolding spec_violations is_powerful env_warnings
  validate_container_spec service_id spec grants =
      let violations = spec_violations service_id spec grants in
      record {
        ok = is_empty violations;
        tier = tier_of (is_powerful spec);
        violations = violations;
        warnings = each env_warnings (or_else spec.env []);
        projection_hash =
            hash_if (is_powerful spec)
              (compute_powerful_projection_hash sha256 (projection_input_for service_id spec));
      }

  -- Specifications that the core itself emits are classified and hashed, and checked against no grant.
  unfoldable pub validate_core_emitted_spec : String → ContainerSpec → ValidationResult
  validate_core_emitted_spec service_id spec =
      let flag =
        is_privileged spec
        || (is_host spec
            || (has_some spec.devices
                || (has_some spec.cap_add
                    || (has_some spec.ports || any is_bind (or_else spec.mounts []))))) in
      record {
        ok = true;
        tier = tier_of flag;
        violations = [];
        warnings = [];
        projection_hash =
            hash_if flag
              (compute_powerful_projection_hash sha256 (projection_input_for service_id spec));
      }
