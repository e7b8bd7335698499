-- ===== src/Osint/Policy.antt =====
-- packages/osint/src/policy.ts: the authorization gate of the OSINT actions.
pub mod Decision
mod Tests
use ocrowley_commons.Common.{
  Bool, List, Option, Result, String, [], err, get_or, if◌then◌else◌, includes, none, not, ok, some,
  str_eq, ◌&&◌, ◌>>=◌, ◌||◌, ◌∷◌,
}
use ocrowley_commons.Policy.{
  Classification, Environment, PolicyContext, PolicyDecision, PolicyError, PolicyRule, allow,
  confidential, deny, development, evaluate, new_engine, text,
}
use ocrowley_commons.Policy.Attributes.{has_ref, investigating_roles, some_role, working_roles}
use ocrowley_commons.Policy.Production.{is_production}

pub data OsintAction : Type 0 where
  scan_passive scan_footprint scan_investigate probe_username enrich_person brief_export
        archive_recover :
      OsintAction

-- The string that stands for an action.
abbrev pub action_name : OsintAction → String
action_name scan_passive = "scan.passive"
action_name scan_footprint = "scan.footprint"
action_name scan_investigate = "scan.investigate"
action_name probe_username = "probe.username"
action_name enrich_person = "enrich.person"
action_name brief_export = "brief.export"
action_name archive_recover = "archive.recover"

-- `scan_type` is the string of a `ScanType`, which no rule reads.
pub record OsintAuthorization : Type 0 where
  pub actor_id : String
  pub roles : List String
  pub authorization_ref : String
  pub purpose : String
  pub environment : Option Environment
  pub scan_type : Option String
  pub resource_classification : Option Classification

unfoldable pub osint_policy_rules : List PolicyRule
osint_policy_rules =
    record {
      id = "deny-missing-authorization-ref";
      description = "OSINT actions require a non-empty authorization reference.";
      priority = 100;
      effect = deny;
      matches = λ c. not (has_ref c);
    }
    ∷ record {
      id = "deny-investigate-without-investigator";
      description = "Investigate-mode OSINT requires investigator or counsel role.";
      priority = 90;
      effect = deny;
      matches = λ c.
          (str_eq c.action "scan.investigate" || str_eq c.action "enrich.person")
          && not (some_role investigating_roles c);
    }
    ∷ record {
      id = "deny-production-probe-without-operator";
      description = "Production live probes require osint-operator role.";
      priority = 80;
      effect = deny;
      matches = λ c.
          is_production c
          && includes ("probe.username" ∷ "scan.footprint" ∷ "scan.investigate" ∷ []) c.action
          && not (includes c.roles "osint-operator");
    }
    ∷ record {
      id = "allow-passive-with-auth-ref";
      description = "Passive OSINT allowed when authorization reference is present.";
      priority = 20;
      effect = allow;
      matches = λ c.
          includes ("scan.passive" ∷ "brief.export" ∷ "archive.recover" ∷ []) c.action && has_ref c;
    }
    ∷ record {
      id = "allow-operator-active-scans";
      description = "Authorized osint-operators may run footprint/investigate scans.";
      priority = 10;
      effect = allow;
      matches = λ c. some_role working_roles c && has_ref c;
    }
    ∷ []

-- The context that an authorization becomes.
unfoldable pub osint_context : OsintAction → OsintAuthorization → PolicyContext
osint_context action auth = record {
  actor_id = auth.actor_id;
  roles = auth.roles;
  capability = "osint";
  action = action_name action;
  environment = get_or auth.environment development;
  resource_classification = some (get_or auth.resource_classification confidential);
  attributes =
      ("authorizationRef", text auth.authorization_ref)
      ∷ ("purpose", text auth.purpose)
      ∷ elim auth.scan_type [ none ↦ [] | some s ↦ ("scanType", text s) ∷ [] ];
}

module _ (id_le : String → String → Bool) where
  unfoldable pub evaluate_osint_policy :
      OsintAction → OsintAuthorization → Result PolicyError PolicyDecision
  unfolding new_engine osint_policy_rules osint_context evaluate
  evaluate_osint_policy action auth =
      new_engine id_le osint_policy_rules >>= λ e. ok (evaluate e (osint_context action auth))

-- What `assertOsintAllowed` throws: the constructor's error, or the denial with its reason.
pub data OsintError : Type 0 where
  policy_error : PolicyError → OsintError
  policy_denied : OsintAction → String → OsintError

unfoldable pub assert_osint_allowed :
    (String → String → Bool) → OsintAction → OsintAuthorization → Result OsintError (Unit {0})
unfolding evaluate_osint_policy
assert_osint_allowed id_le action auth = elim (evaluate_osint_policy id_le action auth) [
  | err e ↦ err (policy_error e)
  | ok d ↦ if d.allowed then ok tt else err (policy_denied action d.reason)
]
