-- ===== src/Darkweb/Policy.antt =====
-- packages/darkweb/src/policy.ts: the authorization gate of the dark-web index and breach queries.
mod Tests
use ocrowley_commons.Common.{
  Bool, List, Option, Result, String, [], any, arith, err, false, get_or, if◌then◌else◌, includes,
  is_blank, none, not, ok, some, ◌&&◌, ◌>>=◌, ◌∷◌, ◌≡◌,
}
use ocrowley_commons.Policy.{
  Attribute, Environment, PolicyContext, PolicyDecision, PolicyError, PolicyRule, allow, deny,
  development, evaluate, flag, new_engine, restricted, text,
}
use ocrowley_commons.Policy.Attributes.{attribute, has_ref, some_role, working_roles}

pub data DarkwebAction : Type 0 where
  monitor_entities search_ahmia breach_check intelx_search : DarkwebAction

abbrev pub action_name : DarkwebAction → String
action_name monitor_entities = "monitor.entities"
action_name search_ahmia = "search.ahmia"
action_name breach_check = "breach.check"
action_name intelx_search = "intelx.search"

pub record DarkwebAuthorization : Type 0 where
  pub actor_id : String
  pub roles : List String
  pub authorization_ref : String
  pub purpose : String
  pub environment : Option Environment
  pub lawful_use_acknowledged : Bool

-- `value === true`.
abbrev is_true_flag : Option Attribute → Bool
is_true_flag (some (flag b)) = b
is_true_flag (some (text s)) = false
is_true_flag none = false

abbrev acknowledged : PolicyContext → Bool
acknowledged c = is_true_flag (attribute "lawfulUseAcknowledged" c.attributes)

unfoldable pub darkweb_policy_rules : List PolicyRule
darkweb_policy_rules =
    record {
      id = "deny-missing-authorization-ref";
      description = "Dark-web / breach queries require a non-empty authorization reference.";
      priority = 100;
      effect = deny;
      matches = λ c. not (has_ref c);
    }
    ∷ record {
      id = "deny-without-lawful-use-ack";
      description = "Caller must acknowledge lawful, proportionate use.";
      priority = 95;
      effect = deny;
      matches = λ c. not (acknowledged c);
    }
    ∷ record {
      id = "deny-without-operator-role";
      description = "Requires osint-operator, investigator, or counsel role.";
      priority = 90;
      effect = deny;
      matches = λ c. not (some_role working_roles c);
    }
    ∷ record {
      id = "allow-authorized-monitor";
      description = "Authorized operators may run clearnet index and breach checks.";
      priority = 10;
      effect = allow;
      matches = λ c. has_ref c && acknowledged c && some_role working_roles c;
    }
    ∷ []

unfoldable pub darkweb_context : DarkwebAction → DarkwebAuthorization → PolicyContext
darkweb_context action auth = record {
  actor_id = auth.actor_id;
  roles = auth.roles;
  capability = "darkweb";
  action = action_name action;
  environment = get_or auth.environment development;
  resource_classification = some restricted;
  attributes =
      ("authorizationRef", text auth.authorization_ref)
      ∷ ("purpose", text auth.purpose)
      ∷ ("lawfulUseAcknowledged", flag auth.lawful_use_acknowledged)
      ∷ [];
}

unfoldable pub evaluate_darkweb_policy :
    (String → String → Bool)
    → DarkwebAction
    → DarkwebAuthorization
    → Result PolicyError PolicyDecision
unfolding new_engine darkweb_policy_rules darkweb_context evaluate
evaluate_darkweb_policy id_le action auth =
    new_engine id_le darkweb_policy_rules >>= λ e. ok (evaluate e (darkweb_context action auth))

-- What `assertDarkwebAllowed` throws: the constructor's error, or the denial with its reason.
pub data DarkwebError : Type 0 where
  policy_error : PolicyError → DarkwebError
  policy_denied : DarkwebAction → String → DarkwebError

unfoldable pub assert_darkweb_allowed :
    (String → String → Bool) → DarkwebAction → DarkwebAuthorization → Result DarkwebError (Unit {0})
unfolding evaluate_darkweb_policy
assert_darkweb_allowed id_le action auth = elim (evaluate_darkweb_policy id_le action auth) [
  | err e ↦ err (policy_error e)
  | ok d ↦ if d.allowed then ok tt else err (policy_denied action d.reason)
]

-- In every locale and for every action the gate passes exactly when the reference is not blank, the
-- caller has acknowledged lawful use and has one of the three working roles; otherwise it throws
-- the denial of the first of these, in this order, that fails.
pub assert_darkweb_allowed_lem :
    (id_le : String → String → Bool) (action : DarkwebAction) (auth : DarkwebAuthorization)
    → assert_darkweb_allowed id_le action auth ≡ (
        if is_blank auth.authorization_ref
        then err (
            policy_denied action
              "Dark-web / breach queries require a non-empty authorization reference.")
        else if not auth.lawful_use_acknowledged
        then err (policy_denied action "Caller must acknowledge lawful, proportionate use.")
        else if not (any (λ r. includes working_roles r) auth.roles)
        then err (policy_denied action "Requires osint-operator, investigator, or counsel role.")
        else ok tt)
unfolding assert_darkweb_allowed
assert_darkweb_allowed_lem id_le action auth = ground arith
