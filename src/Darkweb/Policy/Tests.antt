-- ===== src/Darkweb/Policy/Tests.antt =====
-- The dark-web gate at concrete requests.
use ocrowley_commons.Common.{
  [], any, err, false, if◌then◌else◌, includes, is_blank, none, not, ok, true, ◌∷◌, ◌≡◌,
}
use ocrowley_commons.Policy.Attributes.{working_roles}
use ocrowley_commons.Darkweb.Policy.{
  DarkwebAuthorization, assert_darkweb_allowed, assert_darkweb_allowed_lem, breach_check,
  policy_denied,
}

abbrev investigator_request : DarkwebAuthorization
investigator_request = record {
  actor_id = "ann";
  roles = "viewer" ∷ "investigator" ∷ [];
  authorization_ref = "CASE-1";
  purpose = "breach check";
  environment = none;
  lawful_use_acknowledged = false;
}

assert_darkweb_allowed_lem_example :
    assert_darkweb_allowed (λ a b. true) breach_check investigator_request ≡ (
      if is_blank investigator_request.authorization_ref
      then err (
          policy_denied breach_check
            "Dark-web / breach queries require a non-empty authorization reference.")
      else if not investigator_request.lawful_use_acknowledged
      then err (policy_denied breach_check "Caller must acknowledge lawful, proportionate use.")
      else if not (any (λ r. includes working_roles r) investigator_request.roles)
      then err
          (policy_denied breach_check "Requires osint-operator, investigator, or counsel role.")
      else ok tt)
assert_darkweb_allowed_lem_example =
    assert_darkweb_allowed_lem (λ a b. true) breach_check investigator_request
