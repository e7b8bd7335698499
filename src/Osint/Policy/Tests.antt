-- ===== src/Osint/Policy/Tests.antt =====
-- The OSINT gate at concrete requests.
use ocrowley_commons.Common.{[], err, none, ok, refl, some, trim, true, ◌∷◌, ◌≡◌}
use ocrowley_commons.Policy.{production}
use ocrowley_commons.Osint.Policy.{
  OsintAuthorization, assert_osint_allowed, enrich_person, policy_denied, scan_investigate,
}
use ocrowley_commons.Osint.Policy.Decision.{assert_osint_allowed_lem, verdict}

abbrev counsel_in_production : OsintAuthorization
counsel_in_production = record {
  actor_id = "ann";
  roles = "counsel" ∷ [];
  authorization_ref = " CASE-1 ";
  purpose = "due diligence";
  environment = some production;
  scan_type = none;
  resource_classification = none;
}

assert_osint_allowed_lem_example :
    assert_osint_allowed (λ a b. true) scan_investigate counsel_in_production
    ≡ verdict scan_investigate counsel_in_production
assert_osint_allowed_lem_example =
    assert_osint_allowed_lem (λ a b. true) scan_investigate counsel_in_production

probe_refused :
    assert_osint_allowed (λ a b. true) scan_investigate counsel_in_production
    ≡ err (policy_denied scan_investigate "Production live probes require osint-operator role.")
unfolding assert_osint_allowed trim
probe_refused = refl

enrichment_allowed : assert_osint_allowed (λ a b. true) enrich_person counsel_in_production ≡ ok tt
unfolding assert_osint_allowed trim
enrichment_allowed = refl
