-- ===== src/Policy/Tests.antt =====
-- Runs of the policy engine, and its theorems at the production rules.

use ocrowley_commons.Common.{
  Bool, String, [], false, if◌then◌else◌, includes, is_ok, not, ok, refl, some, str_eq, true, ◌&&◌,
  ◌++◌, ◌↔◌, ◌∷◌, ◌≡◌,
}
use ocrowley_commons.Policy.{
  PolicyContext, PolicyEngine, allow, deny, evaluate, internal, new_engine, production,
}
use ocrowley_commons.Policy.Decision.{Applies, evaluate-new_engine_iff}
use ocrowley_commons.Policy.Decisive.{IsCollation}
use ocrowley_commons.Policy.Production.{
  is_production, is_restricted, production_write_rules, production_write_rules_lem,
}

-- A locale that orders all texts alike.
abbrev any_order : String → String → Bool
any_order a b = true

any_order-IsCollation : IsCollation any_order
any_order-IsCollation = record { total = λ x y h. cc; trans = λ x y z h k. refl }

abbrev production_engine : PolicyEngine
production_engine = record { rules = unfold production_write_rules in production_write_rules }

abbrev release : PolicyContext
release = record {
  actor_id = "ann";
  roles = "release-manager" ∷ [];
  capability = "release";
  action = "promote";
  environment = production;
  resource_classification = some internal;
  attributes = [];
}

built : new_engine any_order production_write_rules ≡ ok production_engine
unfolding new_engine production_write_rules
built = refl

release_decision : evaluate production_engine release ≡ record {
  allowed = true;
  matched_rule_ids = "allow-production-release-manager" ∷ [];
  decisive_rule_id = some "allow-production-release-manager";
  reason =
      "Release managers may execute production release actions subject to external evidence gates.";
}
unfolding evaluate production_write_rules
release_decision = refl

duplicate_ids :
    is_ok (new_engine any_order (production_write_rules ++ production_write_rules)) ≡ false
unfolding new_engine production_write_rules
duplicate_ids = refl

evaluate-new_engine_iff_example : ((evaluate production_engine release).allowed ≡ true) ↔ (
    Applies allow release production_write_rules
    × (¬ (Applies deny release production_write_rules)))
evaluate-new_engine_iff_example =
    evaluate-new_engine_iff any_order production_write_rules release production_engine built

production_write_rules_lem_example :
    (e : PolicyEngine) × (new_engine any_order production_write_rules ≡ ok e)
    × ((evaluate e release).allowed ≡ (
        not (str_eq release.action "export" && is_restricted release)
        && (if is_production release
            then includes release.roles "release-manager"
            else includes release.roles "migration-operator")))
production_write_rules_lem_example = production_write_rules_lem any_order release
