-- ===== src/Policy/Production.antt =====
-- packages/policy/src/index.ts, `productionWriteRules`: the rules, and what they allow together.
use ocrowley_commons.Common.{
  Bool, List, String, [], arith, false, if◌then◌else◌, includes, none, not, ok, refl, some, str_eq,
  true, ◌&&◌, ◌∷◌, ◌≡◌,
}
use ocrowley_commons.Policy.{
  PolicyContext, PolicyEngine, PolicyRule, allow, deny, development, evaluate, new_engine,
  production, restricted, staging,
}

abbrev pub is_production : PolicyContext → Bool
is_production c = elim c.environment [ production ↦ true | development ↦ false | staging ↦ false ]

abbrev pub is_restricted : PolicyContext → Bool
is_restricted c = elim c.resource_classification [
  | some k ↦ elim k [ restricted ↦ true | _ ↦ false ]
  | none ↦ false
]

abbrev mutations : List String
mutations = "commit" ∷ "promote" ∷ "rollback" ∷ "delete" ∷ []

unfoldable pub production_write_rules : List PolicyRule
production_write_rules =
    record {
      id = "deny-production-write-without-release-manager";
      description = "Production mutation requires the release-manager role.";
      priority = 100;
      effect = deny;
      matches = λ c.
          is_production c
          && includes mutations c.action
          && not (includes c.roles "release-manager");
    }
    ∷ record {
      id = "deny-restricted-export";
      description = "Restricted data cannot be exported by this policy surface.";
      priority = 90;
      effect = deny;
      matches = λ c. str_eq c.action "export" && is_restricted c;
    }
    ∷ record {
      id = "allow-non-production-operator";
      description = "Migration operators may execute controlled non-production actions.";
      priority = 20;
      effect = allow;
      matches = λ c. not (is_production c) && includes c.roles "migration-operator";
    }
    ∷ record {
      id = "allow-production-release-manager";
      description =
          "Release managers may execute production release actions subject to external evidence gates.";
      priority = 10;
      effect = allow;
      matches = λ c. is_production c && includes c.roles "release-manager";
    }
    ∷ []

-- The rules make an engine in every locale, and it allows a context exactly when that is no export
-- of restricted data and the actor is a release manager, in production, or a migration operator,
-- anywhere else.
pub production_write_rules_lem :
    (id_le : String → String → Bool) (c : PolicyContext)
    → (e : PolicyEngine) × (new_engine id_le production_write_rules ≡ ok e)
      × ((evaluate e c).allowed ≡ (
          not (str_eq c.action "export" && is_restricted c)
          && (if is_production c
              then includes c.roles "release-manager"
              else includes c.roles "migration-operator")))
unfolding new_engine evaluate production_write_rules
production_write_rules_lem id_le c = (record { rules = production_write_rules }, refl, ground arith)
