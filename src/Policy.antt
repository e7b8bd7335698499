-- ===== src/Policy.antt =====
-- packages/policy/src/index.ts: the allow/deny policy engine. A rule's `matches` is a function of
-- the context. `id_le a b` stands for `a.localeCompare(b) <= 0`, which the locale decides.
pub mod Decision
pub mod Decisive
pub mod Construction
pub mod Production
pub mod Attributes
mod Tests
use ocrowley_commons.Common.{
  Bool, List, Option, Result, String, [], err, false, filter, find, if◌then◌else◌, includes, ltb,
  map, none, ok, some, sort_by, true, ℕ, ◌&&◌, ◌==◌, ◌||◌, ◌∷◌,
}

pub data PolicyEffect : Type 0 where
  allow deny : PolicyEffect

pub data Environment : Type 0 where
  development staging production : Environment

pub data Classification : Type 0 where
  public_data internal confidential restricted : Classification

-- The values that the packages put into `attributes`; a missing key reads as `undefined`.
pub data Attribute : Type 0 where
  text : String → Attribute
  flag : Bool → Attribute

pub record PolicyContext : Type 0 where
  pub actor_id : String
  pub roles : List String
  pub capability : String
  pub action : String
  pub environment : Environment
  pub resource_classification : Option Classification
  pub attributes : List (String × Attribute)

pub record PolicyRule : Type 0 where
  pub id : String
  pub description : String
  pub priority : ℕ
  pub effect : PolicyEffect
  pub matches : PolicyContext → Bool

pub record PolicyDecision : Type 0 where
  pub allowed : Bool
  pub matched_rule_ids : List String
  pub decisive_rule_id : Option String
  pub reason : String

pub record PolicyEngine : Type 0 where
  pub rules : List PolicyRule

-- The error that the constructor throws, with the id in its message.
pub data PolicyError : Type 0 where
  duplicate_policy_rule : String → PolicyError

-- The constructor's loop over a `Set` of the ids that it has seen.
check_ids : List String → List PolicyRule → Option String
check_ids seen [] = none
check_ids seen (rule ∷ rules) =
    let rest = check_ids (rule.id ∷ seen) rules in
    if includes seen rule.id then some rule.id else rest

-- `b.priority - a.priority || a.id.localeCompare(b.id)` is at most 0.
abbrev pub rule_le : (String → String → Bool) → PolicyRule → PolicyRule → Bool
rule_le id_le a b = ltb b.priority a.priority || a.priority == b.priority && id_le a.id b.id

unfoldable pub new_engine :
    (String → String → Bool) → List PolicyRule → Result PolicyError PolicyEngine
unfolding check_ids sort_by
new_engine id_le rules = elim (check_ids [] rules) [
  | some id ↦ err (duplicate_policy_rule id)
  | none ↦ ok (record { rules = sort_by (rule_le id_le) rules })
]

abbrev pub is_deny : PolicyRule → Bool
is_deny rule = elim rule.effect [ deny ↦ true | allow ↦ false ]

abbrev pub is_allow : PolicyRule → Bool
is_allow rule = elim rule.effect [ deny ↦ false | allow ↦ true ]

abbrev pub rule_ids : List PolicyRule → List String
rule_ids = map (λ r. r.id)

abbrev pub default_reason : String
default_reason = "No allow rule matched; default deny applied."

-- The three returns of `evaluate`, from the matched rules and the two `find`s.
abbrev conclude : List PolicyRule → Option PolicyRule → Option PolicyRule → PolicyDecision
conclude matched (some d) _ = record {
  allowed = false;
  matched_rule_ids = rule_ids matched;
  decisive_rule_id = some d.id;
  reason = d.description;
}
conclude matched none (some a) = record {
  allowed = true;
  matched_rule_ids = rule_ids matched;
  decisive_rule_id = some a.id;
  reason = a.description;
}
conclude matched none none = record {
  allowed = false;
  matched_rule_ids = [];
  decisive_rule_id = none;
  reason = default_reason;
}

unfoldable pub evaluate : PolicyEngine → PolicyContext → PolicyDecision
evaluate engine context =
    let matched = filter (λ r. r.matches context) engine.rules in
    conclude matched (find is_deny matched) (find is_allow matched)
