-- ===== src/Policy/Decision.antt =====
-- What the policy engine decides, in terms of the rules that it was given.

use ocrowley_commons.Common.{
  Bool, List, Memᴰ, Option-cases, String, [], arith, filter, filter-mem, find, find-mem, find-none,
  inl, inr, mem-filter, mem-sort_by, none, ok, refl, some, sort_by, sort_by-mem, true, ◌↔◌, ◌∷◌,
  ◌≡◌,
}
use ocrowley_commons.Policy.{
  PolicyContext, PolicyEffect, PolicyEngine, PolicyRule, allow, conclude, deny, evaluate, is_allow,
  is_deny, new_engine, rule_ids, rule_le,
}

module _ (id_le : String → String → Bool) where
  pub engine_rules :
      (rules : List PolicyRule) (e : PolicyEngine)
      → new_engine id_le rules ≡ ok e
      → e.rules ≡ sort_by (rule_le id_le) rules
  unfolding new_engine
  engine_rules rules e h = ground arith

-- A rule that matches the context and has the effect.
pub record Applies (effect : PolicyEffect) (c : PolicyContext) (rules : List PolicyRule)
    : Type 0 where
  pub rule : PolicyRule
  pub listed : Memᴰ rule rules
  pub matches : rule.matches c ≡ true
  pub has_effect : rule.effect ≡ effect

module _ (c : PolicyContext) where
  abbrev pub matching : List PolicyRule → List PolicyRule
  matching = filter (λ r. r.matches c)

  Applies-allow :
      (rules : List PolicyRule) (a : PolicyRule)
      → find is_allow (matching rules) ≡ some a
      → Applies allow c rules
  Applies-allow rules a f =
      let (m, is) = find-mem is_allow (matching rules) a f in
      let (listed, hit) = mem-filter (λ r. r.matches c) rules a m in
      record { rule = a; listed = listed; matches = hit; has_effect = ground arith }

  Applies-deny :
      (rules : List PolicyRule) (d : PolicyRule)
      → find is_deny (matching rules) ≡ some d
      → Applies deny c rules
  Applies-deny rules d f =
      let (m, is) = find-mem is_deny (matching rules) d f in
      let (listed, hit) = mem-filter (λ r. r.matches c) rules d m in
      record { rule = d; listed = listed; matches = hit; has_effect = ground arith }

  no_deny :
      (rules : List PolicyRule) → find is_deny (matching rules) ≡ none → ¬ (Applies deny c rules)
  no_deny rules f a =
      let m = filter-mem (λ r. r.matches c) rules a.rule a.listed a.matches in
      let miss = find-none is_deny (matching rules) f a.rule m in ground (arith, a.has_effect)

  no_allow :
      (rules : List PolicyRule) → find is_allow (matching rules) ≡ none → ¬ (Applies allow c rules)
  no_allow rules f a =
      let m = filter-mem (λ r. r.matches c) rules a.rule a.listed a.matches in
      let miss = find-none is_allow (matching rules) f a.rule m in ground (arith, a.has_effect)

  evaluate-allowed_iff :
      (e : PolicyEngine)
      → ((evaluate e c).allowed ≡ true) ↔ (Applies allow c e.rules × (¬ (Applies deny c e.rules)))
  unfolding evaluate
  evaluate-allowed_iff e = elim (Option-cases (find is_deny (matching e.rules))) [
    | inr (d, f) ↦ (λ h. absurd (ground arith), λ p. absurd (p.1 (Applies-deny e.rules d f)))
    | inl f ↦ elim (Option-cases (find is_allow (matching e.rules))) [
      | inl g ↦ (λ h. absurd (ground arith), λ p. absurd (no_allow e.rules g p.0))
      | inr (a, g) ↦ (λ h. (Applies-allow e.rules a g, no_deny e.rules f), λ p. rw (f, g))
    ]
  ]

-- `Applies` looks at what the list holds, and not at its order.
Applies-map :
    (effect : PolicyEffect) (c : PolicyContext) (rs ts : List PolicyRule)
    → ((r : PolicyRule) → Memᴰ r rs → Memᴰ r ts)
    → Applies effect c rs
    → Applies effect c ts
Applies-map effect c rs ts f a = record {
  rule = a.rule;
  listed = f a.rule a.listed;
  matches = a.matches;
  has_effect = a.has_effect;
}

-- For an engine that the constructor built from `rules`: `evaluate` allows a context exactly when
-- one of `rules` that matches it allows and none that matches it denies, whatever the order of
-- `rules`, the priorities and the locale.
pub evaluate-new_engine_iff :
    (id_le : String → String → Bool) (rules : List PolicyRule) (c : PolicyContext)
    (e : PolicyEngine)
    → new_engine id_le rules ≡ ok e
    → ((evaluate e c).allowed ≡ true) ↔ (Applies allow c rules × (¬ (Applies deny c rules)))
evaluate-new_engine_iff id_le rules c e built =
    let (to, from) = evaluate-allowed_iff c e in
    let back = Applies-map allow c e.rules rules (kept built) in
    let forth = Applies-map allow c rules e.rules (there built) in
    let denied = Applies-map deny c rules e.rules (there built) in
    let undenied = Applies-map deny c e.rules rules (kept built) in
    (λ h. (back (to h).0, λ d. (to h).1 (denied d)), λ p. from (forth p.0, λ d. p.1 (undenied d)))
  where
    kept : new_engine id_le rules ≡ ok e → (r : PolicyRule) → Memᴰ r e.rules → Memᴰ r rules
    kept b r m = mem-sort_by (rule_le id_le) rules r (rw (engine_rules id_le rules e b) at m)

    there : new_engine id_le rules ≡ ok e → (r : PolicyRule) → Memᴰ r rules → Memᴰ r e.rules
    there b r m = rw (engine_rules id_le rules e b) (sort_by-mem (rule_le id_le) rules r m)

-- A decision lists exactly the ids of the matching rules, highest priority first, and names no
-- decisive rule exactly when none matches.
pub evaluate_matched :
    (e : PolicyEngine) (c : PolicyContext)
    → ((evaluate e c).matched_rule_ids ≡ rule_ids (filter (λ r. r.matches c) e.rules))
      × (((evaluate e c).decisive_rule_id ≡ none) ↔ (filter (λ r. r.matches c) e.rules ≡ []))
unfolding evaluate
evaluate_matched e c = matched_lem (filter (λ r. r.matches c) e.rules)
  where
    first_decides :
        (r : PolicyRule) (rs : List PolicyRule)
        → (find is_deny (r ∷ rs) ≡ none)
        → (find is_allow (r ∷ rs) ≡ none)
        → ⊥
    first_decides r rs h k = ground arith

    matched_lem :
        (m : List PolicyRule)
        → ((conclude m (find is_deny m) (find is_allow m)).matched_rule_ids ≡ rule_ids m)
          × (((conclude m (find is_deny m) (find is_allow m)).decisive_rule_id ≡ none) ↔ (m ≡ []))
    matched_lem [] = (refl, (λ h. refl, λ h. refl))
    matched_lem (r ∷ rs) = ground (arith, first_decides r rs)
