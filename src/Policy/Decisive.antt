-- ===== src/Policy/Decisive.antt =====
-- Which rule decides: the foremost of the matching rules that have the decision's effect.
use ocrowley_commons.Common.{
  Bool, IsOrder, IsOrder-refl, List, Memᴰ, Option, String, arith, filter-IsSortedBy, filter-mem,
  find, find-IsSortedBy, find-mem, mem-filter, mem-sort_by, none, ok, refl, some, sort_by,
  sort_by-IsSortedBy, sort_by-mem, true, ◌≡◌, ◌≤◌,
}
use ocrowley_commons.Policy.{
  PolicyContext, PolicyDecision, PolicyEngine, PolicyRule, conclude, evaluate, is_allow, is_deny,
  new_engine, rule_le,
}
use ocrowley_commons.Policy.Decision.{engine_rules, matching}

-- What `localeCompare` is taken to be: a total preorder on the ids.
abbrev pub IsCollation : (String → String → Bool) → Type 0
IsCollation = IsOrder

pub rule_le-IsOrder : (id_le : String → String → Bool) → IsCollation id_le → IsOrder (rule_le id_le)
rule_le-IsOrder id_le o = record {
  total = λ x y h. ground (arith, o.total x.id y.id);
  trans = λ x y z h k. ground (arith, o.trans x.id y.id z.id);
}

-- The rule that decides: it is one of the rules, it matches, it has the decision's effect and
-- wording, and no matching rule of that effect has a higher priority.
pub record Decides (id : String) (d : PolicyDecision) (c : PolicyContext) (rules : List PolicyRule)
    : Type 0 where
  pub rule : PolicyRule
  pub listed : Memᴰ rule rules
  pub matches : rule.matches c ≡ true
  pub named : rule.id ≡ id
  pub worded : rule.description ≡ d.reason
  pub agrees : is_allow rule ≡ d.allowed
  pub foremost :
      (r : PolicyRule)
      → Memᴰ r rules
      → r.matches c ≡ true
      → is_allow r ≡ d.allowed
      → r.priority ≤ rule.priority

module _ (id_le : String → String → Bool) (collation : IsCollation id_le) (rules : List PolicyRule)
    (c : PolicyContext) where
  sorted : List PolicyRule
  sorted = sort_by (rule_le id_le) rules

  foremost_lem :
      (p : PolicyRule → Bool) (a r : PolicyRule)
      → find p (matching c sorted) ≡ some a
      → Memᴰ r rules
      → r.matches c ≡ true
      → p r ≡ true
      → r.priority ≤ a.priority
  unfolding sorted
  foremost_lem p a r f m hit is =
      let o = rule_le-IsOrder id_le collation in
      let in_order = sort_by-IsSortedBy (rule_le id_le) o rules in
      let kept = filter-IsSortedBy (rule_le id_le) (λ x. x.matches c) sorted in_order in
      let there = sort_by-mem (rule_le id_le) rules r m in
      let le =
        find-IsSortedBy (rule_le id_le) (IsOrder-refl (rule_le id_le) o) p (matching c sorted) a r
          kept f (filter-mem (λ x. x.matches c) sorted r there hit) is in
      ground arith

  found_lem :
      (p : PolicyRule → Bool) (a : PolicyRule)
      → find p (matching c sorted) ≡ some a
      → Memᴰ a rules × (a.matches c ≡ true) × (p a ≡ true)
  unfolding sorted
  found_lem p a f =
      let (m, is) = find-mem p (matching c sorted) a f in
      let (there, hit) = mem-filter (λ x. x.matches c) sorted a m in
      (mem-sort_by (rule_le id_le) rules a there, hit, is)

  deny-Decides :
      (d : PolicyRule) (o : Option PolicyRule)
      → find is_deny (matching c sorted) ≡ some d
      → Decides d.id (conclude (matching c sorted) (some d) o) c rules
  deny-Decides d o f =
      let (m, hit, is) = found_lem is_deny d f in
      record {
        rule = d;
        listed = m;
        matches = hit;
        named = refl;
        worded = refl;
        agrees = ground arith;
        foremost = λ r mr hr e. foremost_lem is_deny d r f mr hr (ground arith);
      }

  allow-Decides :
      (a : PolicyRule)
      → find is_allow (matching c sorted) ≡ some a
      → Decides a.id (conclude (matching c sorted) none (some a)) c rules
  allow-Decides a f =
      let (m, hit, is) = found_lem is_allow a f in
      record {
        rule = a;
        listed = m;
        matches = hit;
        named = refl;
        worded = refl;
        agrees = is;
        foremost = λ r mr hr e. foremost_lem is_allow a r f mr hr e;
      }

  conclude-Decides :
      (o q : Option PolicyRule) (id : String)
      → find is_deny (matching c sorted) ≡ o
      → find is_allow (matching c sorted) ≡ q
      → (conclude (matching c sorted) o q).decisive_rule_id ≡ some id
      → Decides id (conclude (matching c sorted) o q) c rules
  conclude-Decides (some d) q id f g h =
      let e : d.id ≡ id = ground arith in rw (← e) (deny-Decides d q f)
  conclude-Decides none (some a) id f g h =
      let e : a.id ≡ id = ground arith in rw (← e) (allow-Decides a g)
  conclude-Decides none none id f g h = cc

-- For an engine that the constructor built from `rules`, where `localeCompare` is a total preorder:
-- the rule that a decision names as decisive is one of `rules`, matches the context, gives the
-- decision its effect and its wording, and has the highest priority among the matching rules of
-- its effect.
pub evaluate-Decides :
    (id_le : String → String → Bool)
    → IsCollation id_le
    → (rules : List PolicyRule) (c : PolicyContext) (e : PolicyEngine) (id : String)
    → new_engine id_le rules ≡ ok e
    → (evaluate e c).decisive_rule_id ≡ some id
    → Decides id (evaluate e c) c rules
unfolding evaluate sorted
evaluate-Decides id_le collation rules c e id built h =
    let same = engine_rules id_le rules e built in
    rw same (conclude-Decides id_le collation rules c _ _ id refl refl (rw same at h))
